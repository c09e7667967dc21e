-- ===== src/Database/Rows.antt =====
-- Rows of the tables that the wallet service owns (services/common/db/metadata.py). Free text that is
-- only shown (a description) is left out.
use tokenization.Common.{
  ℕ, ◌≡◌, refl, arith, Bool, true, false, ◌&&◌, Option, List, [], ◌∷◌, ◌==◌, ==_refl,
}

-- A text or a byte string, by its code points.
abbrev pub Text : Type 0
Text = List ℕ

abbrev pub same_text : Text → Text → Bool
same_text [] [] = true
same_text [] (_ ∷ _) = false
same_text (_ ∷ _) [] = false
same_text (a ∷ as') (b ∷ bs) = a == b && same_text as' bs

pub same_text_refl : (a : Text) → same_text a a ≡ true
same_text_refl [] = refl
same_text_refl (x ∷ a) = rw (==_refl x, same_text_refl a) refl

pub same_text_eq : (a b : Text) → same_text a b ≡ true → a ≡ b
same_text_eq [] [] e = refl
same_text_eq [] (y ∷ b) e = absurd (cc)
same_text_eq (x ∷ a) [] e = absurd (cc)
same_text_eq (x ∷ a) (y ∷ b) e =
    let rest : same_text a b ≡ true = ground arith in
    let first : x ≡ y = ground arith in rw (first, same_text_eq a b rest)

pub data TransactionType : Type 0 where
  deposit withdrawal ln_send ln_receive escrow_lock escrow_release fee : TransactionType

pub data Direction : Type 0 where
  incoming outgoing : Direction

pub data TransactionStatus : Type 0 where
  pending confirmed failed : TransactionStatus

pub data DepositStatus : Type 0 where
  pending confirmed credited : DepositStatus

pub record Transaction : Type 0 where
  pub id : ℕ
  pub wallet_id : ℕ
  pub type_of : TransactionType
  pub amount_sat : ℕ
  pub direction : Direction
  pub status : TransactionStatus
  pub txid : Option Text
  pub ln_payment_hash : Option Text
  pub fee_sat : Option ℕ
  pub created_at : ℕ
  pub confirmed_at : Option ℕ

pub record WalletAddress : Type 0 where
  pub id : ℕ
  pub wallet_id : ℕ
  pub address : Text
  pub derivation_index : ℕ
  pub script_pubkey : Text
  pub imported_to_node : Bool
  pub created_at : ℕ

pub record Deposit : Type 0 where
  pub id : ℕ
  pub wallet_id : ℕ
  pub wallet_address_id : ℕ
  pub txid : Text
  pub vout : ℕ
  pub amount_sat : ℕ
  pub confirmations : ℕ
  pub status : DepositStatus
  pub credited_at : Option ℕ
  pub created_at : ℕ
