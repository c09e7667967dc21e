-- ===== src/Market/Placing/Enough.antt =====
-- A trade for no more than what remains of both orders does not find a quantity insufficient.
use tokenization.Common.{
  ℕ, ◌≤◌, ◌≡◌, Bool, true, false, Option, none, some, [], ◌∷◌, arith, ◌||◌, ltb,
}
use tokenization.Database.Model.{Text, Order, Wallet, NostrIdentity, Db}
use tokenization.Database.Tx.{
  Result, ok, err, Failure, value_error, ValueError, Conn, Tx, continue, ◌>>=◌, pure, raise, query,
  or_raise, raise_if, modify, commit, attempt, rolled_back,
}
use tokenization.Market.Keys.{Keys, EscrowDetails}
use tokenization.Market.Orders.{remaining_quantity, validate_trade_inputs}
use tokenization.Market.Balances.{get_wallet_by_user_id, decrement_token_balance, apply_order_fill}
use tokenization.Market.Trading.{
  Stamp, get_nostr_identity_by_user_id, seed_or_raise, pubkey_of, resolve_escrow_pubkey,
  platform_escrow_pubkey, insert_trade, insert_escrow, lock_trade, create_trade_escrow,
}

abbrev pub IsOther : Failure → Type 0
IsOther (value_error ValueError.order_insufficient_quantity) = ⊥
IsOther _ = Unit

abbrev pub Spared : {A : Type 0} → Result A → Type 0
Spared (ok a) = Unit
Spared (err e) = IsOther e

-- Whatever is raised, it is not that a quantity is insufficient.
pub record Spares {A : Type 0} (m : Tx A) : Type 0 where
  pub at : (c : Conn) → Spared (m c).0

module _ {A : Type 0} where
  Spares-pure : (a : A) → Spares (pure a)
  unfolding pure
  Spares-pure a = record { at = λ c. tt }

  Spares-raise : (e : Failure) → IsOther e → Spares (raise {A = A} e)
  unfolding raise
  Spares-raise e h = record { at = λ c. h }

  Spares-query : (f : Db → A) → Spares (query f)
  unfolding query
  Spares-query f = record { at = λ c. tt }

  Spares-or_raise : (o : Option A) (e : Failure) → IsOther e → Spares (or_raise o e)
  unfolding or_raise
  Spares-or_raise none e h = record { at = λ c. h }
  Spares-or_raise (some a) e h = record { at = λ c. tt }

  rolled_back-Spared : (r : Result A) (c : Conn) → Spared r → Spared (rolled_back r c).0
  rolled_back-Spared (ok a) c h = tt
  rolled_back-Spared (err e) c h = h

  Spares-attempt : (m : Tx A) → Spares m → Spares (attempt m)
  unfolding attempt
  Spares-attempt m h = record { at = λ c. let (r, d) = m c in rolled_back-Spared r d (h.at c) }

Spares-modify : (f : Db → Db) → Spares (modify f)
unfolding modify
Spares-modify f = record { at = λ c. tt }

Spares-commit : Spares commit
unfolding commit
Spares-commit = record { at = λ c. tt }

Spares-raise_if : (b : Bool) (e : Failure) → IsOther e → Spares (raise_if b e)
unfolding raise_if
Spares-raise_if true e h = record { at = λ c. h }
Spares-raise_if false e h = record { at = λ c. tt }

Spares-passes : (b : Bool) (e : Failure) → b ≡ false → Spares (raise_if b e)
unfolding raise_if
Spares-passes b e h = record { at = λ c. rw h tt }

module _ {A B : Type 0} where
  continue-Spared :
      (r : Result A) (f : A → Tx B) (c : Conn)
      → Spared r
      → ((a : A) → Spares (f a))
      → Spared (continue r f c).0
  continue-Spared (ok a) f c s h = (h a).at c
  continue-Spared (err e) f c s h = s

  Spares-bind : (m : Tx A) (f : A → Tx B) → Spares m → ((a : A) → Spares (f a)) → Spares (m >>= f)
  unfolding ◌>>=◌
  Spares-bind m f hm hf = record {
    at = λ c. let (r, d) = m c in continue-Spared r f d (hm.at c) hf;
  }

ruleset spare_rules = (
  Spares-pure, Spares-raise, Spares-query, Spares-or_raise, Spares-attempt, Spares-modify,
  Spares-commit, Spares-raise_if, Spares-bind,
)

seed_or_raise-Spares : (w : Wallet) (t : Text) → Spares (seed_or_raise w t)
seed_or_raise-Spares w [] = search spare_rules
seed_or_raise-Spares w (_ ∷ _) = search spare_rules

pubkey_of-Spares : (k : Keys) (u : ℕ) (i : Option NostrIdentity) → Spares (pubkey_of k u i)
unfolding get_wallet_by_user_id
pubkey_of-Spares k u none = search (spare_rules, seed_or_raise-Spares) depth 40
pubkey_of-Spares k u (some i) = search spare_rules depth 40

resolve_escrow_pubkey-Spares : (k : Keys) (u : ℕ) → Spares (resolve_escrow_pubkey k u)
unfolding resolve_escrow_pubkey get_nostr_identity_by_user_id
resolve_escrow_pubkey-Spares k u = search (spare_rules, pubkey_of-Spares) depth 40

platform_escrow_pubkey-Spares : (t : Text) → Spares (platform_escrow_pubkey t)
platform_escrow_pubkey-Spares [] = search spare_rules
platform_escrow_pubkey-Spares (_ ∷ _) = search spare_rules

module _ (s : Stamp) (buy_order sell_order : Order) (quantity price_sat fee_sat : ℕ)
    (k : Keys) where
  lock_trade-Spares :
      (b o : Text) (d : EscrowDetails)
      → Spares (lock_trade s buy_order sell_order quantity price_sat fee_sat k b o d)
  unfolding lock_trade decrement_token_balance apply_order_fill insert_trade insert_escrow
  lock_trade-Spares b o d = search spare_rules depth 80

  module _ (bought : quantity ≤ remaining_quantity buy_order)
      (sold : quantity ≤ remaining_quantity sell_order) where
    validate_trade_inputs-Spares :
        Spares (validate_trade_inputs buy_order sell_order quantity price_sat)
    unfolding validate_trade_inputs
    validate_trade_inputs-Spares =
        let enough : ltb (remaining_quantity buy_order) quantity
              || ltb (remaining_quantity sell_order) quantity
            ≡ false =
          ground arith in
        search (spare_rules, Spares-passes _ _ enough) depth 40

    pub create_trade_escrow-Spares :
        Spares (create_trade_escrow s buy_order sell_order quantity price_sat fee_sat k)
    unfolding create_trade_escrow
    create_trade_escrow-Spares =
        search
          (
            spare_rules, validate_trade_inputs-Spares, resolve_escrow_pubkey-Spares,
            platform_escrow_pubkey-Spares, lock_trade-Spares,
          )
          depth 80
