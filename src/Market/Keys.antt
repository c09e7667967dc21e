-- ===== src/Market/Keys.antt =====
-- The public keys and the 2-of-3 script of an escrow (services/marketplace/escrow.py). Elliptic
-- curve and address functions of the embit library, and the custody records, enter as parameters.
use tokenization.Common.{
  ℕ, Bool, false, not, ◌&&◌, ◌||◌, Option, none, some, List, [], ◌∷◌, ◌++◌, ◌==◌, if◌then◌else◌,
  length,
}
use tokenization.Common.Text.{is_space, strip_left, strip, lower, from_hex, text_before}
use tokenization.Common.Sort.{order_by}
use tokenization.Database.Model.{Text}

-- `normalized[:2] in {"02", "03"}`
abbrev has_prefix : Text → Bool
has_prefix (a ∷ b ∷ _) = a == b'0' && (b == b'2' || b == b'3')
has_prefix _ = false

abbrev is_33_bytes : Option Text → Bool
is_33_bytes none = false
is_33_bytes (some bytes) = length bytes == 33

-- `none` is `ValueError("participant_pubkey_invalid")`.
unfoldable pub normalize_participant_pubkey : Text → Option Text
unfolding strip strip_left is_space lower from_hex
normalize_participant_pubkey pubkey =
    let stripped = lower (strip pubkey) in
    let normalized : Text = if length stripped == 64 then b'0' ∷ b'2' ∷ stripped else stripped in
    if not (length normalized == 66) || not (has_prefix normalized)
    then none
    else if is_33_bytes (from_hex normalized)
    then some normalized
    else none

normalize_all : List Text → Option (List Text)
normalize_all [] = some []
normalize_all (k ∷ ks) = elim (normalize_participant_pubkey k) [
  | none ↦ none
  | some n ↦ elim (normalize_all ks) [ none ↦ none | some ns ↦ some (n ∷ ns) ]
]

-- One push of 33 bytes for each key.
push_keys : List Text → Option Text
push_keys [] = some []
push_keys (k ∷ ks) = elim (from_hex k) [
  | none ↦ none
  | some bytes ↦ elim (push_keys ks) [ none ↦ none | some rest ↦ some (0x21 ∷ (bytes ++ rest)) ]
]

abbrev close_script : Option Text → Option Text
close_script none = none
close_script (some pushes) = some (0x52 ∷ (pushes ++ 0x53 ∷ 0xAE ∷ []))

-- OP_2, the sorted keys, OP_3, OP_CHECKMULTISIG
unfoldable pub build_2of3_witness_script : List Text → Option Text
unfolding normalize_all push_keys
build_2of3_witness_script pubkeys = elim (normalize_all pubkeys) [
  | none ↦ none
  | some keys ↦ close_script (push_keys (order_by text_before keys))
]

-- `LiquidEscrowDetails`
pub record EscrowDetails : Type 0 where
  pub confidential_address : Text
  pub unconfidential_address : Text
  pub witness_script_hex : Text
  pub script_pubkey_hex : Text
  pub blinding_private_key : Text
  pub blinding_pubkey : Text

-- What the marketplace uses of embit and of the custody backend, and its settings.
pub record Keys : Type 0 where
  -- the key derived from a wallet's user, derivation path and sealed seed
  pub wallet_pubkey : ℕ → Text → Text → Text
  -- empty if the platform signer has no public key
  pub platform_pubkey : Text
  -- the addresses for a script and the blinding key of a trade
  pub escrow_address : Text → ℕ → EscrowDetails
  pub escrow_fee_reserve_sat : ℕ
