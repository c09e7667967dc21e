-- ===== src/Market/Escrows/Collected.antt =====
-- The collected signatures, by path and role.
use Prim.Native.String.{String}
use text.Mathlib.Text.{◌==◌}
use text.Mathlib.TextEquality.{eq_iff}
use tokenization.Common.{
  ◌≡◌, refl, inl, inr, ◌&&◌, Option, some, [], if◌then◌else◌, get_or, Bool-cases,
}
use tokenization.Common.Dict.{lookup, insert, lookup-insert}
use tokenization.Database.Model.{SignatureRecord, Signatures}
use tokenization.Market.Escrows.{updated_signature_payload}

-- `collected_signatures[path][role]`
pub signature_at : String → String → Signatures → Option SignatureRecord
signature_at path role signatures = lookup role (get_or (lookup path signatures) [])

-- One path and role gives the signature, and every other path and role gives what it gave before.
abbrev pub IsAdded : Signatures → Signatures → String → String → SignatureRecord → Type 0
IsAdded before now path role r =
    (p q : String)
    → signature_at p q now ≡ (if path == p && role == q then some r else signature_at p q before)

pub signature_at-updated_signature_payload :
    (existing : Signatures) (path role : String) (r : SignatureRecord)
    → IsAdded existing (updated_signature_payload existing path role r) path role r
unfolding signature_at updated_signature_payload
signature_at-updated_signature_payload existing path role r p q =
    rw (lookup-insert path p (insert role r (get_or (lookup path existing) [])) existing)
      (elim (Bool-cases (path == p)) [
        | inl e ↦
            let same : path ≡ p = (eq_iff path p).0 e in
            rw (e, lookup-insert role q r (get_or (lookup path existing) []), same) refl
        | inr e ↦ rw e refl
      ])
