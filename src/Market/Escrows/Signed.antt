-- ===== src/Market/Escrows/Signed.antt =====
-- Recording a signature of an escrow, by what the table of escrows has.
use Prim.Native.String.{String}
use tokenization.Common.{
  ℕ, ◌≤◌, ◌≡◌, refl, inl, inr, Bool, true, false, ◌&&◌, ◌||◌, none, List, arith, map, Member,
  Bool-cases, Option-cases, ◌∙◌, if◌then◌else◌, ◌==◌, ==_refl,
}
use tokenization.Common.Agree.{update_where_agree, fetch-map, fetch-map-none, update_where-values}
use tokenization.Common.Dict.{lookup, update, latest, lookup-update}
use tokenization.Common.Table.{
  select_where, update_where, fetch_one, count_where, fetch_one-select_where, count_of_fetch_none,
  count_pos, unique_row,
}
use tokenization.Database.Model.{Escrow, EscrowStatus, Metadata, SignatureRecord, Db}
use tokenization.Database.Tx.{
  Result, ok, err, Conn, at_rest, ◌>>=◌, pure, query, or_raise, modify, commit, attempt,
  lookup_error, escrow_not_found_or_state_conflict,
}
use tokenization.Market.Escrows.{
  is_funded, is_inspection_pending, write_signature, updated_signature_payload, update_escrow,
  merge_settlement_metadata, record_escrow_signature,
}
use tokenization.Market.Escrows.Collected.{IsAdded, signature_at-updated_signature_payload}

abbrev pub is_row : Escrow → Escrow → Bool
is_row read x = x.id == read.id

-- The states in which an escrow takes signatures.
abbrev pub is_signable : Escrow → Bool
is_signable x = is_funded x.status || is_inspection_pending x.status

-- What a recorded signature makes of the row that the table has, when `read` is the row that was passed in.
pub record Signed (now : ℕ) (read : Escrow) (role path : String) (r : SignatureRecord)
    (updates : Metadata) (row signed : Escrow) : Type 0 where
  pub rest :
      signed
      ≡ write_signature now signed.collected_signatures signed.settlement_metadata signed.status row
  pub added : IsAdded read.collected_signatures signed.collected_signatures path role r
  pub metadata :
      (k : String)
      → lookup k signed.settlement_metadata ≡ latest k updates (lookup k read.settlement_metadata)
  pub was_funded : is_funded read.status ≡ true → signed.status ≡ EscrowStatus.inspection_pending
  pub was_not : is_funded read.status ≡ false → signed.status ≡ read.status

pub data Records (now : ℕ) (read : Escrow) (role path : String) (r : SignatureRecord)
    (updates : Metadata) (db : Db) (out : Result Escrow × Conn) : Type 0 where
  conflict :
      ((x : Escrow) → Member x db.escrows → x.id ≡ read.id → is_signable x ≡ false)
      → out ≡ (err (lookup_error escrow_not_found_or_state_conflict), at_rest db)
      → Records now read role path r updates db out
  records :
      (row signed : Escrow)
      → Member row db.escrows
      → row.id ≡ read.id
      → is_signable row ≡ true
      → Signed now read role path r updates row signed
      → out ≡ (
        ok signed,
        at_rest (record db { escrows = update_where (is_row read) (λ _. signed) db.escrows }),
      )
      → Records now read role path r updates db out

module _ (now : ℕ) (read : Escrow) (role path : String) (r : SignatureRecord)
    (updates : Metadata) where
  abbrev write : Escrow → Escrow
  write =
      write_signature now (updated_signature_payload read.collected_signatures path role r)
        (update read.settlement_metadata updates)
        (if is_funded read.status then EscrowStatus.inspection_pending else read.status)

  write-Signed : (row : Escrow) → Signed now read role path r updates row (write row)
  write-Signed row = record {
    rest = refl;
    added = signature_at-updated_signature_payload read.collected_signatures path role r;
    metadata = λ k. lookup-update k read.settlement_metadata updates;
    was_funded = λ e. rw e refl;
    was_not = λ e. rw e refl;
  }

  module _ (escrows : List Escrow) (key : count_where (is_row read) escrows ≤ 1) where
    -- No row is selected: none that has the identifier takes signatures.
    none_signable :
        count_where (λ x. x.id == read.id && is_signable x) escrows ≡ 0
        → (x : Escrow) → Member x escrows
        → x.id ≡ read.id
        → is_signable x ≡ false
    none_signable z x m named = elim (Bool-cases (is_signable x)) [
      | inr e ↦ e
      | inl e ↦
          let hit : (x.id == read.id && is_signable x) ≡ true =
            rw (named, ==_refl read.id, e) refl in
          absurd (omega (arith, count_pos (λ y. y.id == read.id && is_signable y) escrows x hit m))
    ]

    module _ (row : Escrow) (m : Member row escrows) (named : is_row read row ≡ true)
        (live : is_signable row ≡ true) where
      only_row : (x : Escrow) → Member x escrows → is_row read x ≡ true → x ≡ row
      only_row x n e = unique_row (is_row read) escrows x row key n m e named

      -- The WHERE clause of the UPDATE meets that row and no other.
      signable_agree :
          (x : Escrow) → Member x escrows → (x.id == read.id && is_signable x) ≡ is_row read x
      signable_agree x n = elim (Bool-cases (is_row read x)) [
        | inl e ↦ rw (only_row x n e) (rw (named, live) refl)
        | inr e ↦ rw e refl
      ]

      written :
          update_where (λ x. x.id == read.id && is_signable x) write escrows
          ≡ update_where (is_row read) (λ _. write row) escrows
      written =
          update_where_agree _ (is_row read) write escrows signable_agree
          ∙ update_where-values (is_row read) write (λ _. write row) escrows
              (λ x n e. rw (only_row x n e) refl)

-- From escrows of which one at most has the identifier of the row that was passed in, and with nothing
-- uncommitted: if the escrow is in the table and takes signatures, it and no other row is changed, which is
-- committed, and the changed row is the answer. Its signatures are those of the row that was passed in and the new one, its metadata those of that
-- row with the updates, it waits for inspection if that row was funded, and else has the status of that row;
-- nothing else of it changes but the time. Otherwise the call raises and nothing changes.
pub record_escrow_signature-Records :
    (now : ℕ) (read : Escrow) (role path : String) (r : SignatureRecord) (updates : Metadata)
    (db : Db)
    → count_where (is_row read) db.escrows ≤ 1
    → Records now read role path r updates db
        (record_escrow_signature now read role path r updates (at_rest db))
unfolding record_escrow_signature update_escrow merge_settlement_metadata attempt ◌>>=◌ query
    or_raise modify commit pure
record_escrow_signature-Records now read role path r updates db key =
    let p : Escrow → Bool = λ x. x.id == read.id && is_signable x in
    elim (Option-cases (fetch_one (select_where p db.escrows))) [
      | inl e ↦
          let z = count_of_fetch_none p db.escrows e in
          let nothing : fetch_one
                (map (write now read role path r updates) (select_where p db.escrows))
              ≡ none =
            fetch-map-none _ _ e in
          Records.conflict (none_signable now read role path r updates db.escrows key z)
            (rw nothing refl)
      | inr (row, e) ↦
          let (hit, m) = fetch_one-select_where p db.escrows row e in
          let named : is_row read row ≡ true = ground (arith, hit) in
          let live : is_signable row ≡ true = ground (arith, hit) in
          Records.records row (write now read role path r updates row) m (ground (arith, named))
            live (write-Signed now read role path r updates row)
            (rw (written now read role path r updates db.escrows key row m named live)
              (rw (fetch-map (write now read role path r updates) _ row e) refl))
    ]
