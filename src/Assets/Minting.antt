-- ===== src/Assets/Minting.antt =====
-- The branches of the transaction that issues a token (services/tokenization/db.py, create_asset_token).
pub mod Issued
use tokenization.Common.{
  ℕ, ◌≤◌, ◌≡◌, ◌⊎◌, inl, inr, true, Option, none, [], ◌∷◌, ◌++◌, Bool-cases, is_some, map,
}
use tokenization.Common.Table.{select_where, fetch_one, count_where}
use tokenization.Common.Sums.{count_of_fetch_map, count_of_fetch_map-false, count_of_fetch_false}
use tokenization.Database.Assets.{Asset, Token, AssetStatus}
use tokenization.Database.Model.{Db}
use tokenization.Database.Tx.{
  Result, ok, err, Conn, ◌>>=◌, pure, query, modify, commit, rollback, attempt, raise_if,
  integrity_error,
}
use tokenization.Database.Tx.{at_rest}
use tokenization.Assets.Store.{
  Issue, is_asset, is_issued, holds, moved, can_tokenize, update_assets, new_token, issued_balance,
  with_token, create_asset_token, mint, insert_token, insert_balance, get_asset_by_id,
  update_returning,
}

abbrev pub minted_db : ℕ → Issue → Db → Db
minted_db now i db = record db {
  assets = (update_assets (can_tokenize i) (moved AssetStatus.tokenized now) db).assets;
  tokens = db.tokens ++ new_token now i ∷ [];
  balances = db.balances ++ issued_balance now i ∷ [];
}

-- The three ways to end: the asset is not there, not the owner's or not approved; a unique key is taken;
-- the token is issued.
pub data Minting (now : ℕ) (i : Issue) (db : Db)
    : Result (Option (Asset × Option Token)) × Conn → Type 0 where
  refused : count_where (can_tokenize i) db.assets ≡ 0 → Minting now i db (ok none, at_rest db)
  clashed :
      1 ≤ count_where (can_tokenize i) db.assets
      → (is_some (fetch_one (select_where (is_issued i.liquid_asset_id) db.tokens)) ≡ true)
        ⊎ (is_some (fetch_one (select_where (holds i.owner_id i.token_id) db.balances)) ≡ true)
      → Minting now i db (err integrity_error, at_rest db)
  minted :
      1 ≤ count_where (can_tokenize i) db.assets
      → count_where (is_issued i.liquid_asset_id) db.tokens ≡ 0
      → count_where (holds i.owner_id i.token_id) db.balances ≡ 0
      → Minting now i db (
        ok (
            with_token
              (minted_db now i db)
              (fetch_one (select_where (is_asset i.asset_id) (minted_db now i db).assets))),
        at_rest (minted_db now i db),
      )

pub create_asset_token-Minting :
    (now : ℕ) (i : Issue) (db : Db) → Minting now i db (create_asset_token now i (at_rest db))
unfolding create_asset_token mint insert_token insert_balance get_asset_by_id update_returning ◌>>=◌
    query modify commit rollback pure attempt raise_if
create_asset_token-Minting now i db =
    elim (Bool-cases (
      is_some (
        fetch_one
          (map (moved AssetStatus.tokenized now) (select_where (can_tokenize i) db.assets))))) [
            | inr none_found ↦
                rw none_found (refused (count_of_fetch_map-false _ _ db.assets none_found))
            | inl found ↦
                let there = count_of_fetch_map _ _ db.assets found in
                elim (Bool-cases
                  (is_some (fetch_one (select_where (is_issued i.liquid_asset_id) db.tokens)))) [
                    | inl taken ↦ rw (found, taken) (clashed there (inl taken))
                    | inr free ↦
                        elim (Bool-cases (
                          is_some
                            (fetch_one (select_where (holds i.owner_id i.token_id) db.balances)))) [
                              | inl held ↦ rw (found, free, held) (clashed there (inr held))
                              | inr new ↦
                                  rw (found, free, new)
                                    (minted there (count_of_fetch_false _ db.tokens free)
                                      (count_of_fetch_false _ db.balances new))
                            ]
                  ]
          ]
