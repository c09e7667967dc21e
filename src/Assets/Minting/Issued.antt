-- ===== src/Assets/Minting/Issued.antt =====
-- What issuing a token does to the tables (services/tokenization/db.py, create_asset_token).
use tokenization.Common.{
  ℕ, ◌≡◌, refl, ◌⊎◌, inl, inr, true, false, Bool, Option, none, some, List, [], ◌∷◌, ◌++◌, arith,
  ◌==◌, ◌≤◌, Bool-cases, Option-cases, Member,
}
use tokenization.Common.Agree.{update_where-hit, update_where-miss}
use tokenization.Common.Table.{
  select_where, fetch_one, count_where, Member-update_where, fetch_one-select_where,
  count_of_fetch_none, count_where-update_where, count_where_mono,
}
use tokenization.Database.Assets.{Asset, Token, AssetStatus}
use tokenization.Database.Model.{TokenBalance, Db}
use tokenization.Database.Tx.{Result, ok, err, Conn, at_rest, integrity_error}
use tokenization.Assets.Store.{
  Issue, is_asset, is_approved, moved, can_tokenize, new_token, issued_balance,
}
use tokenization.Assets.Minting.{Minting, minted_db}

-- The asset that is to be issued: the owner's, and approved.
pub record IsIssuable (i : Issue) (a : Asset) : Type 0 where
  pub id_is : a.id ≡ i.asset_id
  pub owner_is : a.owner_id ≡ i.owner_id
  pub approved : a.status ≡ AssetStatus.approved

-- Where an asset after the issue comes from.
pub record IsMoved (now : ℕ) (i : Issue) (before : List Asset) (a : Asset) : Type 0 where
  pub row : Asset
  pub found : Member row before
  pub change :
      (IsIssuable i row × (a ≡ record row { status = AssetStatus.tokenized; updated_at = now }))
      ⊎ ((IsIssuable i row → ⊥) × (a ≡ row))

-- From the first database to the second, the issue and nothing else.
pub record Issued (now : ℕ) (i : Issue) (db after : Db) : Type 0 where
  pub asset : Asset
  pub there : Member asset db.assets
  pub issuable : IsIssuable i asset
  pub tokenized :
      Member (record asset { status = AssetStatus.tokenized; updated_at = now }) after.assets
  pub assets : (a : Asset) → Member a after.assets → IsMoved now i db.assets a
  pub others : (a : Asset) → Member a db.assets → (IsIssuable i a → ⊥) → Member a after.assets
  pub token : Token
  pub of_asset : token.asset_id ≡ i.asset_id
  pub named : token.liquid_asset_id ≡ i.liquid_asset_id
  pub supplied : token.total_supply ≡ i.total_supply
  pub circulating : token.circulating_supply ≡ i.circulating_supply
  pub at_price : token.unit_price_sat ≡ i.unit_price_sat
  pub balance : TokenBalance
  pub held_by : balance.user_id ≡ i.owner_id
  pub of_token : balance.token_id ≡ token.id
  pub whole : balance.balance ≡ i.circulating_supply
  pub rest : after ≡ record db {
    assets = after.assets;
    tokens = db.tokens ++ token ∷ [];
    balances = db.balances ++ balance ∷ [];
  }

-- A unique key that is taken.
pub data IsTaken (i : Issue) (db : Db) : Type 0 where
  by_token : (t : Token) → Member t db.tokens → t.liquid_asset_id ≡ i.liquid_asset_id → IsTaken i db
  by_balance :
      (b : TokenBalance)
      → Member b db.balances
      → b.user_id ≡ i.owner_id
      → b.token_id ≡ i.token_id
      → IsTaken i db

-- The three ways to end.
pub data Issues (now : ℕ) (i : Issue) (db : Db)
    : Result (Option (Asset × Option Token)) × Conn → Type 0 where
  unapproved :
      ((a : Asset) → Member a db.assets → IsIssuable i a → ⊥)
      → Issues now i db (ok none, at_rest db)
  taken :
      (a : Asset)
      → Member a db.assets
      → IsIssuable i a
      → IsTaken i db
      → Issues now i db (err integrity_error, at_rest db)
  issued :
      (after : Db) (row : Asset) (t : Option Token)
      → Issued now i db after
      → Member row after.assets
      → row.id ≡ i.asset_id
      → Issues now i db (ok (some (row, t)), at_rest after)

module _ (now : ℕ) (i : Issue) where
  IsIssuable-of : (a : Asset) → can_tokenize i a ≡ true → IsIssuable i a
  IsIssuable-of a h = record {
    id_is = ground (arith, h);
    owner_is = ground (arith, h);
    approved = by_status a.status (ground (arith, h));
  }
    where
      by_status : (s : AssetStatus) → is_approved s ≡ true → s ≡ AssetStatus.approved
      by_status s h = ground (arith, h)

  can_tokenize-IsIssuable : (a : Asset) → IsIssuable i a → can_tokenize i a ≡ true
  can_tokenize-IsIssuable a h =
      let same : (a.id == i.asset_id) ≡ true = ground (arith, h.id_is) in
      let own : (a.owner_id == i.owner_id) ≡ true = ground (arith, h.owner_is) in
      rw (same, own, h.approved) refl

  not_issuable : (a : Asset) → can_tokenize i a ≡ false → IsIssuable i a → ⊥
  not_issuable a miss h = absurd (cc (can_tokenize-IsIssuable a h, miss))

  not_approved_back : (a : Asset) → (IsIssuable i a → ⊥) → can_tokenize i a ≡ false
  not_approved_back a barred = elim (Bool-cases (can_tokenize i a)) [
    | inr miss ↦ miss
    | inl hit ↦ absurd (barred (IsIssuable-of a hit))
  ]

  module _ (db : Db) where
    minted_db-Issued :
        (a : Asset)
        → Member a db.assets
        → can_tokenize i a ≡ true
        → Issued now i db (minted_db now i db)
    minted_db-Issued a m hit = record {
      asset = a;
      there = m;
      issuable = IsIssuable-of a hit;
      tokenized =
          update_where-hit (can_tokenize i) (moved AssetStatus.tokenized now) db.assets a m hit;
      assets = λ x n.
          let o =
            Member-update_where (can_tokenize i) (moved AssetStatus.tokenized now) db.assets x n in
          record { row = o.row; found = o.found; change = origin x o.row o.change };
      others = λ x n barred.
          update_where-miss (can_tokenize i) (moved AssetStatus.tokenized now) db.assets x n
            (not_approved_back x barred);
      token = new_token now i;
      of_asset = refl;
      named = refl;
      supplied = refl;
      circulating = refl;
      at_price = refl;
      balance = issued_balance now i;
      held_by = refl;
      of_token = refl;
      whole = refl;
      rest = refl;
    }
      where
        origin :
            (x old : Asset)
            → ((can_tokenize i old ≡ true) × (x ≡ moved AssetStatus.tokenized now old))
              ⊎ ((can_tokenize i old ≡ false) × (x ≡ old))
            → (IsIssuable i old × (x ≡ moved AssetStatus.tokenized now old))
              ⊎ ((IsIssuable i old → ⊥) × (x ≡ old))
        origin x old (inl (h, e)) = inl (IsIssuable-of old h, e)
        origin x old (inr (h, e)) = inr (not_issuable old h, e)

    -- The asset that was tokenized is there to be read.
    pub minted_found :
        1 ≤ count_where (can_tokenize i) db.assets
        → (a : Asset) × (fetch_one (select_where (is_asset i.asset_id) (minted_db now i db).assets)
            ≡ some a)
    minted_found there =
        elim (Option-cases
          (fetch_one (select_where (is_asset i.asset_id) (minted_db now i db).assets))) [
            | inr found ↦ found
            | inl lost ↦ absurd (
                omega (
                  arith,
                  there,
                  count_of_fetch_none (is_asset i.asset_id) (minted_db now i db).assets lost,
                  count_where-update_where (is_asset i.asset_id) (can_tokenize i)
                      (moved AssetStatus.tokenized now) db.assets (λ x. refl),
                  count_where_mono (can_tokenize i) (is_asset i.asset_id) db.assets
                      (λ x e. ground arith),
                ))
          ]

    counted :
        {A : Type 0} (p : A → Bool) (xs : List A)
        → 1 ≤ count_where p xs
        → (a : A) × Member a xs × (p a ≡ true)
    counted p xs many = elim (Option-cases (fetch_one (select_where p xs))) [
      | inl e ↦ absurd (omega (arith, many, count_of_fetch_none p xs e))
      | inr (a, e) ↦ let (hit, m) = fetch_one-select_where p xs a e in (a, m, hit)
    ]

    pub minted-Issued :
        1 ≤ count_where (can_tokenize i) db.assets → Issued now i db (minted_db now i db)
    minted-Issued there =
        let (a, m, hit) = counted (can_tokenize i) db.assets there in minted_db-Issued a m hit
