-- ===== src/Assets/Service/Pinned.antt =====
-- A row of the table `assets` under its identifier, read and updated.
use tokenization.Common.{
  ℕ, ◌≡◌, refl, inl, inr, arith, Bool, true, false, some, Member, Bool-cases, Option-cases, is_some,
  if◌then◌else◌, map,
}
use tokenization.Common.Table.{
  count_pos, select_where, fetch_one, fetch_one-select_where, count_of_fetch_none,
  Member-update_where,
}
use tokenization.Common.Sums.{count_of_fetch_map-false}
use tokenization.Database.Assets.{Asset}
use tokenization.Database.Model.{Db}
use tokenization.Assets.Store.{is_asset, update_assets}
use tokenization.Assets.Lifecycle.Updates.{Member-update}

-- The row with an identifier is there, and the only one.
pub record Pinned (asset_id : ℕ) (q : Asset) (db : Db) : Type 0 where
  pub own : is_asset asset_id q ≡ true
  pub found : Member q db.assets
  pub only : (y : Asset) → Member y db.assets → is_asset asset_id y ≡ true → y ≡ q

pub fetch-Pinned :
    (asset_id : ℕ) (q : Asset) (db : Db)
    → Pinned asset_id q db
    → fetch_one (select_where (is_asset asset_id) db.assets) ≡ some q
fetch-Pinned asset_id q db h =
    elim (Option-cases (fetch_one (select_where (is_asset asset_id) db.assets))) [
      | inl lost ↦ absurd (
          omega (
            arith,
            count_of_fetch_none (is_asset asset_id) db.assets lost,
            count_pos (is_asset asset_id) db.assets q h.own h.found,
          ))
      | inr (r, got) ↦
          let (own, there) = fetch_one-select_where (is_asset asset_id) db.assets r got in
          let one = h.only r there own in cc
    ]

pub selected-Pinned :
    (asset_id : ℕ) (q : Asset) (db : Db) (p : Asset → Bool) (g : Asset → Asset)
    → Pinned asset_id q db
    → p q ≡ true
    → is_some (fetch_one (map g (select_where p db.assets))) ≡ true
selected-Pinned asset_id q db p g h e =
    elim (Bool-cases (is_some (fetch_one (map g (select_where p db.assets))))) [
      | inl some_row ↦ some_row
      | inr no_row ↦ absurd (
          omega (
            arith,
            count_of_fetch_map-false p g db.assets no_row,
            count_pos p db.assets q e h.found,
          ))
    ]

pub update-Pinned :
    (asset_id : ℕ) (q : Asset) (db : Db) (p : Asset → Bool) (g : Asset → Asset)
    → ((x : Asset) → (g x).id ≡ x.id)
    → Pinned asset_id q db
    → Pinned asset_id (if p q then g q else q) (update_assets p g db)
update-Pinned asset_id q db p g same h = record {
  own = elim (Bool-cases (p q)) [ inl e ↦ rw (e, same q) h.own | inr e ↦ rw e h.own ];
  found = Member-update p g db.assets q h.found;
  only = λ y m own.
      let o = Member-update_where p g db.assets y m in
      elim o.change [
        | inl (e, to) ↦
            let own' : is_asset asset_id o.row ≡ true = rw (to, same o.row) at own in
            let one = h.only o.row o.found own' in
            let e' : p q ≡ true = rw one at e in rw (e', to, one) refl
        | inr (e, to) ↦
            let own' : is_asset asset_id o.row ≡ true = rw to at own in
            let one = h.only o.row o.found own' in
            let e' : p q ≡ false = rw one at e in rw (e', to, one) refl
      ];
}
