-- ===== src/Assets/Listing.antt =====
-- The catalogue of assets: list_assets of services/tokenization/db.py, and its pages
-- (services/tokenization/main.py, _build_asset_page and get_assets).
use tokenization.Common.{
  ℕ, suc, ◌≤◌, ◌≡◌, refl, arith, Bool, true, false, ◌&&◌, ◌||◌, Option, none, some, List, ltb, ◌==◌,
  length,
}
use tokenization.Common.Table.{select_where, count_where}
use tokenization.Common.Sort.{order_by}
use tokenization.Common.Sums.{count_where-order_by, count_where-select_where}
use tokenization.Common.Ordered.{
  Lists, order_by-Member, Member-order_by, order_by-Descending, length-order_by,
  length-select_where, select_where-Member, Member-select,
}
use tokenization.Common.Pages.{start_index, walk}
use tokenization.Common.Pages.Cut.{page_by_limit, page_by_limit-page_at}
use tokenization.Common.Pages.Walk.{walk_enough}
use tokenization.Database.Assets.{Asset, Category, AssetStatus}
use tokenization.Database.Model.{Db}
use tokenization.Database.Tx.{
  pure, Result, ok, err, Tx, ◌>>=◌, query, connected, at_rest, contract_error, Refusal, or_raise,
}

abbrev same_status : AssetStatus → AssetStatus → Bool
same_status AssetStatus.pending AssetStatus.pending = true
same_status AssetStatus.evaluating AssetStatus.evaluating = true
same_status AssetStatus.approved AssetStatus.approved = true
same_status AssetStatus.rejected AssetStatus.rejected = true
same_status AssetStatus.tokenized AssetStatus.tokenized = true
same_status _ _ = false

abbrev same_category : Category → Category → Bool
same_category Category.real_estate Category.real_estate = true
same_category Category.commodity Category.commodity = true
same_category Category.invoice Category.invoice = true
same_category Category.art Category.art = true
same_category Category.other Category.other = true
same_category _ _ = false

-- A condition that is left out admits every row.
abbrev pub unless_given : {A : Type 0} → (A → A → Bool) → Option A → A → Bool
unless_given same none a = true
unless_given same (some b) a = same a b

abbrev pub newer_asset : Asset → Asset → Bool
newer_asset a b = ltb b.created_at a.created_at || (a.created_at == b.created_at && ltb b.id a.id)

abbrev pub is_listed : Option AssetStatus → Option Category → Asset → Bool
is_listed asset_status category a =
    unless_given same_status asset_status a.status && unless_given same_category category a.category

unfoldable pub list_assets : Option AssetStatus → Option Category → Tx (List Asset)
list_assets asset_status category =
    query (λ db. order_by newer_asset (select_where (is_listed asset_status category) db.assets))

abbrev pub asset_id_of : Asset → ℕ
asset_id_of a = a.id

unfoldable pub sort_asset_rows : List Asset → List Asset
sort_asset_rows rows = order_by newer_asset rows

unfoldable pub build_asset_page : List Asset → Option (Option ℕ) → ℕ → Tx (List Asset × Option ℕ)
unfolding sort_asset_rows
build_asset_page rows cursor limit = do
  let ordered_rows = sort_asset_rows rows
  start ←
      or_raise (start_index asset_id_of ordered_rows cursor) (contract_error Refusal.invalid_cursor)
  pure (page_by_limit asset_id_of ordered_rows limit start)

unfoldable pub get_assets :
    Option AssetStatus → Option Category → Option (Option ℕ) → ℕ → Tx (List Asset × Option ℕ)
unfolding list_assets build_asset_page
get_assets asset_status category cursor limit = do
  rows ← connected (list_assets asset_status category)
  build_asset_page rows cursor limit

-- The assets that are asked for.
abbrev catalogue : Db → Option AssetStatus → Option Category → List Asset
catalogue db asset_status category =
    sort_asset_rows
      (order_by newer_asset (select_where (is_listed asset_status category) db.assets))

abbrev pub answer_of : {A : Type 0} → Result A → Option A
answer_of (ok a) = some a
answer_of (err e) = none

-- A condition that is left out, or one that the row meets.
abbrev pub Matches : {A : Type 0} → Option A → A → Type 0
Matches none a = Unit
Matches (some b) a = a ≡ b

pub record IsAsked (asset_status : Option AssetStatus) (category : Option Category) (a : Asset)
    : Type 0 where
  pub in_status : Matches asset_status a.status
  pub in_category : Matches category a.category

status-Matches :
    (o : Option AssetStatus) (s : AssetStatus) → unless_given same_status o s ≡ true → Matches o s
status-Matches none s h = tt
status-Matches (some b) s h = ground (arith, h)

category-Matches :
    (o : Option Category) (c : Category) → unless_given same_category o c ≡ true → Matches o c
category-Matches none c h = tt
category-Matches (some b) c h = ground (arith, h)

unless_given-Matches_status :
    (o : Option AssetStatus) (s : AssetStatus) → Matches o s → unless_given same_status o s ≡ true
unless_given-Matches_status none s h = refl
unless_given-Matches_status (some b) s h = rw h (same b)
  where
    same : (x : AssetStatus) → same_status x x ≡ true
    same x = ground arith

unless_given-Matches_category :
    (o : Option Category) (c : Category) → Matches o c → unless_given same_category o c ≡ true
unless_given-Matches_category none c h = refl
unless_given-Matches_category (some b) c h = rw h (same b)
  where
    same : (x : Category) → same_category x x ≡ true
    same x = ground arith

-- The assets of the status and the category that are asked for, newest first.
abbrev pub IsCatalogue : Option AssetStatus → Option Category → List Asset → List Asset → Type 0
IsCatalogue asset_status category rows listed =
    Lists (IsAsked asset_status category) asset_id_of (λ a. a.created_at) rows listed

module _ (db : Db) (asset_status : Option AssetStatus) (category : Option Category)
    (keys : (k : ℕ) → count_where (λ a. a.id == k) db.assets ≤ 1) where
  abbrev asked : Asset → Bool
  asked = is_listed asset_status category

  catalogue-keys : (k : ℕ) → count_where (λ a. a.id == k) (catalogue db asset_status category) ≤ 1
  unfolding sort_asset_rows
  catalogue-keys k = omega (
    arith,
    keys k,
    count_where-order_by (λ a. a.id == k) newer_asset
        (order_by newer_asset (select_where asked db.assets)),
    count_where-order_by (λ a. a.id == k) newer_asset (select_where asked db.assets),
    count_where-select_where (λ a. a.id == k) asked db.assets,
  )

  length-catalogue : length (catalogue db asset_status category) ≤ length db.assets
  unfolding sort_asset_rows
  length-catalogue = omega (
    arith,
    length-order_by newer_asset (order_by newer_asset (select_where asked db.assets)),
    length-order_by newer_asset (select_where asked db.assets),
    length-select_where asked db.assets,
  )

  catalogue-IsCatalogue :
      IsCatalogue asset_status category db.assets (catalogue db asset_status category)
  unfolding sort_asset_rows
  catalogue-IsCatalogue = record {
    only = λ a m.
        let once = order_by-Member newer_asset a _ (order_by-Member newer_asset a _ m) in
        let (there, hit) = select_where-Member asked a db.assets once in
        (
          there,
          record {
            in_status = status-Matches asset_status a.status (ground (arith, hit));
            in_category = category-Matches category a.category (ground (arith, hit));
          },
        );
    all = λ a m wanted. Member-order_by newer_asset a _ (
        Member-order_by newer_asset a _ (
          Member-select asked a db.assets m (
            rw
              (
                unless_given-Matches_status asset_status a.status wanted.in_status,
                unless_given-Matches_category category a.category wanted.in_category,
              )
              refl)));
    once = catalogue-keys;
    descending =
        order_by-Descending newer_asset (λ a. a.created_at) (λ a b h. ground (arith, h))
          (λ a b h. ground (arith, h)) _;
  }

-- With unique identifiers and a positive limit, the pages of the catalogue that a client gets by handing back
-- each page's cursor, from no cursor on, while no asset changes, are the assets of the status and the category
-- that are asked for, where they are, and no others, each once and newest first; as many requests as there
-- are assets, and one, are enough.
pub get_assets-walk :
    (db : Db) (asset_status : Option AssetStatus) (category : Option Category) (limit : ℕ)
    → ((k : ℕ) → count_where (λ a. a.id == k) db.assets ≤ 1)
    → 1 ≤ limit
    → IsCatalogue asset_status category db.assets (
        walk
          (suc (length db.assets))
          (λ cursor. answer_of (get_assets asset_status category cursor limit (at_rest db)).0)
          none)
unfolding get_assets list_assets build_asset_page sort_asset_rows connected ◌>>=◌ query or_raise
    pure
get_assets-walk db asset_status category limit keys pos =
    let walked : walk (suc (length db.assets))
          (λ cursor. answer_of (get_assets asset_status category cursor limit (at_rest db)).0) none
        ≡ catalogue db asset_status category =
      walk_enough asset_id_of (catalogue db asset_status category)
        (catalogue-keys db asset_status category keys) (length db.assets) limit _
        (length-catalogue db asset_status category keys) pos
        (λ c start e. rw (e, page_by_limit-page_at asset_id_of _ limit start) refl) in
    rw walked (catalogue-IsCatalogue db asset_status category keys)
