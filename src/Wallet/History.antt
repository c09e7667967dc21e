-- ===== src/Wallet/History.antt =====
-- The pages of a wallet's history (services/wallet/main.py, _build_transaction_page).
mod Tests
use tokenization.Common.{
  ℕ, zero, suc, ◌+◌, ◌≤◌, ◌≡◌, refl, arith, min, true, Bool, ◌&&◌, ◌||◌, ◌==◌, Option, none, some,
  List, [], ◌∷◌, length, take, drop, ltb,
}
use tokenization.Common.Table.{select_where, count_where}
use tokenization.Common.Sums.{count_where-order_by, count_where-select_where}
use tokenization.Common.Sort.{order_by}
use tokenization.Common.Ordered.{
  Lists, order_by-Member, Member-order_by, order_by-Descending, length-order_by,
  length-select_where, select_where-Member, Member-select, select_where-Descending,
}
use tokenization.Common.Pages.{start_index, next_cursor, page_at, walk}
use tokenization.Common.Pages.Walk.{walk_enough}
use tokenization.Common.Pages.Cut.{page_by_limit, page_by_limit-page_at}
use tokenization.Database.Rows.{Transaction, TransactionType}
use tokenization.Database.Tx.{Result, ok, err, contract_error, Refusal}
use tokenization.Wallet.Ledger.{newer_transaction, of_type, same_type}
use tokenization.Market.Paging.{answered}

unfoldable pub sort_transaction_rows : List Transaction → List Transaction
sort_transaction_rows rows = order_by newer_transaction rows

abbrev pub transaction_id_of : Transaction → ℕ
transaction_id_of t = t.id

unfoldable pub filtered_rows : List Transaction → Option TransactionType → List Transaction
unfolding sort_transaction_rows
filtered_rows rows transaction_type =
    select_where (λ t. of_type transaction_type t.type_of) (sort_transaction_rows rows)

abbrev pub transactions_or_refuse :
    List Transaction → ℕ → Option ℕ → Result (List Transaction × Option ℕ)
transactions_or_refuse rows limit none = err (contract_error Refusal.invalid_cursor)
transactions_or_refuse rows limit (some start) =
    ok (page_by_limit transaction_id_of rows limit start)

unfoldable pub build_transaction_page :
    List Transaction
    → Option (Option ℕ)
    → ℕ
    → Option TransactionType
    → Result (List Transaction × Option ℕ)
unfolding filtered_rows
build_transaction_page rows cursor limit transaction_type =
    let filtered = filtered_rows rows transaction_type in
    transactions_or_refuse filtered limit (start_index transaction_id_of filtered cursor)

abbrev pub IsOfType : Option TransactionType → Transaction → Type 0
IsOfType none t = Unit
IsOfType (some wanted) t = t.type_of ≡ wanted

of_type-IsOfType :
    (o : Option TransactionType) (t : Transaction) → of_type o t.type_of ≡ true → IsOfType o t
of_type-IsOfType none t h = tt
of_type-IsOfType (some k) t h = is_same t.type_of k h
  where
    is_same : (a b : TransactionType) → same_type a b ≡ true → a ≡ b
    is_same a b h = ground (arith, h)

IsOfType-of_type :
    (o : Option TransactionType) (t : Transaction) → IsOfType o t → of_type o t.type_of ≡ true
IsOfType-of_type none t h = refl
IsOfType-of_type (some k) t h = rw h (same k)
  where
    same : (a : TransactionType) → same_type a a ≡ true
    same a = ground arith

-- The transactions of the type that is asked for, newest first.
abbrev pub IsHistory : List Transaction → Option TransactionType → List Transaction → Type 0
IsHistory rows transaction_type listed =
    Lists (IsOfType transaction_type) transaction_id_of (λ t. t.created_at) rows listed

module _ (rows : List Transaction) (transaction_type : Option TransactionType)
    (keys : (k : ℕ) → count_where (λ t. t.id == k) rows ≤ 1) where
  abbrev asked : Transaction → Bool
  asked t = of_type transaction_type t.type_of

  filtered-keys : (k : ℕ) → count_where (λ t. t.id == k) (filtered_rows rows transaction_type) ≤ 1
  unfolding filtered_rows sort_transaction_rows
  filtered-keys k = omega (
    arith,
    keys k,
    count_where-order_by (λ t. t.id == k) newer_transaction rows,
    count_where-select_where (λ t. t.id == k) asked (sort_transaction_rows rows),
  )

  length-filtered_rows : length (filtered_rows rows transaction_type) ≤ length rows
  unfolding filtered_rows sort_transaction_rows
  length-filtered_rows = omega (
    arith,
    length-order_by newer_transaction rows,
    length-select_where asked (sort_transaction_rows rows),
  )

  filtered_rows-IsHistory : IsHistory rows transaction_type (filtered_rows rows transaction_type)
  unfolding filtered_rows sort_transaction_rows
  filtered_rows-IsHistory = record {
    only = λ t m.
        let (there, hit) = select_where-Member asked t (sort_transaction_rows rows) m in
        (order_by-Member newer_transaction t rows there, of_type-IsOfType transaction_type t hit);
    all = λ t m wanted.
        Member-select asked t (sort_transaction_rows rows)
          (Member-order_by newer_transaction t rows m) (IsOfType-of_type transaction_type t wanted);
    once = filtered-keys;
    descending =
        select_where-Descending asked (λ t. t.created_at) (sort_transaction_rows rows)
          (order_by-Descending newer_transaction (λ t. t.created_at) (λ a b h. ground (arith, h))
            (λ a b h. ground (arith, h)) rows);
  }

-- With unique identifiers and a positive limit, the pages of a wallet's history that a client gets by handing
-- back each page's cursor, from no cursor on, are the transactions of the type that is asked for, or all if none
-- is, and no others, each once and newest first; as many requests as there are transactions, and one, are enough.
pub build_transaction_page-walk :
    (rows : List Transaction) (limit : ℕ) (transaction_type : Option TransactionType)
    → ((k : ℕ) → count_where (λ t. t.id == k) rows ≤ 1)
    → 1 ≤ limit
    → IsHistory rows transaction_type (
        walk
          (suc (length rows))
          (λ cursor. answered (build_transaction_page rows cursor limit transaction_type))
          none)
unfolding build_transaction_page
build_transaction_page-walk rows limit transaction_type keys pos =
    let walked : walk (suc (length rows))
          (λ cursor. answered (build_transaction_page rows cursor limit transaction_type)) none
        ≡ filtered_rows rows transaction_type =
      walk_enough transaction_id_of (filtered_rows rows transaction_type)
        (filtered-keys rows transaction_type keys) (length rows) limit _
        (length-filtered_rows rows transaction_type keys) pos
        (λ c start e. rw (e, page_by_limit-page_at transaction_id_of _ limit start) refl) in
    rw walked (filtered_rows-IsHistory rows transaction_type keys)
