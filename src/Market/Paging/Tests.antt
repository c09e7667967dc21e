-- ===== src/Market/Paging/Tests.antt =====
-- Paging two orders, one by one.
use tokenization.Common.{ℕ, suc, ◌≡◌, ◌≤◌, arith, ◌==◌, none, [], ◌∷◌, List, length}
use tokenization.Common.Table.{count_where}
use tokenization.Common.Pages.{walk}
use tokenization.Database.Model.{Order}
use tokenization.Market.Fixture.{bid, ask}
use tokenization.Market.Paging.{build_page, answered, build_page-walk}

abbrev order_id : Order → ℕ
order_id o = o.id

abbrev two_orders : List Order
two_orders = bid ∷ ask ∷ []

two_orders-keys : (k : ℕ) → count_where (λ o. order_id o == k) two_orders ≤ 1
unfolding count_where
two_orders-keys k = ground arith

build_page-walk_example :
    walk
      (suc (length two_orders))
      (λ cursor. answered (build_page order_id two_orders cursor 1))
      none
    ≡ two_orders
build_page-walk_example = build_page-walk order_id two_orders 1 two_orders-keys (omega arith)
