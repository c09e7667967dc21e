-- ===== src/Wallet/Yield.antt =====
-- The accrual of yield (services/common/incentives.py, accrue_pending_yield_for_user), which the wallet
-- service runs when a user looks at the wallet. Times are microseconds, rates hundredths of a percent.
pub mod Periods
mod Tests
use tokenization.Common.{
  ℕ, ◌+◌, ◌-◌, ◌*◌, ◌/◌, max, Bool, true, false, ◌&&◌, ◌||◌, ◌==◌, Option, none, some, List, [],
  ◌∷◌, ◌++◌, ltb, map, get_or, if◌then◌else◌,
}
use tokenization.Common.Table.{select_where, fetch_one}
use tokenization.Common.Sort.{order_by}
use tokenization.Database.Assets.{Asset, Token, YieldAccrual}
use tokenization.Database.Model.{Db, Trade, TokenBalance}
use tokenization.Database.Tx.{Tx, ◌>>=◌, ◌>>◌, pure, query, modify}
use tokenization.Market.Orders.{day}

-- COALESCE(settled_at, created_at)
abbrev pub traded_at : Trade → ℕ
traded_at t = get_or t.settled_at t.created_at

abbrev pub later_trade : Trade → Trade → Bool
later_trade a b = ltb (traded_at b) (traded_at a) || (traded_at a == traded_at b && ltb b.id a.id)

-- The price of the token's latest trade, whatever its status.
abbrev pub latest_trade_price : Db → ℕ → Option ℕ
latest_trade_price db token_id = fetch_one (
    map (λ t. t.price_sat)
      (order_by later_trade (select_where (λ t. t.token_id == token_id) db.trades)))

abbrev pub is_accrual_of : ℕ → ℕ → YieldAccrual → Bool
is_accrual_of user_id token_id a = a.user_id == user_id && a.token_id == token_id

abbrev pub latest_of : ℕ → Option ℕ → Option ℕ
latest_of t none = some t
latest_of t (some u) = some (max t u)

-- MAX(accrued_to)
unfoldable pub last_accrued_to : ℕ → ℕ → List YieldAccrual → Option ℕ
last_accrued_to user_id token_id [] = none
last_accrued_to user_id token_id (a ∷ rest) =
    let later = last_accrued_to user_id token_id rest in
    if is_accrual_of user_id token_id a then latest_of a.accrued_to later else later

-- A balance with its token's price and its asset's return.
pub record Holding : Type 0 where
  pub held : TokenBalance
  pub projected_roi : ℕ
  pub reference_price_sat : ℕ

abbrev pub holding : Db → TokenBalance → Token → ℕ → Holding
holding db b t roi = record {
  held = b;
  projected_roi = roi;
  reference_price_sat = get_or (latest_trade_price db t.id) t.unit_price_sat;
}

abbrev pub priced : Db → TokenBalance → Token → Option ℕ → Option Holding
priced db b t none = none
priced db b t (some roi) = if ltb 0 roi then some (holding db b t roi) else none

abbrev pub roi_of : Option Asset → Option ℕ
roi_of none = none
roi_of (some a) = a.projected_roi

abbrev pub holding_of : Db → TokenBalance → Option Token → Option Holding
holding_of db b none = none
holding_of db b (some t) =
    priced db b t (roi_of (fetch_one (select_where (λ a. a.id == t.asset_id) db.assets)))

abbrev pub is_held_by : ℕ → TokenBalance → Bool
is_held_by user_id b = b.user_id == user_id && ltb 0 b.balance

-- Where the next period starts: where the last one ended, or at the last change of the balance.
unfoldable pub start_at : Db → TokenBalance → ℕ
start_at db b = get_or (last_accrued_to b.user_id b.token_id db.accruals) b.updated_at

-- Whole days by the calendar.
abbrev pub days_between : ℕ → ℕ → ℕ
days_between start_time end_time = end_time / day - start_time / day

-- Rounded down: hundredths of a percent, of a year of 365 days.
abbrev pub gross_yield : Holding → ℕ → ℕ
gross_yield h days = (h.held.balance * h.reference_price_sat * h.projected_roi * days) / 3_650_000

abbrev pub accrual_row : ℕ → ℕ → ℕ → ℕ → Holding → YieldAccrual
accrual_row accrual_id as_of start_time days h = record {
  id = accrual_id;
  user_id = h.held.user_id;
  token_id = h.held.token_id;
  annual_rate_pct = h.projected_roi;
  quantity_held = h.held.balance;
  reference_price_sat = h.reference_price_sat;
  amount_sat = gross_yield h days;
  accrued_from = start_time;
  accrued_to = start_time + days * day;
  created_at = as_of;
}

-- The accrual of a balance, if a day has passed and at least a satoshi accrued.
abbrev pub accrual_for : ℕ → ℕ → ℕ → Option Holding → Option YieldAccrual
accrual_for accrual_id as_of start_time none = none
accrual_for accrual_id as_of start_time (some h) =
    let days = days_between start_time as_of in
    if ltb 0 days && ltb 0 (gross_yield h days)
    then some (accrual_row accrual_id as_of start_time days h)
    else none

abbrev pub prepend : {A : Type 0} → Option A → List A → List A
prepend none xs = xs
prepend (some x) xs = x ∷ xs

-- The rows that the loop inserts; `draw` gives the identifier of the row for a balance.
unfoldable pub accruals_for : Db → (ℕ → ℕ) → ℕ → List TokenBalance → List YieldAccrual
unfolding start_at
accruals_for db draw as_of [] = []
accruals_for db draw as_of (b ∷ rest) =
    let found = fetch_one (select_where (λ t. t.id == b.token_id) db.tokens) in
    prepend (accrual_for (draw b.id) as_of (start_at db b) (holding_of db b found))
      (accruals_for db draw as_of rest)

unfoldable pub accrue_pending_yield_for_user : (ℕ → ℕ) → ℕ → ℕ → Tx (List YieldAccrual)
unfolding accruals_for
accrue_pending_yield_for_user draw user_id as_of = do
  rows ← query (λ db. accruals_for db draw as_of (select_where (is_held_by user_id) db.balances))
  modify (λ db. record db { accruals = db.accruals ++ rows })
  pure rows
