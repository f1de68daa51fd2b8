-- ===== src/Settlement/Store.antt =====
-- src/store/settlement/store-settlement.service.ts
use open_api.Prelude.{
  ℕ, zero, suc, ℤ, pos, ◌==ℤ◌, sum_ℤ, ltb, leb, Bool, true, false, ◌&&◌, ◌||◌, String, ◌===◌,
  length, map, select, or_text, Option, none, some, List, [], ◌∷◌, if◌then◌else◌, Action,
  plain_error, record_missing, pure, gets, or_raise, modify, ◌>>=◌, ◌>>◌,
}
use open_api.Schema.{Store, UserOrder, StoreSettlement, StoreSettlementDetail, Db}
use open_api.Prisma.{Prisma}
use open_api.Order.{status_active, stage_received, stage_finished, paid}
use open_api.Settlement.{Calendar, start_of, end_of, target_month, distinct}

-- An entry of the result.
pub record Settled : Type 0 where
  pub store_id : String
  pub settlement : StoreSettlement
  pub skipped : Bool

-- The object of `getStoreSettlementStats`.
pub record Stats : Type 0 where
  pub total_income : ℤ
  pub total_orders : ℤ
  pub pending_settlements : ℕ
  pub recent_settlements : List StoreSettlement

-- The object of `getSettlementDetail`.
pub record Detailed : Type 0 where
  pub settlement : StoreSettlement
  pub store : Option Store

-- `create_date: { gte: startDate, lt: endDate }`
abbrev pub is_within : ℕ → ℕ → ℕ → Bool
is_within start_date end_date at = leb start_date at && ltb at end_date

abbrev pub detail_of : UserOrder → StoreSettlementDetail
detail_of o = record {
  order_id = o.order_id;
  amount = o.money;
  order_stage = o.stage;
  pay_status = o.pay_status;
}

-- The row of a store's month, from the orders that it settles.
abbrev pub settlement_of : String → String → String → ℕ → ℕ → List UserOrder → StoreSettlement
settlement_of key store_id month start_date end_date orders = record {
  settlement_id = key;
  store_id = store_id;
  month = month;
  total_orders = pos (length orders);
  total_amount = sum_ℤ (map (λ o. o.money) orders);
  total_income = sum_ℤ (map (λ o. o.money) orders);
  status = pos 0;
  start_date = start_date;
  end_date = end_date;
  settled_at = none;
  details = map detail_of orders;
}

-- The first rows of a list (`take`).
abbrev pub take : ℕ → List StoreSettlement → List StoreSettlement
take zero l = []
take (suc n) [] = []
take (suc n) (x ∷ xs) = x ∷ take n xs

module _ (prisma : Prisma) (calendar : Calendar) where
  open prisma use {Table, find_first, find_many, update, create}

  unfoldable pub find_settled : String → String → Db Table → Option StoreSettlement
  find_settled store_id month db =
      find_first (λ s. s.store_id === store_id && s.month === month) db.store_settlement

  -- The paid orders of a month that are received or finished.
  unfoldable pub settled_orders : String → String → Db Table → List UserOrder
  settled_orders store_id month db =
      find_many
        (λ o.
          o.store_id === store_id
          && (is_within (start_of calendar month) (end_of calendar month) o.create_date
              && (o.status ==ℤ status_active
                  && ((o.stage ==ℤ stage_received || o.stage ==ℤ stage_finished)
                      && o.pay_status ==ℤ paid))))
        db.user_order

  -- The stores with an active order in the month.
  unfoldable pub active_stores : String → Db Table → List String
  active_stores month db = distinct (
      map (λ o. o.store_id)
        (find_many
          (λ o.
            is_within (start_of calendar month) (end_of calendar month) o.create_date
            && o.status ==ℤ status_active)
          db.user_order))

  -- The body of the loop; `key` gives the key of the row that a store gets.
  module _ (key : String → String) (month : String) where
    unfoldable pub settle_new : String → Option StoreSettlement → Action (Db Table) Settled
    settle_new store_id (some existing) =
        pure (record { store_id = store_id; settlement = existing; skipped = true })
    settle_new store_id none = do
      orders ← gets (settled_orders store_id month)
      modify (λ db. record db {
        store_settlement =
            create
              (settlement_of (key store_id) store_id month (start_of calendar month)
                (end_of calendar month) orders)
              db.store_settlement;
      })
      pure (record {
        store_id = store_id;
        settlement =
            settlement_of (key store_id) store_id month (start_of calendar month)
              (end_of calendar month) orders;
        skipped = false;
      })

    unfoldable pub settle_store : String → Action (Db Table) Settled
    settle_store store_id = do
      existing ← gets (find_settled store_id month)
      settle_new store_id existing

    unfoldable pub settle_stores : List String → Action (Db Table) (List Settled)
    settle_stores [] = pure []
    settle_stores (store_id ∷ rest) = do
      settled ← settle_store store_id
      results ← settle_stores rest
      pure (settled ∷ results)

  -- `storeId ? [storeId] : …`
  unfoldable pub stores_of : Option String → String → Db Table → List String
  stores_of store_id month db =
      if or_text store_id "" === "" then active_stores month db else or_text store_id "" ∷ []

  unfoldable pub generate_monthly_settlement :
      (String → String) → Option String → Option String → Action (Db Table) (List Settled)
  generate_monthly_settlement key store_id month = do
    stores ← gets (stores_of store_id (target_month calendar month))
    settle_stores key (target_month calendar month) stores

  unfoldable pub find_settlement : String → Db Table → Option StoreSettlement
  find_settlement id db = find_first (λ s. s.settlement_id === id) db.store_settlement

  pub get_settlement_detail : String → Action (Db Table) Detailed
  get_settlement_detail settlement_id = do
    settlement ← or_raise (← gets (find_settlement settlement_id)) (plain_error "结算记录不存在")
    store ← gets (λ db. find_first (λ s. s.store_id === settlement.store_id) db.store)
    pure (record { settlement = settlement; store = store })

  -- An update of one row by its key, which throws where there is none.
  unfoldable pub set_settlement :
      String → (StoreSettlement → StoreSettlement) → Action (Db Table) (Unit {0})
  set_settlement id f = do
    or_raise (← gets (find_settlement id)) record_missing
    modify (λ db. record db {
      store_settlement = update (λ s. s.settlement_id === id) f db.store_settlement;
    })

  unfoldable pub confirm_settlement : String → Action (Db Table) (Unit {0})
  confirm_settlement id = set_settlement id (λ s. record s { status = pos 1 })

  unfoldable pub settle_settlement : ℕ → String → Action (Db Table) (Unit {0})
  settle_settlement now id =
      set_settlement id (λ s. record s { status = pos 2; settled_at = some now })

  -- `latest` lists rows by their month, the last one first.
  pub get_store_settlement_stats :
      (List StoreSettlement → List StoreSettlement) → String → Db Table → Stats
  get_store_settlement_stats latest store_id db =
      let settlements =
        take 12 (latest (find_many (λ s. s.store_id === store_id) db.store_settlement)) in
      record {
        total_income = sum_ℤ (map (λ s. s.total_income) settlements);
        total_orders = sum_ℤ (map (λ s. s.total_orders) settlements);
        pending_settlements = length (select (λ s. s.status ==ℤ pos 0) settlements);
        recent_settlements = settlements;
      }
