-- ===== src/Settlement/Once.antt =====
-- What `generateMonthlySettlement` (src/store/settlement/store-settlement.service.ts) writes for each
-- store, and that a second run for the month writes nothing.
use open_api.Prelude.{String, ◌≡◌, refl, ap, ◌∙◌, Option, some, All}
use open_api.Schema.{Db}
use open_api.Prisma.{Prisma}
use open_api.Settlement.{Calendar, target_month}
use open_api.Settlement.Store.{
  find_settled, settle_stores, stores_of, active_stores, generate_monthly_settlement,
}
use open_api.Settlement.Due.{due, settle_stores-due, settle_stores_none, settle_stores-user_order}

module _ (prisma : Prisma) (calendar : Calendar) where
  open prisma use {Table}

  -- A run gives every store of its list a settlement for the month: the one that it had before,
  -- unchanged, or else the one that sums up its orders.
  generate_monthly_settlement-due :
      (key : String → String) (store_id month : Option String) (db : Db Table)
      → All
          (λ x.
            find_settled prisma calendar x
              (target_month calendar month)
              (generate_monthly_settlement prisma calendar key store_id month db).1
            ≡ some (due prisma calendar key (target_month calendar month) x db))
          (stores_of prisma calendar store_id (target_month calendar month) db)
  unfolding generate_monthly_settlement
  generate_monthly_settlement-due key store_id month db =
      settle_stores-due prisma calendar key (target_month calendar month) _ db

  stores_of_kept :
      (key : String → String) (store_id month : Option String) (m : String) (db : Db Table)
      → stores_of prisma calendar store_id m
          (generate_monthly_settlement prisma calendar key store_id month db).1
        ≡ stores_of prisma calendar store_id m db
  unfolding stores_of active_stores generate_monthly_settlement
  stores_of_kept key store_id month m db =
      let orders =
        settle_stores-user_order prisma calendar key (target_month calendar month)
          (stores_of prisma calendar store_id (target_month calendar month) db) db in
      rw orders refl

  -- A second run for the same stores and month writes nothing, whatever keys it has at hand.
  pub generate_monthly_settlement_twice :
      (key key' : String → String) (store_id month : Option String) (db : Db Table)
      → (generate_monthly_settlement prisma calendar key' store_id month
          (generate_monthly_settlement prisma calendar key store_id month db).1).1
        ≡ (generate_monthly_settlement prisma calendar key store_id month db).1
  unfolding generate_monthly_settlement
  generate_monthly_settlement_twice key key' store_id month db =
      let m = target_month calendar month in
      let db' = (generate_monthly_settlement prisma calendar key store_id month db).1 in
      ap (λ l. (settle_stores prisma calendar key' m l db').1)
        (stores_of_kept key store_id month m db)
      ∙ settle_stores_none prisma calendar key' m _ db' (λ x. due prisma calendar key m x db)
          (generate_monthly_settlement-due key store_id month db)
