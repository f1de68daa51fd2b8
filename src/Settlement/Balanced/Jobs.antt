-- ===== src/Settlement/Balanced/Jobs.antt =====
-- The calls of both settlement services (src/store/settlement), in any sequence.
use open_api.Prelude.{ℕ, String, Option, List, [], ◌∷◌, Keeps}
use open_api.Schema.{Db}
use open_api.Prisma.{Prisma}
use open_api.Settlement.{Calendar}
use open_api.Settlement.Store
use open_api.Settlement.Platform
use open_api.Settlement.Platform.{
  amounts, subscription, resource, order_service, resource_detail, platform_settlement_of,
  subscription_details, payment_store, charge_new, charge_over_quota, charge_day, charge_days,
  calculate_order_service_fee, DailyOrders,
}
use open_api.Settlement.Store.{settlement_of, detail_of}
use open_api.Settlement.Balanced.{AllBalanced}
use open_api.Settlement.Balanced.Stores.{
  generate_store-AllBalanced, confirm_store-AllBalanced, settle_store_row-AllBalanced,
}
use open_api.Settlement.Balanced.Platforms.{
  generate_platform-AllBalanced, confirm_platform-AllBalanced, settle_platform-AllBalanced,
}

module _ (prisma : Prisma) (calendar : Calendar) where
  open prisma use {Table}

  -- The calls of the two services that write settlements.
  pub data Job : Type 0 where
    for_stores : (String → String) → Option String → Option String → Job
    for_platform : String → Option String → Job
    confirms_store confirms_platform : String → Job
    settles_store settles_platform : ℕ → String → Job

  -- The database after a call, granted or not.
  unfoldable pub work : Job → Db Table → Db Table
  work (for_stores key store_id month) db =
      (Store.generate_monthly_settlement prisma calendar key store_id month db).1
  work (for_platform key month) db =
      (Platform.generate_monthly_settlement prisma calendar key month db).1
  work (confirms_store id) db = (Store.confirm_settlement prisma calendar id db).1
  work (confirms_platform id) db = (Platform.confirm_settlement prisma calendar id db).1
  work (settles_store now id) db = (Store.settle_settlement prisma calendar now id db).1
  work (settles_platform now id) db = (Platform.settle_settlement prisma calendar now id db).1

  unfoldable pub work_all : List Job → Db Table → Db Table
  unfolding work
  work_all [] db = db
  work_all (job ∷ jobs) db = work_all jobs (work job db)

  work-AllBalanced :
      (job : Job) (db : Db Table)
      → AllBalanced prisma calendar db
      → AllBalanced prisma calendar (work job db)
  unfolding work Keeps
  work-AllBalanced (for_stores key store_id month) db h =
      generate_store-AllBalanced prisma calendar key store_id month db h
  work-AllBalanced (for_platform key month) db h =
      generate_platform-AllBalanced prisma calendar key month db h
  work-AllBalanced (confirms_store id) db h = confirm_store-AllBalanced prisma calendar id db h
  work-AllBalanced (confirms_platform id) db h =
      confirm_platform-AllBalanced prisma calendar id db h
  work-AllBalanced (settles_store now id) db h =
      settle_store_row-AllBalanced prisma calendar now id db h
  work-AllBalanced (settles_platform now id) db h =
      settle_platform-AllBalanced prisma calendar now id db h

  -- After any sequence of runs, confirmations and payments, granted or not, the orders and amounts
  -- of every store's settlement are still those of its details, the three fees of every settlement
  -- of the platform the sums of the details of their types, and its total that of all its details.
  pub work_all-AllBalanced :
      (jobs : List Job) (db : Db Table)
      → AllBalanced prisma calendar db
      → AllBalanced prisma calendar (work_all jobs db)
  unfolding work_all
  work_all-AllBalanced [] db h = h
  work_all-AllBalanced (job ∷ jobs) db h =
      work_all-AllBalanced jobs (work job db) (work-AllBalanced job db h)
