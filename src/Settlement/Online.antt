-- ===== src/Settlement/Online.antt =====
-- The settlement of a store (src/store/settlement/store-settlement.service.ts) over the orders that
-- src/order/order.service.ts makes.
use open_api.Prelude.{
  pos, ◌==ℤ◌, ◌&&◌, ◌||◌, String, ◌===◌, ◌≡◌, refl, none, List, [], ◌∷◌, arith, All, select,
}
use open_api.Schema.{UserOrder, Db}
use open_api.Prisma.{Prisma}
use open_api.Order.{status_active, stage_received, stage_finished, paid}
use open_api.Order.Early.{IsEarly, AllEarly}
use open_api.Order.Reach.{Reach, Reach-AllEarly}
use open_api.Settlement.{Calendar, start_of, end_of}
use open_api.Settlement.Store.{settled_orders, find_settled, is_within}
use open_api.Settlement.Due.{due}

module _ (prisma : Prisma) (calendar : Calendar) where
  open prisma use {Table, rows, find_many-rows}

  settled-IsEarly :
      (x month : String) (os : List UserOrder)
      → All IsEarly os
      → select
          (λ o.
            o.store_id === x
            && (is_within (start_of calendar month) (end_of calendar month) o.create_date
                && (o.status ==ℤ status_active
                    && ((o.stage ==ℤ stage_received || o.stage ==ℤ stage_finished)
                        && o.pay_status ==ℤ paid))))
          os
        ≡ []
  settled-IsEarly x month [] h = refl
  settled-IsEarly x month (o ∷ os) h =
      let rest = settled-IsEarly x month os h.1 in ground (arith, h.0)

  -- From a database with no order in the stages received and finished, whatever the handlers of the
  -- order service do, the settlement that a store without one is due for a month has no orders and
  -- the amount zero.
  pub due_zero :
      {db db' : Db Table} (key : String → String) (month x : String)
      → AllEarly prisma db
      → Reach prisma db db'
      → find_settled prisma calendar x month db' ≡ none
      → ((due prisma calendar key month x db').total_orders ≡ pos 0)
        × ((due prisma calendar key month x db').total_amount ≡ pos 0)
  unfolding due settled_orders
  due_zero {db} {db'} key month x h r missing =
      let empty = settled-IsEarly x month (rows db'.user_order) (Reach-AllEarly prisma h r) in
      rw (missing, find_many-rows, empty) (refl, refl)
