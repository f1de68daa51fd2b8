-- ===== src/Order/Reach.antt =====
-- What the handlers of src/order/order.service.ts can bring about in any sequence of calls.
use open_api.Prelude.{
  ℕ, ◌==ℤ◌, ◌&&◌, ◌||◌, String, ◌===◌, ◌≡◌, refl, Option, some, List, [], ◌∷◌, ok, err, bad_request,
  arith, All, inr, Keeps, select, length, leb,
}
use open_api.Schema.{UserAddress, UserOrder, Db}
use open_api.Prisma.{Prisma}
use open_api.Order.{
  CreateOrder, NewOrder, create_order, cancel, accept, delivery, receive, finish, remove,
  confirm_payment, update_pay_proof, get_store_today_valid_orders, stage_received, stage_finished,
}
use open_api.Order.Creation.{create_order_granted_iff}
use open_api.Order.Early.{
  IsEarly, AllEarly, find_at-received, cancel-AllEarly, delivery-AllEarly, receive-AllEarly,
  remove-AllEarly, update_pay_proof-AllEarly, confirm_payment-AllEarly, finish-AllEarly,
  accept-AllEarly, create_order-AllEarly,
}

module _ (prisma : Prisma) where
  open prisma use {
    Table, rows, update, create, find_first, find_first-rows, count-rows, rows-update, rows-create,
  }

  -- One call of a handler, granted or refused.
  pub data Call (db db' : Db Table) : Type 0 where
    creates :
        (fresh : ℕ → String) (now today : ℕ) (user_id : String) (dto : CreateOrder)
        → db' ≡ (create_order prisma fresh now today user_id dto db).1
        → Call db db'
    cancels :
        (action_id user_id id : String)
        → db' ≡ (cancel prisma action_id user_id id db).1
        → Call db db'
    accepts :
        (action_id user_id id : String)
        → db' ≡ (accept prisma action_id user_id id db).1
        → Call db db'
    delivers :
        (action_id user_id id : String)
        → db' ≡ (delivery prisma action_id user_id id db).1
        → Call db db'
    receives :
        (action_id user_id id : String)
        → db' ≡ (receive prisma action_id user_id id db).1
        → Call db db'
    finishes :
        (action_id user_id id : String)
        → db' ≡ (finish prisma action_id user_id id db).1
        → Call db db'
    removes :
        (action_id user_id id : String)
        → db' ≡ (remove prisma action_id user_id id db).1
        → Call db db'
    confirms : (now : ℕ) (id : String) → db' ≡ (confirm_payment prisma now id db).1 → Call db db'
    proves :
        (user_id id url : String)
        → db' ≡ (update_pay_proof prisma user_id id url db).1
        → Call db db'

  pub data Reach (db : Db Table) : Db Table → Type 0 where
    here : Reach db db
    next : {mid last : Db Table} → Reach db mid → Call mid last → Reach db last

  Call-AllEarly : {db db' : Db Table} → Call db db' → AllEarly prisma db → AllEarly prisma db'
  unfolding Keeps
  Call-AllEarly {db} (creates fresh now today user_id dto e) h =
      rw e (create_order-AllEarly prisma fresh now today user_id dto db h)
  Call-AllEarly {db} (cancels a u id e) h = rw e (cancel-AllEarly prisma a u id db h)
  Call-AllEarly {db} (accepts a u id e) h = rw e (accept-AllEarly prisma a u id db h)
  Call-AllEarly {db} (delivers a u id e) h = rw e (delivery-AllEarly prisma a u id db h)
  Call-AllEarly {db} (receives a u id e) h = rw e (receive-AllEarly prisma a u id db h)
  Call-AllEarly {db} (finishes a u id e) h = rw e (finish-AllEarly prisma a u id db h)
  Call-AllEarly {db} (removes a u id e) h = rw e (remove-AllEarly prisma a u id db h)
  Call-AllEarly {db} (confirms now id e) h = rw e (confirm_payment-AllEarly prisma now id db h)
  Call-AllEarly {db} (proves u id url e) h = rw e (update_pay_proof-AllEarly prisma u id url db h)

  pub Reach-AllEarly : {db db' : Db Table} → AllEarly prisma db → Reach db db' → AllEarly prisma db'
  Reach-AllEarly h here = h
  Reach-AllEarly h (next r c) = Call-AllEarly c (Reach-AllEarly h r)

  -- From a database with no order in the stages received and finished, whatever is called and
  -- however often, the action that finishes an order is refused for every order and changes nothing.
  pub finish_unreachable :
      {db db' : Db Table} (action_id user_id id : String)
      → AllEarly prisma db
      → Reach db db'
      → finish prisma action_id user_id id db' ≡ (err (bad_request ""), db')
  unfolding finish
  finish_unreachable {db} {db'} action_id user_id id h r =
      rw (find_at-received prisma id db' (Reach-AllEarly h r))

  count-AllEarly :
      (store_id : String) (today : ℕ) (os : List UserOrder)
      → All IsEarly os
      → length (
          select
            (λ o.
              o.store_id === store_id
              && (o.stage ==ℤ stage_received || o.stage ==ℤ stage_finished)
              && leb today o.update_date)
            os)
        ≡ 0
  count-AllEarly store_id today [] h = refl
  count-AllEarly store_id today (o ∷ os) h = ground (arith, count-AllEarly store_id today os h.1)

  no_valid_orders :
      {db db' : Db Table} (store_id : String) (today : ℕ)
      → AllEarly prisma db
      → Reach db db'
      → get_store_today_valid_orders prisma store_id today db' ≡ 0
  unfolding get_store_today_valid_orders
  no_valid_orders {db} {db'} store_id today h r =
      rw count-rows (count-AllEarly store_id today (rows db'.user_order) (Reach-AllEarly h r))

  -- In every database so reached the count behind the daily limit of free orders is zero, and an
  -- order for an address that exists is created, however many were created that day.
  pub quota_unreachable :
      {db db' : Db Table} (fresh : ℕ → String) (now today : ℕ) (user_id : String)
      (dto : CreateOrder) (address : UserAddress)
      → AllEarly prisma db
      → Reach db db'
      → find_first (λ a. a.user_address_id === dto.user_address_id) db'.user_address ≡ some address
      → (get_store_today_valid_orders prisma dto.store_id today db' ≡ 0)
        × ((r : String × Option NewOrder) × ((create_order prisma fresh now today user_id dto db').0
              ≡ ok r))
  quota_unreachable {db} {db'} fresh now today user_id dto address h r e =
      let none_today = no_valid_orders dto.store_id today h r in
      (
        none_today,
        (create_order_granted_iff prisma fresh now today user_id dto db').1
            (inr (rw none_today (omega arith)), (address, e)),
      )
