-- ===== src/Order/Lifecycle.antt =====
-- The handlers of src/order/order.service.ts as steps of an abstract life cycle.
use open_api.Prelude.{
  ℤ, ◌==ℤ◌, ==ℤ_iff, Bool, true, false, ◌&&◌, String, ◌===◌, ◌≡◌, ◌⊎◌, refl, some, Action, Error,
  ok, err, arith, find, UniqueBy, inl, inr, if-cases,
}
use open_api.Schema.{UserOrder, Db}
use open_api.Prisma.{Prisma}
use open_api.Order.{
  action_adapter, cancel, delivery, receive, finish, status_active, status_cancel, status_delete,
  stage_create, stage_accept, stage_delivery, stage_received, stage_finished,
}
use open_api.Order.Moves.{
  by_id, accept-atomic, Moved, cancel-Moved, finish-Moved, accept-Moved, delivery-Moved,
  receive-Moved,
}

-- The life cycle: what an action of each type does to the order that it is applied to. A receipt
-- marks the order's status, and its stage stays at delivery.
pub data Move (type : ℤ) (o o' : UserOrder) : Type 0 where
  cancels :
      type ≡ status_cancel
      → o.status ≡ status_active
      → o' ≡ record o { status = status_cancel }
      → Move type o o'
  accepts :
      type ≡ stage_accept
      → o.status ≡ status_active
      → o.stage ≡ stage_create
      → o' ≡ record o { stage = stage_accept }
      → Move type o o'
  delivers :
      type ≡ stage_delivery
      → o.status ≡ status_active
      → o.stage ≡ stage_accept
      → o' ≡ record o { stage = stage_delivery }
      → Move type o o'
  receives :
      type ≡ stage_received
      → o.status ≡ status_active
      → o.stage ≡ stage_delivery
      → o' ≡ record o { status = stage_received }
      → Move type o o'
  finishes :
      (type ≡ stage_finished) ⊎ (type ≡ status_delete)
      → o.status ≡ status_active
      → o.stage ≡ stage_received
      → o' ≡ record o { stage = stage_finished }
      → Move type o o'

both : {a b c d : ℤ} → (a ==ℤ b && c ==ℤ d) ≡ true → (a ≡ b) × (c ≡ d)
both {a} {b} {c} {d} h = ground (arith, ==ℤ_iff a b, ==ℤ_iff c d)

module _ (prisma : Prisma) where
  open prisma use {Table, rows, find_first, find_many, find_first-rows, rows-update, rows-create}

  -- A refused action leaves the database as it was.
  pub action_adapter-atomic :
      (id : String) (type : ℤ) (action_id user_id : String) (db : Db Table) (e : Error)
      → (action_adapter prisma id type action_id user_id db).0 ≡ err e
      → (action_adapter prisma id type action_id user_id db).1 ≡ db
  unfolding action_adapter cancel delivery receive finish
  action_adapter-atomic id type action_id user_id db e h =
      ground (arith, accept-atomic prisma action_id user_id id db e)

  module _ (id action_id user_id : String) where
    -- The order has made a move of this type, and each other order is as before.
    pub record Stepped (type : ℤ) (db db' : Db Table) : Type 0 where
      pub before : UserOrder
      pub now : UserOrder
      pub found : find (by_id id) (rows db.user_order) ≡ some before
      pub after : find (by_id id) (rows db'.user_order) ≡ some now
      pub move : Move type before now
      pub others :
          (other : String)
          → (other === id) ≡ false
          → find (by_id other) (rows db'.user_order) ≡ find (by_id other) (rows db.user_order)

    Moved-Stepped :
        {code type : ℤ} {q : UserOrder → Bool} {f : UserOrder → UserOrder} {db db' : Db Table}
        → Moved prisma id action_id user_id code q f db db'
        → ((o : UserOrder) → q o ≡ true → Move type o (f o))
        → Stepped type db db'
    Moved-Stepped {f} m move = record {
      before = m.order;
      now = f m.order;
      found = m.found;
      after = m.after;
      move = move m.order m.allowed;
      others = m.others;
    }

    abbrev Steps : ℤ → Db Table → Action (Db Table) (Unit {0}) → Type 0
    Steps type db m = (m db).0 ≡ ok tt → Stepped type db (m db).1

    -- A granted action is a move of the life cycle, for the order that it names and for no other.
    pub action_adapter-Stepped :
        (type : ℤ) (db : Db Table)
        → UniqueBy (λ r. r.order_id) (rows db.user_order)
        → (action_adapter prisma id type action_id user_id db).0 ≡ ok tt
        → Stepped type db (action_adapter prisma id type action_id user_id db).1
    unfolding action_adapter
    action_adapter-Stepped type db u =
        if-cases (Steps type db) (type ==ℤ status_cancel)
          (λ t h.
            Moved-Stepped (cancel-Moved prisma id action_id user_id db u h)
              (λ o q. cancels ((==ℤ_iff _ _).0 t) ((==ℤ_iff _ _).0 q) refl))
          λ _.
            if-cases (Steps type db) (type ==ℤ stage_accept)
              (λ t h.
                Moved-Stepped (accept-Moved prisma id action_id user_id db u h)
                  (λ o q. let (s, g) = both q in accepts ((==ℤ_iff _ _).0 t) s g refl))
              λ _.
                if-cases (Steps type db) (type ==ℤ stage_delivery)
                  (λ t h.
                    Moved-Stepped (delivery-Moved prisma id action_id user_id db u h)
                      (λ o q. let (s, g) = both q in delivers ((==ℤ_iff _ _).0 t) s g refl))
                  λ _.
                    if-cases (Steps type db) (type ==ℤ stage_received)
                      (λ t h.
                        Moved-Stepped (receive-Moved prisma id action_id user_id db u h)
                          (λ o q. let (s, g) = both q in receives ((==ℤ_iff _ _).0 t) s g refl))
                      λ _.
                        if-cases (Steps type db) (type ==ℤ stage_finished)
                          (λ t h.
                            Moved-Stepped (finish-Moved prisma id action_id user_id db u h) (λ o q.
                              let (s, g) = both q in finishes (inl ((==ℤ_iff _ _).0 t)) s g refl))
                          λ _.
                            if-cases (Steps type db) (type ==ℤ status_delete)
                              (λ t h.
                                Moved-Stepped (finish-Moved prisma id action_id user_id db u h)
                                  (λ o q.
                                    let (s, g) = both q in
                                    finishes (inr ((==ℤ_iff _ _).0 t)) s g refl))
                              λ _ h. absurd (cc h)
