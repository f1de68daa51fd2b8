-- ===== src/Order/Early.antt =====
-- What the handlers of src/order/order.service.ts keep: no order is received or finished.
use open_api.Prelude.{
  ℕ, ℤ, ◌==ℤ◌, false, not, ◌&&◌, ◌||◌, String, ◌===◌, ◌≡◌, ◌⊎◌, refl, none, some, arith, find,
  find_sound, All, All-find, All-append, All-map_where, Option-cases, Result-cases, inl, inr,
  Bool-cases, Bool, Keeps, keeps, modify, leb,
}
use open_api.Schema.{UserAddress, UserOrder, Db}
use open_api.Prisma.{Prisma}
use open_api.Order.{
  CreateOrder, is_at, create_order, cancel, accept, delivery, receive, finish, remove,
  confirm_payment, update_pay_proof, find_at, find_order, set_order, get_store_today_valid_orders,
  check_store_is_infinite, paid, status_cancel, status_delete, stage_accept, stage_delivery,
  stage_received, stage_finished, new_order,
}
use open_api.Order.Moves.{accept-atomic, accept-state, accept-found}

-- The stage is neither received nor finished.
abbrev pub IsEarly : UserOrder → Type 0
IsEarly o = (o.stage ==ℤ stage_received || o.stage ==ℤ stage_finished) ≡ false

module _ (prisma : Prisma) where
  open prisma use {
    Table, rows, update, create, find_first, find_first-rows, count-rows, rows-update, rows-create,
  }

  abbrev pub AllEarly : Db Table → Type 0
  AllEarly db = All IsEarly (rows db.user_order)

  pub find_at-received :
      (id : String) (db : Db Table) → AllEarly db → find_at prisma id stage_received db ≡ none
  unfolding find_at
  find_at-received id db h = elim (Option-cases (find_at prisma id stage_received db)) [
    | inl missing ↦ missing
    | inr (o, e) ↦
        let e' : find (is_at id stage_received) (rows db.user_order) ≡ some o =
          rw (← find_first-rows) e in
        let hit = find_sound (is_at id stage_received) _ o e' in
        let early = All-find IsEarly (is_at id stage_received) _ o h e' in absurd (ground arith)
  ]

  update_orders-AllEarly :
      (p : UserOrder → Bool) (f : UserOrder → UserOrder)
      → ((o : UserOrder) → IsEarly o → IsEarly (f o))
      → Keeps AllEarly (modify (λ db. record db { user_order = update p f db.user_order }))
  unfolding Keeps
  update_orders-AllEarly p f keep db h =
      rw rows-update (All-map_where IsEarly p f _ (λ o _ e. keep o e) h)

  set_order-AllEarly :
      (user_id id action_id : String) (f : UserOrder → UserOrder) (code : ℤ)
      → ((o : UserOrder) → IsEarly o → IsEarly (f o))
      → Keeps AllEarly (set_order prisma user_id id action_id f code)
  unfolding set_order Keeps
  set_order-AllEarly user_id id action_id f code keep db h =
      rw rows-update (All-map_where IsEarly _ f _ (λ o _ e. keep o e) h)

  pub cancel-AllEarly : (a u id : String) → Keeps AllEarly (cancel prisma a u id)
  unfolding cancel
  cancel-AllEarly a u id =
      let set =
        set_order-AllEarly u id a (λ o. record o { status = status_cancel }) status_cancel
          (λ o k. k) in
      search (keeps, set) depth 8

  pub delivery-AllEarly : (a u id : String) → Keeps AllEarly (delivery prisma a u id)
  unfolding delivery
  delivery-AllEarly a u id =
      let set =
        set_order-AllEarly u id a (λ o. record o { stage = stage_delivery }) stage_delivery
          (λ o k. refl) in
      search (keeps, set) depth 8

  pub receive-AllEarly : (a u id : String) → Keeps AllEarly (receive prisma a u id)
  unfolding receive
  receive-AllEarly a u id =
      let set =
        set_order-AllEarly u id a (λ o. record o { status = stage_received }) stage_received
          (λ o k. k) in
      search (keeps, set) depth 8

  pub remove-AllEarly : (a u id : String) → Keeps AllEarly (remove prisma a u id)
  unfolding remove find_order
  remove-AllEarly a u id =
      let set =
        set_order-AllEarly u id a (λ o. record o { status = status_delete }) status_delete
          (λ o k. k) in
      search (keeps, set) depth 8

  pub update_pay_proof-AllEarly :
      (u id url : String) → Keeps AllEarly (update_pay_proof prisma u id url)
  unfolding update_pay_proof find_order
  update_pay_proof-AllEarly u id url =
      let set =
        update_orders-AllEarly (λ o. o.order_id === id) (λ o. record o { pay_proof_url = some url })
          (λ o k. k) in
      search (keeps, set) depth 10

  pub confirm_payment-AllEarly :
      (now : ℕ) (id : String) → Keeps AllEarly (confirm_payment prisma now id)
  unfolding confirm_payment find_order
  confirm_payment-AllEarly now id =
      let set =
        update_orders-AllEarly (λ o. o.order_id === id)
          (λ o. record o { pay_status = paid; paid_at = some now }) (λ o k. k) in
      search (keeps, set) depth 10

  pub finish-AllEarly : (a u id : String) → Keeps AllEarly (finish prisma a u id)
  unfolding finish Keeps
  finish-AllEarly a u id db h =
      let same : (finish prisma a u id db).1 ≡ db = ground (arith, find_at-received id db h) in
      rw same h

  pub accept-AllEarly : (a u id : String) → Keeps AllEarly (accept prisma a u id)
  unfolding Keeps
  accept-AllEarly a u id db h = elim (Result-cases (accept prisma a u id db).0) [
    | inl (e, bad) ↦ rw (accept-atomic prisma a u id db e bad) h
    | inr (_, good) ↦
        rw (accept-state prisma id a u db (accept-found prisma id a u db good).1 good) (
          set_order-AllEarly u id a (λ o. record o { stage = stage_accept }) stage_accept
            (λ o k. refl) db h)
  ]

  create_order-user_order :
      (fresh : ℕ → String) (now today : ℕ) (user_id : String) (dto : CreateOrder) (db : Db Table)
      → ((create_order prisma fresh now today user_id dto db).1.user_order ≡ db.user_order)
        ⊎ ((address : UserAddress) × ((create_order prisma fresh now today user_id dto
                db).1.user_order
              ≡ create (new_order (fresh 0) user_id dto address now) db.user_order))
  unfolding create_order
  create_order-user_order fresh now today user_id dto db =
      elim (Option-cases
        (find_first (λ a. a.user_address_id === dto.user_address_id) db.user_address)) [
          | inl missing ↦ inl (ground arith)
          | inr (address, e) ↦
              elim (Bool-cases (
                not (check_store_is_infinite prisma dto.store_id now db)
                && leb 10 (get_store_today_valid_orders prisma dto.store_id today db))) [
                  | inl full ↦ inl (ground arith)
                  | inr free ↦ inr (address, ground arith)
                ]
        ]

  pub create_order-AllEarly :
      (fresh : ℕ → String) (now today : ℕ) (user_id : String) (dto : CreateOrder)
      → Keeps AllEarly (create_order prisma fresh now today user_id dto)
  unfolding new_order Keeps
  create_order-AllEarly fresh now today user_id dto db h =
      elim (create_order-user_order fresh now today user_id dto db) [
        | inl same ↦ rw same h
        | inr (address, e) ↦ rw (e, rows-create) (All-append IsEarly _ _ h (refl, tt))
      ]
