-- ===== src/Resource/Approval.antt =====
-- `approveOrder` of src/store/store-resource/store-resource.service.ts.
use open_api.Prelude.{
  ℕ, ℤ, pos, ◌+ℤ◌, ◌==ℤ◌, ◌==◌, false, String, ◌===◌, ◌≡◌, refl, ap, ◌∙◌, inl, inr, none, some,
  Option, ok, arith, find_sound, find-map_where_self, find-map_where_ne, find-map_where_hit,
  find-append, find-append_miss, Bool-cases, Option-cases, eq_iff, eq_refl,
}
use open_api.Schema.{StoreResource, StoreResourceOrder, Db}
use open_api.Prisma.{Prisma}
use open_api.Resource.{
  free_quota, find_resource_order, get_store_resource, raise_quota, approve_order,
}

-- The quota of a store: that of its row, or the free one where it has no row.
abbrev pub quota_of : Option StoreResource → ℤ
quota_of none = free_quota
quota_of (some r) = r.total_quota

module _ (prisma : Prisma) where
  open prisma use {Table, rows, find_first-rows, rows-update, rows-create}

  pub quota : String → Db Table → ℤ
  quota store_id db = quota_of (get_store_resource prisma store_id db)

  -- What a granted approval of an order requires and changes.
  pub record Approved (id : ℕ) (db db' : Db Table) : Type 0 where
    pub order : StoreResourceOrder
    pub found : find_resource_order prisma id db ≡ some order
    pub pending : (order.status ==ℤ pos 1) ≡ false
    pub marked : find_resource_order prisma id db' ≡ some (record order { status = pos 1 })
    pub raised : quota order.store_id db' ≡ quota order.store_id db +ℤ order.quota_amount
    pub others :
        (store_id : String)
        → (store_id === order.store_id) ≡ false
        → get_store_resource prisma store_id db' ≡ get_store_resource prisma store_id db

  module _ (id : ℕ) (db : Db Table) where
    -- The database with the order marked.
    marked_db : Db Table
    marked_db = record db {
      store_resource_order =
          prisma.update (λ o. o.id == id) (λ o. record o { status = pos 1 })
            db.store_resource_order;
    }

    approve_order_lem :
        (approve_order prisma id db).0 ≡ ok tt
        → (order : StoreResourceOrder) × (find_resource_order prisma id db ≡ some order)
          × ((order.status ==ℤ pos 1) ≡ false)
          × ((approve_order prisma id db).1
              ≡ (raise_quota prisma order
                  (get_store_resource prisma order.store_id db)
                  marked_db).1)
    unfolding approve_order marked_db get_store_resource
    approve_order_lem h = elim (Option-cases (find_resource_order prisma id db)) [
      | inl missing ↦ absurd (ground arith)
      | inr (order, found) ↦ elim (Bool-cases (order.status ==ℤ pos 1)) [
        | inl again ↦ absurd (ground arith)
        | inr first ↦ (order, found, first, rw (found, first) refl)
      ]
    ]

  raise_quota-orders :
      (order : StoreResourceOrder) (resource : Option StoreResource) (db : Db Table)
      → (raise_quota prisma order resource db).1.store_resource_order ≡ db.store_resource_order
  unfolding raise_quota
  raise_quota-orders order none db = refl
  raise_quota-orders order (some r) db = refl

  raise_quota-quota :
      (order : StoreResourceOrder) (resource : Option StoreResource) (db : Db Table)
      → get_store_resource prisma order.store_id db ≡ resource
      → quota order.store_id (raise_quota prisma order resource db).1
        ≡ quota_of resource +ℤ order.quota_amount
  unfolding raise_quota quota get_store_resource
  raise_quota-quota order none db missing =
      rw
        (
          find_first-rows,
          rows-create,
          find-append _ (rows db.store_resource) _ (rw find_first-rows at missing),
          eq_refl order.store_id,
        )
        refl
  raise_quota-quota order (some r) db found =
      rw
        (
          find_first-rows,
          rows-update,
          find-map_where_hit (λ x. x.store_id === order.store_id)
              (λ x. x.store_id === order.store_id)
              (λ x. record x { total_quota = r.total_quota +ℤ order.quota_amount })
              (rows db.store_resource) r (λ _. refl)
              (find_sound (λ x. x.store_id === order.store_id) (rows db.store_resource) r
                (rw find_first-rows at found))
              (rw find_first-rows at found),
        )
        refl

  raise_quota_other :
      (order : StoreResourceOrder) (resource : Option StoreResource) (db : Db Table)
      (other : String)
      → (other === order.store_id) ≡ false
      → get_store_resource prisma other (raise_quota prisma order resource db).1
        ≡ get_store_resource prisma other db
  unfolding raise_quota get_store_resource
  raise_quota_other order none db other ne =
      rw
        (
          find_first-rows,
          find_first-rows,
          rows-create,
          find-append_miss (λ x. x.store_id === other) (rows db.store_resource)
              (record { store_id = order.store_id; total_quota = free_quota +ℤ order.quota_amount })
              (ground (arith, eq_iff order.store_id other, eq_iff other order.store_id)),
        )
        refl
  raise_quota_other order (some r) db other ne =
      rw
        (
          find_first-rows,
          find_first-rows,
          rows-update,
          find-map_where_ne (λ x. x.store_id === other) (λ x. x.store_id === order.store_id)
              (λ x. record x { total_quota = r.total_quota +ℤ order.quota_amount })
              (rows db.store_resource)
              (λ x h. ground (
                arith,
                eq_iff x.store_id other,
                eq_iff x.store_id order.store_id,
                eq_iff other order.store_id,
              ))
              (λ _. refl),
        )
        refl

  marked-find :
      (id : ℕ) (db : Db Table) (order : StoreResourceOrder)
      → find_resource_order prisma id db ≡ some order
      → find_resource_order prisma id (marked_db id db) ≡ some (record order { status = pos 1 })
  unfolding find_resource_order marked_db
  marked-find id db order found =
      rw
        (
          find_first-rows,
          rows-update,
          find-map_where_self (λ o. o.id == id) (λ o. record o { status = pos 1 })
              (rows db.store_resource_order) (λ _. refl),
          (rw find_first-rows at found),
        )
        refl

  marked-get_store_resource :
      (id : ℕ) (db : Db Table) (store_id : String)
      → get_store_resource prisma store_id (marked_db id db) ≡ get_store_resource prisma store_id db
  unfolding marked_db get_store_resource
  marked-get_store_resource id db store_id = refl

  raised-find :
      (id : ℕ) (order : StoreResourceOrder) (resource : Option StoreResource) (db : Db Table)
      → find_resource_order prisma id (raise_quota prisma order resource db).1
        ≡ find_resource_order prisma id db
  unfolding find_resource_order
  raised-find id order resource db =
      ap (λ t. prisma.find_first (λ o. o.id == id) t) (raise_quota-orders order resource db)

  -- A granted approval is that of an order that is there and was not approved before. It marks the
  -- order as approved and raises the quota of its store, the free quota where it had no row, by the
  -- amount of the order; the quotas of all other stores stay as they were.
  pub approve_order-Approved :
      (id : ℕ) (db : Db Table)
      → (approve_order prisma id db).0 ≡ ok tt
      → Approved id db (approve_order prisma id db).1
  unfolding quota
  approve_order-Approved id db h =
      let (order, found, pending, state) = approve_order_lem id db h in
      let resource = get_store_resource prisma order.store_id db in
      let same : get_store_resource prisma order.store_id (marked_db id db) ≡ resource =
        marked-get_store_resource id db order.store_id in
      rw state (record {
        order = order;
        found = found;
        pending = pending;
        marked = raised-find id order resource (marked_db id db) ∙ marked-find id db order found;
        raised = raise_quota-quota order resource (marked_db id db) same;
        others = λ other ne.
            raise_quota_other order resource (marked_db id db) other ne
            ∙ marked-get_store_resource id db other;
      })
