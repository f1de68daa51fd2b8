-- ===== src/Resource.antt =====
-- src/store/store-resource/store-resource.service.ts: orders for room for images, and the quota of a
-- store that an approved order raises.
pub mod Approval
pub mod Used
mod Tests
use open_api.Prelude.{
  ℕ, ℤ, pos, ◌+ℤ◌, ◌==ℤ◌, ◌==◌, String, ◌===◌, Option, none, some, Action, bad_request, not_found,
  gets, or_raise, raise_if, modify, ◌>>=◌, ◌>>◌,
}
use open_api.Schema.{StoreResource, StoreResourceOrder, Db}
use open_api.Prisma.{Prisma}

-- The object that `createQuotaOrder` takes.
pub record QuotaPayload : Type 0 where
  pub store_id : String
  pub quota_amount : ℤ
  pub price : ℤ

-- STORE_RESOURCE_TYPES.pay
abbrev pub pay : ℤ
pay = pos 2

-- `10 * 1024 * 1024`
abbrev pub free_quota : ℤ
free_quota = pos 10485760

module _ (prisma : Prisma) where
  open prisma use {Table, find_first, update, create, next_id}

  pub create_quota_order : String → ℕ → QuotaPayload → Action (Db Table) (Unit {0})
  create_quota_order order_id now payload = modify (λ db. record db {
    store_resource_order =
        create
          (record {
            id = next_id db.store_resource_order;
            order_id = order_id;
            store_id = payload.store_id;
            type = pay;
            quota_amount = payload.quota_amount;
            price = payload.price;
            status = pos 0;
            create_date = now;
          })
          db.store_resource_order;
  })

  unfoldable pub find_resource_order : ℕ → Db Table → Option StoreResourceOrder
  find_resource_order id db = find_first (λ o. o.id == id) db.store_resource_order

  -- `getStoreResource`
  unfoldable pub get_store_resource : String → Db Table → Option StoreResource
  get_store_resource store_id db = find_first (λ r. r.store_id === store_id) db.store_resource

  unfoldable pub raise_quota :
      StoreResourceOrder → Option StoreResource → Action (Db Table) (Unit {0})
  raise_quota order none = modify (λ db. record db {
    store_resource =
        create
          (record { store_id = order.store_id; total_quota = free_quota +ℤ order.quota_amount })
          db.store_resource;
  })
  raise_quota order (some resource) = modify (λ db. record db {
    store_resource =
        update (λ r. r.store_id === order.store_id)
          (λ r. record r { total_quota = resource.total_quota +ℤ order.quota_amount })
          db.store_resource;
  })

  unfoldable pub approve_order : ℕ → Action (Db Table) (Unit {0})
  approve_order id = do
    order ← or_raise (← gets (find_resource_order id)) (not_found "申请记录不存在")
    raise_if (order.status ==ℤ pos 1) (bad_request "该申请已通过，请勿重复操作")
    modify (λ db. record db {
      store_resource_order =
          update (λ o. o.id == id) (λ o. record o { status = pos 1 }) db.store_resource_order;
    })
    resource ← gets (get_store_resource order.store_id)
    raise_quota order resource
