-- ===== src/Schema.antt =====
-- prisma/schema.prisma: the rows that the modelled services read and write, and the database. The
-- columns `create_date` and `update_date` stand only in the rows whose services read them.
mod Orders
mod Stores
mod Services
mod Access
pub use Orders.*
pub use Stores.*
pub use Services.*
pub use Access.*
use Prim.Native.String.{String}
use open_api.Prelude.{ℕ, Option}

-- The database: one table for each model.
pub record Db (Table : Type 0 → Type 0) : Type 0 where
  pub user : Table User
  pub user_address : Table UserAddress
  pub user_order : Table UserOrder
  pub user_order_info : Table UserOrderInfo
  pub user_order_action : Table UserOrderAction
  pub store_order_refund : Table StoreOrderRefund
  pub store : Table Store
  pub store_history : Table StoreHistory
  pub store_goods : Table StoreGoods
  pub store_goods_version : Table StoreGoodsVersion
  pub category_goods : Table CategoryGoods
  pub store_member : Table StoreMember
  pub store_recharge : Table StoreRecharge
  pub store_pay_pending : Table StorePayPending
  pub store_staff : Table StoreStaff
  pub store_attendance : Table StoreAttendance
  pub store_service_plan : Table StoreServicePlan
  pub store_service_subscription : Table StoreServiceSubscription
  pub store_service_contract : Table StoreServiceContract
  pub store_service_invoice : Table StoreServiceInvoice
  pub store_service_payment : Table StoreServicePayment
  pub store_resource : Table StoreResource
  pub store_resource_order : Table StoreResourceOrder
  pub file : Table StoredFile
  pub platform_quota_order : Table PlatformQuotaOrder
  pub platform_activation_code : Table PlatformActivationCode
  pub store_settlement : Table StoreSettlement
  pub platform_settlement : Table PlatformSettlement
  pub store_order_service_fee : Table StoreOrderServiceFee
  pub user_signin_password : Table UserSigninPassword
  pub auth : Table Auth
  pub role : Table Role
  pub user_auth : Table UserAuth
  pub user_role : Table UserRole
  pub auth_role : Table AuthRole
  -- The entries `used_quota:` of the cache, which is no part of the database: the sizes by store.
  pub used_quota : String → Option ℕ
