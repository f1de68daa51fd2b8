-- ===== src/Schema/Services.antt =====
-- The rows of prisma/schema.prisma about subscriptions, quotas, codes and settlements.
use open_api.Prelude.{ℕ, ℤ, String, Option, Bool, List}

pub record StoreServicePlan : Type 0 where
  pub id : ℕ
  pub plan_id : String
  pub name : String
  pub description : Option String
  pub monthly_fee : ℤ
  pub max_subscriptions : Option ℤ
  pub is_active : Bool

pub record StoreServiceSubscription : Type 0 where
  pub id : ℕ
  pub store_id : String
  pub plan_id : String
  pub start_date : ℕ
  pub end_date : ℕ
  pub status : ℤ
  pub is_infinite : Bool
  pub order_count_last_cycle : ℤ
  pub contract_id : Option ℕ

pub record StoreServiceContract : Type 0 where
  pub id : ℕ
  pub contract_no : String
  pub store_id : String
  pub plan_id : String
  pub start_date : ℕ
  pub end_date : ℕ
  pub status : ℤ
  pub sign_type : ℤ
  pub signed_at : Option ℕ
  pub total_amount : ℤ
  pub file_url : Option String

pub record StoreServiceInvoice : Type 0 where
  pub id : ℕ
  pub subscription_id : ℕ
  pub month : String
  pub start_date : ℕ
  pub end_date : ℕ
  pub amount : ℤ
  pub status : ℤ
  pub due_date : ℕ
  pub paid_at : Option ℕ

pub record StoreServicePayment : Type 0 where
  pub id : ℕ
  pub invoice_id : ℕ
  pub amount : ℤ
  pub method : String
  pub remark : Option String
  pub paid_at : ℕ

-- A BigInt column is an integer.
pub record StoreResource : Type 0 where
  pub store_id : String
  pub total_quota : ℤ

-- The row of an uploaded file (`file`).
pub record StoredFile : Type 0 where
  pub hash : String
  pub size : ℕ

pub record StoreResourceOrder : Type 0 where
  pub id : ℕ
  pub order_id : String
  pub store_id : String
  pub type : ℤ
  pub quota_amount : ℤ
  pub price : ℤ
  pub status : ℤ
  pub create_date : ℕ

pub record PlatformQuotaOrder : Type 0 where
  pub order_id : String
  pub user_id : String
  pub phone : String
  pub order_type : String
  pub store_id : Option String
  pub quota_amount : Option ℤ
  pub amount : ℤ
  pub status : ℤ
  pub confirm_date : Option ℕ
  pub confirm_user_id : Option String

pub record PlatformActivationCode : Type 0 where
  pub code : String
  pub order_id : Option String
  pub code_type : String
  pub bound_phone : String
  pub user_id : Option String
  pub store_id : Option String
  pub quota_amount : Option ℤ
  pub status : ℤ
  pub used_date : Option ℕ
  pub used_store_id : Option String

pub record StoreSettlementDetail : Type 0 where
  pub order_id : String
  pub amount : ℤ
  pub order_stage : ℤ
  pub pay_status : ℤ

-- The related rows of the details stand in the row that owns them.
pub record StoreSettlement : Type 0 where
  pub settlement_id : String
  pub store_id : String
  pub month : String
  pub total_orders : ℤ
  pub total_amount : ℤ
  pub total_income : ℤ
  pub status : ℤ
  pub start_date : ℕ
  pub end_date : ℕ
  pub settled_at : Option ℕ
  pub details : List StoreSettlementDetail

pub record PlatformSettlementDetail : Type 0 where
  pub type : ℤ
  pub ref_id : String
  pub store_id : String
  pub amount : ℤ
  pub remark : Option String

pub record PlatformSettlement : Type 0 where
  pub settlement_id : String
  pub month : String
  pub total_subscription_fee : ℤ
  pub total_resource_fee : ℤ
  pub total_order_service_fee : ℤ
  pub total_amount : ℤ
  pub start_date : ℕ
  pub end_date : ℕ
  pub status : ℤ
  pub settled_at : Option ℕ
  pub details : List PlatformSettlementDetail

pub record StoreOrderServiceFee : Type 0 where
  pub store_id : String
  pub order_id : String
  pub fee_date : ℕ
  pub fee_amount : ℤ
  pub month : String
  pub is_charged : Bool
