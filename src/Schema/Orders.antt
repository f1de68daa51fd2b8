-- ===== src/Schema/Orders.antt =====
-- The rows of prisma/schema.prisma about orders and addresses. A DateTime is its milliseconds since
-- the epoch, and an Int column is an integer.
use open_api.Prelude.{ℕ, ℤ, String, Option, Bool}

pub record Address : Type 0 where
  pub province : String
  pub city : String
  pub area : String
  pub town : String
  pub address : String
  pub phone : String
  pub recipient : String

pub record UserAddress : Type 0 where
  pub user_address_id : String
  pub user_id : String
  pub place : Address
  pub is_default : Bool
  pub tag : Option String
  pub status : Bool

pub record UserOrder : Type 0 where
  pub order_id : String
  pub user_id : String
  pub store_id : String
  pub status : ℤ
  pub stage : ℤ
  pub payment_method : String
  pub pay_status : ℤ
  pub paid_at : Option ℕ
  pub pay_proof_url : Option String
  pub money : ℤ
  pub original_amount : ℤ
  pub discount_rate : ℤ
  pub discount_amount : ℤ
  pub points_used : ℤ
  pub points_earn : ℤ
  pub refunded_amount : ℤ
  pub refund_clear_points : ℤ
  pub operator_type : Option String
  pub operator_staff_id : Option String
  pub operator_name : Option String
  pub place : Address
  pub delivery_date : ℕ
  pub create_date : ℕ
  pub update_date : ℕ

pub record UserOrderInfo : Type 0 where
  pub order_info_id : String
  pub order_id : String
  pub goods_id : String
  pub goods_name : String
  pub goods_version_id : String
  pub count : ℤ
  pub price : ℤ

pub record UserOrderAction : Type 0 where
  pub order_action_id : String
  pub user_id : String
  pub order_id : String
  pub status : ℤ

pub record StoreOrderRefund : Type 0 where
  pub refund_id : String
  pub store_id : String
  pub order_id : String
  pub amount : ℤ
  pub payment_method : Option String
