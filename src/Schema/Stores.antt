-- ===== src/Schema/Stores.antt =====
-- The rows of prisma/schema.prisma about stores, their goods, members and staff.
use open_api.Prelude.{ℕ, ℤ, String, Option, List}

pub record Store : Type 0 where
  pub store_id : String
  pub user_id : String
  pub store_name : String
  pub phone : String
  pub status : ℤ
  pub extra_member_limit : ℤ

pub record StoreHistory : Type 0 where
  pub store_id : String
  pub action_type : ℤ
  pub payload : Option String
  pub action_user_id : String
  pub action_date : ℕ
  pub create_date : ℕ

pub record StoreGoods : Type 0 where
  pub goods_id : String
  pub store_id : String
  pub category_id : String
  pub rank : ℤ
  pub name : String
  pub description : Option String
  pub status : ℤ

pub record StoreGoodsVersion : Type 0 where
  pub version_id : String
  pub goods_id : String
  pub image_hash : Option String
  pub version_number : Option String
  pub bar_code : Option String
  pub count : ℤ
  pub price : ℤ
  pub unit_name : String
  pub supplier : Option String
  pub status : ℤ
  pub create_date : ℕ

-- The services write no empty `pid`, though the column allows one.
pub record CategoryGoods : Type 0 where
  pub id : ℕ
  pub category_id : String
  pub store_id : String
  pub pid : String
  pub rank : ℤ
  pub name : String
  pub status : ℤ

pub record StoreMember : Type 0 where
  pub id : ℕ
  pub member_id : String
  pub store_id : String
  pub name : String
  pub phone : String
  pub gender : ℤ
  pub avatar : Option String
  pub birthday : Option String
  pub balance : ℤ
  pub points : ℤ
  pub status : ℤ

pub record StoreRecharge : Type 0 where
  pub recharge_id : String
  pub member_id : String
  pub store_id : String
  pub amount : ℤ
  pub received_amount : ℤ
  pub cashier_name : Option String
  pub remark : Option String

-- A line of a cashier's draft.
pub record DraftItem : Type 0 where
  pub goods_id : String
  pub name : String
  pub version_id : String
  pub count : ℤ
  pub price : ℤ

-- PendingOrderPayloadDto
pub record Draft : Type 0 where
  pub local_id : String
  pub total_amount : ℤ
  pub created_at : ℕ
  pub discount_rate : Option ℤ
  pub items : List DraftItem

-- The column `payload` holds the draft as JSON text; here it is the draft itself.
pub record StorePayPending : Type 0 where
  pub pending_id : String
  pub store_id : String
  pub status : String
  pub payload : Draft
  pub order_id : Option String
  pub member_id : Option String
  pub expire_at : ℕ

pub record StoreStaff : Type 0 where
  pub staff_id : String
  pub store_id : String
  pub user_id : Option String
  pub name : String
  pub phone : String
  pub status : ℤ
  pub can_cashier : ℤ

pub record StoreAttendance : Type 0 where
  pub attendance_id : String
  pub store_id : String
  pub staff_id : String
  pub work_date : String
  pub check_in_at : Option ℕ
  pub check_out_at : Option ℕ
  pub check_in_type : Option String
  pub check_out_type : Option String
  pub check_in_by : Option String
  pub check_out_by : Option String
  pub remark : Option String

-- The fields of UserEntity (src/users/entities/user.entity.ts) that the services read.
pub record User : Type 0 where
  pub user_id : String
  pub status : ℤ
  pub phone : Option String
  pub first_name : Option String
  pub last_name : Option String
