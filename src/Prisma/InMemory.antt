-- ===== src/Prisma/InMemory.antt =====
-- A database client that keeps each table as its list of rows: the assumptions on the client can be
-- met, and the tests run on it.
use open_api.Prisma.Sorting.{sort_by, sort_by-perm, sort_by-IsAscending}
use open_api.Prelude.{none, not, List, refl, ◌∷◌, [], ◌++◌, find, select, length, map_where}
use open_api.Schema.{Db}
use open_api.Prisma.{Prisma}

abbrev pub in_memory : Prisma
in_memory = record {
  Table = λ R. List R;
  rows = λ t. t;
  find_first = λ p t. find p t;
  find_many = λ p t. select p t;
  count = λ p t. length (select p t);
  update = λ p f t. map_where p f t;
  create = λ r t. t ++ r ∷ [];
  find_many_by = λ p column t. sort_by column (select p t);
  delete = λ p t. select (λ r. not (p r)) t;
  next_id = λ t. length t;
  missing_message = "Record to update not found";
  unique_message = "Unique constraint failed";
  find_first-rows = λ p t. refl;
  find_many-rows = λ p t. refl;
  count-rows = λ p t. refl;
  rows-update = λ p f t. refl;
  rows-create = λ r t. refl;
  rows-delete = λ p t. refl;
  find_many_by-perm = λ p column t. sort_by-perm column (select p t);
  find_many_by-IsAscending = λ p column t. sort_by-IsAscending column (select p t);
}

-- The database with no rows.
abbrev pub empty_db : Db (λ R. List R)
empty_db = record {
  user = [];
  user_address = [];
  user_order = [];
  user_order_info = [];
  user_order_action = [];
  store_order_refund = [];
  store = [];
  store_history = [];
  store_goods = [];
  store_goods_version = [];
  category_goods = [];
  store_member = [];
  store_recharge = [];
  store_pay_pending = [];
  store_staff = [];
  store_attendance = [];
  store_service_plan = [];
  store_service_subscription = [];
  store_service_contract = [];
  store_service_invoice = [];
  store_service_payment = [];
  store_resource = [];
  store_resource_order = [];
  file = [];
  platform_quota_order = [];
  platform_activation_code = [];
  store_settlement = [];
  platform_settlement = [];
  store_order_service_fee = [];
  user_signin_password = [];
  auth = [];
  role = [];
  user_auth = [];
  user_role = [];
  auth_role = [];
  used_quota = λ store_id. none;
}
