-- ===== src/Staff.antt =====
-- src/store/staff/staff.service.ts: the staff of a store, with the tests on phone numbers of
-- src/common/utils/index.ts. `trim` is the function of a JavaScript string.
pub mod Hiring
mod Tests
use text.Mathlib.Text.{starts_with}
use Prim.Native.String.{◌++◌}
use open_api.Prelude.{
  ℕ, ℤ, pos, leb, ◌==◌, Bool, true, false, not, ◌&&◌, ◌||◌, String, ◌===◌, length, codes,
  all_digits, get_or, or_text, is_some, Option, none, some, List, [], ◌∷◌, if◌then◌else◌, Action,
  bad_request, not_found, conflict, unique_violation, pure, gets, or_raise, raise_if, modify, ◌>>=◌,
  ◌>>◌,
}
use open_api.Schema.{Store, StoreStaff, User, Db}
use open_api.Prisma.{Prisma}

-- CreateStaffDto
pub record CreateStaff : Type 0 where
  pub store_id : String
  pub name : String
  pub phone : String
  pub user_id : Option String
  pub status : Option ℤ
  pub can_cashier : Option ℤ

-- UpdateStaffDto
pub record UpdateStaff : Type 0 where
  pub name : Option String
  pub phone : Option String
  pub user_id : Option String
  pub status : Option ℤ
  pub can_cashier : Option ℤ

-- `/^[1][3-9]\d{9}$/` on the code points of a text.
abbrev pub is_mobile : List ℕ → Bool
is_mobile [] = false
is_mobile (a ∷ []) = false
is_mobile (a ∷ b ∷ rest) =
    a == 49 && (leb 51 b && (leb b 57 && (length rest == 9 && all_digits rest)))

abbrev pub verify_phone_number : String → Bool
verify_phone_number phone = is_mobile (codes phone)

module _ (trim : String → String) where
  unfoldable pub is_temp_phone : String → Bool
  is_temp_phone phone =
      phone === ""
      || (starts_with (trim phone) "tmp"
          || (length (codes (trim phone)) == 13 && all_digits (codes (trim phone))))

  unfoldable pub is_real_mobile_phone : String → Bool
  is_real_mobile_phone phone =
      not (phone === "" || is_temp_phone phone) && verify_phone_number (trim phone)

  -- `a && a === b`
  abbrev pub is_phone : String → String → Bool
  is_phone a b = not (a === "") && a === b

  -- The phone of the owner's row, empty where there is none.
  abbrev pub owner_phone : Option User → String
  owner_phone none = trim ""
  owner_phone (some owner) = trim (or_text owner.phone "")

  module _ (prisma : Prisma) where
    open prisma use {Table, find_first, update, create, delete, next_id}

    unfoldable pub find_phone : String → String → Db Table → Option StoreStaff
    find_phone store_id phone db =
        find_first (λ s. s.store_id === store_id && s.phone === phone) db.store_staff

    -- The user of a new staff: the owner, where the phone is the owner's.
    user_of : CreateStaff → Store → Db Table → Option String
    user_of dto store db =
        let owner = find_first (λ u. u.user_id === store.user_id) db.user in
        if or_text dto.user_id "" === ""
          && (not (store.user_id === "")
              && (is_phone (owner_phone owner) (trim dto.phone)
                  || is_phone (trim store.phone) (trim dto.phone)))
        then some store.user_id
        else dto.user_id

    -- The row of a new staff.
    abbrev pub staff_of : String → CreateStaff → Option String → StoreStaff
    staff_of staff_id dto user_id = record {
      staff_id = staff_id;
      store_id = dto.store_id;
      user_id = user_id;
      name = dto.name;
      phone = trim dto.phone;
      status = get_or dto.status (pos 1);
      can_cashier = get_or dto.can_cashier (pos 0);
    }

    unfoldable pub create_staff : String → CreateStaff → Action (Db Table) (Unit {0})
    unfolding user_of
    create_staff staff_id dto = do
      raise_if (not (is_real_mobile_phone (trim dto.phone))) (bad_request "请输入有效的11位手机号，不能使用临时账号")
      store ←
          or_raise (← gets (λ db. find_first (λ s. s.store_id === dto.store_id) db.store))
            (bad_request "门店不存在")
      existing ← gets (find_phone dto.store_id (trim dto.phone))
      raise_if (is_some existing) (conflict "该手机号已在该店铺注册为员工")
      user_id ← gets (user_of dto store)
      modify
          (λ db. record db { store_staff = create (staff_of staff_id dto user_id) db.store_staff })

    pub find_one : String → Action (Db Table) StoreStaff
    find_one staff_id db =
        or_raise (find_first (λ s. s.staff_id === staff_id) db.store_staff)
          (not_found ("未找到ID为 " ++ staff_id ++ " 的员工")) db

    -- `String(phone).trim()`, where a phone is given.
    new_phone : Option String → String → String
    new_phone none old = old
    new_phone (some phone) old = trim phone

    -- Whether another staff of the store has the phone (`@@unique([store_id, phone])`).
    phone_taken : StoreStaff → String → Db Table → Bool
    phone_taken staff phone db = is_some (
        find_first
          (λ s.
            s.store_id === staff.store_id
            && (s.phone === phone && not (s.staff_id === staff.staff_id)))
          db.store_staff)

    kept_or : Option String → Option String → Option String
    kept_or none old = old
    kept_or (some s) old = some s

    pub update_staff : String → UpdateStaff → Action (Db Table) (Unit {0})
    unfolding find_one new_phone phone_taken kept_or
    update_staff staff_id dto = do
      staff ← find_one staff_id
      taken ← gets (phone_taken staff (new_phone dto.phone staff.phone))
      raise_if taken unique_violation
      modify (λ db. record db {
        store_staff =
            update (λ s. s.staff_id === staff_id)
              (λ s. record s {
                name = get_or dto.name s.name;
                phone = new_phone dto.phone s.phone;
                user_id = kept_or dto.user_id s.user_id;
                status = get_or dto.status s.status;
                can_cashier = get_or dto.can_cashier s.can_cashier;
              })
              db.store_staff;
      })

    pub remove_staff : String → Action (Db Table) (Unit {0})
    unfolding find_one
    remove_staff staff_id = do
      find_one staff_id
      modify
          (λ db. record db { store_staff = delete (λ s. s.staff_id === staff_id) db.store_staff })
