-- ===== src/Address.antt =====
-- src/users/address/address.service.ts: the addresses of a user. The key of a new address is an
-- argument, `address-` and `v4()`.
pub mod Count
pub mod Default
mod Tests
use open_api.Prelude.{
  Bool, true, false, ◌&&◌, String, ◌===◌, is_some, Option, none, some, List, [], ◌∷◌, if◌then◌else◌,
  same_flag, Action, bad_request, unique_violation, pure, raise_if, gets, or_raise, modify, ◌>>=◌,
  ◌>>◌,
}
use open_api.Schema.{Address, UserAddress, Db}
use open_api.Prisma.{Prisma}

-- CreateAddressDto, UpdateAddressDto
pub record AddressForm : Type 0 where
  pub place : Address
  pub is_default : Option Bool
  pub tag : Option String

-- `if (is_default)`
abbrev pub or_false : Option Bool → Bool
or_false none = false
or_false (some b) = b

abbrev pub not_default : UserAddress → UserAddress
not_default a = record a { is_default = false }

abbrev pub address_of : String → String → AddressForm → UserAddress
address_of id user_id form = record {
  user_address_id = id;
  user_id = user_id;
  place = form.place;
  is_default = or_false form.is_default;
  tag = form.tag;
  status = true;
}

-- A field that the form does not have stays as it is.
abbrev pub kept_flag : Option Bool → Bool → Bool
kept_flag none b = b
kept_flag (some new) b = new

abbrev pub kept_tag : Option String → Option String → Option String
kept_tag none tag = tag
kept_tag (some new) tag = some new

abbrev pub rewritten : AddressForm → UserAddress → UserAddress
rewritten form a = record a {
  place = form.place;
  is_default = kept_flag form.is_default a.is_default;
  tag = kept_tag form.tag a.tag;
}

-- `!!E_USER_ADDRESS_STATUS.inactive`
abbrev pub inactive : Bool
inactive = false

module _ (prisma : Prisma) where
  open prisma use {Table, find_first, find_many, update, create}

  unfoldable pub set_addresses :
      (UserAddress → Bool) → (UserAddress → UserAddress) → Action (Db Table) (Unit {0})
  set_addresses p f = modify (λ db. record db { user_address = update p f db.user_address })

  unfoldable pub update_user_all_address_is_not_default : String → Action (Db Table) (Unit {0})
  unfolding set_addresses
  update_user_all_address_is_not_default user_id =
      set_addresses (λ a. a.user_id === user_id) not_default

  -- `if (is_default) await this.updateUserAllAddressIsNotDefault(user.user_id)`
  unfoldable pub make_room : Option Bool → String → Action (Db Table) (Unit {0})
  unfolding update_user_all_address_is_not_default
  make_room is_default user_id =
      if or_false is_default then update_user_all_address_is_not_default user_id else pure tt

  unfoldable pub add_address : UserAddress → Action (Db Table) (Unit {0})
  add_address a = do
    taken ←
        gets (λ db.
          is_some (find_first (λ b. b.user_address_id === a.user_address_id) db.user_address))
    raise_if taken unique_violation
    modify (λ db. record db { user_address = create a db.user_address })

  unfoldable pub create_address : String → String → AddressForm → Action (Db Table) (Unit {0})
  unfolding make_room add_address
  create_address id user_id form = do
    make_room form.is_default user_id
    add_address (address_of id user_id form)

  unfoldable pub find_own : String → String → Db Table → Option UserAddress
  find_own id user_id db =
      find_first (λ a. a.user_address_id === id && a.user_id === user_id) db.user_address

  unfoldable pub update_address : String → AddressForm → String → Action (Db Table) (Unit {0})
  unfolding make_room set_addresses
  update_address id form user_id = do
    or_raise (← gets (find_own id user_id)) (bad_request "")
    make_room form.is_default user_id
    set_addresses (λ a. a.user_address_id === id) (rewritten form)

  unfoldable pub find_removable : String → String → Db Table → Option UserAddress
  find_removable id user_id db =
      find_first
        (λ a. a.user_address_id === id && (a.user_id === user_id && same_flag a.status inactive))
        db.user_address

  unfoldable pub remove_address : String → String → Action (Db Table) (Unit {0})
  unfolding set_addresses
  remove_address id user_id = do
    or_raise (← gets (find_removable id user_id)) (bad_request "")
    set_addresses (λ a. a.user_address_id === id) (λ a. record a { status = inactive })

-- A call of the service: the key of the new address, or of the one to change, and the user.
pub data Request : Type 0 where
  create : String → String → AddressForm → Request
  update : String → AddressForm → String → Request
  remove : String → String → Request

module _ (prisma : Prisma) where
  open prisma use {Table}

  -- The database after a call.
  unfoldable pub serve : Request → Db Table → Db Table
  serve (Request.create id user_id form) db = (create_address prisma id user_id form db).1
  serve (Request.update id form user_id) db = (update_address prisma id form user_id db).1
  serve (Request.remove id user_id) db = (remove_address prisma id user_id db).1

  unfoldable pub serve_all : List Request → Db Table → Db Table
  serve_all [] db = db
  serve_all (request ∷ requests) db = serve_all requests (serve request db)
