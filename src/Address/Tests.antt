-- ===== src/Address/Tests.antt =====
-- Calls of the addresses on a small database.
use open_api.Prelude.{
  String, ◌≡◌, refl, true, false, none, some, Option, Bool, List, [], ◌∷◌, arith, map,
}
use open_api.Schema.{Address}
use open_api.Prisma.InMemory.{in_memory, empty_db}
use open_api.Address.{
  AddressForm, Request, create_address, update_address, remove_address, find_own, find_removable,
  serve, serve_all,
}
use open_api.Address.Default.{IsTidy, serve_all-IsTidy}
use open_api.Address.Count.{defaults}

abbrev home : Address
home = record {
  province = "33";
  city = "3301";
  area = "330106";
  town = "0";
  address = "Road 1";
  phone = "13800000000";
  recipient = "Li";
}

abbrev form : Option Bool → AddressForm
form is_default = record { place = home; is_default = is_default; tag = none }

abbrev moves : List Request
moves =
    Request.create "a1" "u1" (form (some true))
    ∷ Request.create "a2" "u1" (form none)
    ∷ Request.create "a3" "u2" (form (some true))
    ∷ Request.update "a2" (form (some true)) "u1"
    ∷ Request.update "a3" (form (some true)) "u1"
    ∷ Request.remove "a1" "u1"
    ∷ []

-- The second address took the default over, the other user's call for it was refused, and nothing
-- was removed.
moves_run :
    map {B = String × Bool × Bool}
      (λ a. (a.user_address_id, a.is_default, a.status))
      (serve_all in_memory moves empty_db).user_address
    ≡ ("a1", false, true) ∷ ("a2", true, true) ∷ ("a3", true, true) ∷ []
unfolding serve_all serve create_address update_address remove_address find_own find_removable
moves_run = refl

empty_db-IsTidy : IsTidy in_memory empty_db
unfolding IsTidy defaults
empty_db-IsTidy = (tt, λ u. omega arith)

serve_all-IsTidy_example : IsTidy in_memory (serve_all in_memory moves empty_db)
serve_all-IsTidy_example = serve_all-IsTidy in_memory moves empty_db empty_db-IsTidy
