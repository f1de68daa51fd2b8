-- ===== src/Address/Default.antt =====
-- src/users/address/address.service.ts: the default address of each user, and removal, over any
-- sequence of calls.
use open_api.Prelude.{
  ◌+◌, ◌≤◌, ◌≡◌, refl, ap, sym, ◌∙◌, inl, inr, Bool, true, false, ◌&&◌, String, ◌===◌, eq_iff,
  Option, some, none, List, [], ◌∷◌, ◌++◌, select, length, map_where, All, All-map_where, UniqueBy,
  UniqueBy-map_where, UniqueBy-append_new, Bool-cases, Option-cases, arith, Action, ◌>>◌, subst,
  select-append, length-append, if◌then◌else◌,
}
use open_api.Schema.{UserAddress, Db}
use open_api.Prisma.{Prisma}
use open_api.Address.{
  AddressForm, or_false, not_default, address_of, rewritten, set_addresses, make_room,
  update_user_all_address_is_not_default, add_address, create_address, find_own, Request, serve,
  serve_all, update_address, remove_address, find_removable, inactive,
}
use open_api.Address.Count.{
  is_own_default, key, defaults, defaults-clear_own, defaults-map_where, hit-own, All-of_each,
  defaults-rewritten,
}

module _ (prisma : Prisma) where
  open prisma use {Table, find_first, rows, find_first-rows, rows-update, rows-create}

  -- Addresses have different keys, and no user has two default addresses.
  unfoldable pub IsTidy : Db Table → Type 0
  IsTidy db =
      UniqueBy key (rows db.user_address)
      × ((user_id : String) → defaults user_id (rows db.user_address) ≤ 1)

  -- There is room for a new default, if one is asked for.
  HasRoom : Bool → String → Db Table → Type 0
  HasRoom wanted user_id db =
      IsTidy db × (wanted ≡ true → defaults user_id (rows db.user_address) ≡ 0)

  -- The rows with the key are the user's.
  IsOwn : String → String → Db Table → Type 0
  IsOwn id user_id db =
      All (λ a. (key a === id) ≡ true → (a.user_id === user_id) ≡ true) (rows db.user_address)

  set_addresses-rows :
      (p : UserAddress → Bool) (f : UserAddress → UserAddress) (db : Db Table)
      → rows (set_addresses prisma p f db).1.user_address ≡ map_where p f (rows db.user_address)
  unfolding set_addresses
  set_addresses-rows p f db = rows-update p f db.user_address

  make_room-HasRoom :
      (o : Option Bool) (user_id : String) (db : Db Table)
      → IsTidy db
      → HasRoom (or_false o) user_id (make_room prisma o user_id db).1
  unfolding IsTidy HasRoom make_room update_user_all_address_is_not_default
  make_room-HasRoom none user_id db tidy = (tidy, λ e. absurd (ground arith))
  make_room-HasRoom (some false) user_id db tidy = (tidy, λ e. absurd (ground arith))
  make_room-HasRoom (some true) user_id db tidy =
      rw (set_addresses-rows (λ a. a.user_id === user_id) not_default db) (
        (
          UniqueBy-map_where key (λ a. a.user_id === user_id) not_default (rows db.user_address)
              (λ a. refl) tidy.0,
          λ u. omega (
            arith,
            tidy.1 u,
            defaults-map_where u (λ a. a.user_id === user_id) not_default (rows db.user_address)
                (All-of_each _ _ (λ a hit now. absurd (ground arith))),
          ),
        ),
        λ e. defaults-clear_own user_id (rows db.user_address),
      )

  make_room-IsOwn :
      (o : Option Bool) (id user_id : String) (db : Db Table)
      → IsOwn id user_id db
      → IsOwn id user_id (make_room prisma o user_id db).1
  unfolding IsOwn make_room update_user_all_address_is_not_default
  make_room-IsOwn none id user_id db own = own
  make_room-IsOwn (some false) id user_id db own = own
  make_room-IsOwn (some true) id user_id db own =
      rw (set_addresses-rows (λ a. a.user_id === user_id) not_default db) (
        All-map_where (λ a. (key a === id) ≡ true → (a.user_id === user_id) ≡ true)
          (λ a. a.user_id === user_id) not_default (rows db.user_address) (λ a hit h. h) own)

  -- Setting the one row of a key, where there is room.
  set_addresses-IsTidy :
      (id user_id : String) (form : AddressForm) (db : Db Table)
      → HasRoom (or_false form.is_default) user_id db
      → IsOwn id user_id db
      → IsTidy (set_addresses prisma (λ a. a.user_address_id === id) (rewritten form) db).1
  unfolding IsTidy HasRoom IsOwn
  set_addresses-IsTidy id user_id form db room own =
      rw (set_addresses-rows (λ a. a.user_address_id === id) (rewritten form) db) (
        UniqueBy-map_where key (λ a. a.user_address_id === id) (rewritten form)
            (rows db.user_address) (λ a. refl) room.0.0,
        λ u. defaults-rewritten u id user_id form _ room.0.0 own room.1 (room.0.1 u),
      )

  defaults-append :
      (u : String) (xs : List UserAddress) (a : UserAddress)
      → defaults u (xs ++ a ∷ []) ≡ defaults u xs + (if is_own_default u a then 1 else 0)
  unfolding defaults
  defaults-append u xs a =
      ap length (select-append (is_own_default u) xs (a ∷ []))
      ∙ length-append (select (is_own_default u) xs) _
      ∙ ground arith

  defaults-added :
      (u user_id id : String) (form : AddressForm) (xs : List UserAddress)
      → (or_false form.is_default ≡ true → defaults user_id xs ≡ 0)
      → defaults u xs ≤ 1
      → defaults u (xs ++ address_of id user_id form ∷ []) ≤ 1
  defaults-added u user_id id form xs room most =
      elim (Bool-cases (user_id === u && or_false form.is_default)) [
        | inr apart ↦ ground (arith, defaults-append u xs (address_of id user_id form))
        | inl both ↦
            let same : user_id ≡ u = ground (arith, eq_iff user_id u) in
            let none_yet : defaults u xs ≡ 0 =
              subst (λ v. defaults v xs ≡ 0) same (room (ground arith)) in
            ground (arith, defaults-append u xs (address_of id user_id form))
      ]

  add_address-IsTidy :
      (id user_id : String) (form : AddressForm) (db : Db Table)
      → HasRoom (or_false form.is_default) user_id db
      → IsTidy (add_address prisma (address_of id user_id form) db).1
  unfolding IsTidy HasRoom add_address
  add_address-IsTidy id user_id form db room =
      elim (Option-cases (find_first (λ b. b.user_address_id === id) db.user_address)) [
        | inr (a, taken) ↦ rw taken room.0
        | inl new ↦
            let a = address_of id user_id form in
            let missing =
              sym (find_first-rows (λ b. b.user_address_id === id) db.user_address) ∙ new in
            rw (new, rows-create a db.user_address)
              (
                UniqueBy-append_new key (rows db.user_address) a missing room.0.0,
                λ u. defaults-added u user_id id form (rows db.user_address) room.1 (room.0.1 u),
              )
      ]

  make_room_then :
      (o : Option Bool) (user_id : String) (m : Action (Db Table) (Unit {0})) (db : Db Table)
      → (make_room prisma o user_id >> m) db ≡ m (make_room prisma o user_id db).1
  unfolding make_room update_user_all_address_is_not_default set_addresses
  make_room_then none user_id m db = refl
  make_room_then (some false) user_id m db = refl
  make_room_then (some true) user_id m db = refl

  create_address-IsTidy :
      (id user_id : String) (form : AddressForm) (db : Db Table)
      → IsTidy db
      → IsTidy (create_address prisma id user_id form db).1
  unfolding create_address
  create_address-IsTidy id user_id form db tidy =
      subst (λ x. IsTidy x.1)
        (sym (
          make_room_then form.is_default user_id (add_address prisma (address_of id user_id form))
            db))
        (add_address-IsTidy id user_id form _ (make_room-HasRoom form.is_default user_id db tidy))

  find_own-IsOwn :
      (id user_id : String) (r : UserAddress) (db : Db Table)
      → IsTidy db
      → find_own prisma id user_id db ≡ some r
      → IsOwn id user_id db
  unfolding IsTidy IsOwn find_own
  find_own-IsOwn id user_id r db tidy found =
      hit-own user_id id (rows db.user_address) r tidy.0
        (sym (find_first-rows _ db.user_address) ∙ found)

  update_address-IsTidy :
      (id user_id : String) (form : AddressForm) (db : Db Table)
      → IsTidy db
      → IsTidy (update_address prisma id form user_id db).1
  unfolding update_address
  update_address-IsTidy id user_id form db tidy =
      elim (Option-cases (find_own prisma id user_id db)) [
        | inl missing ↦ rw missing tidy
        | inr (r, found) ↦
            let own = find_own-IsOwn id user_id r db tidy found in
            rw found (
              subst (λ x. IsTidy x.1)
                (sym (
                  make_room_then form.is_default user_id
                    (set_addresses prisma (λ a. a.user_address_id === id) (rewritten form)) db))
                (set_addresses-IsTidy id user_id form _
                  (make_room-HasRoom form.is_default user_id db tidy)
                  (make_room-IsOwn form.is_default id user_id db own)))
      ]

  remove_address-IsTidy :
      (id user_id : String) (db : Db Table)
      → IsTidy db
      → IsTidy (remove_address prisma id user_id db).1
  unfolding IsTidy remove_address
  remove_address-IsTidy id user_id db tidy =
      elim (Option-cases (find_removable prisma id user_id db)) [
        | inl missing ↦ rw missing tidy
        | inr (r, found) ↦
            let p : UserAddress → Bool = λ a. a.user_address_id === id in
            let f : UserAddress → UserAddress = λ a. record a { status = inactive } in
            rw (found, set_addresses-rows p f db)
              (
                UniqueBy-map_where key p f (rows db.user_address) (λ a. refl) tidy.0,
                λ u. omega (
                  arith,
                  tidy.1 u,
                  defaults-map_where u p f (rows db.user_address)
                      (All-of_each _ _ (λ a hit now. now)),
                ),
              )
      ]

  serve-IsTidy : (request : Request) (db : Db Table) → IsTidy db → IsTidy (serve prisma request db)
  unfolding serve
  serve-IsTidy (Request.create id user_id form) = create_address-IsTidy id user_id form
  serve-IsTidy (Request.update id form user_id) = update_address-IsTidy id user_id form
  serve-IsTidy (Request.remove id user_id) = remove_address-IsTidy id user_id

  -- Whatever addresses are created, updated and removed, by whichever users, and whichever of the
  -- calls are refused, addresses keep different keys and no user has two default addresses.
  pub serve_all-IsTidy :
      (requests : List Request) (db : Db Table) → IsTidy db → IsTidy (serve_all prisma requests db)
  unfolding serve_all
  serve_all-IsTidy [] db tidy = tidy
  serve_all-IsTidy (request ∷ requests) db tidy =
      serve_all-IsTidy requests (serve prisma request db) (serve-IsTidy request db tidy)
