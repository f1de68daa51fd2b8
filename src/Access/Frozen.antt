-- ===== src/Access/Frozen.antt =====
-- frozenAuthRole and reactiveAuthRole of src/auth/role-management/role-management.service.ts, and what
-- they do to the users' resources.
use open_api.Prelude.{
  ℕ, ℤ, ◌≡◌, refl, ap, sym, ◌∙◌, Bool, true, not, ◌&&◌, String, ◌===◌, ◌==◌, ◌==ℤ◌, if◌then◌else◌,
  some, List, [], ◌∷◌, any, find, select, map_where, All, find_sound, subst, find-map_where_self,
  ok, arith, inl, inr, Bool-cases,
}
use mathlib.Core.Option
use open_api.Schema.{AuthRole, Db}
use open_api.Prisma.{Prisma}
use open_api.Access.{
  query_rows, active, inactive, find_auth_role, set_auth_role, frozen_auth_role, reactive_auth_role,
  role_ids_of, resources_of_roles, is_empty, get_resources_by_user_id,
}

module _ {ℓ} {A : Type ℓ} where
  find-of_select : (p : A → Bool) (xs : List A) (r : A) → select p xs ≡ r ∷ [] → find p xs ≡ some r
  find-of_select p [] r e = cc
  find-of_select p (x ∷ xs) r e = ground (arith, find-of_select p xs r)

  All-of_select {κ} :
      (Q : A → Type κ) (p : A → Bool) (xs : List A)
      → All Q (select p xs)
      → All (λ x. p x ≡ true → Q x) xs
  All-of_select Q p [] h = tt
  All-of_select Q p (x ∷ xs) h = elim (Bool-cases (p x)) [
    | inl hit ↦
        let both : Q x × All Q (select p xs) = rw hit at h in
        ((λ _. both.0), All-of_select Q p xs both.1)
    | inr miss ↦
        let rest : All Q (select p xs) = rw miss at h in
        ((λ own. absurd (ground arith)), All-of_select Q p xs rest)
  ]

  -- A change of the rows of a test, undone.
  map_where_undone :
      (p : A → Bool) (f g : A → A) (xs : List A)
      → ((x : A) → p (f x) ≡ p x)
      → All (λ x. p x ≡ true → g (f x) ≡ x) xs
      → map_where p g (map_where p f xs) ≡ xs
  map_where_undone p f g [] keep h = refl
  map_where_undone p f g (x ∷ xs) keep h =
      ground (arith, keep x, h.0, map_where_undone p f g xs keep h.1)

abbrev with_status : ℤ → AuthRole → AuthRole
with_status status b = record b { status = status }

-- Among the active relations, a frozen one is as good as deleted.
select-frozen :
    (q : AuthRole → Bool) (p : AuthRole → Bool) (bs : List AuthRole)
    → ((b : AuthRole) → q (with_status inactive b) ≡ q b)
    → select (λ b. q b && b.status ==ℤ active) (map_where p (with_status inactive) bs)
      ≡ select (λ b. q b && b.status ==ℤ active) (select (λ b. not (p b)) bs)
select-frozen q p [] keep = refl
select-frozen q p (b ∷ bs) keep = ground (arith, keep b, select-frozen q p bs keep)

module _ (prisma : Prisma) (id : ℕ) (item : AuthRole) (db : Db prisma.Table)
    (only : select (λ b. b.id == id) (prisma.rows db.auth_role) ≡ item ∷ [])
    (is_active : item.status ≡ active) where
  open prisma use {
    Table, rows, find_first, find_many, find_first-rows, find_many-rows, rows-update, rows-delete,
    update, delete,
  }

  -- The database without the relation.
  abbrev without : Db Table
  without = record db { auth_role = delete (λ b. b.id == id) db.auth_role }

  -- The database after the relation is frozen.
  abbrev frozen : Db Table
  frozen = (set_auth_role prisma id inactive db).1

  is_it : AuthRole → Bool
  is_it b = b.id == id

  found : find is_it (rows db.auth_role) ≡ some item
  unfolding is_it
  found = find-of_select is_it (rows db.auth_role) item only

  item_id : item.id ≡ id
  unfolding is_it
  item_id = ground (arith, find_sound is_it (rows db.auth_role) item found)

  found_first : find_auth_role prisma id db ≡ some item
  unfolding is_it find_auth_role
  found_first = find_first-rows is_it db.auth_role ∙ found

  frozen_auth_role-granted : frozen_auth_role prisma id db ≡ (ok tt, frozen)
  unfolding frozen_auth_role
  frozen_auth_role-granted = rw (found_first, is_active, item_id) refl

  frozen-rows : rows frozen.auth_role ≡ map_where is_it (with_status inactive) (rows db.auth_role)
  unfolding set_auth_role is_it
  frozen-rows = rows-update _ _ db.auth_role

  frozen-relations :
      (q : AuthRole → Bool)
      → ((b : AuthRole) → q (with_status inactive b) ≡ q b)
      → find_many (λ b. q b && b.status ==ℤ active) frozen.auth_role
        ≡ find_many (λ b. q b && b.status ==ℤ active) without.auth_role
  unfolding is_it
  frozen-relations q keep =
      find_many-rows _ frozen.auth_role
      ∙ ap (select (λ b. q b && b.status ==ℤ active)) frozen-rows
      ∙ select-frozen q is_it (rows db.auth_role) keep
      ∙ ap (select (λ b. q b && b.status ==ℤ active)) (sym (rows-delete is_it db.auth_role))
      ∙ sym (find_many-rows _ without.auth_role)

  frozen-resources :
      (user_id : String)
      → get_resources_by_user_id prisma user_id frozen
        ≡ get_resources_by_user_id prisma user_id without
  unfolding get_resources_by_user_id resources_of_roles role_ids_of set_auth_role
  frozen-resources user_id =
      let ids = role_ids_of prisma user_id db in
      let user = find_first (λ u. u.user_id === user_id && u.status ==ℤ active) db.user_auth in
      ap
        (λ bs. record {
          user_auth = user;
          resources =
              if is_empty ids
              then []
              else query_rows (find_many (λ a. a.status ==ℤ active) db.auth) bs;
        })
        (frozen-relations (λ b. any (λ role_id. role_id === b.role_id) ids) (λ b. refl))

  frozen_first : find_auth_role prisma id frozen ≡ some (with_status inactive item)
  unfolding is_it find_auth_role
  frozen_first =
      find_first-rows is_it frozen.auth_role
      ∙ ap (find is_it) frozen-rows
      ∙ find-map_where_self is_it (with_status inactive) (rows db.auth_role) (λ b. refl)
      ∙ ap (Option.map (with_status inactive)) found

  reactive_auth_role-granted :
      reactive_auth_role prisma id frozen ≡ (ok tt, (set_auth_role prisma id active frozen).1)
  unfolding reactive_auth_role
  reactive_auth_role-granted = rw (frozen_first, item_id) refl

  reactive-rows : rows (set_auth_role prisma id active frozen).1.auth_role ≡ rows db.auth_role
  unfolding set_auth_role is_it
  reactive-rows =
      rows-update is_it (with_status active) frozen.auth_role
      ∙ ap (map_where is_it (with_status active)) frozen-rows
      ∙ map_where_undone is_it (with_status inactive) (with_status active) (rows db.auth_role)
          (λ b. refl)
          (All-of_select (λ b. with_status active (with_status inactive b) ≡ b) is_it
            (rows db.auth_role)
            (subst (All _) (sym only) (ap (λ s. record item { status = s }) (sym is_active), tt)))

  -- An active relation can be frozen, and frozen it can be made active again. While it is frozen,
  -- every user has the resources that he would have if the relation were deleted; afterwards the
  -- relations are again what they were.
  pub frozen_auth_role-undone :
      ((frozen_auth_role prisma id db).0 ≡ ok tt)
      × ((user_id : String)
          → get_resources_by_user_id prisma user_id (frozen_auth_role prisma id db).1
            ≡ get_resources_by_user_id prisma user_id without)
      × ((reactive_auth_role prisma id (frozen_auth_role prisma id db).1).0 ≡ ok tt)
      × (rows (reactive_auth_role prisma id (frozen_auth_role prisma id db).1).1.auth_role
          ≡ rows db.auth_role)
  frozen_auth_role-undone = (
    ap (λ r. r.0) frozen_auth_role-granted,
    λ user_id.
        ap (λ r. get_resources_by_user_id prisma user_id r.1) frozen_auth_role-granted
        ∙ frozen-resources user_id,
    ap (λ r. (reactive_auth_role prisma id r.1).0) frozen_auth_role-granted
        ∙ ap (λ r. r.0) reactive_auth_role-granted,
    ap (λ r. rows (reactive_auth_role prisma id r.1).1.auth_role) frozen_auth_role-granted
        ∙ ap (λ r. rows r.1.auth_role) reactive_auth_role-granted
        ∙ reactive-rows,
  )
