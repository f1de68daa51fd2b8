-- ===== src/Access/Granted.antt =====
-- getResourcesByUserId of src/auth/role-management/role-management.service.ts, against what it means
-- to have a resource.
use open_api.Prelude.{
  ◌≡◌, refl, ap, sym, ◌∙◌, Bool, false, ◌&&◌, ◌||◌, String, ◌===◌, ◌==ℤ◌, if◌then◌else◌, List, [],
  ◌∷◌, ◌++◌, map, any, select, arith,
}
use open_api.Schema.{Auth, AuthRole, Db}
use open_api.Prisma.{Prisma}
use open_api.Access.{
  Resource, active, resource_of, rows_of_auth, query_rows, role_ids_of, resources_of_roles,
  is_empty, get_resources_by_user_id,
}

module _ {ℓ} {A : Type ℓ} where
  any-append : (p : A → Bool) (xs ys : List A) → any p (xs ++ ys) ≡ (any p xs || any p ys)
  any-append p [] ys = refl
  any-append p (x ∷ xs) ys = ground (arith, any-append p xs ys)

  any-select : (p q : A → Bool) (xs : List A) → any p (select q xs) ≡ any (λ x. q x && p x) xs
  any-select p q [] = refl
  any-select p q (x ∷ xs) = ground (arith, any-select p q xs)

  any-false : (p : A → Bool) (xs : List A) → any (λ x. false && p x) xs ≡ false
  any-false p [] = refl
  any-false p (x ∷ xs) = any-false p xs

  any-and : (b : Bool) (p : A → Bool) (xs : List A) → any (λ x. p x && b) xs ≡ (b && any p xs)
  any-and b p [] = ground arith
  any-and b p (x ∷ xs) = ground (arith, any-and b p xs)

  any-cong : (p q : A → Bool) (xs : List A) → ((x : A) → p x ≡ q x) → any p xs ≡ any q xs
  any-cong p q [] h = refl
  any-cong p q (x ∷ xs) h = ground (arith, h x, any-cong p q xs h)

  any-map {κ} :
      {B : Type κ} (f : B → A) (p : A → Bool) (xs : List B)
      → any p (map f xs) ≡ any (λ x. p (f x)) xs
  any-map f p [] = refl
  any-map f p (x ∷ xs) = ground (arith, any-map f p xs)

any-rows_of_auth :
    (p : Resource → Bool) (a : Auth) (bs : List AuthRole)
    → any p (rows_of_auth a bs) ≡ (p (resource_of a) && any (λ b. a.auth_id === b.auth_id) bs)
any-rows_of_auth p a bs =
    any-map (λ b. resource_of a) p (select (λ b. a.auth_id === b.auth_id) bs)
    ∙ any-select (λ b. p (resource_of a)) (λ b. a.auth_id === b.auth_id) bs
    ∙ any-and (p (resource_of a)) (λ b. a.auth_id === b.auth_id) bs

any-query_rows :
    (p : Resource → Bool) (xs : List Auth) (bs : List AuthRole)
    → any p (query_rows xs bs)
      ≡ any (λ a. p (resource_of a) && any (λ b. a.auth_id === b.auth_id) bs) xs
unfolding query_rows
any-query_rows p [] bs = refl
any-query_rows p (a ∷ xs) bs =
    any-append p (rows_of_auth a bs) (query_rows xs bs)
    ∙ ground (arith, any-rows_of_auth p a bs, any-query_rows p xs bs)

query_rows-nil : (xs : List Auth) → query_rows xs [] ≡ []
unfolding query_rows
query_rows-nil [] = refl
query_rows-nil (a ∷ xs) = query_rows-nil xs

select-never : (q : AuthRole → Bool) (bs : List AuthRole) → select (λ b. false && q b) bs ≡ []
select-never q [] = refl
select-never q (b ∷ bs) = select-never q bs

module _ (prisma : Prisma) (user_id : String) (db : Db prisma.Table) where
  open prisma use {rows, find_many, find_many-rows}

  -- The user has the role, by an active relation.
  unfoldable pub has_role : String → Bool
  has_role role_id =
      any (λ c. (c.user_id === user_id && c.status ==ℤ active) && c.role_id === role_id)
        (rows db.user_role)

  -- Some active relation gives the resource to a role of the user.
  unfoldable pub is_granted : String → Bool
  is_granted auth_id =
      any (λ b. (has_role b.role_id && b.status ==ℤ active) && auth_id === b.auth_id)
        (rows db.auth_role)

  any-role_ids :
      (role_id : String)
      → any (λ id. id === role_id) (role_ids_of prisma user_id db) ≡ has_role role_id
  unfolding role_ids_of has_role
  any-role_ids role_id =
      any-map (λ c. c.role_id) (λ id. id === role_id) _
      ∙ ap (any (λ c. c.role_id === role_id)) (find_many-rows _ db.user_role)
      ∙ any-select (λ c. c.role_id === role_id) (λ c. c.user_id === user_id && c.status ==ℤ active)
          (rows db.user_role)

  any-resources_of_roles :
      (p : Resource → Bool)
      → any p (resources_of_roles prisma (role_ids_of prisma user_id db) db)
        ≡ any
            (λ a. a.status ==ℤ active && (p (resource_of a) && is_granted a.auth_id))
            (rows db.auth)
  unfolding resources_of_roles is_granted
  any-resources_of_roles p =
      let ids = role_ids_of prisma user_id db in
      let q : AuthRole → Bool = λ b. any (λ id. id === b.role_id) ids && b.status ==ℤ active in
      any-query_rows p (find_many (λ a. a.status ==ℤ active) db.auth) (find_many q db.auth_role)
      ∙ ap (any _) (find_many-rows (λ a. a.status ==ℤ active) db.auth)
      ∙ any-select _ (λ a. a.status ==ℤ active) (rows db.auth)
      ∙ any-cong _ _ (rows db.auth) (λ a.
        ap (λ t. a.status ==ℤ active && (p (resource_of a) && t))
          (ap (any (λ b. a.auth_id === b.auth_id)) (find_many-rows q db.auth_role)
            ∙ any-select (λ b. a.auth_id === b.auth_id) q (rows db.auth_role)
            ∙ any-cong _ _ (rows db.auth_role) (λ b.
              ap (λ t. (t && b.status ==ℤ active) && a.auth_id === b.auth_id)
                (any-role_ids b.role_id))))

  no_roles :
      (ids : List String)
      → (if is_empty ids then [] else resources_of_roles prisma ids db)
        ≡ resources_of_roles prisma ids db
  unfolding resources_of_roles
  no_roles (id ∷ ids) = refl
  no_roles [] =
      let q : AuthRole → Bool = λ b. b.status ==ℤ active in
      sym (
        ap (query_rows _)
          (find_many-rows (λ b. false && q b) db.auth_role ∙ select-never q (rows db.auth_role))
        ∙ query_rows-nil _)

  -- A resource is among those that are returned for a user exactly when it is active and some
  -- active relation gives it to a role that the user has by an active relation: whatever is asked
  -- of the resource, some returned one has it just when some such resource of the table has it.
  pub get_resources_by_user_id-granted :
      (p : Resource → Bool)
      → any p (get_resources_by_user_id prisma user_id db).resources
        ≡ any
            (λ a. a.status ==ℤ active && (p (resource_of a) && is_granted a.auth_id))
            (rows db.auth)
  unfolding get_resources_by_user_id
  get_resources_by_user_id-granted p =
      ap (any p) (no_roles (role_ids_of prisma user_id db)) ∙ any-resources_of_roles p
