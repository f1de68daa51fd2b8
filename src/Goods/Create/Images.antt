-- ===== src/Goods/Create/Images.antt =====
-- Which images count for the used quota, and what one more version adds.
use open_api.Prelude.{
  ℕ, ◌+◌, ◌≤◌, Bool, true, false, not, ◌&&◌, ◌||◌, String, ◌===◌, ◌≡◌, refl, ◌∙◌, ap, or_text, none,
  some, List, [], ◌∷◌, ◌++◌, find, select, select-append, select_ext, any, any-select, All,
  UniqueBy, Bool-cases, if◌then◌else◌, ◌⊎◌, inl, inr, arith, eq_iff, eq_refl,
}
use open_api.Schema.{StoreGoods, StoreGoodsVersion, StoredFile, Db}
use open_api.Prisma.{Prisma}
use open_api.Resource.Used.{hashes_of, total_size, calculate_used_quota}
use open_api.Goods.Create.{Upload}

abbrev has_hash : String → StoreGoodsVersion → Bool
has_hash k v = not (or_text v.image_hash "" === "") && or_text v.image_hash "" === k

any-hashes :
    (k : String) (vs : List StoreGoodsVersion)
    → any (λ hash. hash === k) (hashes_of vs) ≡ any (has_hash k) vs
any-hashes k [] = refl
any-hashes k (v ∷ vs) = ground (arith, any-hashes k vs)

-- Whether a version of the goods has the image.
abbrev pub uses : List StoreGoods → List StoreGoodsVersion → String → Bool
uses goods vs k = any (λ v. any (λ g. g.goods_id === v.goods_id) goods && has_hash k v) vs

any-append_last :
    {A : Type 0} (p : A → Bool) (xs : List A) (y : A) → any p (xs ++ y ∷ []) ≡ (any p xs || p y)
any-append_last p [] y = ground arith
any-append_last p (x ∷ xs) y = ground (arith, any-append_last p xs y)

uses-new_goods :
    (goods : List StoreGoods) (g : StoreGoods) (vs : List StoreGoodsVersion) (k : String)
    → All (λ v. (g.goods_id === v.goods_id) ≡ false) vs
    → uses (goods ++ g ∷ []) vs k ≡ uses goods vs k
uses-new_goods goods g [] k fresh = refl
uses-new_goods goods g (v ∷ vs) k fresh =
    let owned = any-append_last (λ h. h.goods_id === v.goods_id) goods g in
    ground (arith, fresh.0, owned, uses-new_goods goods g vs k fresh.1)

total_size-append :
    (xs ys : List StoredFile) → total_size (xs ++ ys) ≡ total_size xs + total_size ys
total_size-append [] ys = omega arith
total_size-append (x ∷ xs) ys = omega (arith, total_size-append xs ys)

total_size-monotone :
    (p q : StoredFile → Bool) (fs : List StoredFile)
    → ((f : StoredFile) → p f ≡ true → q f ≡ true)
    → total_size (select p fs) ≤ total_size (select q fs)
total_size-monotone p q [] h = omega arith
total_size-monotone p q (f ∷ fs) h = ground (arith, h f, total_size-monotone p q fs h)

-- All files with the hash are of the one size.
unfoldable pub AllOfSize : String → ℕ → List StoredFile → Type 0
AllOfSize hash size = All (λ f. (f.hash === hash) ≡ true → f.size ≡ size)

module _ (q : StoredFile → Bool) (hash : String) where
  abbrev or_hash : StoredFile → Bool
  or_hash f = q f || f.hash === hash

  select-apart :
      (g : StoredFile) (fs : List StoredFile)
      → (g.hash === hash) ≡ true
      → All (λ f. (g.hash === f.hash) ≡ false) fs
      → select or_hash fs ≡ select q fs
  select-apart g [] e h = refl
  select-apart g (f ∷ fs) e h = ground (
    arith,
    h.0,
    eq_iff g.hash hash,
    eq_iff f.hash hash,
    eq_iff g.hash f.hash,
    select-apart g fs e h.1,
  )

  select-missing :
      (fs : List StoredFile)
      → find (λ f. f.hash === hash) fs ≡ none
      → select or_hash fs ≡ select q fs
  select-missing [] h = refl
  select-missing (f ∷ fs) h = ground (arith, select-missing fs)

  -- One more hash adds at most the size of its file.
  total_size-known :
      (size : ℕ) (fs : List StoredFile)
      → UniqueBy (λ f. f.hash) fs
      → AllOfSize hash size fs
      → total_size (select or_hash fs) ≤ total_size (select q fs) + size
  unfolding AllOfSize
  total_size-known size [] u same = omega arith
  total_size-known size (f ∷ fs) u same = elim (Bool-cases (f.hash === hash)) [
    | inl here ↦ let rest = select-apart f fs here u.0 in ground (arith, same.0 here)
    | inr other ↦ ground (arith, total_size-known size fs u.1 same.1)
  ]

  total_size-stored :
      (size : ℕ) (fs : List StoredFile)
      → find (λ f. f.hash === hash) fs ≡ none
      → total_size (select or_hash (fs ++ record { hash = hash; size = size } ∷ []))
        ≤ total_size (select q fs) + size
  total_size-stored size fs h =
      let new : StoredFile = record { hash = hash; size = size } in
      let own = eq_refl hash in
      let kept : select or_hash (new ∷ []) ≡ new ∷ [] = ground arith in
      rw
        (
          select-append or_hash fs (new ∷ []),
          select-missing fs h,
          kept,
          total_size-append (select q fs) (new ∷ []),
        )
        (omega arith)

has_hash_lem :
    (v : StoreGoodsVersion) (hash k : String)
    → v.image_hash ≡ some hash
    → has_hash k v ≡ true
    → (k === hash) ≡ true
has_hash_lem v hash k e h =
    let image : or_text v.image_hash "" ≡ (if hash === "" then "" else hash) = rw e refl in
    ground (arith, eq_iff k hash, eq_iff (or_text v.image_hash "") k)

implied :
    (goods goods' : List StoreGoods) (vs : List StoreGoodsVersion) (v : StoreGoodsVersion)
    (hash : String)
    → v.image_hash ≡ some hash
    → ((k : String) → uses goods' vs k ≡ uses goods vs k)
    → (f : StoredFile) → uses goods' (vs ++ v ∷ []) f.hash ≡ true
    → (uses goods vs f.hash || f.hash === hash) ≡ true
implied goods goods' vs v hash e same f h =
    let last =
      any-append_last (λ v. any (λ g. g.goods_id === v.goods_id) goods' && has_hash f.hash v) vs
        v in
    ground (arith, same f.hash, has_hash_lem v hash f.hash e)

-- The rows of the files after the upload.
unfoldable pub Uploaded : Upload → List StoredFile → List StoredFile → Type 0
Uploaded file fs fs' =
    (fs' ≡ fs)
    ⊎ ((find (λ f. f.hash === file.hash) fs ≡ none)
        × (fs' ≡ fs ++ record { hash = file.hash; size = file.size } ∷ []))

-- The sizes of the images that are used, after a version with an image.
pub used_le :
    (goods goods' : List StoreGoods) (vs : List StoreGoodsVersion) (v : StoreGoodsVersion)
    (file : Upload) (fs fs' : List StoredFile)
    → v.image_hash ≡ some file.hash
    → ((k : String) → uses goods' vs k ≡ uses goods vs k)
    → Uploaded file fs fs'
    → UniqueBy (λ f. f.hash) fs
    → AllOfSize file.hash file.size fs
    → total_size (select (λ f. uses goods' (vs ++ v ∷ []) f.hash) fs')
      ≤ total_size (select (λ f. uses goods vs f.hash) fs) + file.size
unfolding Uploaded
used_le goods goods' vs v file fs fs' e same (inl known) u sizes = rw known (
    omega (
      arith,
      total_size-monotone (λ f. uses goods' (vs ++ v ∷ []) f.hash)
          (or_hash (λ f. uses goods vs f.hash) file.hash) fs
          (implied goods goods' vs v file.hash e same),
      total_size-known (λ f. uses goods vs f.hash) file.hash file.size fs u sizes,
    ))
used_le goods goods' vs v file fs fs' e same (inr (new, stored)) u sizes = rw stored (
    omega (
      arith,
      total_size-monotone (λ f. uses goods' (vs ++ v ∷ []) f.hash)
          (or_hash (λ f. uses goods vs f.hash) file.hash)
          (fs ++ record { hash = file.hash; size = file.size } ∷ [])
          (implied goods goods' vs v file.hash e same),
      total_size-stored (λ f. uses goods vs f.hash) file.hash file.size fs new,
    ))

module _ (prisma : Prisma) where
  open prisma use {Table, rows, find_many-rows, rows-create}

  abbrev pub goods_of : String → Db Table → List StoreGoods
  goods_of store_id db = select (λ g. g.store_id === store_id) (rows db.store_goods)

  -- The used quota, on the rows.
  pub used_rows :
      (store_id : String) (db : Db Table)
      → calculate_used_quota prisma store_id db
        ≡ total_size (
            select
              (λ f. uses (goods_of store_id db) (rows db.store_goods_version) f.hash)
              (rows db.file))
  unfolding calculate_used_quota
  used_rows store_id db =
      let goods = goods_of store_id db in
      let owned = λ (v : StoreGoodsVersion). any (λ g. g.goods_id === v.goods_id) goods in
      rw
        (
          find_many-rows (λ g. g.store_id === store_id) db.store_goods,
          find_many-rows owned db.store_goods_version,
        )
        (rw (find_many-rows _ db.file) (
          ap total_size (
            select_ext _ _ (rows db.file) (λ f.
              any-hashes f.hash (select owned (rows db.store_goods_version))
              ∙ any-select (has_hash f.hash) owned (rows db.store_goods_version)))))

  pub new_goods_used :
      (store_id : String) (g : StoreGoods) (db : Db Table) (k : String)
      → g.store_id ≡ store_id
      → All (λ v. (g.goods_id === v.goods_id) ≡ false) (rows db.store_goods_version)
      → uses
          (select (λ g. g.store_id === store_id) (rows (prisma.create g db.store_goods)))
          (rows db.store_goods_version)
          k
        ≡ uses (goods_of store_id db) (rows db.store_goods_version) k
  new_goods_used store_id g db k own fresh =
      let mine : select (λ g. g.store_id === store_id) (g ∷ []) ≡ g ∷ [] =
        rw (own, eq_refl store_id) refl in
      rw
        (
          rows-create g db.store_goods,
          select-append (λ g. g.store_id === store_id) (rows db.store_goods) (g ∷ []),
          mine,
        )
        (uses-new_goods (goods_of store_id db) g (rows db.store_goods_version) k fresh)
