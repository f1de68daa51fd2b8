-- ===== src/Goods/Create/Quota.antt =====
-- The quota of images (src/store/goods/goods.service.ts) and the used quota
-- (src/store/store-resource/store-resource.service.ts) when goods are created with an image.
use open_api.Prelude.{
  ℕ, ◌+◌, ◌≤◌, ℤ, ◌≤ℤ◌, pos, ◌+ℤ◌, ◌-ℤ◌, ltb_ℤ, false, String, ◌===◌, ◌≡◌, refl, Option, some,
  select, All, UniqueBy, inl, inr, ok, arith, +ℤ_parts, -ℤ_parts,
}
use open_api.Schema.{StoreGoods, StoreGoodsVersion, StoredFile, StoreResource, Db}
use open_api.Prisma.{Prisma}
use open_api.Resource.{get_store_resource}
use open_api.Resource.Used.{calculate_used_quota}
use open_api.Goods.Create.Images.{
  uses, goods_of, AllOfSize, Uploaded, used_rows, new_goods_used, used_le,
}
use open_api.Goods.Create.Granted.{
  used, find_file, check_lem, upload_lem, create_with_lem, create_parts,
}
use open_api.Goods.Create.{Upload, CreateGood, new_goods, upload_file, create_with, create_goods}

fits :
    (total : ℤ) (u n t : ℕ)
    → ltb_ℤ total (pos u -ℤ pos 0 +ℤ pos n) ≡ false
    → t ≤ u + n
    → pos t ≤ℤ total
fits total u n t h k = ground (arith, -ℤ_parts (pos u) (pos 0), +ℤ_parts (pos u -ℤ pos 0) (pos n))

module _ (prisma : Prisma) where
  open prisma use {Table, rows, find_first-rows, rows-create}

  -- What the upload leaves of the database.
  upload_rows :
      (file : Upload) (hash : String) (db : Db Table)
      → (upload_file prisma file db).0 ≡ ok hash
      → (hash ≡ file.hash)
        × ((fs' : Table StoredFile) × ((upload_file prisma file db).1 ≡ record db { file = fs' })
            × Uploaded file (rows db.file) (rows fs'))
  unfolding Uploaded find_file
  upload_rows file hash db h = elim (upload_lem prisma file hash db h).1 [
    | inl same ↦ ((upload_lem prisma file hash db h).0, (db.file, same, inl refl))
    | inr (new, stored) ↦ (
      (upload_lem prisma file hash db h).0,
      (_, stored, inr (rw (find_first-rows) at new, rows-create _ db.file)),
    )
  ]

  -- What the creation leaves of the goods and the versions.
  create_rows :
      (fresh version_id : String) (now : ℕ) (dto : CreateGood) (hash : String) (db : Db Table)
      → (create_with prisma fresh version_id now dto (some hash) db).0 ≡ ok tt
      → All (λ v. (fresh === v.goods_id) ≡ false) (rows db.store_goods_version)
      → (goods : Table StoreGoods) × ((v : StoreGoodsVersion) × ((create_with prisma fresh
              version_id now dto
              (some hash)
              db).1
            ≡ record db {
              store_goods = goods;
              store_goods_version = prisma.create v db.store_goods_version;
            })
          × (v.image_hash ≡ some hash)
          × ((k : String)
              → uses
                  (select (λ g. g.store_id === dto.store_id) (rows goods))
                  (rows db.store_goods_version)
                  k
                ≡ uses (goods_of prisma dto.store_id db) (rows db.store_goods_version) k))
  create_rows fresh version_id now dto hash db h new =
      elim (create_with_lem prisma fresh version_id now dto (some hash) db h) [
        | inl (g, found, free, state) ↦ (db.store_goods, (_, state, refl, λ k. refl))
        | inr (rank, missing, free, state) ↦ (
          _,
          (
            _,
            state,
            refl,
            λ k. new_goods_used prisma dto.store_id (new_goods fresh dto rank) db k refl new,
          ),
        )
      ]

  abbrev finished :
      (String → Option ℕ)
      → Table StoredFile
      → Table StoreGoods
      → StoreGoodsVersion
      → Db Table
      → Db Table
  finished cache files goods v db = record db {
    used_quota = cache;
    file = files;
    store_goods = goods;
    store_goods_version = prisma.create v db.store_goods_version;
  }

  -- Where the cache has no smaller size for the store than the calculated one, the hashes of the
  -- files are unique, a file with the image's hash has its size, and no version belongs to the new
  -- goods yet: after a granted creation with an image the calculated size of the store's images is
  -- within its quota.
  pub create_goods-within_quota :
      (printed fixed : ℤ → String) (fresh version_id : String) (now : ℕ) (dto : CreateGood)
      (file : Upload) (db : Db Table) (r : StoreResource)
      → (create_goods prisma printed fixed fresh version_id now dto (some file) db).0 ≡ ok tt
      → get_store_resource prisma dto.store_id db ≡ some r
      → calculate_used_quota prisma dto.store_id db ≤ used prisma dto.store_id db
      → UniqueBy (λ f. f.hash) (rows db.file)
      → AllOfSize file.hash file.size (rows db.file)
      → All (λ v. (fresh === v.goods_id) ≡ false) (rows db.store_goods_version)
      → pos (
          calculate_used_quota prisma dto.store_id
            (create_goods prisma printed fixed fresh version_id now dto (some file) db).1)
        ≤ℤ r.total_quota
  create_goods-within_quota printed fixed fresh version_id now dto file db r h quota exact u sizes
        new =
      let (passed, (hash, stored, made, state)) =
        create_parts prisma printed fixed fresh version_id now dto file db h in
      let (r', found, within, (cache, checked)) =
        check_lem prisma printed fixed dto.store_id file.size db passed in
      let (is_hash, (fs', uploaded, kept)) =
        upload_rows file hash (record db { used_quota = cache }) (rw checked at stored) in
      let (goods, (v, final, image, same)) =
        create_rows fresh version_id now dto hash (record db { used_quota = cache; file = fs' })
          (rw (checked, uploaded) at made) new in
      let end = finished cache fs' goods v db in
      let done : (create_goods prisma printed fixed fresh version_id now dto (some file) db).1
          ≡ end =
        rw (state, checked, uploaded) final in
      let bound =
        used_le (goods_of prisma dto.store_id db)
          (select (λ g. g.store_id === dto.store_id) (rows goods)) (rows db.store_goods_version) v
          file (rows db.file) (rows fs') (rw (image, is_hash) refl) same kept u sizes in
      let before = used_rows prisma dto.store_id db in
      let same_row : r' ≡ r = ground arith in
      rw (done, used_rows prisma dto.store_id end, rows-create)
        (fits r.total_quota (used prisma dto.store_id db) file.size _ (rw same_row at within)
          (omega (arith, bound, exact, before)))
