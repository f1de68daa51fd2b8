-- ===== src/Goods/Create/Granted.antt =====
-- What a granted check of the quota, a granted upload and a granted creation of goods have done
-- (src/store/goods/goods.service.ts).
use open_api.Prelude.{
  ℕ, ℤ, pos, ◌+ℤ◌, ◌-ℤ◌, ltb_ℤ, false, String, ◌===◌, ◌≡◌, refl, get_or, Option, none, some,
  Bool-cases, Option-cases, Result-cases, ◌⊎◌, inl, inr, ok, arith,
}
use open_api.Schema.{StoreGoods, StoreGoodsVersion, StoredFile, StoreResource, Db}
use open_api.Prisma.{Prisma}
use open_api.Resource.{get_store_resource}
use open_api.Resource.Used.{
  cache_quota, calculate_used_quota, get_used_quota, invalidate_used_quota, or_calculate,
  calculate_and_cache,
}
use open_api.Goods.Create.{
  Upload, CreateGood, goods_for, find_named, has_batch, version_taken, add_version, next_rank,
  last_goods, new_goods, upload_file, check_resource_quota, version_of, image_of, create_with,
  create_goods,
}

module _ (prisma : Prisma) where
  open prisma use {Table}

  -- The used size that the cache or the database gives.
  abbrev pub used : String → Db Table → ℕ
  used store_id db = get_or (db.used_quota store_id) (calculate_used_quota prisma store_id db)

  get_used_quota_lem :
      (store_id : String) (db : Db Table)
      → (cache : String → Option ℕ) × (get_used_quota prisma store_id db
          ≡ (ok (used store_id db), record db { used_quota = cache }))
  unfolding get_used_quota or_calculate calculate_and_cache
  get_used_quota_lem store_id db = elim (Option-cases (db.used_quota store_id)) [
    | inl empty ↦ (
      (cache_quota prisma store_id (some (calculate_used_quota prisma store_id db)) db).used_quota,
      rw empty refl,
    )
    | inr (size, cached) ↦ (db.used_quota, rw cached refl)
  ]

  pub check_lem :
      (printed fixed : ℤ → String) (store_id : String) (size : ℕ) (db : Db Table)
      → (check_resource_quota prisma printed fixed store_id size 0 db).0 ≡ ok tt
      → (r : StoreResource) × (get_store_resource prisma store_id db ≡ some r)
        × (ltb_ℤ r.total_quota (pos (used store_id db) -ℤ pos 0 +ℤ pos size) ≡ false)
        × ((cache : String → Option ℕ) × ((check_resource_quota prisma printed fixed store_id size 0
                db).1
              ≡ record db { used_quota = cache }))
  unfolding check_resource_quota invalidate_used_quota
  check_lem printed fixed store_id size db h =
      let (cache, got) = get_used_quota_lem store_id db in
      elim (Option-cases (get_store_resource prisma store_id db)) [
        | inl missing ↦ absurd (ground arith)
        | inr (r, found) ↦
            elim (Bool-cases (ltb_ℤ r.total_quota (pos (used store_id db) -ℤ pos 0 +ℤ pos size))) [
              | inl beyond ↦ absurd (ground arith)
              | inr within ↦ (
                r,
                found,
                within,
                (
                  (cache_quota prisma store_id none (record db { used_quota = cache })).used_quota,
                  ground arith,
                ),
              )
            ]
      ]

  unfoldable pub find_file : String → Db Table → Option StoredFile
  find_file hash db = prisma.find_first (λ f. f.hash === hash) db.file

  abbrev pub stored_file : Upload → Db Table → Db Table
  stored_file file db = record db {
    file = prisma.create (record { hash = file.hash; size = file.size }) db.file;
  }

  pub upload_lem :
      (file : Upload) (hash : String) (db : Db Table)
      → (upload_file prisma file db).0 ≡ ok hash
      → (hash ≡ file.hash)
        × (((upload_file prisma file db).1 ≡ db)
            ⊎ ((find_file file.hash db ≡ none)
                × ((upload_file prisma file db).1 ≡ stored_file file db)))
  unfolding upload_file find_file
  upload_lem file hash db h = elim (Option-cases (find_file file.hash db)) [
    | inr (f, known) ↦ (ground arith, inl (ground arith))
    | inl new ↦ elim (Bool-cases file.is_stored) [
      | inl taken ↦ (ground arith, inr (new, ground arith))
      | inr lost ↦ absurd (ground arith)
    ]
  ]

  abbrev pub with_version : StoreGoodsVersion → Db Table → Db Table
  with_version v db = record db { store_goods_version = prisma.create v db.store_goods_version }

  -- A granted creation has found the goods and adds a version, or has found none and adds both; the
  -- goods have no such batch before.
  pub create_with_lem :
      (fresh version_id : String) (now : ℕ) (dto : CreateGood) (image_hash : Option String)
      (db : Db Table)
      → (create_with prisma fresh version_id now dto image_hash db).0 ≡ ok tt
      → ((g : StoreGoods) × (find_named prisma dto db ≡ some g)
          × (has_batch prisma g.goods_id dto.unit_name dto.version_number db ≡ false)
          × ((create_with prisma fresh version_id now dto image_hash db).1
              ≡ with_version (version_of dto version_id g.goods_id image_hash now) db))
        ⊎ ((rank : ℤ) × (find_named prisma dto db ≡ none)
            × (has_batch prisma fresh dto.unit_name dto.version_number db ≡ false)
            × ((create_with prisma fresh version_id now dto image_hash db).1
                ≡ with_version (version_of dto version_id fresh image_hash now) (record db {
                  store_goods = prisma.create (new_goods fresh dto rank) db.store_goods;
                })))
  unfolding create_with goods_for add_version has_batch
  create_with_lem fresh version_id now dto image_hash db h =
      elim (Bool-cases (version_taken prisma version_id db.store_goods_version)) [
        | inl used ↦ elim (Option-cases (find_named prisma dto db)) [
          | inl new ↦
              elim (Bool-cases (has_batch prisma fresh dto.unit_name dto.version_number db)) [
                | inl taken ↦ absurd (ground arith)
                | inr free ↦ absurd (ground arith)
              ]
          | inr (goods, found) ↦
              elim (Bool-cases
                (has_batch prisma goods.goods_id dto.unit_name dto.version_number db)) [
                  | inl taken ↦ absurd (ground arith)
                  | inr free ↦ absurd (ground arith)
                ]
        ]
        | inr unused ↦ elim (Option-cases (find_named prisma dto db)) [
          | inl new ↦
              elim (Bool-cases (has_batch prisma fresh dto.unit_name dto.version_number db)) [
                | inl taken ↦ absurd (ground arith)
                | inr free ↦
                    inr (next_rank (last_goods prisma dto.store_id db), new, free, ground arith)
              ]
          | inr (goods, found) ↦
              elim (Bool-cases
                (has_batch prisma goods.goods_id dto.unit_name dto.version_number db)) [
                  | inl taken ↦ absurd (ground arith)
                  | inr free ↦ inl (goods, found, free, ground arith)
                ]
        ]
      ]

  -- The parts of a granted creation with an image.
  pub create_parts :
      (printed fixed : ℤ → String) (fresh version_id : String) (now : ℕ) (dto : CreateGood)
      (file : Upload) (db : Db Table)
      → (create_goods prisma printed fixed fresh version_id now dto (some file) db).0 ≡ ok tt
      → let checked = check_resource_quota prisma printed fixed dto.store_id file.size 0 db in
        let uploaded = upload_file prisma file checked.1 in
        (checked.0 ≡ ok tt)
        × ((hash : String) × (uploaded.0 ≡ ok hash)
            × ((create_with prisma fresh version_id now dto (some hash) uploaded.1).0 ≡ ok tt)
            × ((create_goods prisma printed fixed fresh version_id now dto (some file) db).1
                ≡ (create_with prisma fresh version_id now dto (some hash) uploaded.1).1))
  unfolding create_goods image_of
  create_parts printed fixed fresh version_id now dto file db h =
      let checked = check_resource_quota prisma printed fixed dto.store_id file.size 0 db in
      elim (Result-cases checked.0) [
        | inl (error, refused) ↦ absurd (ground arith)
        | inr (done, passed) ↦ elim (Result-cases (upload_file prisma file checked.1).0) [
          | inl (error, failed) ↦ absurd (ground arith)
          | inr (hash, stored) ↦ (ground arith, (hash, stored, ground arith, ground arith))
        ]
      ]
