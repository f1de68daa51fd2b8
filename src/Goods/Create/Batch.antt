-- ===== src/Goods/Create/Batch.antt =====
-- The test for a batch in `create` (src/store/goods/goods.service.ts), which writes no number.
use mathlib.Core.Option
use open_api.Prelude.{
  ℕ, ℤ, false, not, ◌&&◌, String, ◌===◌, ◌≡◌, refl, ap, ◌∙◌, is_some, get_or, Option, none, some,
  [], ◌∷◌, find, find-append, find-append_miss, inl, inr, ok, arith, eq_refl,
}
use open_api.Schema.{StoreGoods, StoreGoodsVersion, Db}
use open_api.Prisma.{Prisma}
use open_api.Goods.Create.{
  CreateGood, new_goods, version_of, goods_for, find_named, has_batch, version_taken, add_version,
  image_of, create_with, create_goods,
}
use open_api.Goods.Create.Granted.{with_version, create_with_lem}

module _ (prisma : Prisma) where
  open prisma use {Table, rows, find_first, find_first-rows, rows-create}

  has_batch-version :
      (goods_id unit number : String) (v : StoreGoodsVersion) (db : Db Table)
      → v.version_number ≡ none
      → has_batch prisma goods_id unit number (with_version prisma v db)
        ≡ has_batch prisma goods_id unit number db
  unfolding has_batch
  has_batch-version goods_id unit number v db e =
      let test = λ (w : StoreGoodsVersion).
        w.goods_id === goods_id
        && (w.unit_name === unit
            && get_or (Option.map (λ n. n === number) w.version_number) false) in
      let miss : test v ≡ false = ground (arith, e) in
      rw (find_first-rows, find_first-rows, rows-create)
        (ap (λ o. not (number === "") && is_some o)
          (find-append_miss test (rows db.store_goods_version) v miss))

  -- Another version's key stays free.
  version_taken-version :
      (version_id : String) (v : StoreGoodsVersion) (db : Db Table)
      → (v.version_id === version_id) ≡ false
      → version_taken prisma version_id (with_version prisma v db).store_goods_version
        ≡ version_taken prisma version_id db.store_goods_version
  version_taken-version version_id v db other =
      rw (find_first-rows, find_first-rows, rows-create)
        (ap is_some (
          find-append_miss (λ w. w.version_id === version_id) (rows db.store_goods_version) v
            other))

  created_found :
      (fresh : String) (rank : ℤ) (dto : CreateGood) (db : Db Table)
      → find_named prisma dto db ≡ none
      → find_named prisma dto
          (record db { store_goods = prisma.create (new_goods fresh dto rank) db.store_goods })
        ≡ some (new_goods fresh dto rank)
  unfolding find_named
  created_found fresh rank dto db h =
      let named = λ (g : StoreGoods).
        g.store_id === dto.store_id
        && (g.category_id === dto.category_ids && g.name === dto.name) in
      let rows_missing : find named (rows db.store_goods) ≡ none = rw find_first-rows at h in
      rw
        (
          find_first-rows,
          rows-create,
          find-append named (rows db.store_goods) (new_goods fresh dto rank ∷ []) rows_missing,
          eq_refl dto.store_id,
          eq_refl dto.category_ids,
          eq_refl dto.name,
        )
        refl

  -- The goods are found afterwards, and still have no such batch; a free key stays free.
  create_with-batch :
      (fresh version_id version_id' : String) (now : ℕ) (dto : CreateGood)
      (image_hash : Option String) (db : Db Table)
      → (version_id === version_id') ≡ false
      → version_taken prisma version_id' db.store_goods_version ≡ false
      → (create_with prisma fresh version_id now dto image_hash db).0 ≡ ok tt
      → let db' = (create_with prisma fresh version_id now dto image_hash db).1 in
        (g : StoreGoods) × (find_named prisma dto db' ≡ some g)
        × (has_batch prisma g.goods_id dto.unit_name dto.version_number db' ≡ false)
        × (version_taken prisma version_id' db'.store_goods_version ≡ false)
  unfolding has_batch find_named
  create_with-batch fresh version_id version_id' now dto image_hash db other unused h =
      elim (create_with_lem prisma fresh version_id now dto image_hash db h) [
        | inl (g, found, free, state) ↦
            let v = version_of dto version_id g.goods_id image_hash now in
            rw state (
              g,
              found,
              has_batch-version g.goods_id dto.unit_name dto.version_number v db refl ∙ free,
              version_taken-version version_id' v db other ∙ unused,
            )
        | inr (rank, missing, free, state) ↦
            let v = version_of dto version_id fresh image_hash now in
            rw state (
              new_goods fresh dto rank,
              created_found fresh rank dto db missing,
              has_batch-version fresh dto.unit_name dto.version_number v db refl ∙ free,
              version_taken-version version_id' v db other ∙ unused,
            )
      ]

  create_with_ok :
      (fresh version_id : String) (now : ℕ) (dto : CreateGood) (image_hash : Option String)
      (db : Db Table) (g : StoreGoods)
      → find_named prisma dto db ≡ some g
      → has_batch prisma g.goods_id dto.unit_name dto.version_number db ≡ false
      → version_taken prisma version_id db.store_goods_version ≡ false
      → (create_with prisma fresh version_id now dto image_hash db).0 ≡ ok tt
  unfolding create_with goods_for add_version
  create_with_ok fresh version_id now dto image_hash db g found free unused = ground arith

  -- After a granted creation without a file, the same request, at any time and with an identity of
  -- the version that is not in use, is granted again: the test for a batch that exists never
  -- refuses what `create` has made.
  pub create_goods_twice :
      (printed fixed : ℤ → String) (fresh fresh' version_id version_id' : String) (now now' : ℕ)
      (dto : CreateGood) (db : Db Table)
      → (version_id === version_id') ≡ false
      → find_first (λ v. v.version_id === version_id') db.store_goods_version ≡ none
      → (create_goods prisma printed fixed fresh version_id now dto none db).0 ≡ ok tt
      → (create_goods prisma printed fixed fresh' version_id' now' dto none
          (create_goods prisma printed fixed fresh version_id now dto none db).1).0
        ≡ ok tt
  unfolding create_goods image_of
  create_goods_twice printed fixed fresh fresh' version_id version_id' now now' dto db other unused
        h =
      let (g, found, free, still) =
        create_with-batch fresh version_id version_id' now dto dto.image_hash db other
          (ap is_some unused) h in
      create_with_ok fresh' version_id' now' dto dto.image_hash _ g found free still
