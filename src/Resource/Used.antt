-- ===== src/Resource/Used.antt =====
-- The used quota of src/store/store-resource/store-resource.service.ts and its cache in
-- src/common/cache-manager/cache.service.ts. The end of a cached value's hour is left out.
use open_api.Prelude.{
  ℕ, ◌+◌, String, ◌===◌, or_text, Option, none, some, List, [], ◌∷◌, any, if◌then◌else◌, Action,
  pure, gets, modify, ◌>>=◌, ◌>>◌,
}
use open_api.Schema.{StoreGoodsVersion, StoredFile, Db}
use open_api.Prisma.{Prisma}

-- `versions.map((v) => v.image_hash).filter(Boolean)`
abbrev pub hashes_of : List StoreGoodsVersion → List String
hashes_of [] = []
hashes_of (v ∷ vs) =
    let hash = or_text v.image_hash "" in if hash === "" then hashes_of vs else hash ∷ hashes_of vs

-- `acc + BigInt(f.size || 0)`
abbrev pub total_size : List StoredFile → ℕ
total_size [] = 0
total_size (f ∷ fs) = f.size + total_size fs

module _ (prisma : Prisma) where
  open prisma use {Table, find_many}

  -- Without goods, and without hashes, the lists that the later queries ask for are empty and the
  -- sum is 0, which the code returns at once.
  unfoldable pub calculate_used_quota : String → Db Table → ℕ
  calculate_used_quota store_id db =
      let goods = find_many (λ g. g.store_id === store_id) db.store_goods in
      let versions =
        find_many (λ v. any (λ g. g.goods_id === v.goods_id) goods) db.store_goods_version in
      let hashes = hashes_of versions in
      total_size (find_many (λ f. any (λ hash. hash === f.hash) hashes) db.file)

  -- `setUsedQuota` of the cache, and with `none` its `invalidateUsedQuota`.
  abbrev pub cache_quota : String → Option ℕ → Db Table → Db Table
  cache_quota store_id size db = record db {
    used_quota = λ id. if id === store_id then size else db.used_quota id;
  }

  unfoldable pub calculate_and_cache : String → Action (Db Table) ℕ
  calculate_and_cache store_id = do
    used ← gets (calculate_used_quota store_id)
    modify (cache_quota store_id (some used))
    pure used

  unfoldable pub or_calculate : String → Option ℕ → Action (Db Table) ℕ
  or_calculate store_id none = calculate_and_cache store_id
  or_calculate store_id (some size) = pure size

  unfoldable pub get_used_quota : String → Action (Db Table) ℕ
  get_used_quota store_id = do
    cached ← gets (λ db. db.used_quota store_id)
    or_calculate store_id cached

  unfoldable pub invalidate_used_quota : String → Action (Db Table) (Unit {0})
  invalidate_used_quota store_id = modify (cache_quota store_id none)
