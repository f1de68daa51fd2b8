-- ===== src/Goods/Upsert.antt =====
-- `upsertGoodsVersion` and `createGoodsVersion` of src/store/goods/goods.service.ts.
mod Tests
use Prim.Native.String.{◌++◌}
use mathlib.Core.Option
use open_api.Prelude.{
  ℕ, ℤ, Bool, false, not, ◌&&◌, ◌||◌, String, ◌===◌, is_some, get_or, or_text, Option, none, some,
  if◌then◌else◌, Action, bad_request, record_missing, unique_violation, pure, gets, or_raise,
  raise_if, ◌>>=◌, ◌>>◌,
}
use open_api.Schema.{StoreGoodsVersion, Db}
use open_api.Prisma.{Prisma}
use open_api.Resource.Used.{invalidate_used_quota}
use open_api.Goods.{active, or_old, find_goods, set_versions}
use open_api.Goods.Create.{Upload, upload_file, check_resource_quota, has_batch, add_version}

-- UpsertGoodsVersionDto
pub record UpsertGoodsVersion : Type 0 where
  pub version_id : Option String
  pub remove_image : Bool
  pub version_number : Option String
  pub bar_code : Option String
  pub count : ℤ
  pub price : ℤ
  pub unit_name : String
  pub supplier : Option String
  pub status : ℤ

-- The data of an update; an image that is not given stays.
abbrev pub changed_version :
    UpsertGoodsVersion → Option (Option String) → StoreGoodsVersion → StoreGoodsVersion
changed_version dto image v = record v {
  image_hash = get_or image v.image_hash;
  version_number = or_old dto.version_number v.version_number;
  bar_code = or_old dto.bar_code v.bar_code;
  count = dto.count;
  price = dto.price;
  unit_name = dto.unit_name;
  supplier = or_old dto.supplier v.supplier;
  status = dto.status;
}

abbrev pub new_version :
    UpsertGoodsVersion → String → String → Option String → ℕ → StoreGoodsVersion
new_version dto version_id goods_id image_hash now = record {
  version_id = version_id;
  goods_id = goods_id;
  image_hash = image_hash;
  version_number = dto.version_number;
  bar_code = dto.bar_code;
  count = dto.count;
  price = dto.price;
  unit_name = dto.unit_name;
  supplier = dto.supplier;
  status = active;
  create_date = now;
}

-- Two columns that are filled, and equal.
abbrev pub same_column : Option String → Option String → Bool
same_column (some a) (some b) = a === b
same_column none b = false
same_column (some a) none = false

-- Two rows that break `@@unique([goods_id, unit_name, version_number])`, or the like with `bar_code`.
abbrev pub shares_key : StoreGoodsVersion → StoreGoodsVersion → Bool
shares_key v w =
    not (v.version_id === w.version_id)
    && (v.goods_id === w.goods_id
        && (v.unit_name === w.unit_name
            && (same_column v.version_number w.version_number
                || same_column v.bar_code w.bar_code)))

module _ (prisma : Prisma) where
  open prisma use {Table, find_first}

  is_taken : StoreGoodsVersion → Db Table → Bool
  is_taken v db = is_some (find_first (shares_key v) db.store_goods_version)

  find_version : String → Db Table → Option StoreGoodsVersion
  find_version version_id db = find_first (λ v. v.version_id === version_id) db.store_goods_version

  pub create_goods_version :
      String → ℕ → String → UpsertGoodsVersion → Option String → Action (Db Table) (Unit {0})
  unfolding is_taken
  create_goods_version version_id now goods_id dto image_hash = do
    let number = or_text dto.version_number ""
    batch ← gets (has_batch prisma goods_id dto.unit_name number)
    raise_if batch (bad_request ("该批次 " ++ number ++ " 已经创建"))
    let v = new_version dto version_id goods_id image_hash now
    taken ← gets (is_taken v)
    raise_if taken unique_violation
    add_version prisma v

  -- The size of the file with the hash that a version has.
  size_of : Option String → Db Table → ℕ
  size_of none db = 0
  size_of (some hash) db =
      if hash === ""
      then 0
      else get_or (Option.map (λ f. f.size) (find_first (λ f. f.hash === hash) db.file)) 0

  old_image_size : Option String → Db Table → ℕ
  unfolding find_version size_of
  old_image_size version_id db =
      elim (if or_text version_id "" === ""
        then none
        else find_version (or_text version_id "") db) [
          | none ↦ 0
          | some v ↦ size_of v.image_hash db
        ]

  update_version :
      String → UpsertGoodsVersion → Option (Option String) → Action (Db Table) (Unit {0})
  unfolding find_version is_taken
  update_version version_id dto image = do
    v ← or_raise (← gets (find_version version_id)) record_missing
    taken ← gets (is_taken (changed_version dto image v))
    raise_if taken unique_violation
    set_versions prisma (λ w. w.version_id === version_id) (changed_version dto image)

  module _ (printed fixed : ℤ → String) where
    -- The image that is written: none given, none left, or the one uploaded.
    new_image :
        String → UpsertGoodsVersion → Option Upload → Action (Db Table) (Option (Option String))
    unfolding old_image_size
    new_image store_id dto none =
        pure
          (if dto.remove_image && not (or_text dto.version_id "" === "") then some none else none)
    new_image store_id dto (some file) = do
      old ← gets (old_image_size dto.version_id)
      check_resource_quota prisma printed fixed store_id file.size old
      hash ← upload_file prisma file
      pure (some (some hash))

    update_and_invalidate :
        String
        → String
        → UpsertGoodsVersion
        → Option Upload
        → Option (Option String)
        → Action (Db Table) (Unit {0})
    unfolding update_version
    update_and_invalidate store_id version_id dto file image = do
      update_version version_id dto image
      if (is_some file || dto.remove_image) && not (store_id === "")
          then invalidate_used_quota prisma store_id
          else pure tt

    -- `upsertGoodsVersion`, with the identity of a new version.
    pub upsert_goods_version :
        String → ℕ → String → UpsertGoodsVersion → Option Upload → Action (Db Table) (Unit {0})
    unfolding new_image update_and_invalidate
    upsert_goods_version fresh now goods_id dto file = do
      goods ← or_raise (← gets (find_goods prisma goods_id)) (bad_request "商品不存在")
      image ← new_image goods.store_id dto file
      if or_text dto.version_id "" === ""
          then create_goods_version fresh now goods_id dto (get_or image none)
          else update_and_invalidate goods.store_id (or_text dto.version_id "") dto file image
