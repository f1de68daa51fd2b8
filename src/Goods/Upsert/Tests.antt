-- ===== src/Goods/Upsert/Tests.antt =====
-- Runs of `upsertGoodsVersion` (src/store/goods/goods.service.ts): a batch that exists, and an image
-- that two versions share.
use open_api.Prelude.{
  ℤ, ◌+ℤ◌, ◌-ℤ◌, pos, true, false, String, ◌≡◌, refl, Option, none, some, List, [], ◌∷◌, ok, err,
  bad_request,
}
use open_api.Schema.{StoreGoodsVersion, Db}
use open_api.Prisma.InMemory.{in_memory, empty_db}
use open_api.Resource.{get_store_resource}
use open_api.Resource.Used.{
  calculate_used_quota, get_used_quota, or_calculate, calculate_and_cache, invalidate_used_quota,
}
use open_api.Goods.{find_goods, set_versions}
use open_api.Goods.Create.{Upload, upload_file, check_resource_quota, has_batch, add_version}
use open_api.Goods.Upsert.{
  UpsertGoodsVersion, create_goods_version, find_version, is_taken, size_of, old_image_size,
  update_version, new_image, update_and_invalidate, upsert_goods_version,
}

abbrev version : String → StoreGoodsVersion
version id = record {
  version_id = id;
  goods_id = "g1";
  image_hash = some "h1";
  version_number = none;
  bar_code = none;
  count = pos 3;
  price = pos 100;
  unit_name = "g";
  supplier = none;
  status = pos 1;
  create_date = 0;
}

-- Two versions with the one image of 50 bytes, of the 100 that the store may use.
abbrev sample : Db (λ R. List R)
sample = record empty_db {
  store_resource = record { store_id = "s1"; total_quota = pos 100 } ∷ [];
  file = record { hash = "h1"; size = 50 } ∷ [];
  store_goods =
      record {
        goods_id = "g1";
        store_id = "s1";
        category_id = "c1";
        rank = pos 0;
        name = "tea";
        description = none;
        status = pos 1;
      }
      ∷ [];
  store_goods_version = version "v1" ∷ version "v2" ∷ [];
}

abbrev form : Option String → UpsertGoodsVersion
form version_id = record {
  version_id = version_id;
  remove_image = false;
  version_number = some "b1";
  bar_code = none;
  count = pos 3;
  price = pos 100;
  unit_name = "g";
  supplier = none;
  status = pos 1;
}

abbrev text : ℤ → String
text n = ""

batch_runs :
    let db = (upsert_goods_version in_memory text text "v3" 5 "g1" (form none) none sample).1 in
    upsert_goods_version in_memory text text "v4" 6 "g1" (form none) none db
    ≡ (err (bad_request "该批次 b1 已经创建"), db)
unfolding upsert_goods_version find_goods new_image create_goods_version has_batch is_taken
    add_version
batch_runs = refl

abbrev photo : Upload
photo = record { hash = "h2"; size = 90; is_stored = true }

-- The old image of v1 is subtracted, and stays in use by v2.
shared_runs :
    let after =
      upsert_goods_version in_memory text text "" 5 "g1" (form (some "v1")) (some photo) sample in
    (after.0 ≡ ok tt) × (calculate_used_quota in_memory "s1" after.1 ≡ 140)
unfolding upsert_goods_version find_goods new_image old_image_size find_version size_of
    check_resource_quota get_used_quota or_calculate calculate_and_cache get_store_resource
    invalidate_used_quota upload_file update_and_invalidate update_version is_taken set_versions
    calculate_used_quota ◌+ℤ◌ ◌-ℤ◌
shared_runs = (refl, refl)
