-- ===== src/Goods/Create/Tests.antt =====
-- Runs of the creation of goods, and its theorems at them.
use open_api.Prelude.{
  ℤ, ◌≤ℤ◌, pos, true, String, ◌≡◌, refl, none, some, List, [], ◌∷◌, ◌+ℤ◌, ◌-ℤ◌, ok, arith,
}
use open_api.Schema.{Db}
use open_api.Prisma.InMemory.{in_memory, empty_db}
use open_api.Prisma.Sorting.{sort_by}
use open_api.Resource.{get_store_resource}
use open_api.Resource.Used.{
  calculate_used_quota, get_used_quota, or_calculate, calculate_and_cache, invalidate_used_quota,
}
use open_api.Goods.Create.{
  Upload, CreateGood, upload_file, check_resource_quota, goods_for, last_goods, has_batch,
  add_version, find_named, create_with, image_of, create_goods,
}
use open_api.Goods.Create.Images.{AllOfSize}
use open_api.Goods.Create.Quota.{create_goods-within_quota}
use open_api.Goods.Create.Batch.{create_goods_twice}

abbrev form : CreateGood
form = record {
  store_id = "s1";
  category_ids = "c1";
  name = "milk";
  description = none;
  version_number = "b1";
  bar_code = none;
  count = pos 3;
  price = pos 100;
  unit_name = "g";
  supplier = none;
  image_hash = none;
}

abbrev photo : Upload
photo = record { hash = "h2"; size = 40; is_stored = true }

-- Tea with an image of 50 bytes, of the 100 that the store may use.
abbrev sample : Db (λ R. List R)
sample = record empty_db {
  store_resource = record { store_id = "s1"; total_quota = pos 100 } ∷ [];
  file = record { hash = "h1"; size = 50 } ∷ [];
  store_goods =
      record {
        goods_id = "g1";
        store_id = "s1";
        category_id = "c1";
        rank = pos 0;
        name = "tea";
        description = none;
        status = pos 1;
      }
      ∷ [];
  store_goods_version =
      record {
        version_id = "v1";
        goods_id = "g1";
        image_hash = some "h1";
        version_number = none;
        bar_code = none;
        count = pos 3;
        price = pos 100;
        unit_name = "g";
        supplier = none;
        status = pos 1;
        create_date = 0;
      }
      ∷ [];
}

abbrev text : ℤ → String
text n = ""

photo_runs :
    ((create_goods in_memory text text "g2" "v2" 5 form (some photo) sample).0 ≡ ok tt)
    × (calculate_used_quota in_memory "s1"
          (create_goods in_memory text text "g2" "v2" 5 form (some photo) sample).1
        ≡ 90)
unfolding create_goods image_of check_resource_quota get_used_quota or_calculate calculate_and_cache
    get_store_resource invalidate_used_quota upload_file create_with find_named goods_for last_goods
    has_batch add_version sort_by calculate_used_quota ◌+ℤ◌ ◌-ℤ◌
photo_runs = (refl, refl)

resource_runs :
    get_store_resource in_memory "s1" sample
    ≡ some (record { store_id = "s1"; total_quota = pos 100 })
unfolding get_store_resource
resource_runs = refl

create_goods-within_quota_example :
    pos (
      calculate_used_quota in_memory "s1"
        (create_goods in_memory text text "g2" "v2" 5 form (some photo) sample).1)
    ≤ℤ pos 100
unfolding AllOfSize
create_goods-within_quota_example =
    create_goods-within_quota in_memory text text "g2" "v2" 5 form photo sample
      (record { store_id = "s1"; total_quota = pos 100 }) photo_runs.0 resource_runs (omega arith)
      (tt, tt) ((λ same. absurd (ground arith)), tt) (refl, tt)

plain_runs : (create_goods in_memory text text "g2" "v2" 5 form none sample).0 ≡ ok tt
unfolding create_goods image_of create_with find_named goods_for last_goods has_batch add_version
    sort_by
plain_runs = refl

create_goods_twice_example :
    (create_goods in_memory text text "g3" "v3" 6 form none
      (create_goods in_memory text text "g2" "v2" 5 form none sample).1).0
    ≡ ok tt
create_goods_twice_example =
    create_goods_twice in_memory text text "g2" "g3" "v2" "v3" 5 6 form sample refl refl plain_runs
