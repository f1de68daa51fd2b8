-- ===== src/Goods/Tests.antt =====
-- Runs of the goods service on a small database, and its theorems at them.
use open_api.Prelude.{ℤ, pos, String, ◌≡◌, refl, none, some, List, [], ◌∷◌, ok, map}
use open_api.Schema.{StoreGoods, StoreGoodsVersion, Db}
use open_api.Prisma.InMemory.{in_memory, empty_db}
use open_api.Prisma.Sorting.{sort_by}
use open_api.Ranking.{index_from, item_at, below, beside, at_index, neighbour}
use open_api.Ranking.Exchange.{Moved}
use open_api.Goods.{
  SwitchRankGoods, ranked, is_of_store, find_goods, brothers, switch_by, switch_rank,
}
use open_api.Goods.Order.{ranked-IsRanked, is_of_store_kept, switch_goods-Moved}

abbrev goods : String → String → ℤ → StoreGoods
goods id name rank = record {
  goods_id = id;
  store_id = "s1";
  category_id = "c1";
  rank = rank;
  name = name;
  description = none;
  status = pos 1;
}

abbrev version : String → String → StoreGoodsVersion
version id goods_id = record {
  version_id = id;
  goods_id = goods_id;
  image_hash = none;
  version_number = none;
  bar_code = none;
  count = pos 3;
  price = pos 100;
  unit_name = "g";
  supplier = none;
  status = pos 1;
  create_date = 0;
}

abbrev sample : Db (λ R. List R)
sample = record empty_db {
  store_goods =
      goods "g1" "tea" (pos 0) ∷ goods "g3" "juice" (pos 2) ∷ goods "g2" "milk" (pos 1) ∷ [];
  store_goods_version = version "v1" "g1" ∷ version "v2" "g2" ∷ version "v3" "g1" ∷ [];
}

abbrev down : SwitchRankGoods
down = record { type = some "down"; target_id = none }

move_runs : (switch_rank in_memory "g1" down sample).0 ≡ ok tt
unfolding switch_rank switch_by find_goods brothers is_of_store neighbour at_index beside below
    index_from item_at sort_by
move_runs = refl

found_run : find_goods in_memory "g1" sample ≡ some (goods "g1" "tea" (pos 0))
unfolding find_goods
found_run = refl

ranks_run :
    map (λ g. g.rank) (brothers in_memory (goods "g1" "tea" (pos 0)) sample)
    ≡ pos 0 ∷ pos 1 ∷ pos 2 ∷ []
unfolding brothers is_of_store sort_by
ranks_run = refl

switch_goods-Moved_example :
    Moved ranked ranked-IsRanked in_memory
      (is_of_store "s1")
      (is_of_store_kept "s1")
      "g1"
      "down"
      sample.store_goods
      (switch_rank in_memory "g1" down sample).1.store_goods
switch_goods-Moved_example =
    switch_goods-Moved in_memory "g1" down sample (goods "g1" "tea" (pos 0)) refl move_runs
      found_run ((refl, (refl, tt)), ((refl, tt), (tt, tt)))
      (rw ranks_run ((refl, (refl, tt)), ((refl, tt), (tt, tt))))
