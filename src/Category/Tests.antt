-- ===== src/Category/Tests.antt =====
-- Runs of the category service on a small database, and its theorem at one of them.
use open_api.Prelude.{ℤ, pos, String, ◌≡◌, refl, some, List, [], ◌∷◌, ok, map}
use open_api.Schema.{CategoryGoods, Db}
use open_api.Prisma.InMemory.{in_memory, empty_db}
use open_api.Prisma.Sorting.{sort_by}
use open_api.Ranking.{index_from, item_at, below, beside, at_index, neighbour, exchange}
use open_api.Ranking.Exchange.{Moved}
use open_api.Category.{ranked, is_child, find_category, siblings, switch_rank}
use open_api.Category.Order.{ranked-IsRanked, is_child_kept, switch_rank-Moved}

abbrev shelf : String → String → ℤ → CategoryGoods
shelf id name rank = record {
  id = 1;
  category_id = id;
  store_id = "s1";
  pid = "0";
  rank = rank;
  name = name;
  status = pos 1;
}

abbrev sample : Db (λ R. List R)
sample = record empty_db {
  category_goods =
      shelf "c1" "tea" (pos 0) ∷ shelf "c3" "juice" (pos 2) ∷ shelf "c2" "milk" (pos 1) ∷ [];
}

move_runs : (switch_rank in_memory "c3" "up" sample).0 ≡ ok tt
unfolding switch_rank find_category siblings is_child neighbour at_index beside below index_from
    item_at sort_by
move_runs = refl

moved_names :
    map
      (λ c. c.name)
      (siblings in_memory (shelf "c3" "juice" (pos 2)) (switch_rank in_memory "c3" "up" sample).1)
    ≡ "tea" ∷ "juice" ∷ "milk" ∷ []
unfolding switch_rank find_category siblings is_child neighbour at_index beside below index_from
    item_at exchange sort_by
moved_names = refl

found_run : find_category in_memory "c3" sample ≡ some (shelf "c3" "juice" (pos 2))
unfolding find_category
found_run = refl

ranks_run :
    map (λ c. c.rank) (siblings in_memory (shelf "c3" "juice" (pos 2)) sample)
    ≡ pos 0 ∷ pos 1 ∷ pos 2 ∷ []
unfolding siblings is_child sort_by
ranks_run = refl

switch_rank-Moved_example :
    Moved ranked ranked-IsRanked in_memory
      (is_child "s1" "0")
      (is_child_kept "s1" "0")
      "c3"
      "up"
      sample.category_goods
      (switch_rank in_memory "c3" "up" sample).1.category_goods
switch_rank-Moved_example =
    switch_rank-Moved in_memory "c3" "up" sample (shelf "c3" "juice" (pos 2)) move_runs found_run
      ((refl, (refl, tt)), ((refl, tt), (tt, tt)))
      (rw ranks_run ((refl, (refl, tt)), ((refl, tt), (tt, tt))))
