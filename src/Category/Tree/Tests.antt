-- ===== src/Category/Tree/Tests.antt =====
-- A run of the tree of categories, and its theorem at it.
use open_api.Prelude.{pos, false, String, ◌≡◌, refl, some, List, [], ◌∷◌, ok}
use open_api.Schema.{CategoryGoods, Db}
use open_api.Prisma.InMemory.{in_memory, empty_db}
use open_api.Category.Tree.{put, put_all, place_all, array2tree, category_tree}
use open_api.Category.Tree.Nested.{nested}
use open_api.Category.Tree.Shown.{shows, shelf_of, category_tree-shown}

abbrev shelf : String → String → String → CategoryGoods
shelf id pid name = record {
  id = 1;
  category_id = id;
  store_id = "s1";
  pid = pid;
  rank = pos 0;
  name = name;
  status = pos 1;
}

-- Milk below juice, which is below tea: milk is on the third level, and is not shown.
abbrev deep : Db (λ R. List R)
deep = record empty_db {
  category_goods = shelf "c1" "0" "tea" ∷ shelf "c2" "c3" "milk" ∷ shelf "c3" "c1" "juice" ∷ [];
}

tree_runs :
    (category_tree in_memory "s1" deep).0
    ≡ ok
        (record { row = shelf "c1" "0" "tea"; children = some (shelf "c3" "c1" "juice" ∷ []) } ∷ [])
unfolding category_tree array2tree put_all put place_all
tree_runs = refl

category_tree-shown_example :
    (category_tree in_memory "s1" deep
      ≡ (ok (nested (λ c. c.pid) (λ c. c.category_id) "0" (shelf_of in_memory "s1" deep)), deep))
    × (shows
          (λ c. c.category_id)
          "c2"
          (nested (λ c. c.pid) (λ c. c.category_id) "0" (shelf_of in_memory "s1" deep))
        ≡ false)
category_tree-shown_example =
    category_tree-shown in_memory "s1" deep (shelf "c2" "c3" "milk")
      ((refl, (refl, tt)), ((refl, tt), (tt, tt))) refl
