-- ===== src/Category/Tree.antt =====
-- `array2Tree` of src/common/utils/index.ts, and `categoryTree` of
-- src/store/category/category.service.ts. The object that `array2Tree` fills is the list of its
-- entries in the order in which they were set; no key is a name that every object has.
pub mod Nested
pub mod Shown
mod Tests
use open_api.Prelude.{
  ◌==ℤ◌, Bool, true, false, not, ◌&&◌, String, ◌===◌, is_some, get_or, Option, none, some, List, [],
  ◌∷◌, ◌++◌, map, map_where, find, if◌then◌else◌, Action, gets, pure, ◌>>=◌,
}
use open_api.Schema.{CategoryGoods, Db}
use open_api.Prisma.{Prisma}
use open_api.Category.{active}

-- `T & { children?: T[] }`
pub record Node (T : Type 0) : Type 0 where
  pub row : T
  pub children : Option (List T)

module _ {T : Type 0} where
  -- `{ ...item }`
  abbrev pub leaf : T → Node T
  leaf item = record { row = item; children = none }

  -- `parent.children.push(v)`, after `parent.children = []` where there are none.
  abbrev pub push_child : T → Node T → Node T
  push_child v n = record n { children = some (get_or n.children [] ++ v ∷ []) }

module _ {T : Type 0} (key : T → String) where
  -- `map[k]`
  abbrev pub entry : String → List (Node T) → Option (Node T)
  entry k nodes = find (λ n. key n.row === k) nodes

  -- `map[item[key]] = { ...item }`
  pub put : T → List (Node T) → List (Node T)
  put item [] = leaf item ∷ []
  put item (n ∷ ns) = if key n.row === key item then leaf item ∷ ns else n ∷ put item ns

  pub put_all : List T → List (Node T) → List (Node T)
  put_all [] nodes = nodes
  put_all (item ∷ items) nodes = put_all items (put item nodes)

module _ {T : Type 0} (pid key : T → String) (empty_value : String) where
  -- `v[pid.key] !== pid.emptyValue && parent`
  abbrev pub has_parent : List (Node T) → T → Bool
  has_parent nodes v = not (pid v === empty_value) && is_some (entry key (pid v) nodes)

  -- The second loop: the entries and the roots after it.
  pub place_all : List T → List (Node T) → List T → List (Node T) × List T
  place_all [] nodes roots = (nodes, roots)
  place_all (v ∷ vs) nodes roots =
      let below = place_all vs (map_where (λ n. key n.row === pid v) (push_child v) nodes) roots in
      let root = place_all vs nodes (roots ++ v ∷ []) in if has_parent nodes v then below else root

  pub array2tree : List T → List (Node T)
  array2tree arr =
      let (nodes, roots) = place_all arr (put_all key arr []) [] in
      map (λ item. get_or (entry key (key item) nodes) (leaf item)) roots

module _ (prisma : Prisma) where
  open prisma use {Table, find_many}

  -- `{ store_id, status: E_CATEGORY_STATUS_TYPE.active }`
  abbrev pub is_active_of : String → CategoryGoods → Bool
  is_active_of store_id c = c.store_id === store_id && c.status ==ℤ active

  pub category_tree : String → Action (Db Table) (List (Node CategoryGoods))
  category_tree store_id = do
    categories ← gets (λ db. find_many (is_active_of store_id) db.category_goods)
    pure (array2tree (λ c. c.pid) (λ c. c.category_id) "0" categories)
