-- ===== src/Category.antt =====
-- src/store/category/category.service.ts: the categories of a store's goods, and their order.
mod Tests
pub mod Order
pub mod Tree
use Prim.Native.String.{◌++◌}
use open_api.Prelude.{
  ℕ, zero, suc, ◌+◌, ◌-◌, ◌==◌, ℤ, pos, ◌+ℤ◌, ◌==ℤ◌, Bool, true, false, not, ◌&&◌, String, ◌===◌,
  length, last, is_some, get_or, or_text, Option, none, some, List, if◌then◌else◌, Action,
  bad_request, unique_violation, plain_error, pure, raise, gets, or_raise, raise_if, modify, ◌>>=◌,
  ◌>>◌,
}
use open_api.Schema.{Store, CategoryGoods, User, Db}
use open_api.Prisma.{Prisma}
use open_api.Ranking.{Ranked, Messages, neighbour, exchange}

-- E_CATEGORY_STATUS_TYPE
abbrev pub inactive : ℤ
inactive = pos 0

abbrev pub active : ℤ
active = pos 1

-- CreateCategoryDto
pub record CreateCategory : Type 0 where
  pub store_id : String
  pub pid : Option String
  pub name : String

-- UpdateCategoryDto
pub record UpdateCategory : Type 0 where
  pub name : Option String
  pub pid : Option String

-- Categories, by their rank.
abbrev pub ranked : Ranked
ranked = record {
  Row = CategoryGoods;
  key = λ c. c.category_id;
  rank = λ c. c.rank;
  set_rank = λ k c. record c { rank = k };
}

abbrev pub messages : CategoryGoods → Messages
messages category = record {
  no_brothers = "未能找到同级分类";
  only_one = "同级分类仅一个元素， 无需修改排序";
  no_place = "未能在父级中找到 " ++ category.name ++ " 的位置";
  is_first = "分类 " ++ category.name ++ " 已经是第一位，无需往前调整";
  is_last = "分类 " ++ category.name ++ " 已经是最后一位，无需往后调整";
}

-- `{ store_id, pid }`
pub is_child : String → String → CategoryGoods → Bool
is_child store_id pid c = c.store_id === store_id && c.pid === pid

-- `last ? last.rank + 1 : 0`
abbrev pub rank_after : Option CategoryGoods → ℤ
rank_after none = pos 0
rank_after (some c) = c.rank +ℤ pos 1

module _ (prisma : Prisma) where
  open prisma use {Table, find_first, find_many_by, update, create, next_id}

  pub find_category : String → Db Table → Option CategoryGoods
  find_category id db = find_first (λ c. c.category_id === id) db.category_goods

  -- The row of the highest rank (`orderBy: { rank: 'desc' }`).
  pub last_ranked : (CategoryGoods → Bool) → Db Table → Option CategoryGoods
  last_ranked p db = last (find_many_by p (λ c. c.rank) db.category_goods)

  pub set_category : String → (CategoryGoods → CategoryGoods) → Action (Db Table) (Unit {0})
  set_category id f =
      modify (λ db. record db {
        category_goods = update (λ c. c.category_id === id) f db.category_goods;
      })

  pub set_by_row : CategoryGoods → (CategoryGoods → CategoryGoods) → Action (Db Table) (Unit {0})
  set_by_row row f =
      modify (λ db. record db { category_goods = update (λ c. c.id == row.id) f db.category_goods })

  find_with_status : String → ℤ → Db Table → Option CategoryGoods
  find_with_status id status db =
      find_first (λ c. c.category_id === id && c.status ==ℤ status) db.category_goods

  pub reactive : String → Action (Db Table) (Unit {0})
  unfolding find_with_status
  reactive id = do
    category ← or_raise (← gets (find_with_status id inactive)) (bad_request "未找到该分类或分类无需激活")
    set_by_row category (λ c. record c { status = active })

  pub remove : String → Action (Db Table) (Unit {0})
  unfolding find_with_status
  remove id = do
    category ← or_raise (← gets (find_with_status id active)) (bad_request "未找到该分类或分类已被删除")
    set_by_row category (λ c. record c { status = inactive })

  -- Whether another row of the store has the name (`@@unique([store_id, name])`).
  name_taken : String → String → String → Db Table → Bool
  name_taken store_id name id db = is_some (
      find_first (λ c. c.store_id === store_id && (c.name === name && not (c.category_id === id)))
        db.category_goods)

  pub update_category : String → UpdateCategory → Action (Db Table) (Unit {0})
  unfolding find_with_status name_taken
  update_category id dto = do
    category ← or_raise (← gets (find_with_status id active)) (bad_request "未找到该分类或分类已被禁用")
    taken ← gets (name_taken category.store_id (get_or dto.name category.name) id)
    raise_if taken unique_violation
    set_by_row category
        (λ c. record c { name = get_or dto.name c.name; pid = get_or dto.pid c.pid })

  -- The last category that a new one is ranked after: without a parent it is the last of all.
  last_of : Option String → Db Table → Option CategoryGoods
  last_of none db = last_ranked (λ c. true) db
  last_of (some pid) db = last_ranked (λ c. c.pid === pid) db

  create_new : String → CreateCategory → Action (Db Table) (Unit {0})
  create_new fresh dto = do
    after ← gets (last_of dto.pid)
    taken ← gets (name_taken dto.store_id dto.name fresh)
    raise_if taken unique_violation
    modify (λ db. record db {
      category_goods =
          create
            (record {
              id = next_id db.category_goods;
              category_id = fresh;
              store_id = dto.store_id;
              pid = get_or dto.pid "0";
              rank = rank_after after;
              name = dto.name;
              status = active;
            })
            db.category_goods;
    })

  create_or_reactive : String → CreateCategory → Option CategoryGoods → Action (Db Table) (Unit {0})
  create_or_reactive fresh dto none = create_new fresh dto
  create_or_reactive fresh dto (some category) = do
    raise_if (category.status ==ℤ active) (bad_request (dto.name ++ " 分类已经创建"))
    reactive category.category_id

  -- `create`, with the key of a new category.
  pub create_category : String → CreateCategory → User → Action (Db Table) (Unit {0})
  unfolding create_or_reactive create_new last_of name_taken
  create_category fresh dto user = do
    or_raise
        (← gets (λ db.
          find_first (λ s. s.store_id === dto.store_id && s.user_id === user.user_id) db.store))
        (bad_request "商铺不在您名下 或 商铺不存在")
    category ← gets (λ db.
        find_first (λ c. is_child dto.store_id (get_or dto.pid "0") c && c.name === dto.name)
          db.category_goods)
    create_or_reactive fresh dto category

  move_below : String → CategoryGoods → String → Action (Db Table) (Unit {0})
  move_below category_id category parent_id = do
    parent ←
        or_raise (← gets (find_category parent_id)) (bad_request ("父分类 " ++ category_id ++ " 不存在"))
    raise_if (not (category.store_id === parent.store_id)) (bad_request "错误的请求, 请刷新页面重拾")
    after ← gets (last_ranked (is_child parent.store_id parent.category_id))
    set_category category_id (λ c. record c { pid = parent_id; rank = rank_after after })

  pub switch_category : String → Option String → Action (Db Table) (Unit {0})
  unfolding move_below
  switch_category category_id parent_category_id = do
    category ←
        or_raise (← gets (find_category category_id)) (bad_request ("分类 " ++ category_id ++ " 不存在"))
    if or_text parent_category_id "" === ""
        then set_category category_id (λ c. record c { pid = "0" })
        else move_below category_id category (or_text parent_category_id "")

  pub siblings : CategoryGoods → Db Table → List CategoryGoods
  siblings category db =
      find_many_by (is_child category.store_id category.pid) (λ c. c.rank) db.category_goods

  pub switch_rank : String → String → Action (Db Table) (Unit {0})
  switch_rank cid type = do
    category ← or_raise (← gets (find_category cid)) (bad_request "未能找到您要修改的分类，请你刷新页面后重试。")
    brothers ← gets (siblings category)
    other ← (λ db. (neighbour ranked (messages category) cid type brothers, db))
    modify (λ db. record db {
      category_goods = exchange ranked prisma cid category other db.category_goods;
    })
