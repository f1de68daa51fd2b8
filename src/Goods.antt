-- ===== src/Goods.antt =====
-- src/store/goods/goods.service.ts: the goods of a store, their order and their versions. The texts
-- of the identities of a goods' categories are an argument where they are sorted and joined.
mod Tests
pub mod Order
pub mod Create
pub mod Upsert
use Prim.Native.String.{◌++◌}
use open_api.Prelude.{
  ℕ, ℤ, pos, ◌==ℤ◌, Bool, true, false, not, ◌&&◌, ◌||◌, String, ◌===◌, is_some, get_or, or_text,
  Option, none, some, List, [], ◌∷◌, if◌then◌else◌, Action, bad_request, pure, raise, gets,
  or_raise, raise_if, modify, ◌>>=◌, ◌>>◌,
}
use open_api.Schema.{StoreGoods, StoreGoodsVersion, Db}
use open_api.Prisma.{Prisma}
use open_api.Ranking.{Ranked, Messages, neighbour, exchange}

-- E_GOODS_STATUS
abbrev pub inactive : ℤ
inactive = pos 0

abbrev pub active : ℤ
active = pos 1

-- UpdateGoodDto; the identities of the categories are already sorted and joined.
pub record UpdateGood : Type 0 where
  pub category_ids : Option String
  pub name : Option String
  pub description : Option String
  pub price : Option ℤ
  pub unit_name : Option String
  pub status : Option ℤ

-- UpdateGoodsVersionDto
pub record UpdateGoodsVersion : Type 0 where
  pub goods_id : Option String
  pub version_number : Option String
  pub bar_code : Option String
  pub count : Option ℤ
  pub price : Option ℤ
  pub unit_name : Option String
  pub supplier : Option String
  pub status : Option ℤ

-- SwitchRankGoodsDto
pub record SwitchRankGoods : Type 0 where
  pub type : Option String
  pub target_id : Option String

-- Goods, by their rank.
abbrev pub ranked : Ranked
ranked = record {
  Row = StoreGoods;
  key = λ g. g.goods_id;
  rank = λ g. g.rank;
  set_rank = λ k g. record g { rank = k };
}

abbrev pub messages : StoreGoods → Messages
messages goods = record {
  no_brothers = "未能找到商品";
  only_one = "仅一个商品，无需调整排序";
  no_place = "未能找到商品 " ++ goods.name ++ " 的位置";
  is_first = "商品 " ++ goods.name ++ " 已经是第一位";
  is_last = "商品 " ++ goods.name ++ " 已经是最后一位";
}

-- `{ store_id }`
unfoldable pub is_of_store : String → StoreGoods → Bool
is_of_store store_id g = g.store_id === store_id

-- A nullable column after an update that may leave it out.
abbrev pub or_old : Option String → Option String → Option String
or_old none old = old
or_old (some text) old = some text

-- The data of the update of the goods.
abbrev pub updated : UpdateGood → StoreGoods → StoreGoods
updated dto g = record g {
  name = get_or dto.name g.name;
  description = or_old dto.description g.description;
  category_id = get_or dto.category_ids g.category_id;
  status = get_or dto.status g.status;
}

-- The data of the update of a version.
abbrev pub updated_version : UpdateGoodsVersion → StoreGoodsVersion → StoreGoodsVersion
updated_version dto v = record v {
  goods_id = get_or dto.goods_id v.goods_id;
  version_number = or_old dto.version_number v.version_number;
  bar_code = or_old dto.bar_code v.bar_code;
  count = get_or dto.count v.count;
  price = get_or dto.price v.price;
  unit_name = get_or dto.unit_name v.unit_name;
  supplier = or_old dto.supplier v.supplier;
  status = get_or dto.status v.status;
}

-- The first row of a list.
abbrev pub first_of : List StoreGoodsVersion → Option StoreGoodsVersion
first_of [] = none
first_of (v ∷ vs) = some v

module _ (prisma : Prisma) where
  open prisma use {Table, find_first, find_many_by, update, delete}

  unfoldable pub find_goods : String → Db Table → Option StoreGoods
  find_goods id db = find_first (λ g. g.goods_id === id) db.store_goods

  pub set_goods : String → (StoreGoods → StoreGoods) → Action (Db Table) (Unit {0})
  set_goods id f =
      modify (λ db. record db { store_goods = update (λ g. g.goods_id === id) f db.store_goods })

  pub set_versions :
      (StoreGoodsVersion → Bool)
      → (StoreGoodsVersion → StoreGoodsVersion)
      → Action (Db Table) (Unit {0})
  set_versions p f =
      modify (λ db. record db { store_goods_version = update p f db.store_goods_version })

  -- The version of the goods that was created first.
  first_version : String → Db Table → Option StoreGoodsVersion
  first_version id db =
      first_of
        (find_many_by (λ v. v.goods_id === id) (λ v. pos v.create_date) db.store_goods_version)

  reprice : UpdateGood → Option StoreGoodsVersion → Action (Db Table) (Unit {0})
  unfolding set_versions
  reprice dto none = pure tt
  reprice dto (some first) =
      set_versions (λ v. v.version_id === first.version_id)
        (λ v. record v {
          price = get_or dto.price v.price;
          unit_name = get_or dto.unit_name v.unit_name;
        })

  set_version_status : String → Option ℤ → Action (Db Table) (Unit {0})
  unfolding set_versions
  set_version_status id none = pure tt
  set_version_status id (some status) =
      set_versions (λ v. v.goods_id === id) (λ v. record v { status = status })

  pub update_goods : String → UpdateGood → Action (Db Table) (Unit {0})
  unfolding first_version reprice set_version_status set_goods
  update_goods id dto = do
    or_raise (← gets (find_goods id)) (bad_request "商品不存在")
    set_goods id (updated dto)
    first ← gets (first_version id)
    reprice dto (if is_some dto.price || is_some dto.unit_name then first else none)
    set_version_status id dto.status

  pub remove : String → Action (Db Table) (Unit {0})
  remove id = do
    or_raise (← gets (find_goods id)) (bad_request "商品不存在")
    modify (λ db. record db {
      store_goods_version = delete (λ v. v.goods_id === id) db.store_goods_version;
      store_goods = delete (λ g. g.goods_id === id) db.store_goods;
    })

  pub reactive : String → Action (Db Table) (Unit {0})
  unfolding set_goods
  reactive id = do
    or_raise
        (← gets (λ db. find_first (λ g. g.goods_id === id && g.status ==ℤ inactive) db.store_goods))
        (bad_request "")
    set_goods id (λ g. record g { status = active })

  pub update_goods_version : String → UpdateGoodsVersion → Action (Db Table) (Unit {0})
  unfolding set_versions
  update_goods_version id dto = do
    or_raise (← gets (λ db. find_first (λ v. v.version_id === id) db.store_goods_version))
        (bad_request "当前商品版本丢失，请刷新页面后再试。")
    set_versions (λ v. v.version_id === id) (updated_version dto)

  -- The exchange with goods that are named.
  unfoldable pub switch_with : String → StoreGoods → String → Action (Db Table) (Unit {0})
  switch_with goods_id goods target_id = do
    target ← or_raise (← gets (find_goods target_id)) (bad_request "目标商品不存在")
    raise_if (not (target.store_id === goods.store_id)) (bad_request "不能跨店铺调整排序")
    modify (λ db. record db {
      store_goods =
          update (λ g. g.goods_id === target_id) (λ g. record g { rank = goods.rank })
            (update (λ g. g.goods_id === goods_id) (λ g. record g { rank = target.rank })
              db.store_goods);
    })

  unfoldable pub brothers : StoreGoods → Db Table → List StoreGoods
  brothers goods db = find_many_by (is_of_store goods.store_id) (λ g. g.rank) db.store_goods

  unfoldable pub switch_by : String → StoreGoods → String → Action (Db Table) (Unit {0})
  switch_by goods_id goods type = do
    raise_if (type === "") (bad_request "请指定排序方向或目标商品")
    listed ← gets (brothers goods)
    other ← (λ db. (neighbour ranked (messages goods) goods_id type listed, db))
    modify (λ db. record db {
      store_goods = exchange ranked prisma goods_id goods other db.store_goods;
    })

  unfoldable pub switch_rank : String → SwitchRankGoods → Action (Db Table) (Unit {0})
  switch_rank goods_id dto = do
    goods ← or_raise (← gets (find_goods goods_id)) (bad_request "商品不存在")
    if or_text dto.target_id "" === ""
        then switch_by goods_id goods (or_text dto.type "")
        else switch_with goods_id goods (or_text dto.target_id "")
