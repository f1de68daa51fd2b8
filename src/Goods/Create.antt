-- ===== src/Goods/Create.antt =====
-- `create`, `upsertGoodsVersion`, `createGoodsVersion` and `checkResourceQuota` of
-- src/store/goods/goods.service.ts, and `uploadFile` of src/file/file.service.ts. The addresses of
-- images and the owner of a file are left out; how numbers are printed is a parameter.
mod Images
mod Granted
pub mod Quota
pub mod Batch
mod Tests
use Prim.Native.String.{◌++◌}
use mathlib.Core.Option
use open_api.Prelude.{
  ℕ, ℤ, pos, ◌+ℤ◌, ◌-ℤ◌, ltb_ℤ, Bool, true, false, not, ◌&&◌, ◌||◌, String, ◌===◌, is_some, get_or,
  or_text, last, Option, none, some, List, if◌then◌else◌, Action, bad_request, plain_error,
  record_missing, unique_violation, pure, raise, gets, or_raise, raise_if, modify, transaction,
  ◌>>=◌, ◌>>◌,
}
use open_api.Schema.{StoreGoods, StoreGoodsVersion, StoredFile, StoreResource, Db}
use open_api.Prisma.{Prisma}
use open_api.Resource.{get_store_resource}
use open_api.Resource.Used.{get_used_quota, invalidate_used_quota}
use open_api.Goods.{active, or_old, find_goods, set_versions}

-- An uploaded file: the hash and the length of its content, and whether the storage takes it.
pub record Upload : Type 0 where
  pub hash : String
  pub size : ℕ
  pub is_stored : Bool

-- CreateGoodDto and CreateGoodsVersionDto; the identities of the categories are already sorted and
-- joined.
pub record CreateGood : Type 0 where
  pub store_id : String
  pub category_ids : String
  pub name : String
  pub description : Option String
  pub version_number : String
  pub bar_code : Option String
  pub count : ℤ
  pub price : ℤ
  pub unit_name : String
  pub supplier : Option String
  pub image_hash : Option String

-- `lastGoods ? lastGoods.rank + 1 : 0`
abbrev pub next_rank : Option StoreGoods → ℤ
next_rank none = pos 0
next_rank (some g) = g.rank +ℤ pos 1

abbrev pub new_goods : String → CreateGood → ℤ → StoreGoods
new_goods goods_id dto rank = record {
  goods_id = goods_id;
  store_id = dto.store_id;
  category_id = dto.category_ids;
  rank = rank;
  name = dto.name;
  description = dto.description;
  status = active;
}

abbrev pub version_of : CreateGood → String → String → Option String → ℕ → StoreGoodsVersion
version_of dto version_id goods_id image_hash now = record {
  version_id = version_id;
  goods_id = goods_id;
  image_hash = image_hash;
  version_number = none;
  bar_code = none;
  count = dto.count;
  price = dto.price;
  unit_name = dto.unit_name;
  supplier = dto.supplier;
  status = active;
  create_date = now;
}

module _ (prisma : Prisma) where
  open prisma use {Table, find_first, find_many_by, update, create}

  -- `uploadFile`
  unfoldable pub upload_file : Upload → Action (Db Table) String
  upload_file file = do
    known ← gets (λ db. is_some (find_first (λ f. f.hash === file.hash) db.file))
    raise_if (not known && not file.is_stored) (plain_error "上传失败")
    modify (λ db.
        if known
        then db
        else record db { file = create (record { hash = file.hash; size = file.size }) db.file })
    pure file.hash

  module _ (printed fixed : ℤ → String) where
    abbrev pub quota_message : ℤ → ℤ → ℤ → String
    quota_message total used actual =
        "图片资源额度不足。当前配额："
        ++ printed total
        ++ "MB，已使用："
        ++ fixed used
        ++ "MB，更新后使用："
        ++ fixed actual
        ++ "MB。请购买额外额度。"

    -- `checkResourceQuota`
    unfoldable pub check_resource_quota : String → ℕ → ℕ → Action (Db Table) (Unit {0})
    check_resource_quota store_id incoming old = do
      resource ← gets (get_store_resource prisma store_id)
      used ← get_used_quota prisma store_id
      quota ← or_raise resource (plain_error "Cannot read properties of null")
      let actual = pos used -ℤ pos old +ℤ pos incoming
      raise_if (ltb_ℤ quota.total_quota actual)
          (bad_request (quota_message quota.total_quota (pos used) actual))
      invalidate_used_quota prisma store_id

  -- The goods of the store with the highest rank.
  last_goods : String → Db Table → Option StoreGoods
  last_goods store_id db =
      last (find_many_by (λ g. g.store_id === store_id) (λ g. g.rank) db.store_goods)

  -- The goods of the new version, made where they are missing.
  goods_for : String → CreateGood → Option StoreGoods → Action (Db Table) String
  goods_for fresh dto (some goods) = pure goods.goods_id
  goods_for fresh dto none = do
    top ← gets (last_goods dto.store_id)
    modify (λ db. record db {
      store_goods = create (new_goods fresh dto (next_rank top)) db.store_goods;
    })
    pure fresh

  -- Whether the goods have a version with the number and the unit; the empty number is none.
  unfoldable pub has_batch : String → String → String → Db Table → Bool
  has_batch goods_id unit_name number db =
      not (number === "")
      && is_some (
          find_first
            (λ v.
              v.goods_id === goods_id
              && (v.unit_name === unit_name
                  && get_or (Option.map (λ n. n === number) v.version_number) false))
            db.store_goods_version)

  abbrev pub version_taken : String → Table StoreGoodsVersion → Bool
  version_taken version_id t = is_some (find_first (λ v. v.version_id === version_id) t)

  -- The client throws where the unique key of the version is taken.
  unfoldable pub add_version : StoreGoodsVersion → Action (Db Table) (Unit {0})
  add_version v = do
    taken ← gets (λ db. version_taken v.version_id db.store_goods_version)
    raise_if taken unique_violation
    modify (λ db. record db { store_goods_version = create v db.store_goods_version })

  pub find_named : CreateGood → Db Table → Option StoreGoods
  find_named dto db =
      find_first
        (λ g.
          g.store_id === dto.store_id
          && (g.category_id === dto.category_ids && g.name === dto.name))
        db.store_goods

  -- `create` after the upload: the goods are searched before the transaction.
  pub create_with : String → String → ℕ → CreateGood → Option String → Action (Db Table) (Unit {0})
  create_with fresh version_id now dto image_hash = do
    goods ← gets (find_named dto)
    transaction do
      goods_id ← goods_for fresh dto goods
      taken ← gets (has_batch goods_id dto.unit_name dto.version_number)
      raise_if taken (bad_request ("该批次 " ++ dto.version_number ++ "/" ++ dto.unit_name ++ " 已经创建"))
      add_version (version_of dto version_id goods_id image_hash now)

  module _ (printed fixed : ℤ → String) where
    image_of : CreateGood → Option Upload → Action (Db Table) (Option String)
    image_of dto none = pure dto.image_hash
    image_of dto (some file) = do
      check_resource_quota printed fixed dto.store_id file.size 0
      hash ← upload_file file
      pure (some hash)

    -- `create`, with the identities of new goods and of the version.
    pub create_goods :
        String → String → ℕ → CreateGood → Option Upload → Action (Db Table) (Unit {0})
    create_goods fresh version_id now dto file = do
      image_hash ← image_of dto file
      create_with fresh version_id now dto image_hash
