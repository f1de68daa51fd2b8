-- ===== src/Application.antt =====
-- src/store/store.service.ts: the application, approval and freezing of stores, with their history.
-- The identifiers of new rows and the time are arguments; a store's settings come as their JSON. The
-- text `action_content` of the history, which no method reads, is left out.
mod Const
pub mod Kept
pub mod Approved
mod Tests
pub use Const.*
use Prim.Native.String.{◌++◌}
use open_api.Prelude.{
  ℕ, ℤ, pos, negsuc, ◌==ℤ◌, Bool, true, false, not, ◌&&◌, ◌||◌, String, ◌===◌, get_or, last,
  is_some, Option, none, some, if◌then◌else◌, Action, bad_request, record_missing, unique_violation,
  pure, raise_if, gets, or_raise, modify, transaction, ◌>>=◌, ◌>>◌,
}
use open_api.Schema.{Store, StoreHistory, StoreResource, StoreResourceOrder, User, Db}
use open_api.Prisma.{Prisma}
use open_api.Resource.{free_quota}
use open_api.Platform.{Runtime, needs_code, assert_store_create_allowed, redeem_store_create_code}

-- CreateStoreInputDto
pub record CreateStoreInput : Type 0 where
  pub store_id : Option String
  pub activation_code : Option String
  pub store_name : String
  pub phone : String

-- UpdateStoreDto
pub record UpdateStore : Type 0 where
  pub user_id : String
  pub store_name : String
  pub phone : String

abbrev pub store_of : String → User → CreateStoreInput → Store
store_of store_id user dto = record {
  store_id = store_id;
  user_id = user.user_id;
  store_name = dto.store_name;
  phone = dto.phone;
  status = store_approved;
  extra_member_limit = pos 0;
}

-- The fields of the form, and back to the state before the approval.
abbrev pub applied_again : CreateStoreInput → Store → Store
applied_again dto s = record s {
  store_name = dto.store_name;
  phone = dto.phone;
  status = store_pending;
}

abbrev pub updated : UpdateStore → Store → Store
updated dto s = record s { user_id = dto.user_id; store_name = dto.store_name; phone = dto.phone }

-- `storeHistory?.action_type !== STORE_ACTION_TYPES.PREVIEW`
abbrev pub is_preview : Option StoreHistory → Bool
is_preview none = false
is_preview (some h) = h.action_type ==ℤ action_preview

module _ (prisma : Prisma) where
  open prisma use {Table, find_first, find_many_by, update, create, next_id}

  unfoldable pub find_store : String → Db Table → Option Store
  find_store store_id db = find_first (λ s. s.store_id === store_id) db.store

  unfoldable pub set_store : String → (Store → Store) → Action (Db Table) (Unit {0})
  set_store store_id f =
      modify (λ db. record db { store = update (λ s. s.store_id === store_id) f db.store })

  unfoldable pub add_history : ℕ → String → ℤ → Option String → User → Action (Db Table) (Unit {0})
  add_history now store_id action payload user = modify (λ db. record db {
    store_history =
        create
          (record {
            store_id = store_id;
            action_type = action;
            payload = payload;
            action_user_id = user.user_id;
            action_date = now;
            create_date = now;
          })
          db.store_history;
  })

  -- A new store, where no other has its identifier.
  unfoldable pub add_store : Store → Action (Db Table) (Unit {0})
  add_store store = do
    taken ← gets (λ db. is_some (find_store store.store_id db))
    raise_if taken unique_violation
    modify (λ db. record db { store = create store db.store })

  -- The room for images that an approved store has, where it has none: `store_id` is unique.
  unfoldable pub add_resource : String → Action (Db Table) (Unit {0})
  add_resource store_id = do
    taken ← gets (λ db. is_some (find_first (λ r. r.store_id === store_id) db.store_resource))
    raise_if taken unique_violation
    modify (λ db. record db {
      store_resource =
          create (record { store_id = store_id; total_quota = free_quota }) db.store_resource;
    })

  unfoldable pub add_free_order : ℕ → String → String → Action (Db Table) (Unit {0})
  add_free_order now order_id store_id = modify (λ db. record db {
    store_resource_order =
        create
          (record {
            id = next_id db.store_resource_order;
            order_id = order_id;
            store_id = store_id;
            type = pos 1;
            quota_amount = free_quota;
            price = pos 0;
            status = pos 1;
            create_date = now;
          })
          db.store_resource_order;
  })

  unfoldable pub update_settings : ℕ → String → String → User → Action (Db Table) (Unit {0})
  unfolding add_history
  update_settings now store_id settings user = do
    or_raise (← gets (find_store store_id)) (bad_request "店铺不存在")
    add_history now store_id action_updated (some settings) user

  unfoldable pub apply_again : ℕ → String → User → CreateStoreInput → Action (Db Table) (Unit {0})
  unfolding set_store add_history
  apply_again now store_id user dto = do
    existing ← or_raise (← gets (find_store store_id)) (bad_request "未找到要修改的店铺申请")
    raise_if (not (existing.user_id === user.user_id)) (bad_request "您无权修改此申请")
    set_store store_id (applied_again dto)
    add_history now store_id action_updated none user

  module _ (js : Runtime) where
    -- `if (needsCode && activationCode) await this.platformService.redeemStoreCreateCode(…)`
    unfoldable pub redeem_if_needed :
        ℕ → Bool → Option String → User → String → Action (Db Table) (Unit {0})
    redeem_if_needed now needed code user store_id =
        if needed && not (get_or code "" === "")
        then (do redeem_store_create_code prisma js now user (get_or code "") store_id; pure tt)
        else pure tt

    unfoldable pub apply_new :
        ℕ → (String → String) → User → CreateStoreInput → Action (Db Table) (Unit {0})
    unfolding add_history add_store add_resource add_free_order redeem_if_needed
    apply_new now fresh user dto = do
      assert_store_create_allowed prisma js user dto.activation_code
      needed ← gets (needs_code prisma user)
      let store_id = fresh "store-"
      transaction (do
        add_store (store_of store_id user dto)
        add_history now store_id action_apply none user
        add_history now store_id action_approved (some "auto-approved") user
        add_resource store_id
        add_free_order now (fresh "RO-") store_id
        redeem_if_needed now needed dto.activation_code user store_id)

    -- `create`, with or without the identifier of a store.
    unfoldable pub create_store :
        ℕ → (String → String) → User → CreateStoreInput → Action (Db Table) (Unit {0})
    unfolding apply_again apply_new
    create_store now fresh user dto =
        if get_or dto.store_id "" === ""
        then apply_new now fresh user dto
        else apply_again now (get_or dto.store_id "") user dto

  unfoldable pub find_in_status : String → ℤ → Db Table → Option Store
  find_in_status store_id status db =
      find_first (λ s. s.store_id === store_id && s.status ==ℤ status) db.store

  unfoldable pub preview_apply : ℕ → String → User → Action (Db Table) (Unit {0})
  unfolding set_store add_history
  preview_apply now id user = do
    or_raise (← gets (find_in_status id store_pending)) (bad_request "未找到等待审批的商店申请")
    set_store id (λ s. record s { status = store_preview })
    add_history now id action_preview none user

  -- The last action on the store.
  unfoldable pub last_history : String → Db Table → Option StoreHistory
  last_history store_id db =
      last (find_many_by (λ h. h.store_id === store_id) (λ h. pos h.create_date) db.store_history)

  unfoldable pub review_apply : ℕ → String → User → Action (Db Table) (Unit {0})
  unfolding set_store add_history
  review_apply now id user = do
    store ← or_raise (← gets (find_store id)) (bad_request "未找到等待 review 的 store 申请")
    history ← gets (last_history id)
    raise_if (store.status ==ℤ store_pending || not (is_preview history))
        (bad_request "请确定你是否预览并刷新页面，重新提交")
    set_store id (λ s. record s { status = store_reviewed })
    add_history now id action_reviewed none user

  unfoldable pub approved_for_apply :
      ℕ → String → String → String → User → Action (Db Table) (Unit {0})
  unfolding set_store add_history add_resource add_free_order
  approved_for_apply now order_id id content user = do
    or_raise (← gets (find_in_status id store_reviewed)) (bad_request "请确定你是否预览完成")
    transaction (do
      set_store id (λ s. record s { status = store_approved })
      add_history now id action_approved (some content) user
      add_resource id
      add_free_order now order_id id)

  unfoldable pub frozen_found : ℕ → String → User → Store → Action (Db Table) (Unit {0})
  unfolding set_store add_history
  frozen_found now id user store = if store.status ==ℤ store_frozen then pure tt else (do
    set_store id (λ s. record s { status = store_frozen })
    add_history now id action_frozen none user)

  unfoldable pub frozen : ℕ → String → User → Action (Db Table) (Unit {0})
  unfolding frozen_found
  frozen now id user = do
    store ← or_raise (← gets (find_store id)) (bad_request "未找到 store")
    frozen_found now id user store

  -- A status that it does not know does nothing.
  unfoldable pub adapter : ℕ → String → String → ℤ → User → Action (Db Table) (Unit {0})
  unfolding preview_apply review_apply approved_for_apply frozen
  adapter now order_id store_id status user =
      if status ==ℤ store_preview
      then preview_apply now store_id user
      else (if status ==ℤ store_reviewed
          then review_apply now store_id user
          else (if status ==ℤ store_approved
              then approved_for_apply now order_id store_id "approved" user
              else (if status ==ℤ store_frozen then frozen now store_id user else pure tt)))

  unfoldable pub update_store : ℕ → String → UpdateStore → User → Action (Db Table) (Unit {0})
  unfolding set_store add_history
  update_store now id dto user = do
    or_raise (← gets (find_store id)) record_missing
    set_store id (updated dto)
    add_history now id action_updated none user

  unfoldable pub transform : ℕ → String → User → Action (Db Table) (Unit {0})
  unfolding add_history
  transform now id user = add_history now id action_transform none user
