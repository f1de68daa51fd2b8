-- ===== src/Settlement/Balanced/Stores.antt =====
-- The calls of src/store/settlement/store-settlement.service.ts keep the totals.
use open_api.Prelude.{ℕ, ℤ, pos, String, Option, none, some, List, [], ◌∷◌, Keeps, keeps}
use open_api.Schema.{StoreSettlement}
use open_api.Prisma.{Prisma}
use open_api.Settlement.{Calendar}
use open_api.Settlement.Store
use open_api.Settlement.Store.{settlement_of, detail_of}
use open_api.Settlement.Balanced.{
  IsBalanced, AllBalanced, settlement_of-IsBalanced, add_store-AllBalanced, set_store-AllBalanced,
}

module _ (prisma : Prisma) (calendar : Calendar) where
  module _ (key : String → String) (month : String) where
    settle_new-AllBalanced :
        (store_id : String) (existing : Option StoreSettlement)
        → Keeps
            (AllBalanced prisma calendar)
            (Store.settle_new prisma calendar key month store_id existing)
    unfolding Store.settle_new
    settle_new-AllBalanced store_id none =
        search (keeps, add_store-AllBalanced, settlement_of-IsBalanced) depth 12
    settle_new-AllBalanced store_id (some s) = search keeps

    settle_store-AllBalanced :
        (store_id : String)
        → Keeps
            (AllBalanced prisma calendar)
            (Store.settle_store prisma calendar key month store_id)
    unfolding Store.settle_store
    settle_store-AllBalanced store_id = search (keeps, settle_new-AllBalanced)

    settle_stores-AllBalanced :
        (stores : List String)
        → Keeps (AllBalanced prisma calendar) (Store.settle_stores prisma calendar key month stores)
    unfolding Store.settle_stores
    settle_stores-AllBalanced [] = search keeps
    settle_stores-AllBalanced (x ∷ xs) =
        let rest = settle_stores-AllBalanced xs in
        search (keeps, settle_store-AllBalanced, rest) depth 8

  pub generate_store-AllBalanced :
      (key : String → String) (store_id month : Option String)
      → Keeps
          (AllBalanced prisma calendar)
          (Store.generate_monthly_settlement prisma calendar key store_id month)
  unfolding Store.generate_monthly_settlement
  generate_store-AllBalanced key store_id month = search (keeps, settle_stores-AllBalanced)

  confirmed-IsBalanced :
      (k : ℤ) (s : StoreSettlement) → IsBalanced s → IsBalanced (record s { status = k })
  confirmed-IsBalanced k s b = record { orders = b.orders; amount = b.amount; income = b.income }

  pub confirm_store-AllBalanced :
      (id : String)
      → Keeps (AllBalanced prisma calendar) (Store.confirm_settlement prisma calendar id)
  unfolding Store.confirm_settlement Store.set_settlement
  confirm_store-AllBalanced id = search (keeps, set_store-AllBalanced, confirmed-IsBalanced) depth 8

  pub settle_store_row-AllBalanced :
      (now : ℕ) (id : String)
      → Keeps (AllBalanced prisma calendar) (Store.settle_settlement prisma calendar now id)
  unfolding Store.settle_settlement Store.set_settlement
  settle_store_row-AllBalanced now id =
      let kept =
        set_store-AllBalanced prisma calendar id
          (λ s. record s { status = pos 2; settled_at = some now })
          (λ s b. record { orders = b.orders; amount = b.amount; income = b.income }) in
      search (keeps, kept) depth 8
