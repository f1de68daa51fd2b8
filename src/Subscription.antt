-- ===== src/Subscription.antt =====
-- src/store/store-subscription/store-subscription.service.ts: plans, subscriptions, contracts and
-- invoices of a store's service. The dates of the runtime and `trim` are a parameter.
mod Dates
pub mod Billing
pub mod Paid
pub mod Payment
pub mod Entitled
mod Tests
pub use Dates.*
use Prim.Native.String.{◌++◌}
use open_api.Prelude.{
  ℕ, ℤ, pos, ◌+ℤ◌, ◌-ℤ◌, ◌==ℤ◌, ltb_ℤ, leb_ℤ, ltb, leb, ◌==◌, Bool, true, false, not, ◌&&◌, ◌||◌,
  String, ◌===◌, last, is_some, get_or, or_text, or_null, same_flag, Option, none, some,
  if◌then◌else◌, Action, not_found, bad_request, plain_error, record_missing, unique_violation,
  pure, raise, gets, or_raise, raise_if, modify, ◌>>=◌, ◌>>◌,
}
use open_api.Schema.{
  Store, UserOrder, StoreServicePlan, StoreServiceSubscription, StoreServiceContract,
  StoreServiceInvoice, StoreServicePayment, Db,
}
use open_api.Prisma.{Prisma}

module _ (js : Runtime) where
  module _ (prisma : Prisma) where
    open prisma use {Table, find_first, find_many, find_many_by, count, update, create, next_id}

    pub create_plan : String → CreatePlan → Action (Db Table) (Unit {0})
    create_plan plan_id payload = modify (λ db. record db {
      store_service_plan =
          create
            (record {
              id = next_id db.store_service_plan;
              plan_id = plan_id;
              name = js.trim payload.name;
              description = payload.description;
              monthly_fee = payload.monthly_fee;
              max_subscriptions = payload.max_subscriptions;
              is_active = true;
            })
            db.store_service_plan;
    })

    set_active : ℕ → Bool → StoreServicePlan → Action (Db Table) (Unit {0})
    set_active id is_active plan =
        if same_flag plan.is_active is_active
        then pure tt
        else modify (λ db. record db {
          store_service_plan =
              update (λ p. p.id == id) (λ p. record p { is_active = is_active })
                db.store_service_plan;
        })

    pub update_plan_status : ℕ → Bool → Action (Db Table) (Unit {0})
    unfolding set_active
    update_plan_status id is_active = do
      plan ←
          or_raise (← gets (λ db. find_first (λ p. p.id == id) db.store_service_plan))
            (not_found "套餐不存在")
      set_active id is_active plan

    unfoldable pub find_plan : String → Db Table → Option StoreServicePlan
    find_plan plan_id db = find_first (λ p. p.plan_id === plan_id) db.store_service_plan

    unfoldable pub find_store : String → Db Table → Option Store
    find_store store_id db = find_first (λ s. s.store_id === store_id) db.store

    -- `max_subscriptions !== null && max_subscriptions > 0 && currentCount >= max_subscriptions`
    unfoldable pub is_at_limit : Option ℤ → CreateSubscription → Db Table → Bool
    is_at_limit none payload db = false
    is_at_limit (some most) payload db =
        ltb_ℤ (pos 0) most
        && leb_ℤ most (
            pos (
              count (λ s. s.plan_id === payload.plan_id && s.store_id === payload.store_id)
                db.store_service_subscription))

    unfoldable pub subscribed_in_month : ℕ → CreateSubscription → Db Table → Bool
    subscribed_in_month start_date payload db = is_some (
        find_first
          (λ s.
            s.store_id === payload.store_id
            && (s.plan_id === payload.plan_id
                && (leb (month_start js start_date) s.start_date
                    && leb s.start_date (month_end js start_date))))
          db.store_service_subscription)

    -- The subscription of the store that ends last.
    unfoldable pub previous_subscription : String → Db Table → Option StoreServiceSubscription
    previous_subscription store_id db = last (
        find_many_by (λ s. s.store_id === store_id) (λ s. pos s.end_date)
          db.store_service_subscription)

    -- The orders of its time that were received or finished.
    unfoldable pub orders_of_cycle : String → Option StoreServiceSubscription → Db Table → ℤ
    orders_of_cycle store_id none db = pos 0
    orders_of_cycle store_id (some previous) db = pos (
        count
          (λ o.
            o.store_id === store_id
            && ((o.stage ==ℤ pos 4 || o.stage ==ℤ pos 5)
                && (leb previous.start_date o.create_date && leb o.create_date previous.end_date)))
          db.user_order)

    -- A contract, where no other has its number.
    unfoldable pub add_contract : StoreServiceContract → Action (Db Table) (Unit {0})
    add_contract contract = do
      taken ← gets (λ db.
          is_some
            (find_first (λ c. c.contract_no === contract.contract_no) db.store_service_contract))
      raise_if taken unique_violation
      modify
          (λ db. record db { store_service_contract = create contract db.store_service_contract })

    unfoldable pub add_subscription : StoreServiceSubscription → Action (Db Table) (Unit {0})
    add_subscription s =
        modify
          (λ db. record db { store_service_subscription = create s db.store_service_subscription })

    unfoldable pub add_invoice : StoreServiceInvoice → Action (Db Table) (Unit {0})
    add_invoice i =
        modify (λ db. record db { store_service_invoice = create i db.store_service_invoice })

    abbrev pub contract_of : ℕ → CreateSubscription → ℕ → ℤ → StoreServiceContract
    contract_of id payload start_date amount = record {
      id = id;
      contract_no = "HT" ++ js.now_text;
      store_id = payload.store_id;
      plan_id = payload.plan_id;
      start_date = start_date;
      end_date = month_later js start_date;
      status = pos 0;
      sign_type = pos 2;
      signed_at = none;
      total_amount = amount;
      file_url = none;
    }

    abbrev pub subscription_of : ℕ → CreateSubscription → ℕ → ℤ → ℕ → StoreServiceSubscription
    subscription_of id payload start_date orders contract_id = record {
      id = id;
      store_id = payload.store_id;
      plan_id = payload.plan_id;
      start_date = start_date;
      end_date = month_later js start_date;
      status = pos 0;
      is_infinite = true;
      order_count_last_cycle = orders;
      contract_id = some contract_id;
    }

    -- The invoice of a time's month.
    abbrev pub invoice_of : ℕ → ℕ → ℕ → ℤ → StoreServiceInvoice
    invoice_of id subscription_id at amount = record {
      id = id;
      subscription_id = subscription_id;
      month = month_text js at;
      start_date = period_start js at;
      end_date = period_end js at;
      amount = amount;
      status = pos 0;
      due_date = due_date js at;
      paid_at = none;
    }

    -- The contract, the subscription and its first invoice.
    unfoldable pub sign_up :
        CreateSubscription → ℕ → ℤ → ℤ → Action (Db Table) StoreServiceSubscription
    unfolding add_contract add_subscription add_invoice
    sign_up payload start_date amount orders = do
      contract_id ← gets (λ db. next_id db.store_service_contract)
      add_contract (contract_of contract_id payload start_date amount)
      subscription_id ← gets (λ db. next_id db.store_service_subscription)
      add_subscription (subscription_of subscription_id payload start_date orders contract_id)
      invoice_id ← gets (λ db. next_id db.store_service_invoice)
      add_invoice (invoice_of invoice_id subscription_id start_date amount)
      pure (subscription_of subscription_id payload start_date orders contract_id)

    unfoldable pub create_subscription :
        CreateSubscription → Action (Db Table) StoreServiceSubscription
    create_subscription payload = do
      or_raise (← gets (find_store payload.store_id)) (not_found "店铺不存在")
      plan ← or_raise (← gets (find_plan payload.plan_id)) (bad_request "套餐不存在或已下线")
      raise_if (not plan.is_active) (bad_request "套餐不存在或已下线")
      full ← gets (is_at_limit plan.max_subscriptions payload)
      raise_if full (bad_request "您已达到该套餐的最大订阅次数")
      let start_date = get_or payload.start_date js.now
      existed ← gets (subscribed_in_month start_date payload)
      raise_if existed (bad_request "同一店铺同一服务套餐在该月已订阅，不能重复订阅")
      previous ← gets (previous_subscription payload.store_id)
      orders ← gets (orders_of_cycle payload.store_id previous)
      sign_up payload start_date (plan.monthly_fee +ℤ orders) orders

    unfoldable pub find_subscription : ℕ → Db Table → Option StoreServiceSubscription
    find_subscription id db = find_first (λ s. s.id == id) db.store_service_subscription

    -- The update of the contract in the transaction throws where there is no contract.
    unfoldable pub contract_id_of : Option ℕ → Action (Db Table) ℕ
    contract_id_of none = raise (plain_error "Argument `where` needs at least one of `id`")
    contract_id_of (some id) = do
      or_raise (← gets (λ db. find_first (λ c. c.id == id) db.store_service_contract))
          record_missing
      pure id

    unfoldable pub approve_subscription : ℕ → Action (Db Table) (Option StoreServiceSubscription)
    approve_subscription id = do
      sub ← or_raise (← gets (find_subscription id)) (not_found "订阅记录不存在")
      contract_id ← contract_id_of sub.contract_id
      modify (λ db. record db {
        store_service_subscription =
            update (λ s. s.id == id) (λ s. record s { status = pos 1 })
              db.store_service_subscription;
        store_service_contract =
            update (λ c. c.id == contract_id)
              (λ c. record c { status = pos 1; signed_at = some js.now }) db.store_service_contract;
      })
      gets (find_subscription id)

    -- `now < subscription.end_date ? now : subscription.end_date`
    abbrev pub sooner : ℕ → ℕ → ℕ
    sooner a b = if ltb a b then a else b

    unfoldable pub terminate_subscription : ℕ → Action (Db Table) (Unit {0})
    terminate_subscription id = do
      subscription ← or_raise (← gets (find_subscription id)) (not_found "订阅不存在")
      raise_if (not (subscription.status ==ℤ pos 1)) (bad_request "仅可以终止生效中的订阅")
      modify (λ db. record db {
        store_service_subscription =
            update (λ s. s.id == id)
              (λ s. record s { status = pos 3; end_date = sooner js.now subscription.end_date })
              db.store_service_subscription;
      })

    unfoldable pub find_invoice : ℕ → Db Table → Option StoreServiceInvoice
    find_invoice id db = find_first (λ i. i.id == id) db.store_service_invoice

    unfoldable pub add_payment : StoreServiceInvoice → PayInvoice → Action (Db Table) (Unit {0})
    add_payment invoice payload = modify (λ db. record db {
      store_service_payment =
          create
            (record {
              id = next_id db.store_service_payment;
              invoice_id = invoice.id;
              amount = payload.amount;
              method = if payload.method === "" then "offline" else payload.method;
              remark = or_null payload.remark;
              paid_at = js.now;
            })
            db.store_service_payment;
    })

    unfoldable pub set_invoices :
        (StoreServiceInvoice → Bool)
        → (StoreServiceInvoice → StoreServiceInvoice)
        → Action (Db Table) (Unit {0})
    set_invoices p f =
        modify (λ db. record db { store_service_invoice = update p f db.store_service_invoice })

    abbrev pub paid_invoice : StoreServiceInvoice → StoreServiceInvoice
    paid_invoice i = record i { status = pos 1; paid_at = some js.now }

    unfoldable pub pay_invoice : ℕ → PayInvoice → Action (Db Table) (Unit {0})
    unfolding add_payment set_invoices
    pay_invoice id payload = do
      invoice ← or_raise (← gets (find_invoice id)) (not_found "账单不存在")
      raise_if (invoice.status ==ℤ pos 1) (bad_request "账单已支付")
      raise_if (leb_ℤ payload.amount (pos 0)) (bad_request "支付金额必须大于 0")
      add_payment invoice payload
      set_invoices (λ i. i.id == invoice.id) paid_invoice

    -- `payload.contract_no && payload.contract_no.trim().length > 0 ? … : …`
    abbrev pub contract_number : Option String → String
    contract_number given =
        if or_text given "" === "" || js.trim (or_text given "") === ""
        then "HT" ++ js.now_text
        else js.trim (or_text given "")

    unfoldable pub create_contract : CreateContract → Action (Db Table) (Unit {0})
    unfolding add_contract
    create_contract payload = do
      or_raise (← gets (find_store payload.store_id)) (not_found "店铺不存在")
      or_raise (← gets (find_plan payload.plan_id)) (not_found "套餐不存在")
      raise_if (leb payload.end_date payload.start_date) (bad_request "合同结束日期必须大于开始日期")
      id ← gets (λ db. next_id db.store_service_contract)
      add_contract (record {
        id = id;
        contract_no = contract_number payload.contract_no;
        store_id = payload.store_id;
        plan_id = payload.plan_id;
        start_date = payload.start_date;
        end_date = payload.end_date;
        status = pos 1;
        sign_type = payload.sign_type;
        signed_at = payload.signed_at;
        total_amount = payload.total_amount;
        file_url = or_null payload.file_url;
      })
