-- ===== src/Subscription/Billing.antt =====
-- src/schedules/store-service-billing.cron.ts: the invoices of the month, and those that are overdue.
use open_api.Prelude.{
  ℕ, ℤ, pos, ◌==ℤ◌, ltb, leb, ◌==◌, ◌&&◌, ◌===◌, Option, none, some, List, [], ◌∷◌, Action, pure,
  gets, ◌>>=◌, ◌>>◌,
}
use open_api.Schema.{StoreServicePlan, StoreServiceSubscription, StoreServiceInvoice, Db}
use open_api.Prisma.{Prisma}
use open_api.Subscription.{Runtime, month_text, invoice_of, find_plan, add_invoice, set_invoices}

-- `plan?.monthly_fee || 0`
abbrev pub fee_of : Option StoreServicePlan → ℤ
fee_of none = pos 0
fee_of (some plan) = plan.monthly_fee

module _ (js : Runtime) (prisma : Prisma) where
  open prisma use {Table, find_first, find_many, next_id}

  unfoldable pub active_subscriptions : Db Table → List StoreServiceSubscription
  active_subscriptions db =
      find_many (λ s. s.status ==ℤ pos 1 && (leb s.start_date js.now && leb js.now s.end_date))
        db.store_service_subscription

  unfoldable pub find_billed : ℕ → Db Table → Option StoreServiceInvoice
  find_billed subscription_id db =
      find_first (λ i. i.subscription_id == subscription_id && i.month === month_text js js.now)
        db.store_service_invoice

  -- The body of the loop.
  unfoldable pub bill_new :
      StoreServiceSubscription → Option StoreServiceInvoice → Action (Db Table) (Unit {0})
  unfolding add_invoice
  bill_new sub (some existed) = pure tt
  bill_new sub none = do
    plan ← gets (find_plan js prisma sub.plan_id)
    id ← gets (λ db. next_id db.store_service_invoice)
    add_invoice js prisma (invoice_of js prisma id sub.id js.now (fee_of plan))

  unfoldable pub bill : StoreServiceSubscription → Action (Db Table) (Unit {0})
  bill sub = do existed ← gets (find_billed sub.id); bill_new sub existed

  unfoldable pub bill_all : List StoreServiceSubscription → Action (Db Table) (Unit {0})
  bill_all [] = pure tt
  bill_all (sub ∷ subs) = do bill sub; bill_all subs

  unfoldable pub mark_overdue : Action (Db Table) (Unit {0})
  unfolding set_invoices
  mark_overdue =
      set_invoices js prisma (λ i. i.status ==ℤ pos 0 && ltb i.due_date js.now)
        (λ i. record i { status = pos 2 })

  unfoldable pub generate_monthly_invoices : Action (Db Table) (Unit {0})
  generate_monthly_invoices = do subs ← gets active_subscriptions; bill_all subs; mark_overdue
