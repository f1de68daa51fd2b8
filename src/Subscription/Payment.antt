-- ===== src/Subscription/Payment.antt =====
-- src/store/store-subscription/store-subscription.service.ts, payInvoice, among the other calls of the
-- service and the billing of src/schedules/store-service-billing.cron.ts.
use open_api.Prelude.{
  ℕ, ◌≡◌, refl, ap, sym, ◌∙◌, inl, inr, Bool, ◌==◌, String, some, List, [], ◌∷◌, find, Option-cases,
  arith, ok, err, bad_request, Keeps, find-map_where_hit, subst,
}
use open_api.Schema.{StoreServiceInvoice, Db}
use open_api.Prisma.{Prisma}
use open_api.Subscription.{
  Runtime, CreatePlan, CreateSubscription, PayInvoice, CreateContract, create_plan,
  update_plan_status, create_subscription, approve_subscription, terminate_subscription,
  find_invoice, add_payment, set_invoices, pay_invoice, paid_invoice, create_contract,
}
use open_api.Subscription.Billing.{generate_monthly_invoices}
use open_api.Subscription.Paid.{
  Paid, create_plan-Keeps, update_plan_status-Keeps, create_subscription-Keeps,
  approve_subscription-Keeps, terminate_subscription-Keeps, pay_invoice-Keeps,
  create_contract-Keeps, generate_monthly_invoices-Keeps,
}

-- A call of the service, or the run of the billing.
pub data Request : Type 0 where
  plan : String → CreatePlan → Request
  plan_status : ℕ → Bool → Request
  subscribe : CreateSubscription → Request
  approve terminate : ℕ → Request
  pay : ℕ → PayInvoice → Request
  contract : CreateContract → Request
  billing : Request

module _ (prisma : Prisma) where
  open prisma use {Table, find_first, rows, find_first-rows, rows-update, rows-create, create}

  -- The database after a request at its time.
  unfoldable pub serve : Runtime → Request → Db Table → Db Table
  serve js (plan plan_id payload) db = (create_plan js prisma plan_id payload db).1
  serve js (plan_status id is_active) db = (update_plan_status js prisma id is_active db).1
  serve js (subscribe payload) db = (create_subscription js prisma payload db).1
  serve js (approve id) db = (approve_subscription js prisma id db).1
  serve js (terminate id) db = (terminate_subscription js prisma id db).1
  serve js (pay id payload) db = (pay_invoice js prisma id payload db).1
  serve js (contract payload) db = (create_contract js prisma payload db).1
  serve js billing db = (generate_monthly_invoices js prisma db).1

  unfoldable pub serve_all : List (Runtime × Request) → Db Table → Db Table
  serve_all [] db = db
  serve_all ((js, request) ∷ requests) db = serve_all requests (serve js request db)

  serve-Paid :
      (id : ℕ) (js : Runtime) (request : Request) (db : Db Table)
      → Paid prisma id db
      → Paid prisma id (serve js request db)
  unfolding serve Keeps
  serve-Paid id js (plan plan_id payload) = create_plan-Keeps prisma id js plan_id payload
  serve-Paid id js (plan_status n is_active) = update_plan_status-Keeps prisma id js n is_active
  serve-Paid id js (subscribe payload) = create_subscription-Keeps prisma id js payload
  serve-Paid id js (approve n) = approve_subscription-Keeps prisma id js n
  serve-Paid id js (terminate n) = terminate_subscription-Keeps prisma id js n
  serve-Paid id js (pay n payload) = pay_invoice-Keeps prisma id js n payload
  serve-Paid id js (contract payload) = create_contract-Keeps prisma id js payload
  serve-Paid id js billing = generate_monthly_invoices-Keeps prisma id js

  serve_all-Paid :
      (id : ℕ) (requests : List (Runtime × Request)) (db : Db Table)
      → Paid prisma id db
      → Paid prisma id (serve_all requests db)
  unfolding serve_all
  serve_all-Paid id [] db h = h
  serve_all-Paid id ((js, request) ∷ requests) db h =
      serve_all-Paid id requests (serve js request db) (serve-Paid id js request db h)

  module _ (js : Runtime) (id : ℕ) (payload : PayInvoice) (db : Db Table) where
    -- A paid invoice is not paid again.
    pay_invoice_refused :
        Paid prisma id db → pay_invoice js prisma id payload db ≡ (err (bad_request "账单已支付"), db)
    unfolding Paid pay_invoice find_invoice
    pay_invoice_refused (i, found, paid) =
        let first = find_first-rows (λ j. j.id == id) db.store_service_invoice ∙ found in
        rw (first, paid) refl

    -- What a payment that was taken has written: the payment, and the invoice that it found as paid.
    pay_invoice-written :
        (i : StoreServiceInvoice)
        → find_first (λ j. j.id == id) db.store_service_invoice ≡ some i
        → (pay_invoice js prisma id payload db).0 ≡ ok tt
        → (pay_invoice js prisma id payload db).1
          ≡ (set_invoices js prisma
              (λ j. j.id == i.id)
              (paid_invoice js prisma)
              (add_payment js prisma i payload db).1).1
    unfolding pay_invoice find_invoice add_payment set_invoices
    pay_invoice-written i first granted = ground arith

    set_invoices-Paid :
        (i : StoreServiceInvoice)
        → find (λ j. j.id == id) (rows db.store_service_invoice) ≡ some i
        → Paid prisma id (set_invoices js prisma (λ j. j.id == i.id) (paid_invoice js prisma) db).1
    unfolding Paid set_invoices
    set_invoices-Paid i found = (
      paid_invoice js prisma i,
      ap (find (λ j. j.id == id)) (rows-update _ _ db.store_service_invoice)
          ∙ find-map_where_hit (λ j. j.id == id) (λ j. j.id == i.id) (paid_invoice js prisma)
              (rows db.store_service_invoice) i (λ j. refl) (ground arith) found,
      refl,
    )

  module _ (js : Runtime) (id : ℕ) (payload : PayInvoice) (db : Db Table) where
    -- After a payment that was taken, the invoice is paid.
    pay_invoice-Paid :
        (i : StoreServiceInvoice)
        → find_first (λ j. j.id == id) db.store_service_invoice ≡ some i
        → (pay_invoice js prisma id payload db).0 ≡ ok tt
        → Paid prisma id (pay_invoice js prisma id payload db).1
    unfolding add_payment
    pay_invoice-Paid i first granted =
        let found = sym (find_first-rows (λ j. j.id == id) db.store_service_invoice) ∙ first in
        subst (Paid prisma id) (sym (pay_invoice-written js id payload db i first granted))
          (set_invoices-Paid js id payload (add_payment js prisma i payload db).1 i found)

    found_invoice :
        (pay_invoice js prisma id payload db).0 ≡ ok tt
        → (i : StoreServiceInvoice) × (find_first (λ j. j.id == id) db.store_service_invoice
            ≡ some i)
    unfolding pay_invoice find_invoice
    found_invoice granted =
        elim (Option-cases (find_first (λ j. j.id == id) db.store_service_invoice)) [
          | inl missing ↦ absurd (ground arith)
          | inr found ↦ found
        ]

  -- Once a payment of an invoice was taken, each further one is refused as paid already, and writes
  -- nothing, whatever calls of the service and runs of the billing come between, at whatever times.
  pub pay_invoice_once :
      (js : Runtime) (id : ℕ) (payload : PayInvoice) (db : Db Table)
      → (pay_invoice js prisma id payload db).0 ≡ ok tt
      → (requests : List (Runtime × Request)) (js' : Runtime) (payload' : PayInvoice)
      → let db' = serve_all requests (pay_invoice js prisma id payload db).1 in
        pay_invoice js' prisma id payload' db' ≡ (err (bad_request "账单已支付"), db')
  pay_invoice_once js id payload db granted requests js' payload' =
      let (i, first) = found_invoice js id payload db granted in
      pay_invoice_refused js' id payload' _
        (serve_all-Paid id requests _ (pay_invoice-Paid js id payload db i first granted))
