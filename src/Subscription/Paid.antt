-- ===== src/Subscription/Paid.antt =====
-- src/store/store-subscription/store-subscription.service.ts and the billing: a paid invoice stays paid
-- in every call.
use open_api.Prelude.{
  ℕ, ℤ, pos, ◌≡◌, refl, ap, ◌∙◌, Bool, true, ◌==◌, ◌==ℤ◌, String, Option, some, none, List, [], ◌∷◌,
  find, arith, modify, Keeps, keeps, find-append_found, find-map_where-Holds,
}
use open_api.Schema.{StoreServiceInvoice, StoreServiceSubscription, Db}
use open_api.Prisma.{Prisma}
use open_api.Subscription.{
  Runtime, CreatePlan, CreateSubscription, PayInvoice, CreateContract, create_plan,
  update_plan_status, set_active, create_subscription, sign_up, add_contract, add_subscription,
  add_invoice, approve_subscription, contract_id_of, terminate_subscription, add_payment,
  set_invoices, pay_invoice, paid_invoice, create_contract,
}
use open_api.Subscription.Billing.{
  generate_monthly_invoices, bill_all, bill, bill_new, mark_overdue,
}

module _ (prisma : Prisma) where
  open prisma use {Table, find_first, rows, find_first-rows, rows-update, rows-create, create}

  abbrev pub IsPaid : StoreServiceInvoice → Type 0
  IsPaid i = (i.status ==ℤ pos 1) ≡ true

  -- The invoice is there, and paid.
  unfoldable pub Paid : ℕ → Db Table → Type 0
  Paid id db =
      (i : StoreServiceInvoice) × (find (λ j. j.id == id) (rows db.store_service_invoice) ≡ some i)
      × IsPaid i

  module _ (id : ℕ) (js : Runtime) where
    modify-Keeps :
        (g : Db Table → Db Table)
        → ((db : Db Table) → (g db).store_service_invoice ≡ db.store_service_invoice)
        → Keeps (Paid id) (modify g)
    unfolding Keeps Paid
    modify-Keeps g same db (i, found, paid) =
        (i, ap (λ t. find (λ j. j.id == id) (rows t)) (same db) ∙ found, paid)

    add_invoice-Keeps : (i : StoreServiceInvoice) → Keeps (Paid id) (add_invoice js prisma i)
    unfolding Keeps Paid add_invoice
    add_invoice-Keeps new db (i, found, paid) = (
      i,
      ap (find (λ j. j.id == id)) (rows-create new db.store_service_invoice)
          ∙ find-append_found (λ j. j.id == id) (rows db.store_service_invoice) (new ∷ []) i found,
      paid,
    )

    set_invoices-Keeps :
        (p : StoreServiceInvoice → Bool) (f : StoreServiceInvoice → StoreServiceInvoice)
        → ((i : StoreServiceInvoice) → (f i).id ≡ i.id)
        → ((i : StoreServiceInvoice) → p i ≡ true → IsPaid i → IsPaid (f i))
        → Keeps (Paid id) (set_invoices js prisma p f)
    unfolding Keeps Paid set_invoices
    set_invoices-Keeps p f same keep db (i, found, paid) =
        let (j, found', paid') =
          find-map_where-Holds IsPaid (λ j. j.id == id) p f (rows db.store_service_invoice) i
            (λ x. ap (λ n. n == id) (same x)) keep found paid in
        (j, ap (find (λ j. j.id == id)) (rows-update p f db.store_service_invoice) ∙ found', paid')

    set_invoice-Keeps :
        (n : ℕ) → Keeps (Paid id) (set_invoices js prisma (λ i. i.id == n) (paid_invoice js prisma))
    set_invoice-Keeps n = set_invoices-Keeps _ _ (λ i. refl) (λ i hit paid. refl)

    mark_overdue-Keeps : Keeps (Paid id) (mark_overdue js prisma)
    unfolding mark_overdue
    mark_overdue-Keeps = set_invoices-Keeps _ _ (λ i. refl) (λ i hit paid. absurd (ground arith))

    add_payment-Keeps :
        (i : StoreServiceInvoice) (payload : PayInvoice)
        → Keeps (Paid id) (add_payment js prisma i payload)
    unfolding add_payment
    add_payment-Keeps i payload = modify-Keeps _ (λ db. refl)

    add_contract-Keeps : (c : _) → Keeps (Paid id) (add_contract js prisma c)
    unfolding add_contract
    add_contract-Keeps c = search (keeps, modify-Keeps) depth 10

    add_subscription-Keeps : (c : _) → Keeps (Paid id) (add_subscription js prisma c)
    unfolding add_subscription
    add_subscription-Keeps c = modify-Keeps _ (λ db. refl)

    ruleset writes = (
      keeps, modify-Keeps, add_invoice-Keeps, set_invoice-Keeps, mark_overdue-Keeps,
      add_payment-Keeps, add_contract-Keeps, add_subscription-Keeps,
    )

    pub create_plan-Keeps :
        (plan_id : String) (payload : CreatePlan)
        → Keeps (Paid id) (create_plan js prisma plan_id payload)
    unfolding create_plan
    create_plan-Keeps plan_id payload = modify-Keeps _ (λ db. refl)

    set_active-Keeps :
        (n : ℕ) (is_active : Bool) (p : _) → Keeps (Paid id) (set_active js prisma n is_active p)
    unfolding set_active
    set_active-Keeps n is_active p = search (writes) depth 10

    pub update_plan_status-Keeps :
        (n : ℕ) (is_active : Bool) → Keeps (Paid id) (update_plan_status js prisma n is_active)
    unfolding update_plan_status
    update_plan_status-Keeps n is_active = search (writes, set_active-Keeps) depth 10

    sign_up-Keeps :
        (payload : CreateSubscription) (start_date : ℕ) (amount orders : ℤ)
        → Keeps (Paid id) (sign_up js prisma payload start_date amount orders)
    unfolding sign_up
    sign_up-Keeps payload start_date amount orders = search (writes) depth 14

    pub create_subscription-Keeps :
        (payload : CreateSubscription) → Keeps (Paid id) (create_subscription js prisma payload)
    unfolding create_subscription
    create_subscription-Keeps payload = search (writes, sign_up-Keeps) depth 20

    contract_id_of-Keeps : (o : Option ℕ) → Keeps (Paid id) (contract_id_of js prisma o)
    unfolding contract_id_of
    contract_id_of-Keeps none = search (keeps)
    contract_id_of-Keeps (some n) = search (keeps)

    pub approve_subscription-Keeps : (n : ℕ) → Keeps (Paid id) (approve_subscription js prisma n)
    unfolding approve_subscription
    approve_subscription-Keeps n = search (writes, contract_id_of-Keeps) depth 14

    pub terminate_subscription-Keeps :
        (n : ℕ) → Keeps (Paid id) (terminate_subscription js prisma n)
    unfolding terminate_subscription
    terminate_subscription-Keeps n = search (writes) depth 14

    pub pay_invoice-Keeps :
        (n : ℕ) (payload : PayInvoice) → Keeps (Paid id) (pay_invoice js prisma n payload)
    unfolding pay_invoice
    pay_invoice-Keeps n payload = search (writes) depth 14

    pub create_contract-Keeps :
        (payload : CreateContract) → Keeps (Paid id) (create_contract js prisma payload)
    unfolding create_contract
    create_contract-Keeps payload = search (writes) depth 14

    bill_new-Keeps :
        (sub : StoreServiceSubscription) (o : Option StoreServiceInvoice)
        → Keeps (Paid id) (bill_new js prisma sub o)
    unfolding bill_new
    bill_new-Keeps sub none = search (writes) depth 14
    bill_new-Keeps sub (some existed) = search (keeps)

    bill-Keeps : (sub : StoreServiceSubscription) → Keeps (Paid id) (bill js prisma sub)
    unfolding bill
    bill-Keeps sub = search (keeps, bill_new-Keeps)

    bill_all-Keeps :
        (subs : List StoreServiceSubscription) → Keeps (Paid id) (bill_all js prisma subs)
    unfolding bill_all
    bill_all-Keeps [] = search (keeps)
    bill_all-Keeps (sub ∷ subs) = search (keeps, bill-Keeps, bill_all-Keeps subs)

    pub generate_monthly_invoices-Keeps : Keeps (Paid id) (generate_monthly_invoices js prisma)
    unfolding generate_monthly_invoices
    generate_monthly_invoices-Keeps = search (writes, bill_all-Keeps) depth 10
