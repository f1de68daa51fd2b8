-- ===== src/Settlement/Owed.antt =====
-- What a settlement of `generateMonthlySettlement` (src/store/settlement/store-settlement.service.ts)
-- sums up, told of the rows of the orders and the settlements alone.
use open_api.Prelude.{
  ℕ, ◌≤◌, ◌<◌, pos, ◌==ℤ◌, sum_ℤ, Bool, true, false, find, ◌&&◌, ◌||◌, String, ◌===◌, ◌≡◌, ◌⊎◌,
  refl, inl, inr, none, List, [], ◌∷◌, ◌++◌, arith, All, UniqueBy, map, select, length, Bool-cases,
  eq_iff,
}
use open_api.Schema.{UserOrder, StoreSettlement, StoreSettlementDetail}
use open_api.Order.{status_active, stage_received, stage_finished, paid}
use open_api.Settlement.{is_in}
use open_api.Settlement.Store.{detail_of, is_within}

-- An active order of the store in the time from `start` to before `end`, in the stage received or
-- finished, and paid.
abbrev pub IsOwed : String → ℕ → ℕ → UserOrder → Type 0
IsOwed store_id start end o =
    (o.store_id ≡ store_id)
    × (start ≤ o.create_date)
    × (o.create_date < end)
    × (o.status ≡ pos 0)
    × ((o.stage ≡ pos 4) ⊎ (o.stage ≡ pos 5))
    × (o.pay_status ≡ pos 1)

-- The details are those of just the orders with the property, each once and in the order of the rows.
pub data Picked (P : UserOrder → Type 0)
    : List UserOrder → List StoreSettlementDetail → Type 0 where
  none_left : Picked P [] []
  taken :
      {o : UserOrder} {os : List UserOrder} {d : StoreSettlementDetail}
      {ds : List StoreSettlementDetail}
      → P o
      → (d.order_id ≡ o.order_id) × (d.amount ≡ o.money)
      → Picked P os ds
      → Picked P (o ∷ os) (d ∷ ds)
  left :
      {o : UserOrder} {os : List UserOrder} {ds : List StoreSettlementDetail}
      → ¬ P o
      → Picked P os ds
      → Picked P (o ∷ os) ds

-- A settlement that a run for these stores adds.
pub record IsAdded (stores : List String) (month : String) (start end : ℕ) (orders : List UserOrder)
    (before : List StoreSettlement) (s : StoreSettlement) : Type 0 where
  pub asked : is_in s.store_id stores ≡ true
  pub of_month : (s.month ≡ month) × (s.status ≡ pos 0)
  pub first : find (λ r. r.store_id === s.store_id && r.month === month) before ≡ none
  pub picked : Picked (IsOwed s.store_id start end) orders s.details
  pub counted : s.total_orders ≡ pos (length s.details)
  pub amount : s.total_amount ≡ sum_ℤ (map (λ d. d.amount) s.details)
  pub income : s.total_income ≡ sum_ℤ (map (λ d. d.amount) s.details)

-- The run adds settlements, at most one to a store, to those that were there.
pub record Run (stores : List String) (month : String) (start end : ℕ) (orders : List UserOrder)
    (before after : List StoreSettlement) : Type 0 where
  pub new : List StoreSettlement
  pub grown : after ≡ before ++ new
  pub each : All (IsAdded stores month start end orders before) new
  pub once : UniqueBy (λ s. s.store_id) new

pub Picked-select :
    (P : UserOrder → Type 0) (q : UserOrder → Bool)
    → ((o : UserOrder) → q o ≡ true → P o)
    → ((o : UserOrder) → P o → q o ≡ true)
    → (os : List UserOrder) → Picked P os (map detail_of (select q os))
Picked-select P q sound full [] = none_left
Picked-select P q sound full (o ∷ os) =
    let rest = Picked-select P q sound full os in
    elim (Bool-cases (q o)) [
      | inl y ↦ rw y (taken (sound o y) (refl, refl) rest)
      | inr n ↦ rw n (left (λ p. absurd (let y = full o p in ground arith)) rest)
    ]

pub find-append_none :
    {A : Type 0} (p : A → Bool) (xs : List A) (y : A)
    → find p (xs ++ y ∷ []) ≡ none
    → (find p xs ≡ none) × (p y ≡ false)
find-append_none p [] y h = elim (Bool-cases (p y)) [
  | inl hit ↦ absurd (ground arith)
  | inr miss ↦ (refl, miss)
]
find-append_none p (x ∷ xs) y h = elim (Bool-cases (p x)) [
  | inl hit ↦ absurd (ground arith)
  | inr miss ↦ let rest = find-append_none p xs y (ground arith) in (ground arith, rest.1)
]

-- The test of the source.
abbrev pub owed : String → ℕ → ℕ → UserOrder → Bool
owed x start end o =
    o.store_id === x
    && (is_within start end o.create_date
        && (o.status ==ℤ status_active
            && ((o.stage ==ℤ stage_received || o.stage ==ℤ stage_finished)
                && o.pay_status ==ℤ paid)))

pub owed-IsOwed :
    (x : String) (start end : ℕ) (o : UserOrder) → owed x start end o ≡ true → IsOwed x start end o
owed-IsOwed x start end o h = ground (arith, eq_iff o.store_id x)

pub IsOwed-owed :
    (x : String) (start end : ℕ) (o : UserOrder) → IsOwed x start end o → owed x start end o ≡ true
IsOwed-owed x start end o h = ground (arith, eq_iff o.store_id x)
