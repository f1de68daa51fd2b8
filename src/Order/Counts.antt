-- ===== src/Order/Counts.antt =====
-- Counts of goods: what the items of an order take, and what `accept` of
-- src/order/order.service.ts checks before.
use open_api.Prelude.{
  ℤ, pos, ◌+ℤ◌, ◌≤ℤ◌, int_laws, Bool, false, String, ◌===◌, ◌≡◌, refl, none, some, List, [], ◌∷◌,
  ok, arith, find, All, UniqueBy, Option-cases, inl, inr, Bool-cases, eq_iff, if◌then◌else◌,
}
use open_api.Schema.{UserOrderInfo, StoreGoodsVersion}
use open_api.Order.{check_stock, stock_of}

-- How much the items take from a version.
abbrev pub taken : String → List UserOrderInfo → ℤ
taken id [] = pos 0
taken id (i ∷ is) = if i.goods_version_id === id then i.count +ℤ taken id is else taken id is

abbrev pub has_version : String → StoreGoodsVersion → Bool
has_version id v = v.version_id === id

stock_of_apart :
    (id key : String) (vs : List StoreGoodsVersion)
    → key ≡ id
    → All (λ w. (key === w.version_id) ≡ false) vs
    → stock_of id vs ≡ none
unfolding stock_of
stock_of_apart id key [] same h = refl
stock_of_apart id key (w ∷ ws) same h =
    ground
      (arith, eq_iff key w.version_id, eq_iff w.version_id id, stock_of_apart id key ws same h.1)

taken_apart :
    (id key : String) (items : List UserOrderInfo)
    → key ≡ id
    → All (λ i. (key === i.goods_version_id) ≡ false) items
    → taken id items ≡ pos 0
taken_apart id key [] same h = refl
taken_apart id key (i ∷ is) same h = ground (
  arith,
  eq_iff key i.goods_version_id,
  eq_iff i.goods_version_id id,
  taken_apart id key is same h.1,
)

-- On a table with unique versions the map that the check builds gives the version's own stock.
pub stock_of-find :
    (id : String) (vs : List StoreGoodsVersion) (v : StoreGoodsVersion)
    → UniqueBy (λ w. w.version_id) vs
    → find (has_version id) vs ≡ some v
    → stock_of id vs ≡ some v.count
unfolding stock_of
stock_of-find id [] v u e = cc
stock_of-find id (w ∷ ws) v u e = elim (Bool-cases (w.version_id === id)) [
  | inr miss ↦ let later = stock_of-find id ws v u.1 (rw miss at e) in ground arith
  | inl hit ↦
      let none_later = stock_of_apart id w.version_id ws ((eq_iff w.version_id id).0 hit) u.0 in
      ground arith
]

-- What the check has established when it lets the items pass.
unfoldable pub Covered : List StoreGoodsVersion → UserOrderInfo → Type 0
Covered versions i = (s : ℤ) × (stock_of i.goods_version_id versions ≡ some s) × (i.count ≤ℤ s)

pub check_stock_sound :
    {S : Type 0} (versions : List StoreGoodsVersion) (items : List UserOrderInfo) (s : S)
    → (check_stock versions items s).0 ≡ ok tt
    → All (Covered versions) items
unfolding check_stock Covered
check_stock_sound versions [] s h = tt
check_stock_sound versions (i ∷ is) s h =
    elim (Option-cases (stock_of i.goods_version_id versions)) [
      | inl missing ↦ absurd (ground arith)
      | inr (n, e) ↦ ((n, e, ground arith), check_stock_sound versions is s (ground arith))
    ]

pub taken-none :
    (id : String) (items : List UserOrderInfo)
    → find (λ i. i.goods_version_id === id) items ≡ none
    → taken id items ≡ pos 0
taken-none id [] h = refl
taken-none id (i ∷ is) h = ground (arith, taken-none id is)

-- With one line for each version the items take of a version what its line asks.
pub taken_unique :
    (id : String) (items : List UserOrderInfo) (i : UserOrderInfo)
    → UniqueBy (λ j. j.goods_version_id) items
    → find (λ j. j.goods_version_id === id) items ≡ some i
    → taken id items ≡ i.count
taken_unique id [] i u e = cc
taken_unique id (j ∷ js) i u e = elim (Bool-cases (j.goods_version_id === id)) [
  | inr miss ↦ rw miss (taken_unique id js i u.1 (rw miss at e))
  | inl hit ↦
      let rest = taken_apart id j.goods_version_id js ((eq_iff j.goods_version_id id).0 hit) u.0 in
      let zero_rest : i.count +ℤ pos 0 ≡ i.count = omega int_laws in ground arith
]
