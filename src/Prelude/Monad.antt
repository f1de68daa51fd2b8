-- ===== src/Prelude/Monad.antt =====
-- A service method: database state and exceptions. The state comes back after a throw too, since
-- what was written outside a transaction stays written.
use mathlib.Core.Bool.{Bool, true, false}
use mathlib.Core.Path.{◌≡◌, refl, sym, ap, ◌∙◌, subst}
use mathlib.Core.Logic.{◌⊎◌, ◌≢◌, inl, inr}
use mathlib.Core.Option.{Option, none, some}
use Prim.Native.String.{String}
use open_api.Prelude.Tests.{if◌then◌else◌}

-- The exceptions of `@nestjs/common` that the services throw, with their message. `record_missing`
-- is what the database client throws on an update of no row,
-- and `unique_violation` what it throws where a row would break an `@@unique`.
pub data Error : Type 0 where
  bad_request not_found forbidden unauthorized conflict plain_error : String → Error
  record_missing unique_violation : Error

pub data Result (A : Type 0) : Type 0 where
  ok : A → Result A
  err : Error → Result A

abbrev pub Action : Type 0 → Type 0 → Type 0
Action S A = S → Result A × S

module _ {S A : Type 0} where
  abbrev pub pure : A → Action S A
  pure a s = (ok a, s)

  abbrev pub raise : Error → Action S A
  raise e s = (err e, s)

  abbrev pub gets : (S → A) → Action S A
  gets f s = (ok (f s), s)

  -- `if (!row) throw e`
  abbrev pub or_raise : Option A → Error → Action S A
  or_raise none e = raise e
  or_raise (some a) _ = pure a

infixl 5 ◌>>=◌ ◌>>◌
abbrev pub ◌>>=◌ : {S A B : Type 0} → Action S A → (A → Action S B) → Action S B
◌>>=◌ m f s = let (r, s') = m s in elim r [ ok a ↦ f a s' | err e ↦ (err e, s') ]

abbrev pub ◌>>◌ : {S A B : Type 0} → Action S A → Action S B → Action S B
m >> k = m >>= λ _. k

abbrev pub raise_if : {S : Type 0} → Bool → Error → Action S (Unit {0})
raise_if c e s = (if c then err e else ok tt, s)

abbrev pub modify : {S : Type 0} → (S → S) → Action S (Unit {0})
modify f s = (ok tt, f s)

-- `$transaction(async (tx) => …)`: what was written before a throw is undone.
abbrev pub transaction : {S A : Type 0} → Action S A → Action S A
transaction m s = let (r, s') = m s in elim r [ ok a ↦ (ok a, s') | err e ↦ (err e, s) ]

pub Result-cases :
    {A : Type 0} (r : Result A) → ((e : Error) × (r ≡ err e)) ⊎ ((a : A) × (r ≡ ok a))
Result-cases (ok a) = inr (a, refl)
Result-cases (err e) = inl (e, refl)

-- What holds of either outcome holds of the outcome.
pub either_state {κ} :
    {S : Type 0} (P : S → Type κ) {s t u : S} → (s ≡ t) ⊎ (s ≡ u) → P t → P u → P s
either_state P (inl e) p q = rw e p
either_state P (inr e) p q = rw e q

-- The call throws, and has written nothing.
abbrev pub Refused : {S A : Type 0} → Action S A → S → Type 0
Refused m s = (e : Error) × (m s ≡ (err e, s))

pub refused :
    {S A : Type 0} (m : Action S A) (s : S) → ((a : A) → (m s).0 ≢ ok a) → (m s).1 ≡ s → Refused m s
refused m s never same = elim (Result-cases (m s).0) [
  | inl (e, h) ↦ (e, λ i. (h i, same i))
  | inr (a, h) ↦ absurd (never a h)
]

-- The second call, or the exception of the first.
abbrev pub after : {S A B : Type 0} → Result A → S → (A → Action S B) → Result B × S
after r s f = elim r [ ok a ↦ f a s | err e ↦ (err e, s) ]

pub >>=_ok :
    {S A B : Type 0} (m : Action S A) (f : A → Action S B) (s : S) (a : A)
    → (m s).0 ≡ ok a
    → (m >>= f) s ≡ f a (m s).1
>>=_ok m f s a e = ap (λ r. after r (m s).1 f) e

err_ok : {B : Type 0} {e : Error} {b : B} → err e ≡ ok b → ⊥
err_ok h = cc

-- A call that returns has its first part return.
pub >>=_returned :
    {S A B : Type 0} (m : Action S A) (f : A → Action S B) (s : S) (b : B)
    → ((m >>= f) s).0 ≡ ok b
    → (a : A) × ((m s).0 ≡ ok a) × ((f a (m s).1).0 ≡ ok b)
>>=_returned m f s b h = elim (Result-cases (m s).0) [
  | inl (x, failed) ↦ absurd (err_ok (sym (ap (λ r. (after r (m s).1 f).0) failed) ∙ h))
  | inr (a, passed) ↦ (a, passed, sym (ap (λ r. (after r (m s).1 f).0) passed) ∙ h)
]

-- A call that is followed by a throw has written what it had.
pub >>=-raise_state :
    {S A : Type 0} (B : Type 0) (m : Action S A) (e : Error) (s : S)
    → ((m >>= λ _. raise {A = B} e) s).1 ≡ (m s).1
>>=-raise_state B m e s = elim (Result-cases (m s).0) [
  | inl (x, failed) ↦ ap (λ r. (after r (m s).1 (λ _. raise {A = B} e)).1) failed
  | inr (a, passed) ↦ ap (λ r. (after r (m s).1 (λ _. raise {A = B} e)).1) passed
]

-- A predicate of the state that a call keeps, whether it returns or throws.
unfoldable pub Keeps {κ} : {S A : Type 0} → (S → Type κ) → Action S A → Type κ
Keeps P m = (s : _) → P s → P (m s).1

pub >>=-Keeps {κ} :
    {S A B : Type 0} (P : S → Type κ) (m : Action S A) (f : A → Action S B)
    → Keeps P m
    → ((a : A) → Keeps P (f a))
    → Keeps P (m >>= f)
unfolding Keeps
>>=-Keeps P m f first next s h = elim (Result-cases (m s).0) [
  | inl (x, failed) ↦ subst (λ r. P (after r (m s).1 f).1) (sym failed) (first s h)
  | inr (a, passed) ↦ subst (λ r. P (after r (m s).1 f).1) (sym passed) (next a (m s).1 (first s h))
]

-- The outcome of a transaction.
abbrev committed : {S A : Type 0} → Result A → S → S → Result A × S
committed r s t = elim r [ ok a ↦ (ok a, t) | err e ↦ (err e, s) ]

pub transaction-Keeps {κ} :
    {S A : Type 0} (P : S → Type κ) (m : Action S A) → Keeps P m → Keeps P (transaction m)
unfolding Keeps
transaction-Keeps P m keep s h = elim (Result-cases (m s).0) [
  | inl (x, failed) ↦ subst (λ r. P (committed r s (m s).1).1) (sym failed) h
  | inr (a, passed) ↦ subst (λ r. P (committed r s (m s).1).1) (sym passed) (keep s h)
]

pub or_raise-Keeps {κ} :
    {S A : Type 0} (P : S → Type κ) (o : Option A) (e : Error) → Keeps P (or_raise o e)
unfolding Keeps
or_raise-Keeps P none e s h = h
or_raise-Keeps P (some a) e s h = h

pub if-Keeps {κ} :
    {S A : Type 0} (P : S → Type κ) (b : Bool) (m n : Action S A)
    → Keeps P m
    → Keeps P n
    → Keeps P (if b then m else n)
unfolding Keeps
if-Keeps P true m n h k = h
if-Keeps P false m n h k = k

pub raise_if-Keeps {κ} :
    {S : Type 0} (P : S → Type κ) (b : Bool) (e : Error) → Keeps P (raise_if b e)
unfolding Keeps
raise_if-Keeps P b e s h = h

pub raise-Keeps {κ} :
    {S : Type 0} (A : Type 0) (P : S → Type κ) (e : Error) → Keeps P (raise {A = A} e)
unfolding Keeps
raise-Keeps A P e s h = h

pub pure-Keeps {κ} : {S A : Type 0} (P : S → Type κ) (a : A) → Keeps P (pure a)
unfolding Keeps
pure-Keeps P a s h = h

pub gets-Keeps {κ} : {S A : Type 0} (P : S → Type κ) (f : S → A) → Keeps P (gets f)
unfolding Keeps
gets-Keeps P f s h = h

ok_injective : {A : Type 0} {a b : A} → ok a ≡ ok b → a ≡ b
ok_injective h = cc

-- A predicate of what a call returns.
unfoldable pub Returns {κ} : {S A : Type 0} → (A → Type κ) → Action S A → Type κ
Returns Q m = (s : _) (a : _) → (m s).0 ≡ ok a → Q a

pub >>=-Returns {κ} :
    {S A B : Type 0} (Q : B → Type κ) (m : Action S A) (f : A → Action S B)
    → ((a : A) → Returns Q (f a))
    → Returns Q (m >>= f)
unfolding Returns
>>=-Returns Q m f next s b h = let (a, passed, run) = >>=_returned m f s b h in next a (m s).1 b run

pub >>=-Returns_with {κ ι} :
    {S A B : Type 0} (R : A → Type ι) (Q : B → Type κ) (m : Action S A) (f : A → Action S B)
    → Returns R m
    → ((a : A) → R a → Returns Q (f a))
    → Returns Q (m >>= f)
unfolding Returns
>>=-Returns_with R Q m f first next s b h =
    let (a, passed, run) = >>=_returned m f s b h in next a (first s a passed) (m s).1 b run

pub pure-Returns {κ} :
    (S : Type 0) {A : Type 0} (Q : A → Type κ) (a : A) → Q a → Returns Q (pure {S = S} a)
unfolding Returns
pure-Returns S Q a q s b h = let same : a ≡ b = ok_injective h in subst Q same q

pub if-Returns {κ} :
    {S A : Type 0} (Q : A → Type κ) (b : Bool) (m n : Action S A)
    → Returns Q m
    → Returns Q n
    → Returns Q (if b then m else n)
if-Returns Q true m n h k = h
if-Returns Q false m n h k = k

-- Of the second call it is enough to show what follows from the first one's result.
pub >>=-Keeps_with {κ ι} :
    {S A B : Type 0} (Q : A → Type ι) (P : S → Type κ) (m : Action S A) (f : A → Action S B)
    → Returns Q m
    → Keeps P m
    → ((a : A) → Q a → Keeps P (f a))
    → Keeps P (m >>= f)
unfolding Returns Keeps
>>=-Keeps_with Q P m f returned first next s h = elim (Result-cases (m s).0) [
  | inl (x, failed) ↦ subst (λ r. P (after r (m s).1 f).1) (sym failed) (first s h)
  | inr (a, passed) ↦
      subst (λ r. P (after r (m s).1 f).1) (sym passed)
        (next a (returned s a passed) (m s).1 (first s h))
]

-- Rules for a call that only reads, or that writes through calls known to keep the predicate.
pub ruleset keeps = (
  >>=-Keeps, transaction-Keeps, or_raise-Keeps, if-Keeps, raise_if-Keeps, raise-Keeps, pure-Keeps,
  gets-Keeps,
)

-- Rules for what a call returns.
pub ruleset returns = (>>=-Returns, if-Returns, pure-Returns)
