-- ===== src/Common/Results.antt =====
-- `Result<T, E>`, the `?` operator as bind, and early returns as guards.
use mathlib.Core.Path.{◌≡◌, refl}
use mathlib.Core.Logic.{◌⊎◌, inl, inr}
use mathlib.Core.Bool.{Bool, true, false}
use mathlib.Core.Option.{Option, none, some}
use native.Mathlib.Omega.{arith}

pub data Result {ℓ κ} (E : Type κ) (A : Type ℓ) : Type (ℓ ⊔ κ) where
  ok : A → Result E A
  err : E → Result E A

-- `Option::ok_or`
abbrev pub ok_or {ℓ μ} : {E : Type μ} {A : Type ℓ} → Option A → E → Result E A
ok_or none e = err e
ok_or (some a) e = ok a

-- `Result::map_err`
abbrev pub map_err {ℓ κ μ} :
    {A : Type ℓ} {E : Type μ} {E' : Type κ} → (E → E') → Result E A → Result E' A
map_err f (ok a) = ok a
map_err f (err e) = err (f e)

-- An early return `if !test { return Err(refusal) }`.
abbrev pub guard {μ} : {E : Type μ} → Bool → E → Result E (Unit {0})
guard false refusal = err refusal
guard true refusal = ok tt

infixl 5 ◌>>=◌ ◌>>◌
-- The `?` operator: the rest of a function runs on the value of a success.
abbrev pub ◌>>=◌ {ℓ κ μ} :
    {E : Type μ} {A : Type ℓ} {B : Type κ} (first : Result E A) (rest : A → Result E B) → Result E B
err refusal >>= rest = err refusal
ok value >>= rest = rest value

abbrev pub ◌>>◌ {κ μ} :
    {E : Type μ} {B : Type κ} (first : Result E (Unit {0})) (rest : Result E B) → Result E B
first >> rest = first >>= λ done. rest

-- A bind succeeds where its first part does, with the value the rest gives for it.
pub >>=-eq-ok {ℓ κ μ} :
    {E : Type μ} {A : Type ℓ} {B : Type κ} (first : Result E A) (rest : A → Result E B) {y : B}
    → (first >>= rest) ≡ ok y
    → (x : A) × (first ≡ ok x) × (rest x ≡ ok y)
>>=-eq-ok (err refusal) rest e = cc
>>=-eq-ok (ok value) rest e = (value, refl, e)

pub Result-cases {ℓ μ} :
    {E : Type μ} {A : Type ℓ} (m : Result E A) → ((a : A) × (m ≡ ok a)) ⊎ ((e : E) × (m ≡ err e))
Result-cases (ok a) = inl (a, refl)
Result-cases (err e) = inr (e, refl)

pub map_err-eq-ok {ℓ κ μ} :
    {A : Type ℓ} {E : Type μ} {E' : Type κ} (f : E → E') (m : Result E A) {x : A}
    → map_err f m ≡ ok x
    → m ≡ ok x
map_err-eq-ok f (ok a) e = ground (arith, e)
map_err-eq-ok f (err refusal) e = cc

pub ok_or-eq-ok {ℓ μ} :
    {E : Type μ} {A : Type ℓ} (o : Option A) (refusal : E) {x : A}
    → ok_or o refusal ≡ ok x
    → o ≡ some x
ok_or-eq-ok none refusal e = cc
ok_or-eq-ok (some a) refusal e = ground (arith, e)

pub guard-eq-ok {μ} :
    {E : Type μ} (test : Bool) (refusal : E) {x : Unit {0}}
    → guard test refusal ≡ ok x
    → test ≡ true
guard-eq-ok true refusal e = refl
guard-eq-ok false refusal e = cc

pub ok-injective {ℓ μ} :
    {E : Type μ} {A : Type ℓ} (a b : A) → Path (Result E A) (ok a) (ok b) → a ≡ b
ok-injective a b e = ground (arith, e)

pub >>-eq-ok {κ μ} :
    {E : Type μ} {B : Type κ} (first : Result E (Unit {0})) (rest : Result E B) {y : B}
    → (first >> rest) ≡ ok y
    → (first ≡ ok tt) × (rest ≡ ok y)
>>-eq-ok (err refusal) rest e = cc
>>-eq-ok (ok done) rest e = (refl, e)
