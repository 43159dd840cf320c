-- ===== src/Common/Lists.antt =====
-- Lists measured by native numbers, and the iterator chains of the source.
use Prim.Native.Nat.{ℕ, zero, suc, ◌+◌, ◌≤◌}
use mathlib.Core.Path.{◌≡◌, subst}
use mathlib.Core.Bool.{Bool, true, false, ◌&&◌, ◌||◌}
use mathlib.Core.List.{List, [], ◌∷◌, ◌++◌, map}
use mathlib.Core.Option.{Option, none, some}
use native.Mathlib.Omega.{arith}
use mathlib.Core.Logic.{inl, inr, ◌⊎◌}
use semantic_engine.Common.Tests.{ltb, if◌then◌else◌, Bool-cases}

module _ {ℓ} {A : Type ℓ} where
  abbrev pub length : List A → ℕ
  length [] = 0
  length (x ∷ xs) = suc (length xs)

  abbrev pub take : ℕ → List A → List A
  take zero xs = []
  take (suc n) [] = []
  take (suc n) (x ∷ xs) = x ∷ take n xs

  -- `iter().any`, `iter().all`, `iter().find`, `iter().filter`
  abbrev pub any : (A → Bool) → List A → Bool
  any p [] = false
  any p (x ∷ xs) = p x || any p xs

  abbrev pub all : (A → Bool) → List A → Bool
  all p [] = true
  all p (x ∷ xs) = p x && all p xs

  abbrev pub find : (A → Bool) → List A → Option A
  find p [] = none
  find p (x ∷ xs) = if p x then some x else find p xs

  abbrev pub retain : (A → Bool) → List A → List A
  retain p [] = []
  retain p (x ∷ xs) = if p x then x ∷ retain p xs else retain p xs

  abbrev pub is_empty : List A → Bool
  is_empty [] = true
  is_empty (x ∷ xs) = false

  abbrev pub last : List A → Option A
  last [] = none
  last (x ∷ []) = some x
  last (x ∷ y ∷ xs) = last (y ∷ xs)

  -- `while xs.len() > max { xs.pop_front(); }`
  abbrev pub trim_front : ℕ → List A → List A
  trim_front max [] = []
  trim_front max (x ∷ xs) =
      let rest = trim_front max xs in if ltb max (suc (length xs)) then rest else x ∷ xs

  pub length-trim_front-le : (max : ℕ) (xs : List A) → length (trim_front max xs) ≤ max
  length-trim_front-le max [] = omega arith
  length-trim_front-le max (x ∷ xs) = ground (arith, length-trim_front-le max xs)

  pub length-append : (xs ys : List A) → length (xs ++ ys) ≡ length xs + length ys
  length-append [] ys = omega arith
  length-append (x ∷ xs) ys = omega (arith, length-append xs ys)

  pub length-retain-le : (p : A → Bool) (xs : List A) → length (retain p xs) ≤ length xs
  length-retain-le p [] = omega arith
  length-retain-le p (x ∷ xs) = ground (arith, length-retain-le p xs)

  -- Every element satisfies the predicate.
  abbrev pub All {κ} : (A → Type κ) → List A → Type κ
  All P [] = Unit
  All P (x ∷ xs) = P x × All P xs

  -- One element at least satisfies it.
  abbrev pub Any : (A → Type 0) → List A → Type 0
  Any P [] = ⊥
  Any P (x ∷ xs) = P x ⊎ Any P xs

  pub All-map {κ μ} :
      {P : A → Type κ} {Q : A → Type μ} (xs : List A) → ((x : A) → P x → Q x) → All P xs → All Q xs
  All-map [] f h = tt
  All-map (x ∷ xs) f h = (f x h.0, All-map xs f h.1)

  module _ {κ} (P : A → Type κ) where
    pub All-append : (xs : List A) {x : A} → All P xs → P x → All P (xs ++ x ∷ [])
    All-append [] h p = (p, tt)
    All-append (y ∷ xs) (q, h) p = (q, All-append xs h p)

    pub All-retain : (keep : A → Bool) (xs : List A) → All P xs → All P (retain keep xs)
    All-retain keep [] h = tt
    All-retain keep (x ∷ xs) (p, h) = elim (Bool-cases (keep x)) [
      | inl kept ↦ rw (kept, retain) (p, All-retain keep xs h)
      | inr dropped ↦ rw (dropped, retain) (All-retain keep xs h)
    ]

    pub All-find : (test : A → Bool) (xs : List A) {x : A} → All P xs → find test xs ≡ some x → P x
    All-find test [] h found = cc
    All-find test (y ∷ xs) {x} (q, h) found = elim (Bool-cases (test y)) [
      | inl passes ↦ subst P (ground (arith, passes, found)) q
      | inr fails ↦ All-find test xs h (ground (arith, fails, found))
    ]

pub Any-map {ℓ κ} :
    {A : Type ℓ} {B : Type κ} (f : A → B) (P : B → Type 0) (xs : List A)
    → Any P (map f xs)
    → Any (λ x. P (f x)) xs
Any-map f P [] h = h
Any-map f P (x ∷ xs) (inl here) = inl here
Any-map f P (x ∷ xs) (inr there) = inr (Any-map f P xs there)

-- The lists have the same length, and their elements are related one by one.
abbrev pub Pairwise {ℓ κ} : {A : Type ℓ} {B : Type κ} → (A → B → Type 0) → List A → List B → Type 0
Pairwise R [] [] = Unit
Pairwise R [] (y ∷ ys) = ⊥
Pairwise R (x ∷ xs) [] = ⊥
Pairwise R (x ∷ xs) (y ∷ ys) = R x y × Pairwise R xs ys
