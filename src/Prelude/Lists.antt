-- ===== src/Prelude/Lists.antt =====
-- Lists under Boolean tests: the loops `for … { if … { return true } }` of the code, and
-- predicates over the elements of a list.
use Prim.Native.Nat.{ℕ, suc, ◌+◌}
use mathlib.Core.Path.{◌≡◌, refl}
use mathlib.Core.Logic.{◌≢◌, ◌⊎◌, inl, inr}
use mathlib.Core.Bool.{Bool, true, false, ◌&&◌, ◌||◌}
use mathlib.Core.List.{List, [], ◌∷◌, ◌++◌}
use mathlib.Core.Option.{Option, none, some}
use native.Mathlib.Omega.{arith}
use crenel.Prelude.Tests.{if◌then◌else◌, Bool-cases, Eq, ◌==◌}

module _ {ℓ} {A : Type ℓ} where
  abbrev pub length : List A → ℕ
  length [] = 0
  length (x ∷ xs) = suc (length xs)

  abbrev pub is_nil : List A → Bool
  is_nil [] = true
  is_nil (x ∷ xs) = false

  -- `for _, x := range xs { if p(x) { return true } }; return false`
  abbrev pub any : (A → Bool) → List A → Bool
  any p [] = false
  any p (x ∷ xs) = p x || any p xs

  abbrev pub all : (A → Bool) → List A → Bool
  all p [] = true
  all p (x ∷ xs) = p x && all p xs

  -- `for _, x := range xs { if p(x) { return x } }`
  abbrev pub find : (A → Bool) → List A → Option A
  find p [] = none
  find p (x ∷ xs) = if p x then some x else find p xs

  -- `for _, x := range xs { if p(x) { out = append(out, x) } }`
  abbrev pub keep_if : (A → Bool) → List A → List A
  keep_if p [] = []
  keep_if p (x ∷ xs) = let rest = keep_if p xs in if p x then x ∷ rest else rest

  pub find-eq-some : (p : A → Bool) (xs : List A) {x : A} → find p xs ≡ some x → p x ≡ true
  find-eq-some p [] h = cc
  find-eq-some p (y ∷ xs) {x} h = elim (Bool-cases (p y)) [
    | inl e ↦ let found : some y ≡ some x = rw e at h in ground arith
    | inr e ↦ find-eq-some p xs (rw e at h)
  ]

-- Membership that a proof can match.
pub data In {ℓ} {A : Type ℓ} (x : A) : List A → Type ℓ where
  here : {xs : List A} → In x (x ∷ xs)
  there : {y : A} {xs : List A} → In x xs → In x (y ∷ xs)

abbrev pub All {ℓ κ} : {T : Type ℓ} → (T → Type κ) → List T → Type κ
All Holds [] = Unit
All Holds (y ∷ ys) = Holds y × All Holds ys

-- Every element stands in `R` to each later one.
abbrev pub Ordered {ℓ κ} : {A : Type ℓ} → (A → A → Type κ) → List A → Type κ
Ordered R [] = Unit
Ordered R (x ∷ xs) = All (R x) xs × Ordered R xs

module _ {ℓ κ} {A : Type ℓ} (P : A → Type κ) where
  pub All-In : {x : A} {xs : List A} → In x xs → All P xs → P x
  All-In here h = h.0
  All-In (there m) h = All-In m h.1

  pub In-All : (xs : List A) → ((x : A) → In x xs → P x) → All P xs
  In-All [] h = tt
  In-All (x ∷ xs) h = (h x here, In-All xs (λ y m. h y (there m)))

  pub All-append : (xs ys : List A) → All P xs → All P ys → All P (xs ++ ys)
  All-append [] ys h k = k
  All-append (x ∷ xs) ys h k = (h.0, All-append xs ys h.1 k)

module _ {ℓ} {A : Type ℓ} where
  pub In-append : {x : A} {xs : List A} (ys : List A) → In x xs → In x (xs ++ ys)
  In-append ys here = here
  In-append ys (there m) = there (In-append ys m)

  pub In-append_right : {x : A} (xs : List A) {ys : List A} → In x ys → In x (xs ++ ys)
  In-append_right [] m = m
  In-append_right (y ∷ xs) m = there (In-append_right xs m)

  pub In-append_cases : {x : A} (xs : List A) {ys : List A} → In x (xs ++ ys) → In x xs ⊎ In x ys
  In-append_cases [] m = inr m
  In-append_cases (y ∷ xs) here = inl here
  In-append_cases (y ∷ xs) (there m) = elim (In-append_cases xs m) [
    | inl l ↦ inl (there l)
    | inr r ↦ inr r
  ]

  pub length-append : (xs ys : List A) → length (xs ++ ys) ≡ length xs + length ys
  length-append [] ys = omega arith
  length-append (x ∷ xs) ys = omega (arith, length-append xs ys)

  pub any-In : (p : A → Bool) (xs : List A) → any p xs ≡ true → (x : A) × In x xs × (p x ≡ true)
  any-In p [] h = cc
  any-In p (y ∷ xs) h = elim (Bool-cases (p y)) [
    | inl e ↦ (y, here, e)
    | inr e ↦
        let tail : any p xs ≡ true = rw e at h in
        let (x, m, t) = any-In p xs tail in (x, there m, t)
  ]

  pub In-any : (p : A → Bool) {x : A} {xs : List A} → In x xs → p x ≡ true → any p xs ≡ true
  In-any p here h = rw h
  In-any p (there {y} m) h = elim (Bool-cases (p y)) [ inl e ↦ rw e | inr e ↦ rw e (In-any p m h) ]

  pub find-In : (p : A → Bool) (xs : List A) {x : A} → find p xs ≡ some x → In x xs
  find-In p (y ∷ xs) {x} h = elim (Bool-cases (p y)) [
    | inl e ↦
        let found : some y ≡ some x = rw e at h in let same : x ≡ y = ground arith in rw same here
    | inr e ↦ there (find-In p xs (rw e at h))
  ]
  find-In p [] h = cc

  pub find-any : (p : A → Bool) (xs : List A) → any p xs ≡ true → find p xs ≢ none
  find-any p [] h = cc
  find-any p (y ∷ xs) h = elim (Bool-cases (p y)) [
    | inl e ↦ rw e cc
    | inr e ↦ rw e (find-any p xs (rw e at h))
  ]

  pub In-cons_cases : {x y : A} {xs : List A} → In x (y ∷ xs) → (x ≡ y) ⊎ In x xs
  In-cons_cases here = inl refl
  In-cons_cases (there m) = inr m

  pub keep_if-In :
      (p : A → Bool) (xs : List A) {x : A} → In x (keep_if p xs) → In x xs × (p x ≡ true)
  keep_if-In p [] m = elim m [ ]
  keep_if-In p (y ∷ xs) {x} m = elim (Bool-cases (p y)) [
    | inl e ↦
        let kept : In x (y ∷ keep_if p xs) = rw e at m in
        elim (In-cons_cases kept) [
          | inl same ↦ (rw same here, rw same e)
          | inr n ↦ let (n', t) = keep_if-In p xs n in (there n', t)
        ]
    | inr e ↦ let (n, t) = keep_if-In p xs (rw e at m) in (there n, t)
  ]

module _ {ℓ} {A : Type ℓ} ⦃e : Eq A⦄ where
  abbrev pub contains : List A → A → Bool
  contains [] sought = false
  contains (y ∷ ys) sought = y == sought || contains ys sought
