-- ===== src/Prelude/Sort.antt =====
-- `sort.SliceStable` under a Boolean `less`: equal elements keep their order.
use mathlib.Core.Path.{◌≡◌, refl, ◌∙◌}
use mathlib.Core.Bool.{Bool, true, false}
use mathlib.Core.List.{List, [], ◌∷◌, map, Perm}
use mathlib.Core.List.Perm
use native.Mathlib.Omega.{arith}
use crenel.Prelude.Tests.{if◌then◌else◌, Bool-cases}
use mathlib.Core.Logic.{inl, inr}
use crenel.Prelude.Lists.{In, here, there, All, All-In, In-All, Ordered, keep_if, In-cons_cases}

module _ {ℓ} {A : Type ℓ} (less : A → A → Bool) where
  -- `x` stood before all of the list, so it goes behind those that are less, and no others.
  unfoldable pub insert_stable : A → List A → List A
  insert_stable x [] = x ∷ []
  insert_stable x (y ∷ ys) = if less y x then y ∷ insert_stable x ys else x ∷ y ∷ ys

  unfoldable pub sort_stable : List A → List A
  unfolding insert_stable
  sort_stable [] = []
  sort_stable (x ∷ xs) = insert_stable x (sort_stable xs)

  pub In-insert_stable : (x : A) (ys : List A) {z : A} → In z (x ∷ ys) → In z (insert_stable x ys)
  unfolding insert_stable
  In-insert_stable x [] m = m
  In-insert_stable x (y ∷ ys) m = elim (Bool-cases (less y x)) [
    | inl e ↦ rw e (elim (In-cons_cases m) [
      | inl top ↦ there (In-insert_stable x ys (rw top here))
      | inr n ↦ elim (In-cons_cases n) [
        | inl second ↦ rw second here
        | inr later ↦ there (In-insert_stable x ys (there later))
      ]
    ])
    | inr e ↦ rw e m
  ]

  pub insert_stable-In : (x : A) (ys : List A) {z : A} → In z (insert_stable x ys) → In z (x ∷ ys)
  unfolding insert_stable
  insert_stable-In x [] m = m
  insert_stable-In x (y ∷ ys) {z} m = elim (Bool-cases (less y x)) [
    | inl e ↦
        let n : In z (y ∷ insert_stable x ys) = rw e at m in
        elim (In-cons_cases n) [
          | inl top ↦ rw top (there here)
          | inr later ↦ elim (In-cons_cases (insert_stable-In x ys later)) [
            | inl same ↦ rw same here
            | inr old ↦ there (there old)
          ]
        ]
    | inr e ↦ rw e at m
  ]

  pub In-sort_stable : (xs : List A) {z : A} → In z xs → In z (sort_stable xs)
  unfolding sort_stable
  In-sort_stable [] m = m
  In-sort_stable (x ∷ xs) m = elim (In-cons_cases m) [
    | inl top ↦ In-insert_stable x (sort_stable xs) (rw top here)
    | inr n ↦ In-insert_stable x (sort_stable xs) (there (In-sort_stable xs n))
  ]

  pub sort_stable-In : (xs : List A) {z : A} → In z (sort_stable xs) → In z xs
  unfolding sort_stable
  sort_stable-In [] m = m
  sort_stable-In (x ∷ xs) m = elim (In-cons_cases (insert_stable-In x (sort_stable xs) m)) [
    | inl top ↦ rw top here
    | inr n ↦ there (sort_stable-In xs n)
  ]

  insert_stable-Perm : (x : A) (ys : List A) → Perm (x ∷ ys) (insert_stable x ys)
  unfolding insert_stable
  insert_stable-Perm x [] = Perm.refl (x ∷ [])
  insert_stable-Perm x (y ∷ ys) = elim (Bool-cases (less y x)) [
    | inl e ↦ rw e (Perm.trans (Perm.swap y x ys) (Perm.cons y (insert_stable-Perm x ys)))
    | inr e ↦ rw e (Perm.refl (x ∷ y ∷ ys))
  ]

  pub sort_stable-Perm : (xs : List A) → Perm xs (sort_stable xs)
  unfolding sort_stable
  sort_stable-Perm [] = Perm.refl []
  sort_stable-Perm (x ∷ xs) =
      Perm.trans (Perm.cons x (sort_stable-Perm xs)) (insert_stable-Perm x (sort_stable xs))

  -- A later element is never less than an earlier one.
  abbrev pub NotBefore : A → A → Type 0
  NotBefore a b = less b a ≡ false

  module _ (asym : (a b : A) → less a b ≡ true → less b a ≡ false)
      (neg_trans : (a b c : A) → less b a ≡ false → less c b ≡ false → less c a ≡ false) where
    insert-All :
        (a x : A) (ys : List A)
        → less x a ≡ false
        → All (NotBefore a) ys
        → All (NotBefore a) (insert_stable x ys)
    unfolding insert_stable
    insert-All a x [] h k = (h, tt)
    insert-All a x (y ∷ ys) h k = elim (Bool-cases (less y x)) [
      | inl e ↦ rw e (k.0, insert-All a x ys h k.1)
      | inr e ↦ rw e (h, k)
    ]

    All-later :
        (x y : A) (ys : List A) → less y x ≡ false → All (NotBefore y) ys → All (NotBefore x) ys
    All-later x y [] h k = tt
    All-later x y (z ∷ zs) h k = (neg_trans x y z h k.0, All-later x y zs h k.1)

    insert-Ordered :
        (x : A) (ys : List A) → Ordered NotBefore ys → Ordered NotBefore (insert_stable x ys)
    unfolding insert_stable
    insert-Ordered x [] s = (tt, tt)
    insert-Ordered x (y ∷ ys) s = elim (Bool-cases (less y x)) [
      | inl e ↦ rw e (insert-All y x ys (asym y x e) s.0, insert-Ordered x ys s.1)
      | inr e ↦ rw e ((e, All-later x y ys e s.0), s)
    ]

    pub sort_stable-Ordered : (xs : List A) → Ordered NotBefore (sort_stable xs)
    unfolding sort_stable
    sort_stable-Ordered [] = tt
    sort_stable-Ordered (x ∷ xs) = insert-Ordered x (sort_stable xs) (sort_stable-Ordered xs)

  -- Elements that are not told apart by `less` keep their order: a class `p` of such elements
  -- is read off the sorted list as it stood in the list.
  module _ (p : A → Bool) (tied : (a b : A) → p a ≡ true → p b ≡ true → less a b ≡ false) where
    insert-keep_if : (x : A) (ys : List A) → keep_if p (insert_stable x ys) ≡ keep_if p (x ∷ ys)
    unfolding insert_stable
    insert-keep_if x [] = refl
    insert-keep_if x (y ∷ ys) = elim (Bool-cases (less y x)) [
      | inr e ↦ rw e
      | inl e ↦ rw e (ground (arith, insert-keep_if x ys, tied y x))
    ]

    pub sort_stable-keep_if : (xs : List A) → keep_if p (sort_stable xs) ≡ keep_if p xs
    unfolding sort_stable
    sort_stable-keep_if [] = refl
    sort_stable-keep_if (x ∷ xs) =
        insert-keep_if x (sort_stable xs) ∙ ground (arith, sort_stable-keep_if xs)

-- What holds of any two elements, whichever stands first, holds of the sorted list.
module _ {ℓ κ} {A : Type ℓ} (less : A → A → Bool) (R : A → A → Type κ)
    (either_way : (a b : A) → R a b → R b a) where
  insert_stable-apart :
      (x : A) (ys : List A) → All (R x) ys → Ordered R ys → Ordered R (insert_stable less x ys)
  unfolding insert_stable
  insert_stable-apart x [] h k = (tt, tt)
  insert_stable-apart x (y ∷ ys) h k = elim (Bool-cases (less y x)) [
    | inr e ↦ rw e (h, k)
    | inl e ↦ rw e (
      In-All (R y) (insert_stable less x ys)
          (λ z m. All-In (R y) (insert_stable-In less x ys m) (either_way x y h.0, k.0)),
      insert_stable-apart x ys h.1 k.1,
    )
  ]

  pub sort_stable-apart : (xs : List A) → Ordered R xs → Ordered R (sort_stable less xs)
  unfolding sort_stable
  sort_stable-apart [] h = tt
  sort_stable-apart (x ∷ xs) h =
      insert_stable-apart x (sort_stable less xs)
        (In-All (R x) (sort_stable less xs) (λ z m. All-In (R x) (sort_stable-In less xs m) h.0))
        (sort_stable-apart xs h.1)

-- Sorting what a function makes of the elements is sorting the elements by what it makes of them.
module _ {ℓ κ} {A : Type ℓ} {B : Type κ} (less : B → B → Bool) (f : A → B) where
  abbrev pub under : A → A → Bool
  under a b = less (f a) (f b)

  insert_stable-map :
      (x : A) (ys : List A) → insert_stable less (f x) (map f ys) ≡ map f (insert_stable under x ys)
  unfolding insert_stable
  insert_stable-map x [] = refl
  insert_stable-map x (y ∷ ys) = elim (Bool-cases (less (f y) (f x))) [
    | inl e ↦ rw (e, insert_stable-map x ys) refl
    | inr e ↦ rw e refl
  ]

  pub sort_stable-map : (xs : List A) → sort_stable less (map f xs) ≡ map f (sort_stable under xs)
  unfolding sort_stable
  sort_stable-map [] = refl
  sort_stable-map (x ∷ xs) = rw (sort_stable-map xs) (insert_stable-map x (sort_stable under xs))
