-- ===== src/Effects.antt =====
-- Calls that thread a state and may fail: what a method of a driver does to the service behind it.
-- The state after the call is there also where the call returns an error.
use crenel.Prelude.{◌≡◌, refl, List, [], ◌∷◌, In, here, there, Result, ok, err, arith}

abbrev pub Call : Type 0 → Type 0 → Type 0 → Type 0
Call S E A = S → S × Result E A

module _ {S E A : Type 0} where
  abbrev pub done : A → Call S E A
  done a s = (s, ok a)

  abbrev pub fail : E → Call S E A
  fail e s = (s, err e)

module _ {S E A B : Type 0} where
  abbrev pub next : (A → Call S E B) → S × Result E A → S × Result E B
  next k (s, ok a) = k a s
  next k (s, err e) = (s, err e)

  infixl 5 ◌>>=◌
  abbrev pub ◌>>=◌ : Call S E A → (A → Call S E B) → Call S E B
  m >>= k = λ s. next k (m s)

infixl 5 ◌>>◌
abbrev pub ◌>>◌ : {S E B : Type 0} → Call S E (Unit {0}) → Call S E B → Call S E B
m >> k = m >>= λ _. k

-- `if err := …; err != nil { return err }` on a value that needs no call
abbrev pub lift : {S E A : Type 0} → Result E A → Call S E A
lift r s = (s, r)

-- `for _, x := range xs { if err := f(x); err != nil { return err } }`
abbrev pub each : {S E X : Type 0} → (X → Call S E (Unit {0})) → List X → Call S E (Unit {0})
each f [] = done tt
each f (x ∷ xs) = f x >> each f xs

-- What a call does to the state, whatever it returns.
abbrev pub Moves : {S E A : Type 0} → (S → S → Type 0) → Call S E A → Type 0
Moves {S} R m = (s : S) → R s (m s).0

-- A relation of states that a sequence of calls stays in
pub record IsPreorder {S : Type 0} (R : S → S → Type 0) : Type 0 where
  pub reflexive : (s : S) → R s s
  pub transitive : (s t u : S) → R s t → R t u → R s u

module _ {S E A B : Type 0} (R : S → S → Type 0) (p : IsPreorder R) where
  next-Moves :
      (k : A → Call S E B)
      → ((a : A) → Moves R (k a))
      → (s : S) (o : S × Result E A) → R s o.0
      → R s (next k o).0
  next-Moves k h s (t, ok a) r = p.transitive s t (k a t).0 r (h a t)
  next-Moves k h s (t, err e) r = r

  pub bind-Moves :
      (m : Call S E A) (k : A → Call S E B)
      → Moves R m
      → ((a : A) → Moves R (k a))
      → Moves R (m >>= k)
  bind-Moves m k h f s = next-Moves k f s (m s) (h s)

module _ {S E X : Type 0} (R : S → S → Type 0) (p : IsPreorder R) where
  pub each-Moves :
      (f : X → Call S E (Unit {0})) (xs : List X)
      → ((x : X) → In x xs → Moves R (f x))
      → Moves R (each f xs)
  each-Moves f [] h = λ s. p.reflexive s
  each-Moves f (x ∷ xs) h =
      bind-Moves R p (f x) (λ _. each f xs) (h x here) (λ _. each-Moves f xs (λ y m. h y (there m)))

module _ {S E A B : Type 0} where
  next-eq-ok :
      (k : A → Call S E B) (o : S × Result E A) {u : S} {b : B}
      → next k o ≡ (u, ok b)
      → (t : S) × (a : A) × (o ≡ (t, ok a)) × (k a t ≡ (u, ok b))
  next-eq-ok k (t, ok a) h = (t, a, refl, h)
  next-eq-ok k (t, err e) h = ground arith

  pub bind-eq-ok :
      (m : Call S E A) (k : A → Call S E B) (s : S) {u : S} {b : B}
      → (m >>= k) s ≡ (u, ok b)
      → (t : S) × (a : A) × (m s ≡ (t, ok a)) × (k a t ≡ (u, ok b))
  bind-eq-ok m k s h = next-eq-ok k (m s) h

module _ {S E A B : Type 0} where
  pub next-ok : (k : A → Call S E B) (o : S × Result E A) {a : A} → o.1 ≡ ok a → next k o ≡ k a o.0
  next-ok k (t, ok b) h = ground arith
  next-ok k (t, err e) h = ground arith
