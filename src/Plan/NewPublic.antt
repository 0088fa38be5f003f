-- ===== src/Plan/NewPublic.antt =====
-- The names that a plan announces as newly public.
use crenel.Prelude.{
  arith, subst, sym, true, false, ◌||◌, ◌≡◌, ◌≢◌, ◌↔◌, refl, List, [], ◌∷◌, ◌++◌, ◌⊎◌, inl, inr, In,
  here, there, In-append, In-append_right, In-append_cases, In-cons_cases, Bool-cases, Text, ◌==◌,
  text_eq, text_beq_iff, contains, All, All-In, All-append, Ordered, ◌∙◌, if◌then◌else◌,
}
use crenel.Model.{Op, expose, scope_eq, DnsChange, EdgePlan}
use crenel.Plan.Announced.{Announces, announced_names, announced_iff}
use crenel.Engine.{Engine}
use crenel.Plan.{add_hosts, has_public_dns, compute_new_public}

contains-In : (xs : List Text) (h : Text) → contains xs h ≡ true → In h xs
contains-In [] h k = cc
contains-In (x ∷ xs) h k = elim (Bool-cases (x == h)) [
  | inl e ↦
      let same : x ≡ h = (text_beq_iff x h).0 e in subst (λ (y : Text). In y (x ∷ xs)) same here
  | inr e ↦ there (contains-In xs h (rw e at k))
]

In-contains : (xs : List Text) (h : Text) → contains xs h ≡ false → In h xs → ⊥
In-contains (x ∷ xs) h k here = absurd (let t = (text_beq_iff x x).1 refl in ground arith)
In-contains (x ∷ xs) h k (there m) = In-contains xs h (ground arith) m
In-contains [] h k m = elim m [ ]

-- Each once, and never the empty name.
abbrev pub Clean : List Text → Type 0
Clean xs = Ordered (λ x y. x ≢ y) xs × All (λ x. x ≢ []) xs

Clean-snoc :
    (xs : List Text) (h : Text) → Clean xs → h ≢ [] → (In h xs → ⊥) → Clean (xs ++ (h ∷ []))
Clean-snoc [] h c some_ new = ((tt, tt), (some_, tt))
Clean-snoc (x ∷ xs) h c some_ new =
    let (once, full) = Clean-snoc xs h (c.0.1, c.1.1) some_ (λ m. new (there m)) in
    (
      (
        All-append (λ y. x ≢ y) xs (h ∷ []) c.0.0
            (λ e. new (subst (λ (y : Text). In y (x ∷ xs)) e here), tt),
        once,
      ),
      (c.1.0, full),
    )

-- What one name does to the output so far.
abbrev add_one : List Text → Text → List Text
add_one out h = if h == [] || contains out h then out else out ++ (h ∷ [])

-- The three cases: the empty name, a name that is there, and a new one.
add_one-cases :
    (out : List Text) (h : Text)
    → ((h ≡ []) × (add_one out h ≡ out))
      ⊎ (((h ≢ []) × In h out × (add_one out h ≡ out))
          ⊎ ((h ≢ []) × (In h out → ⊥) × (add_one out h ≡ out ++ (h ∷ []))))
add_one-cases out h = elim (Bool-cases (h == [])) [
  | inl e ↦ inl ((text_beq_iff h []).0 e, rw e refl)
  | inr e ↦
      let some_ : h ≢ [] = λ k. absurd (let t = (text_beq_iff h []).1 k in ground arith) in
      elim (Bool-cases (contains out h)) [
        | inl there_ ↦ inr (inl (some_, contains-In out h there_, rw (e, there_) refl))
        | inr new ↦ inr (inr (some_, In-contains out h new, rw (e, new) refl))
      ]
]

add_one-Clean : (out : List Text) (h : Text) → Clean out → Clean (add_one out h)
add_one-Clean out h c = elim (add_one-cases out h) [
  | inl (e, same) ↦ subst Clean (sym same) c
  | inr (inl (e, m, same)) ↦ subst Clean (sym same) c
  | inr (inr (some_, new, same)) ↦ subst Clean (sym same) (Clean-snoc out h c some_ new)
]

-- `x` is one of the names so far, or the new one.
abbrev OneOf : List Text → Text → Text → Type 0
OneOf out h x = In x out ⊎ ((x ≢ []) × (x ≡ h))

add_one-OneOf : (out : List Text) (h x : Text) → In x (add_one out h) → OneOf out h x
add_one-OneOf out h x m = elim (add_one-cases out h) [
  | inl (e, same) ↦ inl (subst (In x) same m)
  | inr (inl (e, k, same)) ↦ inl (subst (In x) same m)
  | inr (inr (some_, new, same)) ↦ elim (In-append_cases out (subst (In x) same m)) [
    | inl k ↦ inl k
    | inr k ↦ elim (In-cons_cases k) [
      | inl e ↦ inr (λ z. some_ (sym e ∙ z), e)
      | inr n ↦ elim n [ ]
    ]
  ]
]

OneOf-add_one : (out : List Text) (h x : Text) → OneOf out h x → In x (add_one out h)
OneOf-add_one out h x o = elim (add_one-cases out h) [
  | inl (e, same) ↦
      subst (In x) (sym same) (elim o [ inl m ↦ m | inr (some_, k) ↦ absurd (some_ (k ∙ e)) ])
  | inr (inl (e, n, same)) ↦
      subst (In x) (sym same)
        (elim o [ inl m ↦ m | inr (some_, k) ↦ subst (λ (y : Text). In y out) (sym k) n ])
  | inr (inr (some_, new, same)) ↦ subst (In x) (sym same) (elim o [
    | inl m ↦ In-append (h ∷ []) m
    | inr (full, k) ↦ In-append_right out (subst (λ (y : Text). In y (h ∷ [])) (sym k) here)
  ])
]

add_hosts-Clean : (out hs : List Text) → Clean out → Clean (add_hosts out hs)
unfolding add_hosts
add_hosts-Clean out [] c = c
add_hosts-Clean out (h ∷ hs) c = add_hosts-Clean (add_one out h) hs (add_one-Clean out h c)

add_hosts-In :
    (out hs : List Text) (x : Text) → In x (add_hosts out hs) → In x out ⊎ ((x ≢ []) × In x hs)
unfolding add_hosts
add_hosts-In out [] x m = inl m
add_hosts-In out (h ∷ hs) x m = elim (add_hosts-In (add_one out h) hs x m) [
  | inr (some_, k) ↦ inr (some_, there k)
  | inl k ↦ elim (add_one-OneOf out h x k) [
    | inl l ↦ inl l
    | inr (some_, e) ↦ inr (some_, subst (λ (y : Text). In y (h ∷ hs)) (sym e) here)
  ]
]

In-add_hosts :
    (out hs : List Text) (x : Text) → In x out ⊎ ((x ≢ []) × In x hs) → In x (add_hosts out hs)
unfolding add_hosts
In-add_hosts out [] x (inl m) = m
In-add_hosts out [] x (inr (some_, m)) = elim m [ ]
In-add_hosts out (h ∷ hs) x (inl m) =
    In-add_hosts (add_one out h) hs x (inl (OneOf-add_one out h x (inl m)))
In-add_hosts out (h ∷ hs) x (inr (some_, m)) = elim (In-cons_cases m) [
  | inl e ↦ In-add_hosts (add_one out h) hs x (inl (OneOf-add_one out h x (inr (some_, e))))
  | inr k ↦ In-add_hosts (add_one out h) hs x (inr (some_, k))
]

abbrev Exact : (Text → Type 0) → List Text → Type 0
Exact P xs = Clean xs × ((x : Text) → In x xs ↔ ((x ≢ []) × P x))

Clean-In : {xs : List Text} {x : Text} → Clean xs → In x xs → x ≢ []
Clean-In c m = All-In (λ (y : Text). y ≢ []) m c.1

add_hosts-Exact :
    (hs : List Text) (P : Text → Type 0) → ((x : Text) → In x hs ↔ P x) → Exact P (add_hosts [] hs)
add_hosts-Exact hs P same =
    let clean = add_hosts-Clean [] hs (tt, tt) in
    (
      clean,
      λ x. (
        λ m. (
          Clean-In clean m,
          elim (add_hosts-In [] hs x m) [ inl n ↦ elim n [ ] | inr (some_, k) ↦ (same x).0 k ],
        ),
        λ (some_, holds). In-add_hosts [] hs x (inr (some_, (same x).1 holds)),
      ),
    )

module _ {W : Type 0} where
  compute_new_public-eq :
      (e : Engine W) (op : Op) (ps : List EdgePlan) (ds : List DnsChange)
      → op.verb ≡ expose
      → compute_new_public e op ps ds ≡ add_hosts [] (announced_names (has_public_dns e) ps ds)
  unfolding compute_new_public
  compute_new_public-eq e op ps ds exposing = elim (Bool-cases (has_public_dns e)) [
    | inl yes_ ↦ rw (exposing, yes_) refl
    | inr no_ ↦ rw (exposing, no_) refl
  ]

  -- If the op is an expose, then the announced names are distinct and not empty, and a name is
  -- announced exactly if it is not empty and: where the engine has a public DNS provider, a change
  -- in public scope adds a record of that name; and where it has none, an edge plan adds a
  -- route of that host that carries traffic.
  pub compute_new_public-exact :
      (e : Engine W) (op : Op) (ps : List EdgePlan) (ds : List DnsChange)
      → op.verb ≡ expose
      → Clean (compute_new_public e op ps ds)
        × ((x : Text)
            → In x (compute_new_public e op ps ds)
              ↔ ((x ≢ []) × Announces (has_public_dns e) ps ds x))
  compute_new_public-exact e op ps ds exposing =
      subst (Exact (Announces (has_public_dns e) ps ds))
        (sym (compute_new_public-eq e op ps ds exposing))
        (add_hosts-Exact (announced_names (has_public_dns e) ps ds)
          (Announces (has_public_dns e) ps ds) (announced_iff (has_public_dns e) ps ds))
