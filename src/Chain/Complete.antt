-- ===== src/Chain/Complete.antt =====
-- The walk along a chain finds every edge that it leads to: it visits no edge twice, so its fuel is
-- enough.
use crenel.Prelude.{
  arith, ap, subst, sym, ℕ, zero, suc, ◌<◌, ◌≤◌, true, false, not, ◌||◌, ◌≡◌, ◌≢◌, ◌↔◌, refl, List,
  [], ◌∷◌, inl, inr, In, In-cons_cases, Bool-cases, some, Text, ◌==◌, text_eq, text_beq_iff, length,
  keep_if, contains, find-In, find-eq-some,
}
use crenel.Engine.{EdgeBinding, Engine, binding, fronts_service}
use crenel.Chain.{participates_from, downstream_participates}
use crenel.Chain.Reach.{LeadsTo, last, more, participates_from-LeadsTo}

apart_next :
    (visited ns : List Text) (name x : Text)
    → ((y : Text) → contains (name ∷ ns) y ≡ true → contains visited y ≡ false)
    → contains ns name ≡ false
    → contains ns x ≡ true
    → contains (name ∷ visited) x ≡ false
apart_next visited ns name x apart new m = elim (Bool-cases (name == x)) [
  | inl hit ↦
      let same : name ≡ x = (text_beq_iff name x).0 hit in
      let here_ : contains ns x ≡ false = subst (λ n. contains ns n ≡ false) same new in
      absurd (ground arith)
  | inr miss ↦ let old = apart x (ground arith) in ground arith
]

module _ {W : Type 0} where
  -- the number of the edges that were not visited
  abbrev unvisited : List Text → List (EdgeBinding W) → ℕ
  unvisited visited bs = length (keep_if (λ b. not (contains visited b.name)) bs)

  unvisited-all :
      (visited : List Text) (bs : List (EdgeBinding W)) → unvisited visited bs ≤ length bs
  unvisited-all visited [] = omega arith
  unvisited-all visited (b ∷ bs) = ground (arith, unvisited-all visited bs)

  unvisited-falls :
      (name : Text) (visited : List Text) (bs : List (EdgeBinding W))
      → unvisited (name ∷ visited) bs ≤ unvisited visited bs
  unvisited-falls name visited [] = omega arith
  unvisited-falls name visited (b ∷ bs) = ground (arith, unvisited-falls name visited bs)

  unvisited-less :
      (visited : List Text) (b : EdgeBinding W) (bs : List (EdgeBinding W))
      → In b bs
      → contains visited b.name ≡ false
      → unvisited (b.name ∷ visited) bs < unvisited visited bs
  unvisited-less visited b (c ∷ bs) m new = elim (In-cons_cases m) [
    | inl top ↦
        let same : c.name ≡ b.name = ap (λ (x : EdgeBinding W). x.name) (sym top) in
        let falls = unvisited-falls b.name visited bs in
        let hit = (text_beq_iff b.name c.name).1 (sym same) in
        let fresh : contains visited c.name ≡ false =
          subst (λ n. contains visited n ≡ false) (sym same) new in
        ground arith
    | inr later ↦ let less = unvisited-less visited b bs later new in ground arith
  ]
  unvisited-less visited b [] m new = elim m [ ]

  abbrev Canonical : Engine W → EdgeBinding W → Type 0
  Canonical e b = binding e b.name ≡ some b

  binding-In :
      (e : Engine W) (name : Text) {b : EdgeBinding W} → binding e name ≡ some b → In b e.edges
  unfolding binding
  binding-In e name h = find-In _ e.edges h

  binding-Canonical :
      (e : Engine W) (name : Text) {b : EdgeBinding W} → binding e name ≡ some b → Canonical e b
  unfolding binding
  binding-Canonical e name {b} h =
      let same : b.name ≡ name = (text_beq_iff b.name name).0 (find-eq-some _ e.edges h) in
      subst (λ n. binding e n ≡ some b) (sym same) h

  -- A way to an edge that fronts the service, with the names on it, no two of them alike.
  data Way (e : Engine W) (service : Text) : List Text → EdgeBinding W → Type 0 where
    end :
        {b d : EdgeBinding W}
        → Canonical e b
        → b.downstream_edge ≢ []
        → binding e b.downstream_edge ≡ some d
        → fronts_service d service ≡ true
        → Way e service (b.name ∷ []) b
    step :
        {b d : EdgeBinding W} {ns : List Text}
        → Canonical e b
        → b.downstream_edge ≢ []
        → binding e b.downstream_edge ≡ some d
        → contains ns b.name ≡ false
        → Way e service ns d
        → Way e service (b.name ∷ ns) b

  Way-Canonical :
      {e : Engine W} {service : Text} {ns : List Text} {b : EdgeBinding W}
      → Way e service ns b
      → Canonical e b
  Way-Canonical (end c s bound f) = c
  Way-Canonical (step c s bound new way) = c

  -- The part of a way from the edge of a given name.
  Way-from :
      {e : Engine W} {service : Text} (name : Text) {ns : List Text} {b : EdgeBinding W}
      → Way e service ns b
      → contains ns name ≡ true
      → (ms : List Text) × (c : EdgeBinding W) × (c.name ≡ name) × Way e service ms c
  Way-from name (end {b} c s bound f) h =
      (b.name ∷ [], b, (text_beq_iff b.name name).0 (ground arith), end c s bound f)
  Way-from name (step {b} {ns = ns} c s bound new way) h = elim (Bool-cases (b.name == name)) [
    | inl hit ↦ (b.name ∷ ns, b, (text_beq_iff b.name name).0 hit, step c s bound new way)
    | inr miss ↦ Way-from name way (ground arith)
  ]

  LeadsTo-Way :
      {e : Engine W} {service : Text} {b : EdgeBinding W}
      → LeadsTo e service b
      → Canonical e b
      → (ns : List Text) × Way e service ns b
  LeadsTo-Way {b} (last s bound f) c = (b.name ∷ [], end c s bound f)
  LeadsTo-Way {e} {service} {b} (more s bound leads) c =
      let (ns, way) = LeadsTo-Way leads (binding-Canonical e b.downstream_edge bound) in
      elim (Bool-cases (contains ns b.name)) [
        | inr new ↦ (b.name ∷ ns, step c s bound new way)
        | inl again ↦
            let (ms, d, same, way') = Way-from b.name way again in
            let both : binding e b.name ≡ some d =
              subst (λ n. binding e n ≡ some d) same (Way-Canonical way') in
            let one : d ≡ b = ground arith in (ms, subst (Way e service ms) one way')
      ]

  walk-step :
      (e : Engine W) (fuel : ℕ) (visited : List Text) (b : EdgeBinding W) (service : Text)
      {d : EdgeBinding W}
      → b.downstream_edge ≢ []
      → contains visited b.name ≡ false
      → binding e b.downstream_edge ≡ some d
      → participates_from e (suc fuel) visited b service
        ≡ (fronts_service d service || participates_from e fuel (b.name ∷ visited) d service)
  unfolding participates_from
  walk-step e fuel visited b service some_ new bound = elim (Bool-cases (b.downstream_edge == [])) [
    | inl none_ ↦ absurd (some_ ((text_beq_iff b.downstream_edge []).0 none_))
    | inr e1 ↦ rw (e1, new, bound) refl
  ]

  Way-walk :
      (e : Engine W) (service : Text) (fuel : ℕ) (visited : List Text) {ns : List Text}
      {b : EdgeBinding W}
      → Way e service ns b
      → ((x : Text) → contains ns x ≡ true → contains visited x ≡ false)
      → unvisited visited e.edges < fuel
      → participates_from e fuel visited b service ≡ true
  Way-walk e service zero visited way apart enough = absurd (omega arith)
  Way-walk e service (suc fuel) visited (end {b} {d} c s bound f) apart enough =
      let hit = (text_beq_iff b.name b.name).1 refl in
      let step_ = walk-step e fuel visited b service s (apart b.name (ground arith)) bound in
      ground arith
  Way-walk e service (suc fuel) visited (step {b} {d} {ns} c s bound new way) apart enough =
      let hit = (text_beq_iff b.name b.name).1 refl in
      let fresh : contains visited b.name ≡ false = apart b.name (ground arith) in
      let less = unvisited-less visited b e.edges (binding-In e b.name c) fresh in
      let rest =
        Way-walk e service fuel (b.name ∷ visited) way
          (λ x m. apart_next visited ns b.name x apart new m) (omega arith) in
      let step_ = walk-step e fuel visited b service s fresh bound in ground arith

  -- An edge that the engine finds by its name has a downstream edge that takes part in a service
  -- exactly if it leads, along any number of links, to an edge that fronts the service.
  pub downstream_participates_iff :
      (e : Engine W) (b : EdgeBinding W) (service : Text)
      → binding e b.name ≡ some b
      → (downstream_participates e b service ≡ true) ↔ LeadsTo e service b
  unfolding downstream_participates
  downstream_participates_iff e b service canonical = (
    λ h. participates_from-LeadsTo e (suc (suc (length e.edges))) [] b service h,
    λ leads.
        let (ns, way) = LeadsTo-Way leads canonical in
        let all_ = unvisited-all [] e.edges in
        Way-walk e service (suc (suc (length e.edges))) [] way (λ x m. refl) (omega arith),
  )
