-- ===== src/Declarative/Pruned.antt =====
-- internal/core/declarative.go: what the pruning of a plan removes.
use crenel.Prelude.{
  true, false, not, ◌||◌, ◌≡◌, ◌⊎◌, refl, sym, ap, ◌∙◌, subst, List, [], ◌∷◌, Text, In, here, there,
  All, All-append, some, none, Option-cases, Bool-cases, inl, inr, contains, to_lower, ◌==◌,
  text_eq, text_beq_iff, Result, ok, map_err, ◌>>=◌, bind-eq-ok, map_err-eq-ok, arith, if_rule,
}
use crenel.Model.{Route, LiveEdgeState, EdgePlan, edge_change_empty}
use crenel.Reports.{Error, read_edge_failed}
use crenel.Engine.{EdgeBinding, Engine}
use crenel.Declarative.Exposures.{Exposure, Options, DeclarativePlan, Lives, live_at}
use crenel.Declarative.Planning.{
  Placements, owned_absent, removals_at, read_lives, place_all, dns_changes, desired_hosts,
  prune_edges, prunes_of, edge_plans, plan_declarative,
}

module _ (P : Text → Type 0) where
  owned_absent-All :
      (desired : List Text) (rs : List Route)
      → ((r : Route)
          → In r rs
          → r.managed ≡ true
          → contains desired (to_lower r.host) ≡ false
          → P r.host)
      → All P (owned_absent desired rs)
  unfolding owned_absent
  owned_absent-All desired [] good = tt
  owned_absent-All desired (r ∷ rs) good =
      let rest = owned_absent-All desired rs (λ x m. good x (there m)) in
      if_rule (All P) (not r.managed || contains desired (to_lower r.host)) (λ _. rest)
        (λ h. (good r here (ground arith) (ground arith), rest))

-- the hosts that are scheduled at each edge
abbrev EachAt : (Text → Text → Type 0) → List (Text × List Text) → Type 0
EachAt P = All (λ at. All (P at.0) at.1)

removals_at-All :
    (P : Text → Text → Type 0) (name : Text) (pruned : List (Text × List Text))
    → EachAt P pruned
    → All (P name) (removals_at name pruned)
unfolding removals_at
removals_at-All P name [] h = tt
removals_at-All P name ((edge, hosts) ∷ rest) (h, k) =
    let others = removals_at-All P name rest k in
    if_rule (All (P name)) (edge == name)
      (λ e.
        All-append (P name) hosts (removals_at name rest)
          (subst (λ (n : Text). All (P n) hosts) ((text_beq_iff edge name).0 e) h) others)
      (λ _. others)

pub lives_injective : {p q : Lives} → ◌≡◌ {A = Result Error Lives} (ok p) (ok q) → p ≡ q
lives_injective h = ground arith

pub plan_injective :
    {p q : DeclarativePlan} → ◌≡◌ {A = Result Error DeclarativePlan} (ok p) (ok q) → p ≡ q
plan_injective h = ground arith

live_at-first :
    (n : Text) (s : LiveEdgeState) (rest : Lives) (name : Text) (live : LiveEdgeState)
    → live_at ((n, s) ∷ rest) name ≡ some live
    → (live_at rest name ≡ some live) ⊎ ((n ≡ name) × (s ≡ live))
unfolding live_at
live_at-first n s rest name live h = elim (Option-cases (live_at rest name)) [
  | inr (later, found) ↦
      let same : some later ≡ some live = rw (found, live_at) at h in inl (found ∙ same)
  | inl absent ↦ elim (Bool-cases (n == name)) [
    | inl e ↦
        let same : some s ≡ some live = rw (absent, e, live_at) at h in
        inr ((text_beq_iff n name).0 e, ground arith)
    | inr e ↦ let never : none ≡ some live = rw (absent, e, live_at) at h in ground arith
  ]
]

module _ {W : Type 0} where
  -- A managed route of the host stands in the live state of a configured edge of the name.
  abbrev pub OwnedAt : List (EdgeBinding W) → W → Text → Text → Type 0
  OwnedAt bs w edge host =
      (b : EdgeBinding W) × (live : LiveEdgeState) × (r : Route) × In b bs
      × (b.name ≡ edge)
      × (b.provider.read_live_state w ≡ ok live)
      × In r live.routes
      × (r.managed ≡ true)
      × (r.host ≡ host)

  -- the live state of a configured edge of the name
  abbrev pub ReadAt : List (EdgeBinding W) → W → Text → LiveEdgeState → Type 0
  ReadAt bs w name live =
      (b : EdgeBinding W) × In b bs × (b.name ≡ name) × (b.provider.read_live_state w ≡ ok live)

  pub live_at-ReadAt :
      (bs : List (EdgeBinding W)) (w : W) (lives : Lives)
      → read_lives bs w ≡ ok lives
      → (name : Text) (live : LiveEdgeState) → live_at lives name ≡ some live
      → ReadAt bs w name live
  unfolding read_lives live_at
  live_at-ReadAt [] w lives h name live at =
      let empty : [] ≡ lives = ground arith in
      let never : none ≡ some live = rw (sym empty) at at in ground arith
  live_at-ReadAt (b ∷ bs) w lives h name live at =
      let (first, read, more) =
        bind-eq-ok (map_err (read_edge_failed b.name) (b.provider.read_live_state w))
          (λ (s : LiveEdgeState). read_lives bs w >>= λ others. ok ((b.name, s) ∷ others)) h in
      let (others, reads, made) =
        bind-eq-ok (read_lives bs w) (λ (ls : Lives). ok ((b.name, first) ∷ ls)) more in
      let found : live_at ((b.name, first) ∷ others) name ≡ some live =
        subst (λ (ls : Lives). live_at ls name ≡ some live) (sym (lives_injective made)) at in
      elim (live_at-first b.name first others name live found) [
        | inl later ↦
            let (c, m, named, state) = live_at-ReadAt bs w others reads name live later in
            (c, there m, named, state)
        | inr (named, same) ↦ (
          b,
          here,
          named,
          map_err-eq-ok (read_edge_failed b.name) (b.provider.read_live_state w) read ∙ ap ok same,
        )
      ]

  prune_edges-All :
      (P : Text → Text → Type 0) (desired : List Text) (lives : Lives)
      → ((name : Text) (live : LiveEdgeState) (r : Route)
          → live_at lives name ≡ some live
          → In r live.routes
          → r.managed ≡ true
          → contains desired (to_lower r.host) ≡ false
          → P name r.host)
      → (bs : List (EdgeBinding W)) → EachAt P (prune_edges desired lives bs)
  unfolding prune_edges
  prune_edges-All P desired lives good [] = tt
  prune_edges-All P desired lives good (b ∷ bs) = elim (Option-cases (live_at lives b.name)) [
    | inl absent ↦ rw (absent, prune_edges) (prune_edges-All P desired lives good bs)
    | inr (live, found) ↦
        rw (found, prune_edges)
          (
            owned_absent-All (P b.name) desired live.routes (λ r m. good b.name live r found m),
            prune_edges-All P desired lives good bs,
          )
  ]

  edge_plans-All :
      (P : Text → Text → Type 0) (placed : Placements) (pruned : List (Text × List Text))
      → EachAt P pruned
      → (bs : List (EdgeBinding W))
      → All (λ (p : EdgePlan). All (P p.edge) p.change.remove_hosts) (edge_plans placed pruned bs)
  unfolding edge_plans
  edge_plans-All P placed pruned h [] = tt
  edge_plans-All P placed pruned h (b ∷ bs) =
      let rest = edge_plans-All P placed pruned h bs in
      if_rule (All (λ (p : EdgePlan). All (P p.edge) p.change.remove_hosts)) (edge_change_empty _)
        (λ _. rest) (λ _. (removals_at-All P b.name pruned h, rest))

  -- Pruning was asked for, the route is crenel's own at the edge, and the file does not have its host.
  abbrev pub PrunedAt : Engine W → List Exposure → Options → W → Text → Text → Type 0
  PrunedAt e exs opts w edge host =
      (opts.prune ≡ true)
      × OwnedAt e.edges w edge host
      × (contains (desired_hosts e exs) (to_lower host) ≡ false)

  prunes_of-PrunedAt :
      (e : Engine W) (exs : List Exposure) (opts : Options) (w : W) (lives : Lives)
      → read_lives e.edges w ≡ ok lives
      → EachAt (PrunedAt e exs opts w) (prunes_of e opts exs lives)
  prunes_of-PrunedAt e exs opts w lives reads =
      if_rule (EachAt (PrunedAt e exs opts w)) opts.prune
        (λ asked.
          prune_edges-All (PrunedAt e exs opts w) (desired_hosts e exs) lives
            (λ name live r at m managed absent.
              let (b, n, named, state) = live_at-ReadAt e.edges w lives reads name live at in
              (asked, (b, live, r, n, named, state, m, managed, refl), absent))
            e.edges)
        (λ _. tt)

  -- Every host that a plan of a file removes at an edge is removed because pruning was asked for: a
  -- managed route of the host stands in the live state of a configured edge of that name, and no
  -- exposure of the file has the host, whatever its case.
  pub plan_declarative-PrunesOwned :
      (e : Engine W) (exs : List Exposure) (opts : Options) (w : W) (p : DeclarativePlan)
      → plan_declarative e exs opts w ≡ ok p
      → All
          (λ (ep : EdgePlan). All (PrunedAt e exs opts w ep.edge) ep.change.remove_hosts)
          p.change.edges
  unfolding plan_declarative
  plan_declarative-PrunesOwned e exs opts w p h =
      let (lives, reads, more) = bind-eq-ok (read_lives e.edges w) _ h in
      let (placed, places, rest) = bind-eq-ok (place_all e opts lives exs) _ more in
      let (changes, _, made) = bind-eq-ok (dns_changes e opts exs w e.dns) _ rest in
      subst
        (λ (q : DeclarativePlan).
          All (λ (ep : EdgePlan). All (PrunedAt e exs opts w ep.edge) ep.change.remove_hosts)
            q.change.edges)
        (plan_injective made)
        (edge_plans-All (PrunedAt e exs opts w) placed (prunes_of e opts exs lives)
          (prunes_of-PrunedAt e exs opts w lives reads) e.edges)
