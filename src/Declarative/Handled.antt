-- ===== src/Declarative/Handled.antt =====
-- internal/core/declarative.go: what becomes of every exposure of a file in the plan.
use crenel.Prelude.{
  true, false, ◌≡◌, ◌⊎◌, sym, ap, ◌∙◌, subst, inl, inr, List, [], ◌∷◌, Text, In, here, there,
  In-cons_cases, ok, bind-eq-ok, arith, if_rule, text_eq,
}
use crenel.Model.{Route, LiveEdgeState, has_host, ChangeSet, DnsChange, EdgePlan, edge_change_empty}
use crenel.Engine.{EdgeBinding, Engine}
use crenel.Import.{AdoptCandidate, ImportConflict, is_managed, desired_addr}
use crenel.Declarative.Exposures.{
  Exposure, Options, DeclarativePlan, Lives, Placement, satisfied, blocked_by, adopted_as, routed,
  addr_of, exposure_op, exposure_host, target_edges,
}
use crenel.Declarative.Planning.{
  Placements, change_at, routes_at, read_lives, place_all, dns_changes, edge_plans, prunes_of,
  plan_of, plan_declarative,
}
use crenel.Declarative.Pruned.{ReadAt, live_at-ReadAt, plan_injective}
use crenel.Declarative.Placed.{PlaceMeans, blocked-In, adopted-In, routed-In, not_empty}
use crenel.Declarative.Everywhere.{target_edges-In, read_lives-KnownIn, place_all-PlacedIn}

-- A route that is added at a name is in the change of an edge of the name.
abbrev pub PlannedIn : List EdgePlan → Text → Route → Type 0
PlannedIn plans edge r =
    (ep : EdgePlan) × In ep plans × (ep.edge ≡ edge) × In r ep.change.add_routes

module _ {W : Type 0} where
  edge_plans-PlannedIn :
      (placed : Placements) (pruned : List (Text × List Text)) (bs : List (EdgeBinding W))
      (b : EdgeBinding W) (r : Route)
      → In b bs
      → In r (routes_at b.name placed)
      → PlannedIn (edge_plans placed pruned bs) b.name r
  unfolding edge_plans
  edge_plans-PlannedIn placed pruned [] b r m k = elim m [ ]
  edge_plans-PlannedIn placed pruned (c ∷ bs) b r m k =
      let plan : EdgePlan = record {
        edge = c.name;
        driver = c.provider.name;
        change = change_at placed pruned c.name;
      } in
      let rest = edge_plans placed pruned bs in
      let Goal : List EdgePlan → Type 0 = λ plans. PlannedIn plans b.name r in
      elim (In-cons_cases m) [
        | inr later ↦
            let (ep, n, at, added) = edge_plans-PlannedIn placed pruned bs b r later k in
            if_rule Goal (edge_change_empty plan.change) (λ _. (ep, n, at, added))
              (λ _. (ep, there n, at, added))
        | inl same ↦
            let added : In r (routes_at c.name placed) =
              subst (λ (d : EdgeBinding W). In r (routes_at d.name placed)) same k in
            if_rule Goal (edge_change_empty plan.change)
              (λ empty.
                let never : true ≡ false = sym empty ∙ not_empty plan.change r added in
                ground arith)
              (λ _. (plan, here, ap (λ (d : EdgeBinding W). d.name) (sym same), added))
      ]

  -- The host is managed already at the edge; or a conflict there blocks the plan; or adopting was asked
  -- for and it is adopted there, with the backend that it has and that the driver would render; or the
  -- edge does not have it, and the plan adds there the routes that the driver plans for it.
  abbrev pub HandledAt :
      Options → DeclarativePlan → EdgeBinding W → LiveEdgeState → Exposure → Text → Type 0
  HandledAt opts p b live ex host =
      (is_managed live host ≡ true)
      ⊎ ((c : ImportConflict) × In c p.blocked × (c.edge ≡ b.name) × (c.host ≡ host))
      ⊎ ((a : AdoptCandidate) × In a p.adopt
          × (a.edge ≡ b.name)
          × (a.host ≡ host)
          × (opts.adopt ≡ true)
          × (addr_of live host ≡ a.address)
          × (desired_addr b ex.service host ≡ ok a.address))
      ⊎ ((has_host live host ≡ false)
          × (cs : ChangeSet) × (b.provider.plan (exposure_op ex host) live ≡ ok cs)
          × ((r : Route) → In r cs.edge.add_routes → PlannedIn p.change.edges b.name r))

  abbrev pub Handled : Engine W → Options → W → DeclarativePlan → Exposure → EdgeBinding W → Type 0
  Handled e opts w p ex b =
      (live : LiveEdgeState) × ReadAt e.edges w b.name live
      × HandledAt opts p b live ex (exposure_host e ex)

  PlaceMeans-HandledAt :
      (e : Engine W) (opts : Options) (exs : List Exposure) (lives : Lives) (placed : Placements)
      (changes : List DnsChange) (b : EdgeBinding W) (live : LiveEdgeState) (ex : Exposure)
      (host : Text) (x : Placement)
      → In b e.edges
      → In (b.name, x) placed
      → PlaceMeans opts b live ex host x
      → HandledAt opts (plan_of e opts exs lives placed changes) b live ex host
  PlaceMeans-HandledAt e opts exs lives placed changes b live ex host satisfied n m means =
      inl means
  PlaceMeans-HandledAt e opts exs lives placed changes b live ex host (blocked_by c) n m
        (at, of_host) =
      inr (inl (c, blocked-In b.name (blocked_by c) c placed m here, at, of_host))
  PlaceMeans-HandledAt e opts exs lives placed changes b live ex host (adopted_as a) n m
        (at, of_host, asked, kept, rendered) =
      inr (
        inr (
          inl (
            a,
            adopted-In b.name (adopted_as a) a placed m here,
            at,
            of_host,
            asked,
            kept,
            rendered,
          )))
  PlaceMeans-HandledAt e opts exs lives placed changes b live ex host (routed rs) n m
        (absent, cs, planned, same) =
      inr (
        inr (
          inr (
            absent,
            cs,
            planned,
            λ r k.
                edge_plans-PlannedIn placed (prunes_of e opts exs lives) e.edges b r n
                  (routed-In b.name (routed rs) r placed m (subst (In r) same k)),
          )))

  -- A plan of a file says for every exposure and every edge that it targets what becomes of it, from the
  -- live state that was read of an edge of this name: the host is managed there already; or a conflict
  -- for it blocks the plan; or adopting was asked for and it is adopted with the backend that it has and
  -- that the driver would render; or it is absent there, and all routes that the driver plans for it are
  -- added at this name.
  pub plan_declarative-Handled :
      (e : Engine W) (exs : List Exposure) (opts : Options) (w : W) (p : DeclarativePlan)
      → plan_declarative e exs opts w ≡ ok p
      → (ex : Exposure) → In ex exs
      → (b : EdgeBinding W) → In b (target_edges ex e.edges)
      → Handled e opts w p ex b
  unfolding plan_declarative
  plan_declarative-Handled e exs opts w p h ex n b m =
      let (lives, reads, more) = bind-eq-ok (read_lives e.edges w) _ h in
      let (placed, places, rest) = bind-eq-ok (place_all e opts lives exs) _ more in
      let (changes, _, made) = bind-eq-ok (dns_changes e opts exs w e.dns) _ rest in
      let within = target_edges-In ex e.edges b m in
      let (live, x, known, at, means) =
        place_all-PlacedIn e opts lives exs placed places ex n b m
          (read_lives-KnownIn e.edges w lives reads b within) in
      subst (λ (q : DeclarativePlan). Handled e opts w q ex b) (plan_injective made)
        (
          live,
          live_at-ReadAt e.edges w lives reads b.name live known,
          PlaceMeans-HandledAt e opts exs lives placed changes b live ex (exposure_host e ex) x
              within at means,
        )
