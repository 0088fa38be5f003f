-- ===== src/Gate/Permit.antt =====
-- What the ownership gate has checked when it lets a change pass.
use crenel.Prelude.{
  Bool, true, false, List, [], ◌∷◌, map, contains, some, Text, text_eq, ◌==◌, text_beq_iff, ◌≡◌,
  ◌≢◌, ◌⊎◌, inl, inr, arith, In, here, there, In-cons_cases, In-append, In-append_right,
  In-sort_stable, Bool-cases, ok, ◌>>=◌, bind-eq-ok, map_err, map_err-eq-ok,
}
use crenel.Model.{
  Route, Ownership, own_foreign, own_unknown, LiveEdgeState, EdgeChange, edge_change_empty,
  EdgePlan, ChangeSet,
}
use crenel.Reports.{gate_read_failed}
use crenel.Engine.{EdgeBinding, Engine, binding}
use crenel.Follow.{indexed_route}
use crenel.Gate.{
  text_less, distinct, touched_hosts, gate_owner, gate_host, gate_hosts, gate_live, gate_plan,
  gate_plans, gate_chain_ownership, gate_ownership,
}

-- Crenel may change a route with this owner: it is not another tool's, and where the owner is not
-- known, the operator has forced the change.
pub record IsPermitted (force : Bool) (owner : Ownership) : Type 0 where
  pub not_foreign : owner ≢ own_foreign
  pub forced : owner ≡ own_unknown → force ≡ true

-- A host that a change adds a route for, or removes.
abbrev pub Touches : EdgeChange → Text → Type 0
Touches c h = ((r : Route) × In r c.add_routes × (r.host ≡ h)) ⊎ In h c.remove_hosts

pub gate_owner-IsPermitted :
    (force : Bool) (edge host : Text) (owner : Ownership)
    → gate_owner force edge host owner ≡ ok tt
    → IsPermitted force owner
unfolding gate_owner
gate_owner-IsPermitted force edge host owner h = record {
  not_foreign = ground arith;
  forced = ground arith;
}

In-contains : (hs : List Text) (h : Text) → contains hs h ≡ true → In h hs
In-contains [] h e = cc
In-contains (x ∷ hs) h e = elim (Bool-cases (x == h)) [
  | inl same ↦ rw ((text_beq_iff x h).0 same) here
  | inr other ↦ there (In-contains hs h (rw other at e))
]

In-distinct : (hs : List Text) {h : Text} → In h hs → In h (distinct hs)
unfolding distinct
In-distinct (x ∷ hs) {h} m = elim (Bool-cases (contains (distinct hs) x)) [
  | inl old ↦
      rw (old, distinct)
        (elim (In-cons_cases m) [
          | inl top ↦ rw top (In-contains (distinct hs) x old)
          | inr later ↦ In-distinct hs later
        ])
  | inr new ↦
      rw (new, distinct)
        (elim (In-cons_cases m) [
          | inl top ↦ rw top here
          | inr later ↦ there (In-distinct hs later)
        ])
]
In-distinct [] m = elim m [ ]

In-map_host : (rs : List Route) {r : Route} → In r rs → In r.host (map (λ x. x.host) rs)
In-map_host (x ∷ rs) m = elim (In-cons_cases m) [
  | inl top ↦ rw top here
  | inr later ↦ there (In-map_host rs later)
]
In-map_host [] m = elim m [ ]

In-touched_hosts : (c : EdgeChange) (h : Text) → Touches c h → In h (touched_hosts c)
unfolding touched_hosts
In-touched_hosts c h (inl (r, m, same)) =
    In-sort_stable text_less _
      (In-distinct _ (rw (← same) (In-append c.remove_hosts (In-map_host c.add_routes m))))
In-touched_hosts c h (inr m) =
    In-sort_stable text_less _ (In-distinct _ (In-append_right (map (λ r. r.host) c.add_routes) m))

gate_host-IsPermitted :
    (force : Bool) (edge : Text) (routes : List Route) (h : Text) (r : Route)
    → gate_host force edge routes h ≡ ok tt
    → indexed_route routes h ≡ some r
    → IsPermitted force r.ownership
gate_host-IsPermitted force edge routes h r g found =
    gate_owner-IsPermitted force edge h r.ownership (unfold gate_host in rw (found, gate_host) at g)

gate_hosts-IsPermitted :
    (force : Bool) (edge : Text) (routes : List Route) (hs : List Text) (h : Text) (r : Route)
    → gate_hosts force edge routes hs ≡ ok tt
    → In h hs
    → indexed_route routes h ≡ some r
    → IsPermitted force r.ownership
gate_hosts-IsPermitted force edge routes (x ∷ hs) h r g m found =
    let (_, first, rest) =
      bind-eq-ok (gate_host force edge routes x) (λ _. gate_hosts force edge routes hs)
        (unfold gate_hosts in g) in
    elim (In-cons_cases m) [
      | inl top ↦ gate_host-IsPermitted force edge routes x r first (rw (← top) found)
      | inr later ↦ gate_hosts-IsPermitted force edge routes hs h r rest later found
    ]
gate_hosts-IsPermitted force edge routes [] h r g m found = elim m [ ]

-- The edge is read, no generator owns it, and each touched host that has a route may be changed.
abbrev pub LivePermits : Bool → EdgeChange → LiveEdgeState → Type 0
LivePermits force c live =
    (live.generator ≡ [])
    × ((h : Text) (r : Route)
        → Touches c h
        → indexed_route live.routes h ≡ some r
        → IsPermitted force r.ownership)

gate_live-LivePermits :
    (force : Bool) (edge : Text) (c : EdgeChange) (live : LiveEdgeState)
    → gate_live force edge c live ≡ ok tt
    → LivePermits force c live
unfolding gate_live
gate_live-LivePermits force edge c live g = elim (Bool-cases (live.generator == [])) [
  | inl own ↦ (
    (text_beq_iff live.generator []).0 own,
    λ h r t found.
        gate_hosts-IsPermitted force edge live.routes (touched_hosts c) h r (ground (arith, own, g))
          (In-touched_hosts c h t) found,
  )
  | inr generated ↦ absurd (ground (arith, generated, g))
]

module _ {W : Type 0} where
  -- What the gate has read of each edge that a change set changes.
  abbrev pub Permitted : Engine W → ChangeSet → W → Type 0
  Permitted e cs w =
      (p : EdgePlan) (b : EdgeBinding W)
      → In p cs.edges
      → edge_change_empty p.change ≡ false
      → binding e p.edge ≡ some b
      → (live : LiveEdgeState) × (b.provider.read_live_state w ≡ ok live)
        × LivePermits e.force p.change live

  gate_plan-LivePermits :
      (e : Engine W) (w : W) (p : EdgePlan) (b : EdgeBinding W)
      → gate_plan e w p ≡ ok tt
      → edge_change_empty p.change ≡ false
      → binding e p.edge ≡ some b
      → (live : LiveEdgeState) × (b.provider.read_live_state w ≡ ok live)
        × LivePermits e.force p.change live
  gate_plan-LivePermits e w p b g changed bound =
      let opened : (map_err (gate_read_failed p.edge) (b.provider.read_live_state w)
            >>= gate_live e.force p.edge p.change)
          ≡ ok tt =
        unfold gate_plan in rw (changed, bound, gate_plan) at g in
      let (live, reading, passed) = bind-eq-ok _ (gate_live e.force p.edge p.change) opened in
      (
        live,
        map_err-eq-ok (gate_read_failed p.edge) _ reading,
        gate_live-LivePermits e.force p.edge p.change live passed,
      )

  gate_plans-LivePermits :
      (e : Engine W) (w : W) (ps : List EdgePlan) (p : EdgePlan) (b : EdgeBinding W)
      → gate_plans e w ps ≡ ok tt
      → In p ps
      → edge_change_empty p.change ≡ false
      → binding e p.edge ≡ some b
      → (live : LiveEdgeState) × (b.provider.read_live_state w ≡ ok live)
        × LivePermits e.force p.change live
  gate_plans-LivePermits e w (x ∷ ps) p b g m changed bound =
      let (_, first, rest) =
        bind-eq-ok (gate_plan e w x) (λ _. gate_plans e w ps) (unfold gate_plans in g) in
      elim (In-cons_cases m) [
        | inl top ↦ gate_plan-LivePermits e w p b (rw top first) changed bound
        | inr later ↦ gate_plans-LivePermits e w ps p b rest later changed bound
      ]
  gate_plans-LivePermits e w [] p b g m changed bound = elim m [ ]

  -- If the ownership gate lets a change set pass, then every edge of the engine for which it has a
  -- change that is not empty was read, is not owned by a generator, and each host that the change
  -- touches has no route there, or one that is not foreign and, unless the engine is forced, not
  -- of unknown owner.
  pub gate_ownership-Permitted :
      (e : Engine W) (cs : ChangeSet) (w : W) → gate_ownership e cs w ≡ ok tt → Permitted e cs w
  gate_ownership-Permitted e cs w g p b m changed bound =
      let (_, chain, plans) =
        bind-eq-ok (gate_chain_ownership e cs.op w) (λ _. gate_plans e w cs.edges)
          (unfold gate_ownership in g) in
      gate_plans-LivePermits e w cs.edges p b plans m changed bound
