-- ===== src/Plan/Boundary.antt =====
-- The edges that a plan touches, and the boundary of an internal-only service.
use crenel.Prelude.{
  arith, subst, true, false, ◌≡◌, refl, List, [], ◌∷◌, ◌++◌, inl, inr, In, here, there,
  In-append_cases, In-cons_cases, Bool-cases, contains, Text, Result, ok, bind-eq-ok, map_err,
  map_err-eq-ok, is_nil, if◌then◌else◌,
}
use crenel.Model.{Op, expose, scope_eq, public, LiveEdgeState, EdgePlan, EdgeChange, ChangeSet}
use crenel.Reports.{Error, read_edge_failed, plan_edge_failed, plan_forward_failed}
use crenel.Engine.{Engine, EdgeBinding, edge_selected, internal_scoped, fronts_service}
use crenel.Chain.{ChainRole, role_none, role_terminal, role_forward, role_for, plan_forward}
use crenel.Plan.{check_scopes, check_participants, plan_edges, plan_edge, edge_plan, plan}
use crenel.Plan.Parts.{plan-Parts}

In-one :
    {p q : EdgePlan} {ps : List EdgePlan}
    → ◌≡◌ {A = Result Error (List EdgePlan)} (ok (q ∷ [])) (ok ps)
    → In p ps
    → p ≡ q
In-one {p} {q} {ps} h m =
    let same : ps ≡ q ∷ [] = ground arith in
    elim (In-cons_cases (subst (In p) same m)) [ inl e ↦ e | inr n ↦ elim n [ ] ]

In-none :
    {p : EdgePlan} {ps : List EdgePlan}
    → ◌≡◌ {A = Result Error (List EdgePlan)} (ok []) (ok ps)
    → In p ps
    → ⊥
In-none {p} {ps} h m = let same : ps ≡ [] = ground arith in elim (subst (In p) same m) [ ]

check_participants-ok :
    (op : Op) (ps : List EdgePlan)
    → op.verb ≡ expose
    → check_participants op ps ≡ ok tt
    → is_nil ps ≡ false
check_participants-ok op [] exposing h = ground arith
check_participants-ok op (p ∷ ps) exposing h = refl

module _ {W : Type 0} where
  -- What an edge with this role contributes: from the live state that was just read, the provider's
  -- own plan, or the forward route of the chain.
  abbrev pub Contributes : EdgeBinding W → ChainRole → Op → W → EdgePlan → Type 0
  Contributes b role_none op w p = ⊥
  Contributes b role_terminal op w p =
      (live : LiveEdgeState) × (sub : ChangeSet) × (b.provider.read_live_state w ≡ ok live)
      × (b.provider.plan op live ≡ ok sub)
      × (p ≡ edge_plan b sub.edge)
  Contributes b role_forward op w p =
      (live : LiveEdgeState) × (change : EdgeChange) × (b.provider.read_live_state w ≡ ok live)
      × (plan_forward b op live ≡ ok change)
      × (p ≡ edge_plan b change)

  abbrev pub Planned : Engine W → Op → W → EdgePlan → Type 0
  Planned e op w p =
      (b : EdgeBinding W) × In b e.edges
      × (edge_selected op.edges b.name ≡ true)
      × Contributes b (role_for e b op.service) op w p

  plan_edge-Contributes :
      (b : EdgeBinding W) (role : ChainRole) (op : Op) (w : W) (ps : List EdgePlan) (p : EdgePlan)
      → plan_edge b role op w ≡ ok ps
      → In p ps
      → Contributes b role op w p
  unfolding plan_edge
  plan_edge-Contributes b role_none op w ps p h m = In-none h m
  plan_edge-Contributes b role_terminal op w ps p h m =
      let (live, read, h1) =
        bind-eq-ok (map_err (read_edge_failed b.name) (b.provider.read_live_state w)) _ h in
      let (sub, planned, h2) =
        bind-eq-ok (map_err (plan_edge_failed b.name) (b.provider.plan op live)) _ h1 in
      (live, sub, map_err-eq-ok _ _ read, map_err-eq-ok _ _ planned, In-one h2 m)
  plan_edge-Contributes b role_forward op w ps p h m =
      let (live, read, h1) =
        bind-eq-ok (map_err (read_edge_failed b.name) (b.provider.read_live_state w)) _ h in
      let (change, planned, h2) =
        bind-eq-ok (map_err (plan_forward_failed b.name) (plan_forward b op live)) _ h1 in
      (live, change, map_err-eq-ok _ _ read, map_err-eq-ok _ _ planned, In-one h2 m)

  selected_role-Contributes :
      (e : Engine W) (b : EdgeBinding W) (op : Op) (w : W) (p : EdgePlan)
      → Contributes b
          (if edge_selected op.edges b.name then role_for e b op.service else role_none)
          op
          w
          p
      → (edge_selected op.edges b.name ≡ true) × Contributes b (role_for e b op.service) op w p
  selected_role-Contributes e b op w p h = elim (Bool-cases (edge_selected op.edges b.name)) [
    | inl yes_ ↦ (yes_, rw yes_ at h)
    | inr no_ ↦ let none_ : Contributes b role_none op w p = rw no_ at h in absurd none_
  ]

  plan_edges-Planned :
      (e : Engine W) (bs : List (EdgeBinding W)) (op : Op) (w : W) (ps : List EdgePlan)
      (p : EdgePlan)
      → ((b : EdgeBinding W) → In b bs → In b e.edges)
      → plan_edges e bs op w ≡ ok ps
      → In p ps
      → Planned e op w p
  unfolding plan_edges
  plan_edges-Planned e [] op w ps p sub h m = absurd (In-none h m)
  plan_edges-Planned e (b ∷ bs) op w ps p sub h m =
      let (first, hf, h1) = bind-eq-ok (plan_edge b _ op w) _ h in
      let (rest, hr, h2) = bind-eq-ok (plan_edges e bs op w) _ h1 in
      let same : ps ≡ first ++ rest = ground arith in
      elim (In-append_cases first (subst (In p) same m)) [
        | inl n ↦
            let (yes_, c) =
              selected_role-Contributes e b op w p (plan_edge-Contributes b _ op w first p hf n) in
            (b, sub b here, yes_, c)
        | inr n ↦ plan_edges-Planned e bs op w rest p (λ c k. sub c (there k)) hr n
      ]

  -- If an op was planned, then every edge plan is of an edge of the engine that the op selects, and
  -- is what that edge contributes by its role: for a terminal edge the change that its provider
  -- plans, and for a chain front the change that forwards to the downstream edge, each from
  -- the live state that the edge shows now.
  pub plan-Planned :
      (e : Engine W) (op : Op) (w : W) (cs : ChangeSet) (p : EdgePlan)
      → plan e op w ≡ ok cs
      → In p cs.edges
      → Planned e op w p
  plan-Planned e op w cs p h m =
      plan_edges-Planned e e.edges op w cs.edges p (λ b k. k) (plan-Parts e op w h).edges_planned m

  role_for-internal :
      (e : Engine W) (b : EdgeBinding W) (service : Text)
      → internal_scoped e service ≡ true
      → fronts_service b service ≡ false
      → role_for e b service ≡ role_none
  unfolding role_for
  role_for-internal e b service h k = ground arith

  Contributes-fronts :
      (e : Engine W) (b : EdgeBinding W) (op : Op) (w : W) (p : EdgePlan)
      → internal_scoped e op.service ≡ true
      → Contributes b (role_for e b op.service) op w p
      → fronts_service b op.service ≡ true
  Contributes-fronts e b op w p inside c = elim (Bool-cases (fronts_service b op.service)) [
    | inl yes_ ↦ yes_
    | inr no_ ↦
        let none_ : Contributes b role_none op w p =
          rw (role_for-internal e b op.service inside no_) at c in
        absurd none_
  ]

  Contributes-name :
      (b : EdgeBinding W) (role : ChainRole) (op : Op) (w : W) (p : EdgePlan)
      → Contributes b role op w p
      → p.edge ≡ b.name
  Contributes-name b role_none op w p c = absurd c
  Contributes-name b role_terminal op w p (live, sub, read, planned, same) = rw same
  Contributes-name b role_forward op w p (live, change, read, planned, same) = rw same

  check_scopes-ok :
      (e : Engine W) (op : Op)
      → internal_scoped e op.service ≡ true
      → check_scopes e op ≡ ok tt
      → contains op.scopes public ≡ false
  check_scopes-ok e op inside h = ground arith

  -- If the service is declared internal-only and an op for it was planned, then the op appoints no
  -- public DNS, and every edge plan is of an edge that fronts the service itself: no chain
  -- front forwards to it.
  pub plan-internal :
      (e : Engine W) (op : Op) (w : W) (cs : ChangeSet)
      → internal_scoped e op.service ≡ true
      → plan e op w ≡ ok cs
      → (contains op.scopes public ≡ false)
        × ((p : EdgePlan)
            → In p cs.edges
            → (b : EdgeBinding W) × In b e.edges
              × (fronts_service b op.service ≡ true)
              × (p.edge ≡ b.name))
  plan-internal e op w cs inside h = (
    check_scopes-ok e op inside (plan-Parts e op w h).scopes_checked,
    λ p m.
        let (b, k, yes_, c) = plan-Planned e op w cs p h m in
        (
          b,
          k,
          Contributes-fronts e b op w p inside c,
          Contributes-name b (role_for e b op.service) op w p c,
        ),
  )

  -- If an expose was planned, then at least one edge takes part in it.
  pub plan-participates :
      (e : Engine W) (op : Op) (w : W) (cs : ChangeSet)
      → op.verb ≡ expose
      → plan e op w ≡ ok cs
      → is_nil cs.edges ≡ false
  plan-participates e op w cs exposing h =
      check_participants-ok op cs.edges exposing (plan-Parts e op w h).participants_checked
