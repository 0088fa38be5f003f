-- ===== src/Reconcile/Quiet.antt =====
-- internal/core/reconcile.go: a plan has drift exactly if it changes something.
use crenel.Prelude.{
  Bool, true, false, not, ◌&&◌, ◌≡◌, ◌↔◌, refl, sym, ◌∙◌, subst, List, [], ◌∷◌, ◌++◌, map, all,
  is_nil, Text, Option, some, none, Option-cases, inl, inr, Result, ok, map_err, bind-eq-ok, arith,
  if_rule, if◌then◌else◌,
}
use crenel.Model.{
  RouteMode, Route, LiveEdgeState, Record, DnsChange, dns_change_empty, EdgePlan, edge_change_empty,
  change_set_empty,
}
use crenel.Reports.{Error, read_live_dns_failed}
use crenel.Ports.{DnsProvider}
use crenel.Engine.{EdgeBinding, Engine, service_of}
use crenel.Chain.{ChainRole, role_none, role_terminal, role_forward, role_for}
use crenel.Follow.{chain_forward}
use crenel.Steps.{dns_label}
use crenel.Reconcile.Canonical.{
  Drift, ReconcilePlan, Canonical, EdgeView, by_key, mode_of, same_mode, read_views,
}
use crenel.Reconcile.Routes.{
  Fix, both_fixes, fix_change, fix_missing, fix_forward, fix_present, fix_as, fix_host, fix_edge,
  fix_edges, canonical_chain_route, wildcard_route_covering,
}
use crenel.Reconcile.Records.{
  writes_of, stale_records, stale_drift, all_wanted, dns_coverage_records, wanted, fix_provider,
  fix_providers, plan_reconcile,
}
use crenel.Reconcile.Rerendered.{ok_injective}

is_nil-append : {A : Type 0} (xs ys : List A) → is_nil (xs ++ ys) ≡ is_nil xs && is_nil ys
is_nil-append [] ys = refl
is_nil-append (x ∷ xs) ys = refl

empty_iff : {A : Type 0} (xs : List A) (b : Bool) → is_nil xs ≡ b → (xs ≡ []) ↔ (b ≡ true)
empty_iff [] b h = (λ _. sym h, λ _. refl)
empty_iff (x ∷ xs) b h = (λ e. cc, λ t. let never : false ≡ true = h ∙ t in ground arith)

is_nil-map : {A B : Type 0} (f : A → B) (xs : List A) → is_nil (map f xs) ≡ is_nil xs
is_nil-map f [] = refl
is_nil-map f (x ∷ xs) = refl

-- The drift of a fix is empty exactly if its change is.
abbrev Matched : Fix → Type 0
Matched f = is_nil f.drift ≡ edge_change_empty (fix_change f)

both_fixes-Matched : (f g : Fix) → Matched f → Matched g → Matched (both_fixes f g)
unfolding edge_change_empty
both_fixes-Matched f g h k =
    let drifts = is_nil-append f.drift g.drift in
    let adds = is_nil-append f.add g.add in
    let removes = is_nil-append f.remove g.remove in ground arith

abbrev EdgesMatched : List Drift × List EdgePlan → Type 0
EdgesMatched out = is_nil out.0 ≡ all (λ (p : EdgePlan). edge_change_empty p.change) out.1

edges-step :
    (f : Fix) (edge driver : Text) (ds : List Drift) (ps : List EdgePlan)
    → Matched f
    → EdgesMatched (ds, ps)
    → EdgesMatched (
      f.drift ++ ds,
      (if edge_change_empty (fix_change f)
          then ps
          else record { edge = edge; driver = driver; change = fix_change f } ∷ ps),
    )
edges-step f edge driver ds ps h k =
    let drifts = is_nil-append f.drift ds in
    if_rule
      (λ (qs : List EdgePlan).
        is_nil (f.drift ++ ds) ≡ all (λ (p : EdgePlan). edge_change_empty p.change) qs)
      (edge_change_empty (fix_change f)) (λ empty. ground arith) (λ full. ground arith)

abbrev DnsMatched : List Drift × List DnsChange → Type 0
DnsMatched out = is_nil out.0 ≡ all dns_change_empty out.1

module _ {W : Type 0} where
  fix_missing-Matched :
      (b : EdgeBinding W) (role : ChainRole) (service : Text) (c : Canonical)
      (wild : Option (Text × Text)) (f : Fix)
      → fix_missing b role service c wild ≡ ok f
      → Matched f
  unfolding edge_change_empty
  fix_missing-Matched b role service c wild f h =
      let (r, _, made) = bind-eq-ok (canonical_chain_route b role service c) _ h in
      subst Matched (ok_injective made) refl

  fix_present-Matched :
      (b : EdgeBinding W) (role : ChainRole) (service : Text) (c : Canonical) (found : RouteMode)
      (f : Fix)
      → fix_present b role service c found ≡ ok f
      → Matched f
  unfolding edge_change_empty
  fix_present-Matched b role service c found f =
      if_rule (λ (m : Result Error Fix). m ≡ ok f → Matched f) (not (same_mode found c.mode))
        (λ _ h.
          let (r, rendered, made) = bind-eq-ok (canonical_chain_route b role service c) _ h in
          subst Matched (ok_injective made) refl)
        (λ _ h. subst Matched (ok_injective h) refl)

  fix_forward-Matched :
      (b : EdgeBinding W) (service : Text) (c : Canonical) (found : Option Route) (f : Fix)
      → fix_forward b service c found ≡ ok f
      → Matched f
  unfolding edge_change_empty
  fix_forward-Matched b service c none f = fix_missing-Matched b role_forward service c none f
  fix_forward-Matched b service c (some w) f =
      if_rule (λ (m : Result Error Fix). m ≡ ok f → Matched f) (chain_forward b w)
        (λ _ h. subst Matched (ok_injective h) refl)
        (λ _ h.
          fix_missing-Matched b role_forward service c (some (w.host, w.upstream.address)) f h)

  fix_as-Matched :
      (b : EdgeBinding W) (live : LiveEdgeState) (service : Text) (c : Canonical) (role : ChainRole)
      (f : Fix)
      → fix_as b live service c role ≡ ok f
      → Matched f
  unfolding edge_change_empty
  fix_as-Matched b live service c role_none f h = subst Matched (ok_injective h) refl
  fix_as-Matched b live service c role_forward f h = elim (Option-cases (mode_of live c.host)) [
    | inl absent ↦
        fix_forward-Matched b service c (wildcard_route_covering live.routes c.host) f
          (rw (absent, fix_as) at h)
    | inr (m, found) ↦ fix_present-Matched b role_forward service c m f (rw (found, fix_as) at h)
  ]
  fix_as-Matched b live service c role_terminal f h = elim (Option-cases (mode_of live c.host)) [
    | inl absent ↦ fix_missing-Matched b role_terminal service c none f (rw (absent, fix_as) at h)
    | inr (m, found) ↦ fix_present-Matched b role_terminal service c m f (rw (found, fix_as) at h)
  ]

  fix_edge-Matched :
      (e : Engine W) (b : EdgeBinding W) (live : LiveEdgeState) (cs : List Canonical) (f : Fix)
      → fix_edge e b live cs ≡ ok f
      → Matched f
  unfolding fix_edge fix_host edge_change_empty
  fix_edge-Matched e b live [] f h = subst Matched (ok_injective h) refl
  fix_edge-Matched e b live (c ∷ cs) f h =
      let (first, fixed, more) = bind-eq-ok (fix_host e b live c) _ h in
      let (rest, others, made) =
        bind-eq-ok (fix_edge e b live cs) (λ (g : Fix). ok (both_fixes first g)) more in
      subst Matched (ok_injective made) (
        both_fixes-Matched first rest
          (fix_as-Matched b live (service_of e c.host) c (role_for e b (service_of e c.host)) first
            fixed)
          (fix_edge-Matched e b live cs rest others))

  fix_edges-EdgesMatched :
      (e : Engine W) (canon : List Canonical) (vs : List (EdgeView W))
      (out : List Drift × List EdgePlan)
      → fix_edges e canon vs ≡ ok out
      → EdgesMatched out
  unfolding fix_edges
  fix_edges-EdgesMatched e canon [] out h = subst EdgesMatched (ok_injective h) refl
  fix_edges-EdgesMatched e canon ((b, live) ∷ vs) out h =
      let (f, fixed, more) = bind-eq-ok (fix_edge e b live canon) _ h in
      let (rest, others, made) = bind-eq-ok (fix_edges e canon vs) _ more in
      subst EdgesMatched (ok_injective made) (
        edges-step f b.name b.provider.name rest.0 rest.1 (fix_edge-Matched e b live canon f fixed)
          (fix_edges-EdgesMatched e canon vs rest others))

  fix_provider-matched :
      (e : Engine W) (canon : List Canonical) (p : DnsProvider W) (w : W)
      (out : List Drift × DnsChange)
      → fix_provider e canon p w ≡ ok out
      → is_nil out.0 ≡ dns_change_empty out.1
  unfolding fix_provider dns_change_empty
  fix_provider-matched e canon p w out h =
      let (live, read, more) =
        bind-eq-ok (map_err (read_live_dns_failed p.name) (p.live_records w)) _ h in
      let (coverage, _, rest) = bind-eq-ok (dns_coverage_records p live w) _ more in
      let (hosts, _, made) = bind-eq-ok (wanted e p canon) _ rest in
      let writes = writes_of p live coverage hosts in
      let stale = stale_records e canon (all_wanted hosts) live in
      let drifts =
        is_nil-append (map (λ (x : Record × Drift). x.1) writes)
          (map (stale_drift (dns_label p)) stale) in
      let added = is_nil-map (λ (x : Record × Drift). x.1) writes in
      let adds = is_nil-map (λ (x : Record × Drift). x.0) writes in
      let removed = is_nil-map (stale_drift (dns_label p)) stale in
      subst (λ (o : List Drift × DnsChange). is_nil o.0 ≡ is_nil o.1.add && is_nil o.1.remove)
        (ok_injective made) (drifts ∙ rw (added, removed, adds) refl)

  fix_providers-DnsMatched :
      (e : Engine W) (canon : List Canonical) (ps : List (DnsProvider W)) (w : W)
      (out : List Drift × List DnsChange)
      → fix_providers e canon ps w ≡ ok out
      → DnsMatched out
  unfolding fix_providers
  fix_providers-DnsMatched e canon [] w out h = subst DnsMatched (ok_injective h) refl
  fix_providers-DnsMatched e canon (p ∷ ps) w out h =
      let (first, fixed, others) = bind-eq-ok (fix_provider e canon p w) _ h in
      let (rest, fixes, made) = bind-eq-ok (fix_providers e canon ps w) _ others in
      let one = fix_provider-matched e canon p w first fixed in
      let tail = fix_providers-DnsMatched e canon ps w rest fixes in
      let drifts = is_nil-append first.0 rest.0 in
      subst DnsMatched (ok_injective made) (drifts ∙ rw (one, tail) refl)

  -- A planned reconcile has no drift exactly if its change set is empty: what it reports is what it
  -- would do.
  pub plan_reconcile-drifts_iff :
      (e : Engine W) (w : W) (p : ReconcilePlan) (canon : List Canonical)
      → plan_reconcile e w ≡ ok (p, canon)
      → (p.drift ≡ []) ↔ (change_set_empty p.change ≡ true)
  unfolding plan_reconcile change_set_empty edge_change_empty
  plan_reconcile-drifts_iff e w p canon h =
      let (seen, reads, more) = bind-eq-ok (read_views e e.edges [] w) _ h in
      let (edges, fixed, rest) = bind-eq-ok (fix_edges e (by_key seen.1) seen.0) _ more in
      let (dns, fixes, made) = bind-eq-ok (fix_providers e (by_key seen.1) e.dns w) _ rest in
      let one = fix_edges-EdgesMatched e (by_key seen.1) seen.0 edges fixed in
      let two = fix_providers-DnsMatched e (by_key seen.1) e.dns w dns fixes in
      let drifts = is_nil-append edges.0 dns.0 in
      subst
        (λ (o : ReconcilePlan × List Canonical).
          (o.0.drift ≡ []) ↔ (change_set_empty o.0.change ≡ true))
        (ok_injective made) (empty_iff (edges.0 ++ dns.0) _ (drifts ∙ rw (one, two) refl))
