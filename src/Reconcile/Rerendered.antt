-- ===== src/Reconcile/Rerendered.antt =====
-- internal/core/reconcile.go: the canonical state is in the domain, and what a plan removes at an edge.
use crenel.Prelude.{
  Bool, true, not, ◌&&◌, ◌≡◌, ◌≢◌, refl, subst, inl, inr, List, [], ◌∷◌, ◌++◌, Text, In, here,
  there, In-append, In-append_right, All, In-All, All-In, All-append, Option, some, none,
  Option-cases, Result, ok, map_err, bind-eq-ok, arith, if_rule, ◌==◌, text_eq, to_lower,
}
use crenel.Model.{RouteMode, Route, LiveEdgeState, EdgePlan, edge_change_empty}
use crenel.Reports.{Error, read_edge_failed}
use crenel.Engine.{EdgeBinding, Engine, service_of}
use crenel.Chain.{ChainRole, role_none, role_terminal, role_forward, role_for}
use crenel.Follow.{chain_forward}
use crenel.Reconcile.Canonical.{
  Drift, Canonical, EdgeView, note_route, note_routes, any_fronts, mode_of, same_mode, read_views,
}
use crenel.Reconcile.Routes.{
  Fix, both_fixes, fix_change, fix_missing, fix_forward, fix_present, canonical_chain_route,
  wildcard_route_covering, fix_as, fix_host, fix_edge, fix_edges,
}

pub ok_injective : {A : Type 0} {x y : A} → ◌≡◌ {A = Result Error A} (ok x) (ok y) → x ≡ y
ok_injective h = ground arith

module _ {W : Type 0} where
  -- A canonical entry of a service that some edge fronts
  abbrev pub InDomain : Engine W → Canonical → Type 0
  InDomain e c = any_fronts e (service_of e c.host) ≡ true

  note_route-InDomain :
      (e : Engine W) (r : Route) (terminal : Bool) (cs : List Canonical)
      → any_fronts e (service_of e r.host) ≡ true
      → All (InDomain e) cs
      → All (InDomain e) (note_route r terminal cs)
  unfolding note_route
  note_route-InDomain e r terminal [] fronts h = (fronts, tt)
  note_route-InDomain e r terminal (c ∷ cs) fronts (d, h) =
      if_rule (All (InDomain e)) (c.key == to_lower r.host)
        (λ _.
          (if_rule (InDomain e) (terminal && not c.from_terminal) (λ _. fronts) (λ _. fronts), h))
        (λ _. (d, note_route-InDomain e r terminal cs fronts h))

  note_routes-InDomain :
      (e : Engine W) (b : EdgeBinding W) (rs : List Route) (cs : List Canonical)
      → All (InDomain e) cs
      → All (InDomain e) (note_routes e b rs cs)
  unfolding note_routes
  note_routes-InDomain e b [] cs h = h
  note_routes-InDomain e b (r ∷ rs) cs h = note_routes-InDomain e b rs _ (
      if_rule (All (InDomain e)) (not (any_fronts e (service_of e r.host))) (λ _. h)
        (λ fronts. note_route-InDomain e r _ cs (ground arith) h))

  -- the views are of configured edges, and the canonical state is in the domain
  abbrev pub GoodViews :
      Engine W → List (EdgeBinding W) → List (EdgeView W) × List Canonical → Type 0
  GoodViews e bs seen = All (λ (v : EdgeView W). In v.0 bs) seen.0 × All (InDomain e) seen.1

  pub read_views-GoodViews :
      (e : Engine W) (bs : List (EdgeBinding W)) (canon : List Canonical) (w : W)
      (seen : List (EdgeView W) × List Canonical)
      → All (InDomain e) canon
      → read_views e bs canon w ≡ ok seen
      → GoodViews e bs seen
  unfolding read_views
  read_views-GoodViews e [] canon w seen h k = subst (GoodViews e []) (ok_injective k) (tt, h)
  read_views-GoodViews e (b ∷ bs) canon w seen h k =
      let (live, read, more) =
        bind-eq-ok (map_err (read_edge_failed b.name) (b.provider.read_live_state w)) _ k in
      let (rest, reads, made) =
        bind-eq-ok (read_views e bs (note_routes e b live.routes canon) w)
          (λ (r : List (EdgeView W) × List Canonical). ok ((b, live) ∷ r.0, r.1)) more in
      let (views, domain) =
        read_views-GoodViews e bs (note_routes e b live.routes canon) w rest
          (note_routes-InDomain e b live.routes canon h) reads in
      subst (GoodViews e (b ∷ bs)) (ok_injective made) (
        (here, In-All _ rest.0 (λ v m. there (All-In (λ (v : EdgeView W). In v.0 bs) m views))),
        domain,
      )

  -- A removed host is that of a canonical entry which the edge takes part in, and whose canonical route
  -- is added by the same change.
  abbrev pub Rerendered : Engine W → EdgeBinding W → List Canonical → List Route → Text → Type 0
  Rerendered e b canon adds host =
      (c : Canonical) × (r : Route) × In c canon
      × (c.host ≡ host)
      × (role_for e b (service_of e host) ≢ role_none)
      × (canonical_chain_route b (role_for e b (service_of e host)) (service_of e host) c ≡ ok r)
      × In r adds

  abbrev FixMeans : EdgeBinding W → ChainRole → Text → Canonical → Fix → Type 0
  FixMeans b role service c f =
      All
        (λ h.
          (c.host ≡ h)
          × (role ≢ role_none)
          × (r : Route) × (canonical_chain_route b role service c ≡ ok r)
          × In r f.add)
        f.remove

  fix_missing-FixMeans :
      (b : EdgeBinding W) (role : ChainRole) (service : Text) (c : Canonical)
      (wild : Option (Text × Text)) (f : Fix)
      → fix_missing b role service c wild ≡ ok f
      → FixMeans b role service c f
  fix_missing-FixMeans b role service c wild f h =
      let (r, _, made) = bind-eq-ok (canonical_chain_route b role service c) _ h in
      subst (FixMeans b role service c) (ok_injective made) tt

  fix_present-FixMeans :
      (b : EdgeBinding W) (role : ChainRole) (service : Text) (c : Canonical) (found : RouteMode)
      (f : Fix)
      → role ≢ role_none
      → fix_present b role service c found ≡ ok f
      → FixMeans b role service c f
  fix_present-FixMeans b role service c found f takes =
      if_rule (λ (m : Result Error Fix). m ≡ ok f → FixMeans b role service c f)
        (not (same_mode found c.mode))
        (λ _ h.
          let (r, rendered, made) = bind-eq-ok (canonical_chain_route b role service c) _ h in
          subst (FixMeans b role service c) (ok_injective made)
            ((refl, takes, r, rendered, here), tt))
        (λ _ h. subst (FixMeans b role service c) (ok_injective h) tt)

  fix_forward-FixMeans :
      (b : EdgeBinding W) (service : Text) (c : Canonical) (found : Option Route) (f : Fix)
      → fix_forward b service c found ≡ ok f
      → FixMeans b role_forward service c f
  fix_forward-FixMeans b service c none f = fix_missing-FixMeans b role_forward service c none f
  fix_forward-FixMeans b service c (some w) f =
      if_rule (λ (m : Result Error Fix). m ≡ ok f → FixMeans b role_forward service c f)
        (chain_forward b w) (λ _ h. subst (FixMeans b role_forward service c) (ok_injective h) tt)
        (λ _ h.
          fix_missing-FixMeans b role_forward service c (some (w.host, w.upstream.address)) f h)

  fix_as-FixMeans :
      (b : EdgeBinding W) (live : LiveEdgeState) (service : Text) (c : Canonical) (role : ChainRole)
      (f : Fix)
      → fix_as b live service c role ≡ ok f
      → FixMeans b role service c f
  fix_as-FixMeans b live service c role_none f h =
      subst (FixMeans b role_none service c) (ok_injective h) tt
  fix_as-FixMeans b live service c role_forward f h = elim (Option-cases (mode_of live c.host)) [
    | inl absent ↦
        fix_forward-FixMeans b service c (wildcard_route_covering live.routes c.host) f
          (rw (absent, fix_as) at h)
    | inr (m, found) ↦
        fix_present-FixMeans b role_forward service c m f (λ e. ground arith)
          (rw (found, fix_as) at h)
  ]
  fix_as-FixMeans b live service c role_terminal f h = elim (Option-cases (mode_of live c.host)) [
    | inl absent ↦ fix_missing-FixMeans b role_terminal service c none f (rw (absent, fix_as) at h)
    | inr (m, found) ↦
        fix_present-FixMeans b role_terminal service c m f (λ e. ground arith)
          (rw (found, fix_as) at h)
  ]

  fix_host-Rerendered :
      (e : Engine W) (b : EdgeBinding W) (live : LiveEdgeState) (c : Canonical) (f : Fix)
      → fix_host e b live c ≡ ok f
      → All (Rerendered e b (c ∷ []) f.add) f.remove
  unfolding fix_host
  fix_host-Rerendered e b live c f h =
      let service = service_of e c.host in
      In-All (Rerendered e b (c ∷ []) f.add) f.remove (λ host m.
        let (same, takes, r, rendered, added) =
          All-In
            (λ (x : Text).
              (c.host ≡ x)
              × (role_for e b service ≢ role_none)
              × (r : Route) × (canonical_chain_route b (role_for e b service) service c ≡ ok r)
              × In r f.add)
            m (fix_as-FixMeans b live service c (role_for e b service) f h) in
        subst (Rerendered e b (c ∷ []) f.add) same (c, r, here, refl, takes, rendered, added))

  Rerendered-mono :
      (e : Engine W) (b : EdgeBinding W) (cs ds : List Canonical) (rs ss : List Route)
      (hosts : List Text)
      → ((c : Canonical) → In c cs → In c ds)
      → ((r : Route) → In r rs → In r ss)
      → All (Rerendered e b cs rs) hosts
      → All (Rerendered e b ds ss) hosts
  Rerendered-mono e b cs ds rs ss [] more grows h = tt
  Rerendered-mono e b cs ds rs ss (x ∷ hosts) more grows
        ((c, r, m, same, takes, rendered, added), h) =
      (
        (c, r, more c m, same, takes, rendered, grows r added),
        Rerendered-mono e b cs ds rs ss hosts more grows h,
      )

  fix_edge-Rerendered :
      (e : Engine W) (b : EdgeBinding W) (live : LiveEdgeState) (cs : List Canonical) (f : Fix)
      → fix_edge e b live cs ≡ ok f
      → All (Rerendered e b cs f.add) f.remove
  unfolding fix_edge
  fix_edge-Rerendered e b live [] f h =
      subst (λ (g : Fix). All (Rerendered e b [] g.add) g.remove) (ok_injective h) tt
  fix_edge-Rerendered e b live (c ∷ cs) f h =
      let (first, fixed, more) = bind-eq-ok (fix_host e b live c) _ h in
      let (rest, others, made) =
        bind-eq-ok (fix_edge e b live cs) (λ (g : Fix). ok (both_fixes first g)) more in
      subst (λ (g : Fix). All (Rerendered e b (c ∷ cs) g.add) g.remove) (ok_injective made)
        (All-append (Rerendered e b (c ∷ cs) (first.add ++ rest.add)) first.remove rest.remove
          (Rerendered-mono e b (c ∷ []) (c ∷ cs) first.add (first.add ++ rest.add) first.remove
            (λ d m. In-append cs m) (λ r m. In-append rest.add m)
            (fix_host-Rerendered e b live c first fixed))
          (Rerendered-mono e b cs (c ∷ cs) rest.add (first.add ++ rest.add) rest.remove
            (λ d m. there m) (λ r m. In-append_right first.add m)
            (fix_edge-Rerendered e b live cs rest others)))

  -- every host that the plan of an edge removes is re-rendered there
  abbrev pub PlanRerenders : Engine W → List (EdgeBinding W) → List Canonical → EdgePlan → Type 0
  PlanRerenders e bs canon p =
      (b : EdgeBinding W) × In b bs
      × (p.edge ≡ b.name)
      × All (Rerendered e b canon p.change.add_routes) p.change.remove_hosts

  pub fix_edges-PlanRerenders :
      (e : Engine W) (bs : List (EdgeBinding W)) (canon : List Canonical) (vs : List (EdgeView W))
      (out : List Drift × List EdgePlan)
      → All (λ (v : EdgeView W). In v.0 bs) vs
      → fix_edges e canon vs ≡ ok out
      → All (PlanRerenders e bs canon) out.1
  unfolding fix_edges
  fix_edges-PlanRerenders e bs canon [] out h k =
      subst (λ (o : List Drift × List EdgePlan). All (PlanRerenders e bs canon) o.1)
        (ok_injective k) tt
  fix_edges-PlanRerenders e bs canon ((b, live) ∷ vs) out (n, h) k =
      let (f, fixed, more) = bind-eq-ok (fix_edge e b live canon) _ k in
      let (rest, others, made) = bind-eq-ok (fix_edges e canon vs) _ more in
      let tail = fix_edges-PlanRerenders e bs canon vs rest h others in
      subst (λ (o : List Drift × List EdgePlan). All (PlanRerenders e bs canon) o.1)
        (ok_injective made)
        (if_rule (All (PlanRerenders e bs canon)) (edge_change_empty (fix_change f)) (λ _. tail)
          (λ _. ((b, n, refl, fix_edge-Rerendered e b live canon f fixed), tail)))
