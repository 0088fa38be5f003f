-- ===== src/Import/Adoptable.antt =====
-- internal/core/import.go: what an import would adopt.
use crenel.Prelude.{
  true, false, not, ◌≡◌, ◌≢◌, refl, sym, ap, ◌∙◌, subst, inl, inr, List, [], ◌∷◌, Text, In, here,
  there, All, In-All, All-In, Bool-cases, Option-cases, bind-eq-ok, map_err-eq-ok, arith, ◌==◌,
  text_eq, text_beq_iff, Result, ok, err, some, none, map_err, ◌>>=◌, if_rule,
}
use crenel.Model.{Route, LiveEdgeState, is_mutable}
use crenel.Reports.{Error, read_edge_failed}
use crenel.Engine.{EdgeBinding, Engine, fronts_service, service_of}
use crenel.Import.{
  AdoptCandidate, ImportPlan, Classified, outside, managed_route, conflicting, adopted_route,
  add_classified, candidate_at, classify, classify_routes, classify_origin, desired_addr,
  import_edges, plan_import, is_foreign, is_unknown,
}

mutable_if :
    (r : Route)
    → is_foreign r.ownership ≡ false
    → is_unknown r.ownership ≡ false
    → is_mutable r.ownership ≡ true
unfolding is_mutable
mutable_if r f u = ground arith

ok_injective : {p q : ImportPlan} → ◌≡◌ {A = Result Error ImportPlan} (ok p) (ok q) → p ≡ q
ok_injective h = ground arith

add_classified-All :
    (P : AdoptCandidate → Type 0) (k : Classified) (p : ImportPlan)
    → ((c : AdoptCandidate) → k ≡ adopted_route c → P c)
    → All P p.adopt
    → All P (add_classified k p).adopt
add_classified-All P outside p good h = h
add_classified-All P (managed_route host) p good h = h
add_classified-All P (conflicting x) p good h = h
add_classified-All P (adopted_route c) p good h = (good c refl, h)

module _ {W : Type 0} where
  -- A live route of the host at a configured edge: nobody's, or of an owner that core may change; in
  -- the domain of the edge; and with the backend that the driver itself would render.
  pub record AdoptableAt (b : EdgeBinding W) (live : LiveEdgeState) (c : AdoptCandidate)
      : Type 0 where
    pub at_edge : c.edge ≡ b.name
    pub route : Route
    pub stands : In route live.routes
    pub of_host : c.host ≡ route.host
    pub unmanaged : route.managed ≡ false
    pub may_change : is_mutable route.ownership ≡ true
    pub in_domain : fronts_service b c.service ≡ true
    pub as_rendered : desired_addr b c.service c.host ≡ ok c.address
    pub backend_kept : route.upstream.address ≡ c.address
    pub can_stamp : b.provider.adopter ≢ none

  abbrev pub Adoptable : List (EdgeBinding W) → W → AdoptCandidate → Type 0
  Adoptable bs w c =
      (b : EdgeBinding W) × (live : LiveEdgeState) × In b bs
      × (b.provider.read_live_state w ≡ ok live)
      × AdoptableAt b live c

  -- what is known where a route is adopted
  abbrev AdoptedFrom : EdgeBinding W → Text → Route → AdoptCandidate → Type 0
  AdoptedFrom b service r c =
      (desired_addr b service r.host ≡ ok r.upstream.address)
      × (c ≡ candidate_at b r.host service r.upstream.address r.upstream.mode)
      × (b.provider.adopter ≢ none)

  classify_origin-adopted :
      (b : EdgeBinding W) (service : Text) (r : Route) (c : AdoptCandidate)
      (found : Result Error Text)
      → desired_addr b service r.host ≡ found
      → classify_origin b service r found ≡ adopted_route c
      → AdoptedFrom b service r c
  classify_origin-adopted b service r c (err x) resolved h = ground arith
  classify_origin-adopted b service r c (ok want) resolved h =
      elim (Option-cases b.provider.adopter) [
        | inl none_ ↦
            let never : conflicting _ ≡ adopted_route c = rw (none_, classify_origin) at h in
            ground arith
        | inr (f, found) ↦ elim (Bool-cases (r.upstream.address == want)) [
          | inr e ↦
              let never : conflicting _ ≡ adopted_route c = rw (found, e, classify_origin) at h in
              ground arith
          | inl e ↦
              let same : r.upstream.address ≡ want = (text_beq_iff r.upstream.address want).0 e in
              let made : adopted_route
                    (candidate_at b r.host service r.upstream.address r.upstream.mode)
                  ≡ adopted_route c =
                rw (found, e, classify_origin) at h in
              (
                resolved ∙ ap ok (sym same),
                ground arith,
                rw found (λ (n : some f ≡ none). ground arith),
              )
        ]
      ]

  classify-adopted :
      (e : Engine W) (b : EdgeBinding W) (live : LiveEdgeState) (r : Route) (c : AdoptCandidate)
      → classify e b live r ≡ adopted_route c
      → (fronts_service b (service_of e r.host) ≡ true)
        × (r.managed ≡ false)
        × (is_mutable r.ownership ≡ true)
        × AdoptedFrom b (service_of e r.host) r c
  unfolding classify
  classify-adopted e b live r c =
      let service = service_of e r.host in
      let Goal : Type 0 =
        (fronts_service b service ≡ true)
        × (r.managed ≡ false)
        × (is_mutable r.ownership ≡ true)
        × AdoptedFrom b service r c in
      if_rule (λ (k : Classified). k ≡ adopted_route c → Goal) (not (fronts_service b service))
        (λ _ h. ground arith)
        (λ fronts.
          if_rule (λ (k : Classified). k ≡ adopted_route c → Goal) r.managed (λ _ h. ground arith)
            (λ unmanaged.
              if_rule (λ (k : Classified). k ≡ adopted_route c → Goal) (is_foreign r.ownership)
                (λ _ h. ground arith)
                (λ ours.
                  if_rule (λ (k : Classified). k ≡ adopted_route c → Goal) (is_unknown r.ownership)
                    (λ _ h. ground arith)
                    (λ known h. (
                      ground arith,
                      unmanaged,
                      mutable_if r ours known,
                      classify_origin-adopted b service r c (desired_addr b service r.host) refl h,
                    )))))

  classify-AdoptableAt :
      (e : Engine W) (b : EdgeBinding W) (live : LiveEdgeState) (r : Route) (c : AdoptCandidate)
      → In r live.routes
      → classify e b live r ≡ adopted_route c
      → AdoptableAt b live c
  classify-AdoptableAt e b live r c m h =
      let (fronts, unmanaged, may, (resolved, made, stamps)) = classify-adopted e b live r c h in
      record {
        at_edge = ap (λ (x : AdoptCandidate). x.edge) made;
        route = r;
        stands = m;
        of_host = ap (λ (x : AdoptCandidate). x.host) made;
        unmanaged = unmanaged;
        may_change = may;
        in_domain = rw made fronts;
        as_rendered = rw made resolved;
        backend_kept = sym (ap (λ (x : AdoptCandidate). x.address) made);
        can_stamp = stamps;
      }

  -- the candidates of one edge, before those of the others
  classify_routes-All :
      (e : Engine W) (b : EdgeBinding W) (live : LiveEdgeState) (p : ImportPlan)
      (P : AdoptCandidate → Type 0)
      → ((c : AdoptCandidate) → AdoptableAt b live c → P c)
      → All P p.adopt
      → (rs : List Route) → ((r : Route) → In r rs → In r live.routes)
      → All P (classify_routes e b live rs p).adopt
  unfolding classify_routes
  classify_routes-All e b live p P good h [] within = h
  classify_routes-All e b live p P good h (r ∷ rs) within =
      add_classified-All P (classify e b live r) (classify_routes e b live rs p)
        (λ c k. good c (classify-AdoptableAt e b live r c (within r here) k))
        (classify_routes-All e b live p P good h rs (λ x m. within x (there m)))

  import_edges-Adoptable :
      (e : Engine W) (bs : List (EdgeBinding W)) (w : W) (p : ImportPlan)
      → import_edges e bs w ≡ ok p
      → All (Adoptable bs w) p.adopt
  unfolding import_edges
  import_edges-Adoptable e [] w p h = rw⁻¹ (ok_injective h) tt
  import_edges-Adoptable e (b ∷ bs) w p h =
      let (live, read, more) =
        bind-eq-ok (map_err (read_edge_failed b.name) (b.provider.read_live_state w))
          (λ (s : LiveEdgeState).
            import_edges e bs w >>= λ q. ok (classify_routes e b s s.routes q))
          h in
      let (q, others, made) =
        bind-eq-ok (import_edges e bs w)
          (λ (q : ImportPlan). ok (classify_routes e b live live.routes q)) more in
      let state : b.provider.read_live_state w ≡ ok live =
        map_err-eq-ok (read_edge_failed b.name) (b.provider.read_live_state w) read in
      let rest = import_edges-Adoptable e bs w q others in
      subst (λ (x : ImportPlan). All (Adoptable (b ∷ bs) w) x.adopt) (ok_injective made)
        (classify_routes-All e b live q (Adoptable (b ∷ bs) w) (λ c a. (b, live, here, state, a))
          (In-All (Adoptable (b ∷ bs) w) q.adopt (λ c m.
            let (b', live', n, read', a) = All-In (Adoptable bs w) m rest in
            (b', live', there n, read', a)))
          live.routes (λ r m. m))

  -- Every candidate of a planned import is a route that stands in the live state of a configured edge,
  -- is unmanaged and of an owner that may be changed, whose service the edge fronts, and whose backend
  -- is the one that the driver would render for it; and the edge can stamp it.
  pub plan_import-Adoptable :
      (e : Engine W) (w : W) (p : ImportPlan)
      → plan_import e w ≡ ok p
      → All (Adoptable e.edges w) p.adopt
  unfolding plan_import
  plan_import-Adoptable e w p h =
      let (q, planned, made) = bind-eq-ok (import_edges e e.edges w) _ h in
      let same : q.adopt ≡ p.adopt = ap (λ (x : ImportPlan). x.adopt) (ok_injective made) in
      subst (All (Adoptable e.edges w)) same (import_edges-Adoptable e e.edges w q planned)
