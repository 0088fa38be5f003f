-- ===== src/Reconcile/Boundary.antt =====
-- internal/core/reconcile.go: the boundary of what a reconcile removes.
use crenel.Prelude.{
  Bool, true, false, ◌&&◌, ◌≡◌, subst, List, [], ◌∷◌, In, here, there, In-cons_cases, inl, inr, All,
  In-All, All-In, ok, map_err, bind-eq-ok, map_err-eq-ok, arith, to_lower, keep_if-In,
  sort_stable-In,
}
use crenel.Model.{Record, DnsChange}
use crenel.Reports.{read_live_dns_failed}
use crenel.Ports.{DnsProvider}
use crenel.Engine.{Engine, service_of}
use crenel.Follow.{is_wildcard_name}
use crenel.Reconcile.Canonical.{Drift, ReconcilePlan, Canonical, any_fronts, by_key, read_views}
use crenel.Reconcile.Routes.{fix_edges}
use crenel.Reconcile.Records.{
  is_canonical, is_stale, stale_records, all_wanted, dns_coverage_records, wanted, fix_provider,
  fix_providers, plan_reconcile,
}
use crenel.Reconcile.Rerendered.{
  ok_injective, InDomain, read_views-GoodViews, PlanRerenders, fix_edges-PlanRerenders,
}

and_split : {a b : Bool} → a && b ≡ true → (a ≡ true) × (b ≡ true)
and_split h = ground arith

head_only : {A : Type 0} (x y : A) (xs : List A) → In x (y ∷ []) → In x (y ∷ xs)
head_only x y xs m = elim (In-cons_cases m) [ inl same ↦ rw same here | inr none_ ↦ elim none_ [ ] ]

module _ {W : Type 0} where
  -- A live record of the provider that is no wildcard, whose service some edge fronts, and whose name is
  -- no canonical host
  abbrev pub StaleAt : Engine W → List Canonical → List (DnsProvider W) → W → Record → Type 0
  StaleAt e canon ps w r =
      (p : DnsProvider W) × (live : List Record) × In p ps
      × (p.live_records w ≡ ok live)
      × In r live
      × (is_wildcard_name r.name ≡ false)
      × (any_fronts e (service_of e r.name) ≡ true)
      × (is_canonical canon (to_lower r.name) ≡ false)

  is_stale-parts :
      (e : Engine W) (canon : List Canonical) (desired : List Record) (r : Record)
      → is_stale e canon desired r ≡ true
      → (is_wildcard_name r.name ≡ false)
        × (any_fronts e (service_of e r.name) ≡ true)
        × (is_canonical canon (to_lower r.name) ≡ false)
  unfolding is_stale
  is_stale-parts e canon desired r h = ground arith

  fix_provider-StaleAt :
      (e : Engine W) (canon : List Canonical) (p : DnsProvider W) (w : W)
      (out : List Drift × DnsChange)
      → fix_provider e canon p w ≡ ok out
      → All (StaleAt e canon (p ∷ []) w) out.1.remove
  unfolding fix_provider
  fix_provider-StaleAt e canon p w out h =
      let (live, read, more) =
        bind-eq-ok (map_err (read_live_dns_failed p.name) (p.live_records w)) _ h in
      let (coverage, _, rest) = bind-eq-ok (dns_coverage_records p live w) _ more in
      let (hosts, _, made) = bind-eq-ok (wanted e p canon) _ rest in
      let state = map_err-eq-ok (read_live_dns_failed p.name) (p.live_records w) read in
      subst (λ (o : List Drift × DnsChange). All (StaleAt e canon (p ∷ []) w) o.1.remove)
        (ok_injective made)
        (In-All (StaleAt e canon (p ∷ []) w) (stale_records e canon (all_wanted hosts) live) (λ r m.
          let (within, stale) = keep_if-In (is_stale e canon (all_wanted hosts)) live m in
          let (plain, fronted, exposed) = is_stale-parts e canon (all_wanted hosts) r stale in
          (p, live, here, state, within, plain, fronted, exposed)))

  -- the removed records of all changes
  abbrev pub AllStale : Engine W → List Canonical → List (DnsProvider W) → W → DnsChange → Type 0
  AllStale e canon ps w c = All (StaleAt e canon ps w) c.remove

  AllStale-mono :
      (e : Engine W) (canon : List Canonical) (ps qs : List (DnsProvider W)) (w : W)
      (rs : List Record)
      → ((p : DnsProvider W) → In p ps → In p qs)
      → All (StaleAt e canon ps w) rs
      → All (StaleAt e canon qs w) rs
  AllStale-mono e canon ps qs w [] more h = tt
  AllStale-mono e canon ps qs w (r ∷ rs) more
        ((p, live, m, state, within, plain, fronted, exposed), h) =
      (
        (p, live, more p m, state, within, plain, fronted, exposed),
        AllStale-mono e canon ps qs w rs more h,
      )

  fix_providers-AllStale :
      (e : Engine W) (canon : List Canonical) (ps qs : List (DnsProvider W)) (w : W)
      (out : List Drift × List DnsChange)
      → ((p : DnsProvider W) → In p ps → In p qs)
      → fix_providers e canon ps w ≡ ok out
      → All (AllStale e canon qs w) out.1
  unfolding fix_providers
  fix_providers-AllStale e canon [] qs w out more h =
      subst (λ (o : List Drift × List DnsChange). All (AllStale e canon qs w) o.1) (ok_injective h)
        tt
  fix_providers-AllStale e canon (p ∷ ps) qs w out more h =
      let (first, fixed, others) = bind-eq-ok (fix_provider e canon p w) _ h in
      let (rest, fixes, made) = bind-eq-ok (fix_providers e canon ps w) _ others in
      subst (λ (o : List Drift × List DnsChange). All (AllStale e canon qs w) o.1)
        (ok_injective made)
        (
          AllStale-mono e canon (p ∷ []) qs w first.1.remove (λ q m. more q (head_only q p ps m))
              (fix_provider-StaleAt e canon p w first fixed),
          fix_providers-AllStale e canon ps qs w rest (λ q m. more q (there m)) fixes,
        )

  -- A planned reconcile stays within its boundary. Every host of the canonical state is of a service that
  -- some edge fronts. No edge loses a route: a host that is removed at an edge is that of a canonical
  -- entry, the edge serves or forwards it, and the same change adds the canonical route for it. Every DNS
  -- record that is removed is live at a provider, is no wildcard, is of a service that some edge fronts,
  -- and is for no canonical host.
  pub plan_reconcile-Bounded :
      (e : Engine W) (w : W) (p : ReconcilePlan) (canon : List Canonical)
      → plan_reconcile e w ≡ ok (p, canon)
      → All (InDomain e) canon
        × All (PlanRerenders e e.edges canon) p.change.edges
        × All (AllStale e canon e.dns w) p.change.dns
  unfolding plan_reconcile by_key
  plan_reconcile-Bounded e w p canon h =
      let (seen, reads, more) = bind-eq-ok (read_views e e.edges [] w) _ h in
      let sorted = by_key seen.1 in
      let (edges, fixed, rest) = bind-eq-ok (fix_edges e sorted seen.0) _ more in
      let (dns, fixes, made) = bind-eq-ok (fix_providers e sorted e.dns w) _ rest in
      let (views, domain) = read_views-GoodViews e e.edges [] w seen tt reads in
      subst
        (λ (o : ReconcilePlan × List Canonical).
          All (InDomain e) o.1
          × All (PlanRerenders e e.edges o.1) o.0.change.edges
          × All (AllStale e o.1 e.dns w) o.0.change.dns)
        (ok_injective made)
        (
          In-All (InDomain e) sorted
              (λ c m. All-In (InDomain e) (sort_stable-In _ seen.1 m) domain),
          fix_edges-PlanRerenders e e.edges sorted seen.0 edges views fixed,
          fix_providers-AllStale e sorted e.dns e.dns w dns (λ q m. m) fixes,
        )
