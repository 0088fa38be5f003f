-- ===== src/Declarative/Shown.antt =====
-- internal/core/declarative.go: what `verifyDeclarative` has seen when it passes.
use crenel.Prelude.{
  Bool, true, false, not, ◌&&◌, ◌≡◌, ◌⊎◌, refl, inl, inr, List, [], ◌∷◌, map, find, contains,
  to_lower, Text, text_eq, All, In-All, Option, some, none, Option-cases, Result-cases, Result, ok,
  err, arith, if_rule,
}
use crenel.Model.{LiveEdgeState, has_host, reachable, Record, DnsChange}
use crenel.Reports.{Error, Detail, consistent_with_exposures, VerifyResult, verified}
use crenel.Ports.{DnsProvider}
use crenel.Engine.{EdgeBinding, Engine}
use crenel.Steps.{dns_label}
use crenel.Checks.{verify_edge_auth, verify_edge_forward_tls, record_at_key, same_dns_value}
use crenel.Checks.Passed.{
  AuthHolds, TlsHolds, verify_edge_auth_sound, verify_edge_forward_tls_sound, find-none,
  verified-append,
}
use crenel.Import.{binding_label}
use crenel.Declarative.Exposures.{DeclarativePlan}
use crenel.Declarative.Planning.{has_key}
use crenel.Declarative.Converging.{
  add_routes_on, desired_hosts_on, unreached, or_else, edge_wrong, judged, adds_wrong,
  removes_wrong, change_wrong, edge_verdict, verify_bindings, provider_verdict, verify_providers,
  verify_declarative,
}

-- An edge shows what the plan wants of it.
pub record Shows (p : DeclarativePlan) (edge : Text) (live : LiveEdgeState) : Type 0 where
  pub default_deny : live.deny_catch_all_present ≡ true
  pub served :
      All
        (λ h. (contains (map to_lower p.prune) (to_lower h) ≡ true) ⊎ (reachable live h ≡ true))
        (desired_hosts_on p edge)
  pub pruned : All (λ h. has_host live h ≡ false) p.prune
  pub protected : All (AuthHolds live) (add_routes_on edge p.change.edges)
  pub over_tls : All (TlsHolds live) (add_routes_on edge p.change.edges)

judged-passed :
    (label : Text) (fine : Detail) (d : Option Detail)
    → (judged label fine d).passed ≡ true
    → d ≡ none
judged-passed label fine none h = refl
judged-passed label fine (some d) h = ground arith

or_else-none : (a b : Option Detail) → or_else a b ≡ none → (a ≡ none) × (b ≡ none)
or_else-none none b h = (refl, h)
or_else-none (some d) b h = ground arith

served-cases : (gone up : Bool) → (not gone && not up) ≡ false → (gone ≡ true) ⊎ (up ≡ true)
served-cases gone up h = ground arith

edge_wrong-Shows :
    (p : DeclarativePlan) (edge : Text) (live : LiveEdgeState)
    → live.deny_catch_all_present ≡ true
    → edge_wrong p edge live ≡ none
    → Shows p edge live
unfolding edge_wrong
edge_wrong-Shows p edge live deny h =
    elim (Option-cases (unreached p.prune live (desired_hosts_on p edge))) [
      | inr (x, found) ↦ let never : some _ ≡ none = rw (found, edge_wrong) at h in ground arith
      | inl all_up ↦ elim (Option-cases (find (λ x. has_host live x) p.prune)) [
        | inr (x, found) ↦
            let never : some _ ≡ none = rw (all_up, found, edge_wrong) at h in ground arith
        | inl all_gone ↦
            let (auth, tls) =
              or_else-none (verify_edge_auth live (add_routes_on edge p.change.edges))
                (verify_edge_forward_tls live (add_routes_on edge p.change.edges))
                (rw (all_up, all_gone, edge_wrong) at h) in
            record {
              default_deny = deny;
              served =
                  In-All _ (desired_hosts_on p edge)
                    (λ x m. served-cases _ _ (find-none _ (desired_hosts_on p edge) x all_up m));
              pruned = In-All _ p.prune (λ x m. find-none _ p.prune x all_gone m);
              protected = verify_edge_auth_sound live (add_routes_on edge p.change.edges) auth;
              over_tls = verify_edge_forward_tls_sound live (add_routes_on edge p.change.edges) tls;
            }
      ]
    ]

-- The records that a change adds are there with their values, and those that it removes are not.
pub record Carries (c : DnsChange) (live : List Record) : Type 0 where
  pub added :
      All
        (λ d.
          (r : Record) × (record_at_key live d ≡ some r) × (same_dns_value r.value d.value ≡ true))
        c.add
  pub removed : All (λ d. has_key live d ≡ false) c.remove

adds_wrong-added :
    (live ds : List Record)
    → adds_wrong live ds ≡ none
    → All
        (λ d.
          (r : Record) × (record_at_key live d ≡ some r) × (same_dns_value r.value d.value ≡ true))
        ds
unfolding adds_wrong
adds_wrong-added live [] h = tt
adds_wrong-added live (d ∷ ds) h = elim (Option-cases (record_at_key live d)) [
  | inl absent ↦ absurd (ground arith)
  | inr (r, found) ↦ ((r, found, ground arith), adds_wrong-added live ds (ground arith))
]

removes_wrong-removed :
    (live ds : List Record) → removes_wrong live ds ≡ none → All (λ d. has_key live d ≡ false) ds
unfolding removes_wrong
removes_wrong-removed live [] h = tt
removes_wrong-removed live (d ∷ ds) h = (ground arith, removes_wrong-removed live ds (ground arith))

change_wrong-Carries :
    (c : DnsChange) (live : List Record) → change_wrong c live ≡ none → Carries c live
unfolding change_wrong
change_wrong-Carries c live h =
    let (adds, removes) = or_else-none (adds_wrong live c.add) (removes_wrong live c.remove) h in
    record {
      added = adds_wrong-added live c.add adds;
      removed = removes_wrong-removed live c.remove removes;
    }

verified-cons :
    (v : VerifyResult) (vs : List VerifyResult)
    → verified (v ∷ vs) ≡ true
    → (v.passed ≡ true) × (verified vs ≡ true)
unfolding verified
verified-cons v vs h = ground arith

module _ {W : Type 0} where
  abbrev pub EdgeShows : DeclarativePlan → W → EdgeBinding W → Type 0
  EdgeShows p w b =
      (live : LiveEdgeState) × (b.provider.read_live_state w ≡ ok live) × Shows p b.name live

  -- the providers with the changes at their places; every provider was read
  abbrev pub ProvidersCarry : List DnsChange → List (DnsProvider W) → W → Type 0
  ProvidersCarry cs [] w = Unit
  ProvidersCarry [] (d ∷ ds) w =
      ((live : List Record) × (d.live_records w ≡ ok live)) × ProvidersCarry [] ds w
  ProvidersCarry (c ∷ cs) (d ∷ ds) w =
      ((live : List Record) × (d.live_records w ≡ ok live) × Carries c live)
      × ProvidersCarry cs ds w

  edge_verdict-EdgeShows :
      (p : DeclarativePlan) (b : EdgeBinding W) (w : W) (state : Result Error LiveEdgeState)
      → b.provider.read_live_state w ≡ state
      → (edge_verdict p b state).passed ≡ true
      → EdgeShows p w b
  edge_verdict-EdgeShows p b w (err x) e = λ h. ground arith
  edge_verdict-EdgeShows p b w (ok live) e =
      if_rule (λ (v : VerifyResult). v.passed ≡ true → EdgeShows p w b)
        (not live.deny_catch_all_present) (λ _ h. ground arith)
        (λ deny h. (
          live,
          e,
          edge_wrong-Shows p b.name live (ground arith) (
              judged-passed (binding_label b) consistent_with_exposures (edge_wrong p b.name live)
                h),
        ))

  verify_bindings-EdgeShows :
      (p : DeclarativePlan) (bs : List (EdgeBinding W)) (w : W)
      → verified (verify_bindings p bs w) ≡ true
      → All (EdgeShows p w) bs
  unfolding verify_bindings verified
  verify_bindings-EdgeShows p [] w h = tt
  verify_bindings-EdgeShows p (b ∷ bs) w h = (
    edge_verdict-EdgeShows p b w (b.provider.read_live_state w) refl (ground arith),
    verify_bindings-EdgeShows p bs w (ground arith),
  )

  provider_verdict-read :
      (d : DnsProvider W) (wrong : List Record → Option Detail) (w : W)
      → (provider_verdict d wrong w).passed ≡ true
      → (live : List Record) × (d.live_records w ≡ ok live) × (wrong live ≡ none)
  provider_verdict-read d wrong w h = elim (Result-cases (d.live_records w)) [
    | inr (x, failed) ↦
        let never : false ≡ true = rw (failed, provider_verdict) at h in ground arith
    | inl (live, read) ↦
        (live, read, judged-passed (dns_label d) _ (wrong live) (rw (read, provider_verdict) at h))
  ]

  verify_providers-ProvidersCarry :
      (cs : List DnsChange) (ds : List (DnsProvider W)) (w : W)
      → verified (verify_providers cs ds w) ≡ true
      → ProvidersCarry cs ds w
  unfolding verify_providers
  verify_providers-ProvidersCarry cs [] w h = tt
  verify_providers-ProvidersCarry [] (d ∷ ds) w h =
      let (head, tail) =
        verified-cons (provider_verdict d (λ _. none) w) (verify_providers [] ds w) h in
      let (live, read, fine) = provider_verdict-read d (λ _. none) w head in
      ((live, read), verify_providers-ProvidersCarry [] ds w tail)
  verify_providers-ProvidersCarry (c ∷ cs) (d ∷ ds) w h =
      let (head, tail) =
        verified-cons (provider_verdict d (change_wrong c) w) (verify_providers cs ds w) h in
      let (live, read, fine) = provider_verdict-read d (change_wrong c) w head in
      ((live, read, change_wrong-Carries c live fine), verify_providers-ProvidersCarry cs ds w tail)

  pub verify_declarative-Shows :
      (e : Engine W) (p : DeclarativePlan) (w : W)
      → verified (verify_declarative e p w) ≡ true
      → All (EdgeShows p w) e.edges × ProvidersCarry p.change.dns e.dns w
  unfolding verify_declarative
  verify_declarative-Shows e p w h =
      let (edges, dns) =
        verified-append (verify_bindings p e.edges w) (verify_providers p.change.dns e.dns w) h in
      (
        verify_bindings-EdgeShows p e.edges w edges,
        verify_providers-ProvidersCarry p.change.dns e.dns w dns,
      )
