-- ===== src/Tests/Chains.antt =====
-- A chain of two edges, and the theorems on chains at it.
use crenel.Prelude.{
  arith, ℕ, ◌<◌, ◌≤◌, Bool, true, false, ◌≡◌, ◌≢◌, ◌↔◌, refl, List, [], ◌∷◌, ◌⊎◌, inl, inr, none,
  some, In, here, there, In-cons_cases, ok, Text, codes, ◌==◌, text_eq, if◌then◌else◌, length,
  subst, sym,
}
use crenel.Model.{is_mesh_grant, http_proxy, Route, direct_backend, unset, expose}
use crenel.Engine.{EdgeBinding, Engine, binding, fronts_service, internal_scoped}
use crenel.Chain.{
  ChainRole, role_forward, role_terminal, role_for, downstream_participates, chain_depth, kept_deny,
  plan_forward,
}
use crenel.Chain.Reach.{LeadsTo, role_for_sound}
use crenel.Chain.Complete.{downstream_participates_iff}
use crenel.Chain.Relax.{Ranked, Linked}
use crenel.Chain.Depth.{chain_depth-ascends}
use crenel.Follow.{EdgeReads, chain_forward, effective_auth}
use crenel.Follow.Forward.{FrontChange, plan_forward-followed}
use crenel.Follow.Auth.{ServedDownstream, effective_auth-open}
use crenel.Tests.World.{World, host, chained, front, back, route_of_host, live_of, expose_op}

front_runs :
    (role_for chained front host ≡ role_forward) × (role_for chained back host ≡ role_terminal)
unfolding crenel.Model.validate_auth crenel.Engine.internal_scoped crenel.Plan.plan_edges
    crenel.Engine.edge_selected crenel.Chain.role_for crenel.Engine.fronts_service
    crenel.Plan.plan_dns crenel.Plan.plan_provider crenel.Plan.dns_skipped
    crenel.Engine.scope_selected crenel.Engine.dns_covers_host crenel.Engine.zone_covers
    crenel.Engine.dns_zone crenel.Prelude.to_lower crenel.Prelude.trim_suffix
    crenel.Prelude.has_suffix crenel.Engine.residency_supported crenel.Model.has_host
    crenel.Plan.add_hosts crenel.Plan.compute_new_public crenel.Plan.plan_edge
    crenel.Plan.public_record_names crenel.Prelude.equal_fold downstream_participates
    crenel.Chain.participates_from crenel.Engine.binding
front_runs = (refl, refl)

front_found : binding chained front.name ≡ some front
unfolding binding
front_found = refl

downstream_participates_iff_example :
    (downstream_participates chained front host ≡ true) ↔ LeadsTo chained host front
downstream_participates_iff_example = downstream_participates_iff chained front host front_found

role_for_sound_example :
    (role_for chained front host ≡ role_forward
      → (fronts_service front host ≡ false)
        × (internal_scoped chained host ≡ false)
        × LeadsTo chained host front)
    × (role_for chained front host ≡ role_terminal → fronts_service front host ≡ true)
    × (fronts_service front host ≡ true → role_for chained front host ≡ role_terminal)
role_for_sound_example = role_for_sound chained front host

-- 1 for the back edge, 0 for any other
abbrev rank : Text → ℕ
rank name = if name == codes "b" then 1 else 0

rises :
    (b : EdgeBinding World)
    → In b chained.edges
    → Linked chained b
    → rank b.name < rank b.downstream_edge
rises b m linked = elim (In-cons_cases m) [
  | inl top ↦
      subst (λ (x : EdgeBinding World). rank x.name < rank x.downstream_edge) (sym top)
        (omega arith)
  | inr later ↦ elim (In-cons_cases later) [
    | inl top ↦ absurd (subst (λ (x : EdgeBinding World). x.downstream_edge ≢ []) top linked.0 refl)
    | inr n ↦ elim n [ ]
  ]
]

bounded : (name : Text) → rank name ≤ length chained.edges
bounded name = ground arith

rank-Ranked : Ranked chained rank
rank-Ranked = record { rises = rises; bounded = bounded }

front-Linked : Linked chained front
front-Linked = ((λ h. cc), refl)

chain_depth-ascends_example : chain_depth chained (codes "f") < chain_depth chained (codes "b")
chain_depth-ascends_example = chain_depth-ascends chained rank rank-Ranked front here front-Linked

-- the downstream edge was read, and serves the host without authentication
abbrev reads : EdgeReads
reads = (codes "b", ok (live_of (route_of_host host [] ∷ []))) ∷ []

open_run : effective_auth reads front (route_of_host host []) ≡ []
unfolding effective_auth crenel.Follow.resolve_chain chain_forward crenel.Follow.dial_host
    crenel.Prelude.trim_space crenel.Prelude.after_first crenel.Prelude.has_prefix
    crenel.Prelude.trim_suffix crenel.Prelude.split_host crenel.Prelude.split_last
    crenel.Prelude.to_lower crenel.Follow.read_of crenel.Follow.indexed_route
    crenel.Prelude.equal_fold
open_run = refl

effective_auth-open_example :
    ((route_of_host host []).upstream.auth ≡ [])
    × ((is_mesh_grant http_proxy ≡ true)
        ⊎ (((chain_forward front (route_of_host host []) ≡ false) × (front.auth_downstream ≡ false))
            ⊎ ServedDownstream reads front (route_of_host host []) []))
effective_auth-open_example = effective_auth-open reads front (route_of_host host []) open_run

-- what the front is planned to forward
abbrev front_route : Route
front_route = record (route_of_host host []) {
  upstream = record {
    kind = direct_backend;
    mode = http_proxy;
    address = codes "10.0.0.5:443";
    tls_passthrough = false;
    server_name = host;
    upstream_tls = true;
    auth = [];
  };
  managed = false;
  ownership = unset;
}

forward_run : plan_forward front expose_op (live_of []) ≡ ok (kept_deny (front_route ∷ []) [])
unfolding plan_forward crenel.Chain.forward_route crenel.Chain.forward_dial
    crenel.Chain.downstream_uses_tls crenel.Chain.dial_is_tls_port crenel.Model.has_host
    crenel.Prelude.to_lower crenel.Prelude.trim_space crenel.Prelude.split_last
forward_run = refl

plan_forward-followed_example :
    FrontChange front expose host (live_of []) (kept_deny (front_route ∷ []) [])
plan_forward-followed_example =
    plan_forward-followed front expose_op (live_of []) (kept_deny (front_route ∷ []) []) refl
      forward_run
