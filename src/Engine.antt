-- ===== src/Engine.antt =====
-- internal/core/engine.go: `EdgeBinding`, `Engine` and its lookups, with the zones of
-- internal/core/dns_zone.go, the selections of declarative.go and the gates of readonly.go and
-- residency.go.
pub mod Zones
pub mod Naming
use crenel.Prelude.{
  ℕ, suc, zero, length, Bool, true, false, not, ◌&&◌, ◌||◌, List, [], ◌∷◌, ◌++◌, map, any, contains,
  find, is_nil, Option, none, some, Text, codes, ◌==◌, text_eq, nat_eq, to_lower, equal_fold,
  trim_suffix, trim_space, has_suffix, if◌then◌else◌, Result, ok, err,
}
use crenel.Model.{Scope, internal, public, scope_eq, IngressKind, Op, Verb, plain_op}
use crenel.Reports.{Error, read_only_engine, residency_unsupported, ambiguous_service}
use crenel.Ports.{EdgeProvider, DnsProvider}

-- `none` in `fronts` is the nil predicate, which fronts everything.
pub record EdgeBinding (W : Type 0) : Type 0 where
  pub name : Text
  pub provider : EdgeProvider W
  pub fronts : Option (Text → Bool)
  pub auth_downstream : Bool
  pub ingress_kind : IngressKind
  -- what `detectIngressFile` finds in the file at `IngressConfigPath`; unset where there is no path
  pub ingress_detected : W → IngressKind
  pub downstream_edge : Text
  pub downstream_address : Text
  pub downstream_scheme : Text

-- `internal_scope` is the map of services that are declared internal-only.
pub record Engine (W : Type 0) : Type 0 where
  pub edges : List (EdgeBinding W)
  pub dns : List (DnsProvider W)
  pub zone : Text
  pub rollback : Bool
  pub force : Bool
  pub allow_unverified : Bool
  pub read_only : Bool
  pub internal_scope : List Text

abbrev take : ℕ → Text → Text
take zero s = []
take (suc n) [] = []
take (suc n) (c ∷ s) = c ∷ take n s

-- `edgeSelected` and `scopeSelected`: the empty list selects everything.
unfoldable pub edge_selected : List Text → Text → Bool
edge_selected names name = is_nil names || contains names name

unfoldable pub scope_selected : List Scope → Scope → Bool
scope_selected scopes scope = is_nil scopes || contains scopes scope

-- `zoneCovers`
unfoldable pub zone_covers : Text → Text → Bool
zone_covers zone host =
    if zone == []
    then true
    else let h = to_lower (trim_suffix host (codes ".")) in
      h == zone || has_suffix h (codes "." ++ zone)

module _ {W : Type 0} where
  unfoldable pub fronts_service : EdgeBinding W → Text → Bool
  fronts_service b service = elim b.fronts [ none ↦ true | some f ↦ f service ]

  unfoldable pub internal_scoped : Engine W → Text → Bool
  internal_scoped e service = contains e.internal_scope service

  unfoldable pub binding : Engine W → Text → Option (EdgeBinding W)
  binding e name = find (λ b. b.name == name) e.edges

  -- `BuildOp`
  unfoldable pub build_op : Engine W → Verb → Text → Op
  build_op e verb service =
      let s = trim_space service in
      plain_op verb s
        (if not (contains s b'.') && not (e.zone == []) then s ++ (codes "." ++ e.zone) else s)

  -- `dnsZone`
  unfoldable pub dns_zone : DnsProvider W → Text
  dns_zone p = elim p.managed_zone [ none ↦ [] | some z ↦ to_lower (trim_suffix z (codes ".")) ]

  unfoldable pub dns_covers_host : DnsProvider W → Text → Bool
  dns_covers_host p host = zone_covers (dns_zone p) host

  -- `providerZones`: `seen` is the output so far.
  unfoldable pub provider_zones_from : List Text → List (DnsProvider W) → List Text
  unfolding dns_zone
  provider_zones_from seen [] = []
  provider_zones_from seen (p ∷ ps) =
      let z = dns_zone p in
      let skip = provider_zones_from seen ps in
      let take = z ∷ provider_zones_from (z ∷ seen) ps in
      if z == [] || contains seen z then skip else take

  unfoldable pub provider_zones : Engine W → List Text
  unfolding provider_zones_from
  provider_zones e = provider_zones_from [] e.dns

  unfoldable pub explicitly_fronts : Engine W → Text → Bool
  explicitly_fronts e name = any (λ b. elim b.fronts [ none ↦ false | some f ↦ f name ]) e.edges

  unfoldable pub any_managed_zone_covers : Engine W → Text → Bool
  any_managed_zone_covers e host = any (λ p. dns_covers_host p host) e.dns

  -- the evidence that `ResolveOp` gathers for zones other than the default one
  unfoldable pub zone_candidates : Engine W → Text → List Text → List Text
  zone_candidates e service [] = []
  zone_candidates e service (z ∷ zs) =
      let rest = zone_candidates e service zs in
      let fqdn = service ++ (codes "." ++ z) in
      if equal_fold z e.zone then rest else if explicitly_fronts e fqdn then fqdn ∷ rest else rest

  unfoldable pub default_evidence : Engine W → Text → Bool
  default_evidence e service =
      not (e.zone == [])
      && (explicitly_fronts e service || explicitly_fronts e (service ++ (codes "." ++ e.zone)))

  -- the candidate hosts, the default zone's first
  unfoldable pub candidates : Engine W → Text → List Text
  unfolding default_evidence zone_candidates
  candidates e service =
      (if default_evidence e service then (service ++ (codes "." ++ e.zone)) ∷ [] else [])
      ++ zone_candidates e service (provider_zones e)

  unfoldable pub resolve_bare : Engine W → Verb → Text → List Text → Result Error Op
  resolve_bare e verb service [] = ok (build_op e verb service)
  resolve_bare e verb service (c ∷ []) =
      if default_evidence e service then ok (build_op e verb service) else ok (plain_op verb c c)
  resolve_bare e verb service (c ∷ d ∷ cs) = err (ambiguous_service service (c ∷ d ∷ cs))

  -- `ResolveOp`
  unfoldable pub resolve_op : Engine W → Verb → Text → Result Error Op
  unfolding resolve_bare
  resolve_op e verb service =
      let s = trim_space service in
      if contains s b'.' then ok (build_op e verb s) else resolve_bare e verb s (candidates e s)

  -- `gateReadOnly`
  unfoldable pub gate_read_only : Engine W → Text → Result Error (Unit {0})
  gate_read_only e verb = if not e.read_only then ok tt else err (read_only_engine verb)

  -- `residencySupported`
  unfoldable pub residency_supported : DnsProvider W → Text → Result Error (Unit {0})
  residency_supported p residency =
      if residency == [] || not (p.scope == internal) then ok tt else elim p.residency_target [
        | some f ↦ ok tt
        | none ↦ err (residency_unsupported p.name residency)
      ]

  -- the zones of providers in `serviceOf`: a prefix that some edge is keyed by
  abbrev bare_name : Engine W → Text → List Text → Text
  bare_name e host [] = host
  bare_name e host (z ∷ zs) =
      let rest = bare_name e host zs in
      let s = trim_suffix (to_lower host) (codes "." ++ z) in
      if equal_fold z e.zone
        || s == to_lower host
        || not (explicitly_fronts e (take (length s) host))
      then rest
      else take (length s) host

  -- `serviceOf` of internal/core/audit.go
  unfoldable pub service_of : Engine W → Text → Text
  service_of e host =
      let s = trim_suffix host (codes "." ++ e.zone) in
      if not (e.zone == []) && not (s == host) then s else bare_name e host (provider_zones e)
