-- ===== src/Follow.antt =====
-- internal/core/chain.go: what a route of a chain front leads to, read through to the downstream
-- edge, with the wildcard rule of internal/core/audit.go.
pub mod Auth
pub mod Forward
use crenel.Prelude.{
  ℕ, zero, suc, ◌+◌, ◌<◌, Bool, true, false, not, ◌&&◌, ◌||◌, List, [], ◌∷◌, ◌++◌, map, any,
  contains, find, is_nil, keep_if, length, Option, none, some, Text, codes, ◌==◌, text_eq, nat_eq,
  to_lower, equal_fold, trim_suffix, trim_space, has_prefix, has_suffix, split_last, split_host,
  after_first, if◌then◌else◌, ltb, Result, ok, err, ◌>>=◌,
}
use crenel.Model.{
  Op, Verb, expose, unexpose, rename, RouteMode, http_proxy, is_mesh_grant, auth_downstream_marker,
  Route, Upstream, direct_backend, unset, ChainLink, LinkReason, no_reason, not_configured,
  could_not_be_read, dangling_forward, wildcard_relay, LiveEdgeState, has_host, EdgeChange,
}
use crenel.Reports.{Error, no_downstream_address}
use crenel.Engine.{EdgeBinding, Engine, binding, fronts_service, internal_scoped}
use crenel.Chain.{is_chain_front}

-- `isWildcardName` and `wildcardPatternCovers` of internal/core/audit.go
unfoldable pub is_wildcard_name : Text → Bool
is_wildcard_name name = contains name b'*'

abbrev behind_star : Text → Text
behind_star [] = []
behind_star (c ∷ p) = p

unfoldable pub wildcard_pattern_covers : Text → Text → Bool
wildcard_pattern_covers pattern host =
    let p = to_lower pattern in
    let suffix = behind_star p in
    let h = to_lower host in
    has_prefix p (codes "*.") && (has_suffix h suffix && ltb (length suffix) (length h))

-- `dialHost`
unfoldable pub dial_host : Text → Text
dial_host addr =
    let trimmed = trim_space addr in
    let bare : Text = elim (after_first (codes "://") trimmed) [ none ↦ trimmed | some t ↦ t ] in
    let path_free = trim_suffix bare (codes "/") in
    elim (split_host path_free) [ some h ↦ to_lower h | none ↦ to_lower path_free ]

-- `edgeRead`: the live state, or the error that is tolerated for the target of a chain.
abbrev pub EdgeReads : Type 0
EdgeReads = List (Text × Result Error LiveEdgeState)

-- `byEdge[name]`; a later entry of the name replaces an earlier one, as in the Go map.
unfoldable pub read_of : EdgeReads → Text → Option (Result Error LiveEdgeState)
read_of [] name = none
read_of ((n, r) ∷ rest) name = elim (read_of rest name) [
  | some later ↦ some later
  | none ↦ if n == name then some r else none
]

-- `idx.hosts[strings.ToLower(host)]`, where again the last route of a host stays
unfoldable pub indexed_route : List Route → Text → Option Route
indexed_route [] host = none
indexed_route (r ∷ rs) host = elim (indexed_route rs host) [
  | some later ↦ some later
  | none ↦ if equal_fold r.host host then some r else none
]

-- The number of hosts at the downstream edge that a wildcard forward carries; the code lists
-- them, and uses the length of the list. A host counts once, at its last route.
unfoldable pub covered_hosts : Text → List Route → ℕ
covered_hosts pattern [] = 0
covered_hosts pattern (r ∷ rs) =
    (if wildcard_pattern_covers pattern r.host && not (any (λ s. equal_fold s.host r.host) rs)
      then 1
      else 0)
    + covered_hosts pattern rs

abbrev unresolved : Text → LinkReason → ChainLink
unresolved edge reason = record {
  downstream_edge = edge;
  resolved = false;
  downstream_address = [];
  downstream_auth = [];
  reason = reason;
}

abbrev resolved_to : Text → Route → ChainLink
resolved_to edge r = record {
  downstream_edge = edge;
  resolved = true;
  downstream_address = r.upstream.address;
  downstream_auth = r.upstream.auth;
  reason = no_reason;
}

module _ {W : Type 0} where
  -- `chainForward`
  unfoldable pub chain_forward : EdgeBinding W → Route → Bool
  chain_forward b r =
      if not (is_chain_front b) || is_mesh_grant r.upstream.mode
      then false
      else if b.downstream_address == []
      then true
      else dial_host r.upstream.address == dial_host b.downstream_address

  -- `wildcardForwardCoverage`, its length
  unfoldable pub wildcard_forward_coverage : EdgeReads → EdgeBinding W → Route → ℕ
  wildcard_forward_coverage reads b r =
      if not (is_wildcard_name r.host) || not (chain_forward b r)
      then 0
      else elim (read_of reads b.downstream_edge) [
        | none ↦ 0
        | some (err x) ↦ 0
        | some (ok live) ↦ covered_hosts r.host live.routes
      ]

  -- `resolveChain`
  unfoldable pub resolve_chain : EdgeReads → EdgeBinding W → Route → Option ChainLink
  resolve_chain reads b r =
      if not (chain_forward b r) then none else elim (read_of reads b.downstream_edge) [
        | none ↦ some (unresolved b.downstream_edge (not_configured b.downstream_edge))
        | some (err x) ↦ some (unresolved b.downstream_edge (could_not_be_read b.downstream_edge))
        | some (ok live) ↦ elim (indexed_route live.routes r.host) [
          | some found ↦ some (resolved_to b.downstream_edge found)
          | none ↦
              let covered = wildcard_forward_coverage reads b r in
              if ltb 0 covered
              then some (unresolved b.downstream_edge (wildcard_relay covered b.downstream_edge))
              else some (unresolved b.downstream_edge (dangling_forward b.downstream_edge))
        ]
      ]

  -- `effectiveAuth`
  unfoldable pub effective_auth : EdgeReads → EdgeBinding W → Route → Text
  effective_auth reads b r =
      if not (r.upstream.auth == [])
      then r.upstream.auth
      else if is_mesh_grant r.upstream.mode
      then []
      else elim (resolve_chain reads b r) [
        | some link ↦ if link.resolved then link.downstream_auth else auth_downstream_marker
        | none ↦ if b.auth_downstream then auth_downstream_marker else []
      ]
