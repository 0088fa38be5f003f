-- ===== src/Reconcile/Routes.antt =====
-- internal/core/reconcile.go: the drift of the edges, a missing route or another mode than the canonical.
use crenel.Prelude.{
  true, not, ◌&&◌, List, [], ◌∷◌, ◌++◌, length, find, Option, none, some, Text, if◌then◌else◌,
  Result, ok, err, ◌>>=◌, map_err,
}
use crenel.Model.{
  expose, plain_op, RouteMode, Route, LiveEdgeState, EdgeChange, edge_change_empty, EdgePlan,
}
use crenel.Reports.{Error, render_failed, rendered_routes}
use crenel.Engine.{EdgeBinding, Engine, service_of}
use crenel.Chain.{ChainRole, role_none, role_terminal, role_forward, role_for, forward_route}
use crenel.Follow.{is_wildcard_name, wildcard_pattern_covers, chain_forward}
use crenel.Import.{deny_only}
use crenel.Reconcile.Canonical.{
  Drift, missing_route, mode_mismatch, DriftDetail, exposed_elsewhere, half_present, other_mode_at,
  Canonical, EdgeView, same_mode, mode_of,
}

-- `wildcardRouteCovering` of internal/core/chain.go
unfoldable pub wildcard_route_covering : List Route → Text → Option Route
wildcard_route_covering rs host =
    find (λ r. is_wildcard_name r.host && wildcard_pattern_covers r.host host) rs

-- What an edge does about one canonical host: the routes that it adds, the hosts that it removes
-- first, and the drift.
pub record Fix : Type 0 where
  pub add : List Route
  pub remove : List Text
  pub drift : List Drift

abbrev pub no_fix : Fix
no_fix = record { add = []; remove = []; drift = [] }

abbrev pub both_fixes : Fix → Fix → Fix
both_fixes f g = record {
  add = f.add ++ g.add;
  remove = f.remove ++ g.remove;
  drift = f.drift ++ g.drift;
}

abbrev pub fix_change : Fix → EdgeChange
fix_change f = record {
  add_routes = f.add;
  remove_hosts = f.remove;
  deny_catch_all_will_be_present = true;
}

module _ {W : Type 0} where
  abbrev one_route : EdgeBinding W → Text → List Route → Result Error Route
  one_route b host [] = err (rendered_routes b.name 0 host)
  one_route b host (r ∷ []) = ok r
  one_route b host (r ∷ s ∷ rs) = err (rendered_routes b.name (length (r ∷ s ∷ rs)) host)

  -- `canonicalRoute`
  unfoldable pub canonical_route :
      EdgeBinding W → Text → Text → RouteMode → Text → Result Error Route
  canonical_route b service host mode auth =
      map_err (render_failed b.name host) (
        b.provider.plan (record (plain_op expose service host) { mode = mode; auth = auth })
          deny_only)
      >>= λ cs. one_route b host cs.edge.add_routes

  -- `canonicalChainRoute`
  abbrev pub canonical_chain_route :
      EdgeBinding W → ChainRole → Text → Canonical → Result Error Route
  canonical_chain_route b role_forward service c = forward_route b c.host
  canonical_chain_route b role_none service c = canonical_route b service c.host c.mode c.auth
  canonical_chain_route b role_terminal service c = canonical_route b service c.host c.mode c.auth

  abbrev missing_detail : EdgeBinding W → ChainRole → Text → Option (Text × Text) → DriftDetail
  missing_detail b role_forward service wild = half_present b.name service wild
  missing_detail b role_none service wild = exposed_elsewhere b.name service
  missing_detail b role_terminal service wild = exposed_elsewhere b.name service

  abbrev pub fix_missing :
      EdgeBinding W → ChainRole → Text → Canonical → Option (Text × Text) → Result Error Fix
  fix_missing b role service c wild = canonical_chain_route b role service c >>= λ r. ok (record {
    add = r ∷ [];
    remove = [];
    drift =
        record {
          kind = missing_route;
          host = c.host;
          target = b.name;
          detail = missing_detail b role service wild;
        }
        ∷ [];
  })

  abbrev pub fix_mode : EdgeBinding W → ChainRole → Text → Canonical → RouteMode → Result Error Fix
  fix_mode b role service c found = canonical_chain_route b role service c >>= λ r. ok (record {
    add = r ∷ [];
    remove = c.host ∷ [];
    drift =
        record {
          kind = mode_mismatch;
          host = c.host;
          target = b.name;
          detail = other_mode_at found b.name c.mode;
        }
        ∷ [];
  })

  -- a forward that is absent: a wildcard that forwards to the downstream edge stands for it
  abbrev pub fix_forward : EdgeBinding W → Text → Canonical → Option Route → Result Error Fix
  fix_forward b service c none = fix_missing b role_forward service c none
  fix_forward b service c (some r) =
      if chain_forward b r
      then ok no_fix
      else fix_missing b role_forward service c (some (r.host, r.upstream.address))

  abbrev pub fix_present :
      EdgeBinding W → ChainRole → Text → Canonical → RouteMode → Result Error Fix
  fix_present b role service c found =
      if not (same_mode found c.mode) then fix_mode b role service c found else ok no_fix

  -- one canonical host at one edge, by its role
  abbrev pub fix_as :
      EdgeBinding W → LiveEdgeState → Text → Canonical → ChainRole → Result Error Fix
  fix_as b live service c role_none = ok no_fix
  fix_as b live service c role_forward = elim (mode_of live c.host) [
    | none ↦ fix_forward b service c (wildcard_route_covering live.routes c.host)
    | some m ↦ fix_present b role_forward service c m
  ]
  fix_as b live service c role_terminal = elim (mode_of live c.host) [
    | none ↦ fix_missing b role_terminal service c none
    | some m ↦ fix_present b role_terminal service c m
  ]

  unfoldable pub fix_host : Engine W → EdgeBinding W → LiveEdgeState → Canonical → Result Error Fix
  fix_host e b live c =
      let service = service_of e c.host in fix_as b live service c (role_for e b service)

  unfoldable pub fix_edge :
      Engine W → EdgeBinding W → LiveEdgeState → List Canonical → Result Error Fix
  fix_edge e b live [] = ok no_fix
  fix_edge e b live (c ∷ cs) =
      fix_host e b live c >>= λ f. fix_edge e b live cs >>= λ g. ok (both_fixes f g)

  -- the drift of the edges, and their plans
  unfoldable pub fix_edges :
      Engine W → List Canonical → List (EdgeView W) → Result Error (List Drift × List EdgePlan)
  fix_edges e canon [] = ok ([], [])
  fix_edges e canon ((b, live) ∷ vs) = fix_edge e b live canon >>= λ f.
      fix_edges e canon vs >>= λ rest. ok (
        f.drift ++ rest.0,
        (if edge_change_empty (fix_change f)
            then rest.1
            else record { edge = b.name; driver = b.provider.name; change = fix_change f }
              ∷ rest.1),
      )
