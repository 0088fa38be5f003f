-- ===== src/Reconcile/Canonical.antt =====
-- internal/core/reconcile.go: the kinds of drift, and the canonical state.
use crenel.Prelude.{
  Bool, true, false, not, ◌&&◌, List, [], ◌∷◌, any, Option, none, some, Text, codes, ◌==◌, text_eq,
  to_lower, if◌then◌else◌, Result, ok, ◌>>=◌, map_err, sort_stable,
}
use crenel.Model.{
  RouteMode, http_proxy, tcp_passthrough, mesh_grant, other_mode, Route, LiveEdgeState, ChangeSet,
}
use crenel.Reports.{Error, read_edge_failed}
use crenel.Engine.{EdgeBinding, Engine, fronts_service, service_of}
use crenel.Chain.{ChainRole, role_none, role_terminal, role_forward, role_for}
use crenel.Gate.{text_less}
use crenel.Checks.{route_of}

-- `DriftKind`
pub data DriftKind : Type 0 where
  missing_route mode_mismatch missing_dns stale_dns value_dns : DriftKind

-- what the detail of a drift names
pub data DriftDetail : Type 0 where
  -- the edge and the service
  exposed_elsewhere : Text → Text → DriftDetail
  -- the edge and the service, and a covering wildcard with what it dials
  half_present : Text → Text → Option (Text × Text) → DriftDetail
  -- the mode found and the canonical one
  other_mode_at : RouteMode → Text → RouteMode → DriftDetail
  -- the wildcard, what it answers, and the target
  wildcard_answers : Text → Text → Text → DriftDetail
  no_record exposed_nowhere : DriftDetail
  -- what the record has, and the target
  points_at : Text → Text → DriftDetail

pub record Drift : Type 0 where
  pub kind : DriftKind
  pub host : Text
  pub target : Text
  pub detail : DriftDetail

pub record ReconcilePlan : Type 0 where
  pub drift : List Drift
  pub change : ChangeSet

-- `canonicalState` and `canonTerminal` at one lower-case key
pub record Canonical : Type 0 where
  pub key : Text
  pub host : Text
  pub mode : RouteMode
  pub auth : Text
  pub from_terminal : Bool

abbrev entry_of : Route → Bool → Canonical
entry_of r terminal = record {
  key = to_lower r.host;
  host = r.host;
  mode = r.upstream.mode;
  auth = r.upstream.auth;
  from_terminal = terminal;
}

-- A later route of the key gives the display host; the first terminal one gives mode and auth.
abbrev seen_again : Route → Bool → Canonical → Canonical
seen_again r terminal c =
    if terminal && not c.from_terminal
    then record c {
      host = r.host;
      mode = r.upstream.mode;
      auth = r.upstream.auth;
      from_terminal = true;
    }
    else record c { host = r.host }

unfoldable pub note_route : Route → Bool → List Canonical → List Canonical
note_route r terminal [] = entry_of r terminal ∷ []
note_route r terminal (c ∷ cs) =
    let rest = note_route r terminal cs in
    if c.key == to_lower r.host then seen_again r terminal c ∷ cs else c ∷ rest

-- `sortedStrKeys`, with what the maps have at the keys
unfoldable pub by_key : List Canonical → List Canonical
by_key cs = sort_stable (λ c d. text_less c.key d.key) cs

-- the value of a mode, which `cur != mode` compares
unfoldable pub mode_value : RouteMode → Text
mode_value http_proxy = []
mode_value tcp_passthrough = codes "tcp_passthrough"
mode_value mesh_grant = codes "mesh_grant"
mode_value (other_mode m) = m

abbrev pub same_mode : RouteMode → RouteMode → Bool
same_mode m n = mode_value m == mode_value n

-- `modeOf`
unfoldable pub mode_of : LiveEdgeState → Text → Option RouteMode
mode_of live host = elim (route_of live host) [ none ↦ none | some r ↦ some r.upstream.mode ]

abbrev is_terminal : ChainRole → Bool
is_terminal role_terminal = true
is_terminal role_none = false
is_terminal role_forward = false

-- `edgeView`
abbrev pub EdgeView : Type 0 → Type 0
EdgeView W = EdgeBinding W × LiveEdgeState

module _ {W : Type 0} where
  -- `anyFronts`
  unfoldable pub any_fronts : Engine W → Text → Bool
  any_fronts e service = any (λ b. fronts_service b service) e.edges

  unfoldable pub note_routes :
      Engine W → EdgeBinding W → List Route → List Canonical → List Canonical
  note_routes e b [] canon = canon
  note_routes e b (r ∷ rs) canon =
      let service = service_of e r.host in
      note_routes e b rs (
        if not (any_fronts e service)
        then canon
        else note_route r (is_terminal (role_for e b service)) canon)

  -- the views of the edges, and the canonical state
  unfoldable pub read_views :
      Engine W
      → List (EdgeBinding W)
      → List Canonical
      → W
      → Result Error (List (EdgeView W) × List Canonical)
  read_views e [] canon w = ok ([], canon)
  read_views e (b ∷ bs) canon w =
      map_err (read_edge_failed b.name) (b.provider.read_live_state w) >>= λ live.
      read_views e bs (note_routes e b live.routes canon) w >>= λ rest.
      ok ((b, live) ∷ rest.0, rest.1)
