-- ===== src/Chain.antt =====
-- internal/core/chain_write.go: the role of each edge for a service, the forward route of a chain
-- front, and the depth of each edge.
pub mod Reach
pub mod Complete
pub mod Relax
pub mod Depth
use crenel.Prelude.{
  ℕ, zero, suc, ◌+◌, ◌<◌, Bool, true, false, not, ◌&&◌, ◌||◌, List, [], ◌∷◌, ◌++◌, map, any,
  contains, find, is_nil, keep_if, length, Option, none, some, Text, codes, ◌==◌, text_eq, nat_eq,
  to_lower, equal_fold, trim_suffix, trim_space, has_prefix, has_suffix, split_last, split_host,
  after_first, if◌then◌else◌, ltb, Result, ok, err, ◌>>=◌,
}
use crenel.Model.{
  Op, Verb, expose, unexpose, rename, RouteMode, http_proxy, is_mesh_grant, auth_downstream_marker,
  Route, Upstream, direct_backend, unset, ChainLink, LinkReason, no_reason, not_configured,
  could_not_be_read, dangling_forward, wildcard_relay, LiveEdgeState, has_host, EdgeChange,
}
use crenel.Reports.{Error, no_downstream_address}
use crenel.Engine.{EdgeBinding, Engine, binding, fronts_service, internal_scoped}

pub data ChainRole : Type 0 where
  role_none role_terminal role_forward : ChainRole

-- `dialIsTLSPort`
unfoldable pub dial_is_tls_port : Text → Bool
dial_is_tls_port dial = elim (split_last b':' dial) [
  | none ↦ false
  | some (before, port) ↦ port == codes "443"
]

abbrev pub kept_deny : List Route → List Text → EdgeChange
kept_deny added removed = record {
  add_routes = added;
  remove_hosts = removed;
  deny_catch_all_will_be_present = true;
}

-- The map of depths as a function; its keys are the names of the edges.
abbrev pub Depths : Type 0
Depths = Text → ℕ

abbrev set_depth : Depths → Text → ℕ → Depths
set_depth depth name d x = if name == x then d else depth x

module _ {W : Type 0} where
  -- `isChainFront`
  abbrev pub is_chain_front : EdgeBinding W → Bool
  is_chain_front b = not (b.downstream_edge == [])

  -- `downstreamParticipates` on fuel: each call marks one more edge as visited.
  unfoldable pub participates_from : Engine W → ℕ → List Text → EdgeBinding W → Text → Bool
  participates_from e zero visited b service = false
  participates_from e (suc fuel) visited b service =
      if b.downstream_edge == [] || contains visited b.name
      then false
      else elim (binding e b.downstream_edge) [
        | none ↦ false
        | some d ↦ fronts_service d service || participates_from e fuel (b.name ∷ visited) d service
      ]

  unfoldable pub downstream_participates : Engine W → EdgeBinding W → Text → Bool
  downstream_participates e b service =
      participates_from e (suc (suc (length e.edges))) [] b service

  unfoldable pub role_for : Engine W → EdgeBinding W → Text → ChainRole
  role_for e b service =
      if fronts_service b service
      then role_terminal
      else if internal_scoped e service
      then role_none
      else if is_chain_front b && downstream_participates e b service
      then role_forward
      else role_none

  -- `forwardDial`
  unfoldable pub forward_dial : EdgeBinding W → Result Error Text
  forward_dial b =
      if b.downstream_address == []
      then err (no_downstream_address b.name)
      else ok b.downstream_address

  unfoldable pub downstream_uses_tls : EdgeBinding W → Text → Bool
  downstream_uses_tls b dial =
      let scheme = to_lower (trim_space b.downstream_scheme) in
      if scheme == codes "https"
      then true
      else if scheme == codes "http"
      then false
      else dial_is_tls_port dial

  unfoldable pub forward_route : EdgeBinding W → Text → Result Error Route
  unfolding forward_dial
  forward_route b host = do
    dial ← forward_dial b
    ok (record {
      host = host;
      upstream = record {
        kind = direct_backend;
        mode = http_proxy;
        address = dial;
        tls_passthrough = false;
        server_name = host;
        upstream_tls = downstream_uses_tls b dial;
        auth = [];
      };
      managed = false;
      ownership = unset;
      chain = none;
    })

  unfoldable pub plan_forward : EdgeBinding W → Op → LiveEdgeState → Result Error EdgeChange
  plan_forward b op live = elim op.verb [
    | expose ↦
        if has_host live op.host
        then ok (kept_deny [] [])
        else (forward_route b op.host >>= λ r. ok (kept_deny (r ∷ []) []))
    | unexpose ↦ ok (kept_deny [] (if has_host live op.host then op.host ∷ [] else []))
    | rename ↦ ok (kept_deny [] [])
  ]

  abbrev pub is_edge_name : Engine W → Text → Bool
  is_edge_name e name = any (λ b. b.name == name) e.edges

  -- one edge of a pass, with the flag `changed`
  unfoldable pub relax_edge : Engine W → EdgeBinding W → Depths × Bool → Depths × Bool
  relax_edge e b (depth, changed) =
      if b.downstream_edge == []
      then (depth, changed)
      else if not (is_edge_name e b.downstream_edge)
      then (depth, changed)
      else if ltb (depth b.downstream_edge) (depth b.name + 1)
      then (set_depth depth b.downstream_edge (depth b.name + 1), true)
      else (depth, changed)

  unfoldable pub relax_edges : Engine W → List (EdgeBinding W) → Depths × Bool → Depths × Bool
  relax_edges e [] state = state
  relax_edges e (b ∷ bs) state = relax_edges e bs (relax_edge e b state)

  unfoldable pub relax_loop : Engine W → ℕ → Depths → Depths
  relax_loop e zero depth = depth
  relax_loop e (suc passes) depth =
      let (depth', changed) = relax_edges e e.edges (depth, false) in
      elim changed [ true ↦ relax_loop e passes depth' | false ↦ depth' ]

  unfoldable pub chain_depth : Engine W → Depths
  chain_depth e = relax_loop e (length e.edges) (λ name. 0)
