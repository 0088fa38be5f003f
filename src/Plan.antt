-- ===== src/Plan.antt =====
-- internal/core/engine.go: `Plan` and `computeNewPublic`.
pub mod Parts
pub mod Alignment
pub mod Boundary
pub mod Announced
pub mod NewPublic
use crenel.Prelude.{
  ℕ, Bool, true, false, not, ◌&&◌, ◌||◌, List, [], ◌∷◌, ◌++◌, map, any, contains, is_nil, Option,
  none, some, Text, ◌==◌, text_eq, if◌then◌else◌, Result, ok, err, ◌>>=◌, ◌>>◌, map_err,
}
use crenel.Model.{
  Op, is_expose, is_mesh_grant, Scope, internal, public, scope_eq, validate_auth, AuthUnsupported,
  Route, Record, EdgeChange, DnsChange, no_dns_change, EdgePlan, ChangeSet, zero_edge_change,
}
use crenel.Reports.{
  Error, auth_unsupported_for_mode, public_appointment_contradicts, read_edge_failed,
  plan_edge_failed, plan_forward_failed, no_named_edge_fronts, no_edge_fronts,
  desired_records_failed, dns_diff_failed,
}
use crenel.Ports.{EdgeProvider, DnsProvider}
use crenel.Engine.{
  EdgeBinding, Engine, edge_selected, scope_selected, internal_scoped, dns_covers_host,
  residency_supported,
}
use crenel.Chain.{ChainRole, role_none, role_terminal, role_forward, role_for, plan_forward}

-- `ValidateAuth`, its error as one of core's
abbrev check_auth : Op → Result Error (Unit {0})
check_auth op = elim (validate_auth op.mode op.auth) [
  | ok u ↦ ok u
  | err x ↦ err (auth_unsupported_for_mode x)
]

abbrev check_participants : Op → List EdgePlan → Result Error (Unit {0})
check_participants op plans =
    if is_expose op.verb && is_nil plans
    then (if is_nil op.edges
        then err (no_edge_fronts op.service)
        else err (no_named_edge_fronts op.edges op.service))
    else ok tt

-- the names that the records or the routes of the change would announce
unfoldable pub public_record_names : List DnsChange → List Text
public_record_names [] = []
public_record_names (d ∷ ds) =
    (if d.scope == public then map (λ r. r.name) d.add else []) ++ public_record_names ds

unfoldable pub data_plane_hosts : List Route → List Text
data_plane_hosts [] = []
data_plane_hosts (r ∷ rs) =
    let rest = data_plane_hosts rs in if is_mesh_grant r.upstream.mode then rest else r.host ∷ rest

unfoldable pub edge_hosts : List EdgePlan → List Text
unfolding data_plane_hosts
edge_hosts [] = []
edge_hosts (p ∷ ps) = data_plane_hosts p.change.add_routes ++ edge_hosts ps

-- `add`: each host once, in the order of arrival, and the empty name never
unfoldable pub add_hosts : List Text → List Text → List Text
add_hosts out [] = out
add_hosts out (h ∷ hs) = add_hosts (if h == [] || contains out h then out else out ++ (h ∷ [])) hs

module _ {W : Type 0} where
  -- an explicit public appointment of an internal-only service
  abbrev check_scopes : Engine W → Op → Result Error (Unit {0})
  check_scopes e op =
      if internal_scoped e op.service && contains op.scopes public
      then err (public_appointment_contradicts op.service)
      else ok tt

  abbrev edge_plan : EdgeBinding W → EdgeChange → EdgePlan
  edge_plan b change = record { edge = b.name; driver = b.provider.name; change = change }

  -- One participating edge: its live state is read, and the change planned for its role.
  unfoldable pub plan_edge : EdgeBinding W → ChainRole → Op → W → Result Error (List EdgePlan)
  plan_edge b role_none op w = ok []
  plan_edge b role_terminal op w = do
    live ← map_err (read_edge_failed b.name) (b.provider.read_live_state w)
    sub ← map_err (plan_edge_failed b.name) (b.provider.plan op live)
    ok (edge_plan b sub.edge ∷ [])
  plan_edge b role_forward op w = do
    live ← map_err (read_edge_failed b.name) (b.provider.read_live_state w)
    change ← map_err (plan_forward_failed b.name) (plan_forward b op live)
    ok (edge_plan b change ∷ [])

  -- The loop over the edges. An edge that takes part adds one plan, so the code's counter
  -- `participating` is the number of plans.
  unfoldable pub plan_edges :
      Engine W → List (EdgeBinding W) → Op → W → Result Error (List EdgePlan)
  unfolding plan_edge
  plan_edges e [] op w = ok []
  plan_edges e (b ∷ bs) op w = do
    first ←
        plan_edge b (if edge_selected op.edges b.name then role_for e b op.service else role_none)
          op w
    rest ← plan_edges e bs op w
    ok (first ++ rest)

  -- the three reasons for which a provider's slot stays empty
  unfoldable pub dns_skipped : Engine W → Op → DnsProvider W → Bool
  dns_skipped e op p =
      not (scope_selected op.scopes p.scope)
      || not (dns_covers_host p op.host)
      || (p.scope == public && internal_scoped e op.service)

  unfoldable pub plan_provider : Engine W → Op → W → DnsProvider W → Result Error DnsChange
  plan_provider e op w p = if dns_skipped e op p then ok (no_dns_change p.scope) else do
    residency_supported p op.residency
    desired ← map_err (desired_records_failed p.name) (p.desired_records op)
    map_err (dns_diff_failed p.name) (p.diff op desired w)

  unfoldable pub plan_dns : Engine W → Op → W → List (DnsProvider W) → Result Error (List DnsChange)
  plan_dns e op w [] = ok []
  plan_dns e op w (p ∷ ps) = do
    change ← plan_provider e op w p
    rest ← plan_dns e op w ps
    ok (change ∷ rest)

  abbrev pub has_public_dns : Engine W → Bool
  has_public_dns e = any (λ p. p.scope == public) e.dns

  unfoldable pub compute_new_public : Engine W → Op → List EdgePlan → List DnsChange → List Text
  unfolding add_hosts public_record_names edge_hosts
  compute_new_public e op plans changes =
      if not (is_expose op.verb)
      then []
      else if has_public_dns e
      then add_hosts [] (public_record_names changes)
      else add_hosts [] (edge_hosts plans)

  unfoldable pub plan : Engine W → Op → W → Result Error ChangeSet
  plan e op w = do
    check_auth op
    check_scopes e op
    plans ← plan_edges e e.edges op w
    check_participants op plans
    changes ← plan_dns e op w e.dns
    ok (record {
      op = op;
      edge = zero_edge_change;
      edges = plans;
      dns = changes;
      new_public = compute_new_public e op plans changes;
    })
