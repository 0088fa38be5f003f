-- ===== src/Verify.antt =====
-- internal/core/apply.go: the read-back verification of a change, over the edges and the DNS
-- providers.
pub mod Sound
pub mod Mirror
use crenel.Prelude.{
  ℕ, Bool, true, false, not, ◌&&◌, ◌||◌, List, [], ◌∷◌, ◌++◌, map, find, is_nil, Option, none, some,
  Text, codes, ◌==◌, text_eq, equal_fold, trim_space, if◌then◌else◌, Result, ok, err,
}
use crenel.Model.{
  Op, Verb, expose, unexpose, rename, is_mesh_grant, auth_none, Route, LiveEdgeState, has_host,
  reachable, Record, same_key, EdgeChange, EdgePlan, ChangeSet,
}
use crenel.Reports.{
  Error, RuntimeVerification, RuntimeVerifyStatus, runtime_confirmed, runtime_failed,
  runtime_unavailable, Detail, reread_failed, deny_missing_after_apply, scope_not_appointed,
  host_outside_zone, now_reachable, not_reachable, no_longer_exposed, still_present,
  renamed_to_not_reachable, renamed_from_present, auth_route_absent, renamed, auth_differs,
  tls_route_absent, upstream_plain_http, runtime_verify_failed, records_present, records_absent,
  unknown_verb, record_missing, record_value_differs, record_present, VerifyResult, verdict,
}
use crenel.Ports.{EdgeProvider, DnsProvider}
use crenel.Engine.{EdgeBinding, Engine, binding, scope_selected, dns_covers_host}
use crenel.Steps.{edge_label, dns_label}
use crenel.Checks.{
  route_of, normalize_auth_presence, verify_edge_auth, verify_edge_forward_tls, verify_edge_host,
  verify_edge_rename, unless_wrong, fold_runtime, verify_artifact, record_at_key, same_dns_value,
  verify_present, verify_absent, verify_dns,
}

module _ {W : Type 0} where
  abbrev runtime_layer : EdgeProvider W → Op → EdgeChange → W → VerifyResult → VerifyResult
  runtime_layer p op change w res = elim p.verify_runtime [
    | none ↦ res
    | some f ↦ if res.passed then fold_runtime (f op change w) res else res
  ]

  -- an edge that was read again
  unfoldable pub verify_read : EdgeProvider W → Op → W → EdgePlan → LiveEdgeState → VerifyResult
  verify_read provider op w p live =
      if not live.deny_catch_all_present
      then verdict (edge_label p) false deny_missing_after_apply
      else runtime_layer provider op p.change w (verify_artifact (edge_label p) live op p.change)

  unfoldable pub verify_edge : EdgeBinding W → Op → W → EdgePlan → VerifyResult
  unfolding verify_read
  verify_edge b op w p = elim (b.provider.read_live_state w) [
    | err x ↦ verdict (edge_label p) false (reread_failed x)
    | ok live ↦ verify_read b.provider op w p live
  ]

  unfoldable pub verify_edges : Engine W → Op → W → List EdgePlan → List VerifyResult
  unfolding verify_edge
  verify_edges e op w [] = []
  verify_edges e op w (p ∷ ps) =
      let rest = verify_edges e op w ps in
      elim (binding e p.edge) [ none ↦ rest | some b ↦ verify_edge b op w p ∷ rest ]

  -- An error of `DesiredRecords` is dropped by the code, with no records in its place.
  abbrev pub desired_or_nil : DnsProvider W → Op → List Record
  desired_or_nil p op = elim (p.desired_records op) [ ok rs ↦ rs | err x ↦ [] ]

  unfoldable pub verify_provider : Op → W → DnsProvider W → VerifyResult
  verify_provider op w p =
      if not (scope_selected op.scopes p.scope)
      then verdict (dns_label p) true scope_not_appointed
      else if not (dns_covers_host p op.host)
      then verdict (dns_label p) true host_outside_zone
      else elim (p.live_records w) [
        | err x ↦ verdict (dns_label p) false (reread_failed x)
        | ok live ↦ verify_dns (dns_label p) op (desired_or_nil p op) live
      ]

  unfoldable pub verify : Engine W → Op → ChangeSet → W → List VerifyResult
  unfolding verify_edges
  verify e op cs w = verify_edges e op w cs.edges ++ map (verify_provider op w) e.dns
