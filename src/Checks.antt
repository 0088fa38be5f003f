-- ===== src/Checks.antt =====
-- internal/core/apply.go: the checks of the read-back verification, on what was read.
pub mod Passed
use crenel.Prelude.{
  ℕ, Bool, true, false, not, ◌&&◌, ◌||◌, List, [], ◌∷◌, ◌++◌, map, find, is_nil, Option, none, some,
  Text, codes, ◌==◌, text_eq, equal_fold, trim_space, if◌then◌else◌, Result, ok, err,
}
use crenel.Model.{
  Op, Verb, expose, unexpose, rename, is_mesh_grant, auth_none, Route, LiveEdgeState, has_host,
  reachable, Record, same_key, EdgeChange, EdgePlan, ChangeSet,
}
use crenel.Reports.{
  Error, RuntimeVerification, RuntimeVerifyStatus, runtime_confirmed, runtime_failed,
  runtime_unavailable, Detail, reread_failed, deny_missing_after_apply, scope_not_appointed,
  host_outside_zone, now_reachable, not_reachable, no_longer_exposed, still_present,
  renamed_to_not_reachable, renamed_from_present, auth_route_absent, renamed, auth_differs,
  tls_route_absent, upstream_plain_http, runtime_verify_failed, records_present, records_absent,
  unknown_verb, record_missing, record_value_differs, record_present, VerifyResult, verdict,
}
use crenel.Ports.{EdgeProvider, DnsProvider}
use crenel.Engine.{EdgeBinding, Engine, binding, scope_selected, dns_covers_host}
use crenel.Steps.{edge_label, dns_label}

-- the first route of a host, as `authOf` of internal/core/reconcile.go and `upstreamTLSOf` find it
unfoldable pub route_of : LiveEdgeState → Text → Option Route
route_of live host = find (λ r. equal_fold r.host host) live.routes

unfoldable pub normalize_auth_presence : Text → Text
normalize_auth_presence a = if a == auth_none then [] else a

-- `none` is the empty string: nothing is wrong.
unfoldable pub verify_edge_auth : LiveEdgeState → List Route → Option Detail
verify_edge_auth live [] = none
verify_edge_auth live (want ∷ wants) =
    let rest = verify_edge_auth live wants in
    if is_mesh_grant want.upstream.mode then rest else elim (route_of live want.host) [
      | none ↦ some (auth_route_absent want.host)
      | some got ↦
          if normalize_auth_presence got.upstream.auth == normalize_auth_presence want.upstream.auth
          then rest
          else some (auth_differs want.host got.upstream.auth)
    ]

unfoldable pub verify_edge_forward_tls : LiveEdgeState → List Route → Option Detail
verify_edge_forward_tls live [] = none
verify_edge_forward_tls live (want ∷ wants) =
    let rest = verify_edge_forward_tls live wants in
    if not want.upstream.upstream_tls then rest else elim (route_of live want.host) [
      | none ↦ some (tls_route_absent want.host)
      | some got ↦ if got.upstream.upstream_tls then rest else some (upstream_plain_http want.host)
    ]

unfoldable pub verify_edge_host : Text → LiveEdgeState → Op → VerifyResult
verify_edge_host provider live op = elim op.verb [
  | expose ↦
      if reachable live op.host
      then verdict provider true (now_reachable op.host)
      else verdict provider false (not_reachable op.host)
  | unexpose ↦
      if not (has_host live op.host)
      then verdict provider true (no_longer_exposed op.host)
      else verdict provider false (still_present op.host)
  | rename ↦ verdict provider false unknown_verb
]

abbrev head_or_nil : List Text → Text
head_or_nil [] = []
head_or_nil (h ∷ hs) = h

unfoldable pub verify_edge_rename : Text → LiveEdgeState → EdgeChange → VerifyResult
verify_edge_rename provider live change =
    elim (find (λ r. not (reachable live r.host)) change.add_routes) [
      | some r ↦ verdict provider false (renamed_to_not_reachable r.host)
      | none ↦ elim (find (λ h. has_host live h) change.remove_hosts) [
        | some h ↦ verdict provider false (renamed_from_present h)
        | none ↦ verdict provider true (
            renamed (head_or_nil change.remove_hosts)
              (head_or_nil (map (λ r. r.host) change.add_routes)))
      ]
    ]

-- a check that can turn a passed result into a failed one
abbrev pub unless_wrong : Text → Option Detail → VerifyResult → VerifyResult
unless_wrong label none res = res
unless_wrong label (some d) res = if res.passed then verdict label false d else res

abbrev pub fold_runtime : RuntimeVerification → VerifyResult → VerifyResult
fold_runtime v res =
    let checked = record res {
      runtime_checked = true;
      runtime = v.status;
      runtime_detail = v.detail;
    } in
    elim v.status [
      | runtime_failed ↦ record checked { passed = false; detail = runtime_verify_failed v.detail }
      | runtime_confirmed ↦ checked
      | runtime_unavailable ↦ checked
    ]

-- the check of the op's own hosts
unfoldable pub verify_verb : Text → LiveEdgeState → Op → EdgeChange → VerifyResult
verify_verb label live op change = elim op.verb [
  | rename ↦ verify_edge_rename label live change
  | expose ↦ verify_edge_host label live op
  | unexpose ↦ verify_edge_host label live op
]

-- what the artifact of one edge shows
unfoldable pub verify_artifact : Text → LiveEdgeState → Op → EdgeChange → VerifyResult
unfolding verify_verb
verify_artifact label live op change =
    unless_wrong label (verify_edge_forward_tls live change.add_routes) (
      unless_wrong label (verify_edge_auth live change.add_routes)
        (verify_verb label live op change))

-- `liveByKey[d.Key()]`: a later record of the key replaces an earlier one.
unfoldable pub record_at_key : List Record → Record → Option Record
record_at_key [] d = none
record_at_key (r ∷ rs) d = elim (record_at_key rs d) [
  | some later ↦ some later
  | none ↦ if same_key r d then some r else none
]

-- `sameDNSValue` of internal/core/dns_coverage.go, which `verifyDNS` writes out
unfoldable pub same_dns_value : Text → Text → Bool
same_dns_value a b = equal_fold (trim_space a) (trim_space b)

unfoldable pub verify_present : Text → List Record → List Record → VerifyResult
verify_present provider live [] = verdict provider true records_present
verify_present provider live (d ∷ ds) =
    let rest = verify_present provider live ds in
    elim (record_at_key live d) [
      | none ↦ verdict provider false (record_missing d)
      | some r ↦
          if same_dns_value r.value d.value
          then rest
          else verdict provider false (record_value_differs d)
    ]

unfoldable pub verify_absent : Text → List Record → List Record → VerifyResult
verify_absent provider live [] = verdict provider true records_absent
verify_absent provider live (d ∷ ds) =
    let rest = verify_absent provider live ds in
    elim (record_at_key live d) [ none ↦ rest | some r ↦ verdict provider false (record_present d) ]

unfoldable pub verify_dns : Text → Op → List Record → List Record → VerifyResult
unfolding verify_present verify_absent
verify_dns provider op desired live = elim op.verb [
  | expose ↦ verify_present provider live desired
  | unexpose ↦ verify_absent provider live desired
  | rename ↦ verdict provider false unknown_verb
]
