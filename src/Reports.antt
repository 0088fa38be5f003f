-- ===== src/Reports.antt =====
-- internal/core/report.go and internal/model/runtime_verify.go: what an operation reports, and the
-- errors that core returns. A message is a constructor with the values that it names.
pub mod ReportLaws
use crenel.Prelude.{
  ℕ, ◌+◌, Bool, true, false, not, ◌&&◌, ◌||◌, List, [], length, all, any, keep_if, Option, Text,
  Result,
}
use crenel.Model.{
  Op, RouteMode, Scope, AuthUnsupported, Route, Unparsed, IngressKind, PersistenceModel, DenyState,
  Record, deny_state, fully_parsed, is_acknowledged,
}

pub data Error : Type 0 where
  -- any error that a provider or its transport returns
  provider_error : Text → Error
  -- `fmt.Errorf("<context> (<name>): %w", err)`
  read_edge_failed plan_edge_failed plan_forward_failed gate_read_failed : Text → Error → Error
  snapshot_failed rename_read_failed : Text → Error → Error
  desired_records_failed dns_diff_failed read_dns_failed apply_step_failed : Text → Error → Error
  auth_unsupported_for_mode : AuthUnsupported → Error
  -- `ErrReadOnlyEngine`, with the verb
  read_only_engine : Text → Error
  -- `ErrRefuseToManage`: the edge is generated, the host is foreign, or its owner is unknown
  refuse_generated : Text → Text → Error
  refuse_foreign refuse_unknown : Text → Text → Error
  public_appointment_contradicts no_edge_fronts no_downstream_address : Text → Error
  no_named_edge_fronts : List Text → Text → Error
  residency_unsupported : Text → Text → Error
  -- the providers whose read-back failed
  verification_failed : List Text → Error
  -- `UnverifiedWriteError`
  unverified_write : List Text → Error
  ambiguous_service : Text → List Text → Error
  -- no edge could set or remove a marker, with the edges that failed
  ack_no_edge unack_no_edge no_edge_resolves : Text → List Text → Error
  no_edge_named : Text → List Text → Error
  ack_unconfirmed unack_unconfirmed : Text → Error
  -- an edge cannot stamp ownership, or its stamping failed
  adoption_unsupported : Text → Text → Error
  adoption_failed : Text → Error → Error
  -- a driver that plans another number of routes for a service than one
  planned_routes : ℕ → Error
  exposure_without_host : Text → Error
  exposure_refused : Text → Error → Error
  read_live_dns_failed : Text → Error → Error
  -- the hosts that block the apply of a file
  apply_blocked : List Text → Error
  -- a route that reconcile cannot render, or a driver that plans another number of routes for it
  render_failed : Text → Text → Error → Error
  rendered_routes : Text → ℕ → Text → Error
  read_coverage_failed : Text → Error → Error
  rename_hosts_required : Error
  rename_same_host rename_not_exposed : Text → Error
  rename_target_exists rename_auth_not_reproducible : Text → Text → Error

-- `model.RuntimeVerifyStatus` and `model.RuntimeVerification`
pub data RuntimeVerifyStatus : Type 0 where
  runtime_confirmed runtime_failed runtime_unavailable : RuntimeVerifyStatus

pub record RuntimeVerification : Type 0 where
  pub status : RuntimeVerifyStatus
  pub detail : Text

abbrev pub is_unavailable : RuntimeVerifyStatus → Bool
is_unavailable runtime_unavailable = true
is_unavailable runtime_confirmed = false
is_unavailable runtime_failed = false

pub data Detail : Type 0 where
  reread_failed : Error → Detail
  deny_missing_after_apply scope_not_appointed host_outside_zone : Detail
  now_reachable not_reachable no_longer_exposed still_present : Text → Detail
  renamed_to_not_reachable renamed_from_present auth_route_absent : Text → Detail
  renamed auth_differs : Text → Text → Detail
  tls_route_absent upstream_plain_http : Text → Detail
  runtime_verify_failed : Text → Detail
  deny_missing_after_adopt : Detail
  now_managed : ℕ → Detail
  not_managed_after_adopt reachability_changed : Text → Detail
  consistent_with_exposures records_consistent : Detail
  expected_reachable expected_pruned : Text → Detail
  deny_missing_after_reconcile consistent_with_canonical : Detail
  -- the host, the canonical mode, and the mode that was found if any
  mode_differs : Text → RouteMode → Option RouteMode → Detail
  auth_after_rerender : Text → Text → Detail
  records_present records_absent unknown_verb : Detail
  record_missing record_value_differs record_present : Record → Detail

pub record VerifyResult : Type 0 where
  pub provider : Text
  pub passed : Bool
  pub detail : Detail
  pub runtime_checked : Bool
  pub runtime : RuntimeVerifyStatus
  pub runtime_detail : Text

-- `VerifyResult{Provider: provider, OK: passed, Detail: detail}`
abbrev pub verdict : Text → Bool → Detail → VerifyResult
verdict provider passed detail = record {
  provider = provider;
  passed = passed;
  detail = detail;
  runtime_checked = false;
  runtime = runtime_confirmed;
  runtime_detail = [];
}

-- `VerifyResult.RuntimeUnconfirmed`
unfoldable pub runtime_unconfirmed : VerifyResult → Bool
runtime_unconfirmed v = v.runtime_checked && is_unavailable v.runtime

unfoldable pub fully_verified : List VerifyResult → Bool
unfolding runtime_unconfirmed
fully_verified vs = all (λ v. not (not v.passed || runtime_unconfirmed v)) vs

unfoldable pub runtime_unconfirmed_results : List VerifyResult → List VerifyResult
unfolding runtime_unconfirmed
runtime_unconfirmed_results vs = keep_if runtime_unconfirmed vs

pub data RollbackError : Type 0 where
  skipped_unresponsive : Text → RollbackError
  undo_failed : Text → Error → RollbackError

pub data PersistWarning : Type 0 where
  persist_failed : Text → Text → Error → PersistWarning
  ephemeral_write : Text → Text → PersistenceModel → PersistWarning

-- `txnOutcome`; `recovery_hint` says whether the hint, which is one fixed text, is set.
pub record Outcome : Type 0 where
  pub rolled_back : Bool
  pub rollback_errors : List RollbackError
  pub edge_unresponsive : Bool
  pub recovery_hint : Bool
  pub persist_warnings : List PersistWarning

abbrev pub no_outcome : Outcome
no_outcome = record {
  rolled_back = false;
  rollback_errors = [];
  edge_unresponsive = false;
  recovery_hint = false;
  persist_warnings = [];
}

pub record ApplyReport : Type 0 where
  pub op : Op
  pub applied : Bool
  pub no_op : Bool
  pub verify : List VerifyResult
  pub new_public : List Text
  pub outcome : Outcome

-- `ApplyReport{Op: op}`
abbrev pub empty_report : Op → ApplyReport
empty_report op = record {
  op = op;
  applied = false;
  no_op = false;
  verify = [];
  new_public = [];
  outcome = no_outcome;
}

-- `ApplyReport.Verified`
unfoldable pub verified : List VerifyResult → Bool
verified vs = all (λ v. v.passed) vs

pub data Severity : Type 0 where
  critical warning fine : Severity

abbrev is_critical : Severity → Bool
is_critical critical = true
is_critical warning = false
is_critical fine = false

abbrev is_warning : Severity → Bool
is_warning warning = true
is_warning critical = false
is_warning fine = false

pub record AuditFinding : Type 0 where
  pub severity : Severity
  pub finding_code : Text
  pub message : Text

-- `AuditReport.OK`
unfoldable pub audit_ok : List AuditFinding → Bool
audit_ok fs = all (λ f. not (is_critical f.severity || is_warning f.severity)) fs

-- `AuditReport.HasCritical`
unfoldable pub has_critical : List AuditFinding → Bool
has_critical fs = any (λ f. is_critical f.severity) fs

pub record EdgeStatus : Type 0 where
  pub name : Text
  pub driver : Text
  pub routes : List Route
  pub deny_catch_all_present : Bool
  pub unparsed : List Unparsed
  pub generator : Text
  pub ingress_kind : IngressKind
  pub persistence : PersistenceModel

-- the methods of `EdgeStatus`
unfoldable pub status_coverage : EdgeStatus → ℕ × ℕ
status_coverage s = (length s.routes, length s.routes + length s.unparsed)

unfoldable pub acknowledged : EdgeStatus → List Unparsed
acknowledged s = keep_if (λ u. is_acknowledged u.kind) s.unparsed

unfoldable pub status_deny_state : EdgeStatus → DenyState
unfolding deny_state
status_deny_state s = deny_state s.deny_catch_all_present s.unparsed

pub record ScopeRecords : Type 0 where
  pub provider : Text
  pub scope : Scope
  pub records : List Record

pub record StatusReport : Type 0 where
  pub edges : List EdgeStatus
  pub dns : List ScopeRecords
