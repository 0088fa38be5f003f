-- ===== src/Reconcile/Converging.antt =====
-- internal/core/reconcile.go: `Reconcile` and `verifyReconcile`, over the steps of internal/core/apply.go.
use crenel.Prelude.{
  Bool, true, false, not, ◌&&◌, List, [], ◌∷◌, ◌++◌, map, find, is_nil, keep_if, Option, none, some,
  Text, codes, ◌==◌, text_eq, if◌then◌else◌, Result, ok, err,
}
use crenel.Model.{
  expose, plain_op, Route, LiveEdgeState, reachable, Record, zero_edge_change, DnsChange, EdgePlan,
  ChangeSet,
}
use crenel.Reports.{
  Error, apply_step_failed, verification_failed, unverified_write, Detail, reread_failed,
  deny_missing_after_reconcile, consistent_with_canonical, expected_reachable, mode_differs,
  auth_after_rerender, records_consistent, record_missing, record_present, VerifyResult, verdict,
  verified, runtime_unconfirmed_results, Outcome, no_outcome,
}
use crenel.Ports.{DnsProvider}
use crenel.Engine.{EdgeBinding, Engine, service_of, gate_read_only}
use crenel.Chain.{ChainRole, role_none, role_terminal, role_forward, role_for}
use crenel.Follow.{chain_forward}
use crenel.Gate.{gate_ownership}
use crenel.Steps.{ApplyStep, snapshots, build_steps, dns_label}
use crenel.Rollback.{Compensator, probe_edge, rollback}
use crenel.Checks.{route_of}
use crenel.Apply.{StepsRun, ran, stopped, run_steps, persist_edges}
use crenel.Import.{binding_label}
use crenel.Declarative.Planning.{has_key}
use crenel.Reconcile.Canonical.{ReconcilePlan, Canonical, same_mode, mode_of}
use crenel.Reconcile.Routes.{wildcard_route_covering}
use crenel.Reconcile.Records.{plan_reconcile}

pub record ReconcileReport : Type 0 where
  pub plan : ReconcilePlan
  pub converged : Bool
  pub applied : Bool
  pub verify : List VerifyResult
  pub outcome : Outcome

-- the plan of a report that no plan was computed for
abbrev empty_plan : ReconcilePlan
empty_plan = record {
  drift = [];
  change = record {
    op = plain_op expose [] [];
    edge = zero_edge_change;
    edges = [];
    dns = [];
    new_public = [];
  };
}

abbrev pub report_of : ReconcilePlan → ReconcileReport
report_of p = record {
  plan = p;
  converged = false;
  applied = false;
  verify = [];
  outcome = no_outcome;
}

abbrev settled : ReconcileReport → Outcome → ReconcileReport
settled rep o = record rep { outcome = o }

abbrev names_of : List VerifyResult → List Text
names_of vs = map (λ v. v.provider) vs

-- `addedRoutesForEdge`
unfoldable pub added_routes_for : Text → List EdgePlan → List Route
added_routes_for edge ps = elim (find (λ p. p.edge == edge) ps) [
  | none ↦ []
  | some p ↦ p.change.add_routes
]

-- the auth policies of the routes that were added; `authOf` is by the first route of the host
unfoldable pub auth_wrong : LiveEdgeState → List Route → Option Detail
auth_wrong live [] = none
auth_wrong live (want ∷ wants) =
    let rest = auth_wrong live wants in
    elim (route_of live want.host) [
      | none ↦ some (auth_after_rerender want.host [])
      | some got ↦
          if got.upstream.auth == want.upstream.auth
          then rest
          else some (auth_after_rerender want.host got.upstream.auth)
    ]

unfoldable pub records_wrong : List Record → List Record → List Record → Option Detail
records_wrong live adds removes = elim (find (λ d. not (has_key live d)) adds) [
  | some d ↦ some (record_missing d)
  | none ↦ elim (find (λ d. has_key live d) removes) [
    | some d ↦ some (record_present d)
    | none ↦ none
  ]
]

abbrev pub judged : Text → Detail → Option Detail → VerifyResult
judged label fine none = verdict label true fine
judged label fine (some d) = verdict label false d

-- the world, the report, and the error if any
abbrev pub Ended : Type 0 → Type 0
Ended W = W × ReconcileReport × Option Error

abbrev mode_wrong : Canonical → LiveEdgeState → Option Detail
mode_wrong c live = elim (mode_of live c.host) [
  | none ↦ some (mode_differs c.host c.mode none)
  | some m ↦ if same_mode m c.mode then none else some (mode_differs c.host c.mode (some m))
]

abbrev served_wrong : Canonical → LiveEdgeState → Option Detail
served_wrong c live =
    if not (reachable live c.host) then some (expected_reachable c.host) else mode_wrong c live

module _ {W : Type 0} where
  -- a wildcard route at a front that forwards to its downstream edge
  abbrev carried : EdgeBinding W → Option Route → Bool
  carried b none = false
  carried b (some r) = chain_forward b r

  abbrev pub entry_wrong : EdgeBinding W → LiveEdgeState → Canonical → ChainRole → Option Detail
  entry_wrong b live c role_none = none
  entry_wrong b live c role_terminal = served_wrong c live
  entry_wrong b live c role_forward =
      if not (reachable live c.host) && carried b (wildcard_route_covering live.routes c.host)
      then none
      else served_wrong c live

  -- The canonical hosts at one edge, of which the first that is wrong is reported.
  unfoldable pub canonical_wrong :
      Engine W → EdgeBinding W → LiveEdgeState → List Canonical → Option Detail
  canonical_wrong e b live [] = none
  canonical_wrong e b live (c ∷ cs) =
      let rest = canonical_wrong e b live cs in
      elim (entry_wrong b live c (role_for e b (service_of e c.host))) [
        | some d ↦ some d
        | none ↦ rest
      ]

  abbrev pub edge_wrong :
      Engine W → List Canonical → ChangeSet → EdgeBinding W → LiveEdgeState → Option Detail
  edge_wrong e canon cs b live = elim (canonical_wrong e b live canon) [
    | some d ↦ some d
    | none ↦ auth_wrong live (added_routes_for b.name cs.edges)
  ]

  abbrev pub edge_verdict :
      Engine W
      → List Canonical
      → ChangeSet
      → EdgeBinding W
      → Result Error LiveEdgeState
      → VerifyResult
  edge_verdict e canon cs b (err x) = verdict (binding_label b) false (reread_failed x)
  edge_verdict e canon cs b (ok live) =
      if not live.deny_catch_all_present
      then verdict (binding_label b) false deny_missing_after_reconcile
      else judged (binding_label b) consistent_with_canonical (edge_wrong e canon cs b live)

  abbrev pub provider_verdict : DnsProvider W → List Record → List Record → W → VerifyResult
  provider_verdict p adds removes w = elim (p.live_records w) [
    | err x ↦ verdict (dns_label p) false (reread_failed x)
    | ok live ↦ judged (dns_label p) records_consistent (records_wrong live adds removes)
  ]

  -- the providers with the changes at their places, of which there may be fewer
  unfoldable pub verify_providers : List DnsChange → List (DnsProvider W) → W → List VerifyResult
  verify_providers cs [] w = []
  verify_providers [] (p ∷ ps) w = provider_verdict p [] [] w ∷ verify_providers [] ps w
  verify_providers (c ∷ cs) (p ∷ ps) w =
      provider_verdict p c.add c.remove w ∷ verify_providers cs ps w

  -- `verifyReconcile`
  unfoldable pub verify_reconcile : Engine W → List Canonical → ChangeSet → W → List VerifyResult
  verify_reconcile e canon cs w =
      map (λ b. edge_verdict e canon cs b (b.provider.read_live_state w)) e.edges
      ++ verify_providers cs.dns e.dns w

  abbrev finish_rollback : ReconcileReport → Error → W × Outcome → Ended W
  finish_rollback rep x (w, o) = (w, settled rep o, some x)

  abbrev persisted : ReconcileReport → W × Outcome → Ended W
  persisted rep (w, o) = (w, settled rep o, none)

  -- `gateRuntimeVerify` and what follows it
  unfoldable pub accept : Engine W → List (Compensator W) → ReconcileReport → W → Ended W
  accept e applied rep w =
      let unconfirmed = runtime_unconfirmed_results rep.verify in
      if not e.allow_unverified && not (is_nil unconfirmed)
      then finish_rollback rep (unverified_write (names_of unconfirmed))
          (rollback e applied w rep.outcome)
      else persisted rep (persist_edges e [] rep.plan.change.edges w rep.outcome)

  -- the read-back, after all steps were applied
  unfoldable pub settle :
      Engine W → List Canonical → List (Compensator W) → ReconcileReport → W → Ended W
  unfolding accept
  settle e canon applied rep w =
      let rep' = record rep {
        applied = true;
        verify = verify_reconcile e canon rep.plan.change w;
      } in
      if not (verified rep'.verify)
      then finish_rollback rep'
          (verification_failed (names_of (keep_if (λ v. not v.passed) rep'.verify)))
          (rollback e applied w rep'.outcome)
      else accept e applied rep' w

  abbrev probed : ApplyStep W → W → Outcome → Outcome
  probed s w o = elim s.edge [ none ↦ o | some p ↦ (probe_edge p w o).1 ]

  unfoldable pub after_steps :
      Engine W → List Canonical → ReconcileReport → W × StepsRun W → Ended W
  unfolding settle
  after_steps e canon rep (w, ran applied) = settle e canon applied rep w
  after_steps e canon rep (w, stopped applied s x) =
      finish_rollback rep (apply_step_failed s.name x)
        (rollback e applied w (probed s w rep.outcome))

  unfoldable pub converge : Engine W → List Canonical → ReconcileReport → W → Ended W
  unfolding after_steps run_steps
  converge e canon rep w = elim (snapshots e rep.plan.change.edges w) [
    | err x ↦ (w, rep, some x)
    | ok snaps ↦
        after_steps e canon rep
          (run_steps (build_steps e (plain_op expose [] []) rep.plan.change snaps) [] w)
  ]

  abbrev pub confirmed :
      Engine W → List Canonical → ReconcileReport → Result Error Bool → W → Ended W
  confirmed e canon rep (err x) w = (w, rep, some x)
  confirmed e canon rep (ok yes_) w = if not yes_ then (w, rep, none) else converge e canon rep w

  -- from the plan on
  unfoldable pub reconcile_planned :
      Engine W → ReconcilePlan → List Canonical → (ReconcilePlan → Result Error Bool) → W → Ended W
  reconcile_planned e p canon confirm w =
      if is_nil p.drift
      then (w, record (report_of p) { converged = true }, none)
      else elim (gate_ownership e p.change w) [
        | err x ↦ (w, report_of p, some x)
        | ok u ↦ confirmed e canon (report_of p) (confirm p) w
      ]

  -- `Reconcile`
  unfoldable pub reconcile : Engine W → (ReconcilePlan → Result Error Bool) → W → Ended W
  reconcile e confirm w = elim (gate_read_only e (codes "reconcile")) [
    | err x ↦ (w, report_of empty_plan, some x)
    | ok u ↦ elim (plan_reconcile e w) [
      | err x ↦ (w, report_of empty_plan, some x)
      | ok found ↦ reconcile_planned e found.0 found.1 confirm w
    ]
  ]
