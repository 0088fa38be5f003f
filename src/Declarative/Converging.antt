-- ===== src/Declarative/Converging.antt =====
-- internal/core/declarative.go: `ApplyDeclarative` and `verifyDeclarative`, over the steps of
-- internal/core/apply.go.
use crenel.Prelude.{
  Bool, true, false, not, ◌&&◌, List, [], ◌∷◌, ◌++◌, map, find, contains, is_nil, keep_if, Option,
  none, some, Text, codes, ◌==◌, text_eq, to_lower, if◌then◌else◌, Result, ok, err,
}
use crenel.Model.{
  expose, plain_op, Route, LiveEdgeState, has_host, reachable, Record, zero_edge_change, DnsChange,
  EdgePlan, ChangeSet,
}
use crenel.Reports.{
  Error, apply_blocked, apply_step_failed, verification_failed, unverified_write, Detail,
  reread_failed, deny_missing_after_apply, expected_reachable, expected_pruned,
  consistent_with_exposures, records_consistent, record_missing, record_value_differs,
  record_present, VerifyResult, verdict, verified, runtime_unconfirmed_results, Outcome, no_outcome,
}
use crenel.Ports.{DnsProvider}
use crenel.Engine.{EdgeBinding, Engine, gate_read_only}
use crenel.Gate.{gate_ownership}
use crenel.Steps.{ApplyStep, snapshots, build_steps, dns_label}
use crenel.Rollback.{Compensator, probe_edge, rollback}
use crenel.Checks.{verify_edge_auth, verify_edge_forward_tls, record_at_key, same_dns_value}
use crenel.Apply.{Confirm, StepsRun, ran, stopped, run_steps, persist_edges}
use crenel.Import.{hosts_on, binding_label, adopt_edges}
use crenel.Declarative.Exposures.{Exposure, Options, DeclarativePlan, plan_empty}
use crenel.Declarative.Planning.{has_key, plan_declarative}

pub record DeclarativeReport : Type 0 where
  pub plan : DeclarativePlan
  pub applied : Bool
  pub verify : List VerifyResult
  pub outcome : Outcome

-- the plan of a report that no plan was computed for
abbrev empty_plan : DeclarativePlan
empty_plan = record {
  change = record {
    op = plain_op expose [] [];
    edge = zero_edge_change;
    edges = [];
    dns = [];
    new_public = [];
  };
  new_public = [];
  adopt = [];
  prune = [];
  blocked = [];
}

abbrev pub report_of : DeclarativePlan → DeclarativeReport
report_of p = record { plan = p; applied = false; verify = []; outcome = no_outcome }

-- `addRoutesOnEdge`
unfoldable pub add_routes_on : Text → List EdgePlan → List Route
add_routes_on edge [] = []
add_routes_on edge (p ∷ ps) =
    let rest = add_routes_on edge ps in
    if not (p.edge == edge) then rest else p.change.add_routes ++ rest

-- `desiredHostsOnEdge`
unfoldable pub desired_hosts_on : DeclarativePlan → Text → List Text
desired_hosts_on p edge =
    map (λ r. r.host) (add_routes_on edge p.change.edges) ++ hosts_on edge p.adopt

-- the first host that is not pruned and not reachable
abbrev pub unreached : List Text → LiveEdgeState → List Text → Option Text
unreached pruned live hosts =
    find (λ h. not (contains (map to_lower pruned) (to_lower h)) && not (reachable live h)) hosts

abbrev pub or_else : {A : Type 0} → Option A → Option A → Option A
or_else (some x) other = some x
or_else none other = other

-- The checks on one edge, of which the first that fails is reported.
unfoldable pub edge_wrong : DeclarativePlan → Text → LiveEdgeState → Option Detail
edge_wrong p edge live = elim (unreached p.prune live (desired_hosts_on p edge)) [
  | some h ↦ some (expected_reachable h)
  | none ↦ elim (find (λ h. has_host live h) p.prune) [
    | some h ↦ some (expected_pruned h)
    | none ↦
        or_else (verify_edge_auth live (add_routes_on edge p.change.edges))
          (verify_edge_forward_tls live (add_routes_on edge p.change.edges))
  ]
]

abbrev pub judged : Text → Detail → Option Detail → VerifyResult
judged label fine none = verdict label true fine
judged label fine (some d) = verdict label false d

unfoldable pub adds_wrong : List Record → List Record → Option Detail
adds_wrong live [] = none
adds_wrong live (d ∷ ds) =
    let rest = adds_wrong live ds in
    elim (record_at_key live d) [
      | none ↦ some (record_missing d)
      | some r ↦ if same_dns_value r.value d.value then rest else some (record_value_differs d)
    ]

unfoldable pub removes_wrong : List Record → List Record → Option Detail
removes_wrong live [] = none
removes_wrong live (d ∷ ds) =
    let rest = removes_wrong live ds in if has_key live d then some (record_present d) else rest

unfoldable pub change_wrong : DnsChange → List Record → Option Detail
change_wrong c live = or_else (adds_wrong live c.add) (removes_wrong live c.remove)

abbrev settled : DeclarativeReport → Outcome → DeclarativeReport
settled rep o = record rep { outcome = o }

abbrev names_of : List VerifyResult → List Text
names_of vs = map (λ v. v.provider) vs

-- the world, the report, and the error if any
abbrev pub Ended : Type 0 → Type 0
Ended W = W × DeclarativeReport × Option Error

-- `declarativeChangeForConfirm`
abbrev pub change_for_confirm : DeclarativePlan → ChangeSet
change_for_confirm p = record p.change { new_public = p.new_public }

module _ {W : Type 0} where
  abbrev pub edge_verdict :
      DeclarativePlan → EdgeBinding W → Result Error LiveEdgeState → VerifyResult
  edge_verdict p b (err x) = verdict (binding_label b) false (reread_failed x)
  edge_verdict p b (ok live) =
      if not live.deny_catch_all_present
      then verdict (binding_label b) false deny_missing_after_apply
      else judged (binding_label b) consistent_with_exposures (edge_wrong p b.name live)

  unfoldable pub verify_bindings : DeclarativePlan → List (EdgeBinding W) → W → List VerifyResult
  verify_bindings p [] w = []
  verify_bindings p (b ∷ bs) w =
      edge_verdict p b (b.provider.read_live_state w) ∷ verify_bindings p bs w

  abbrev pub provider_verdict : DnsProvider W → (List Record → Option Detail) → W → VerifyResult
  provider_verdict d wrong w = elim (d.live_records w) [
    | err x ↦ verdict (dns_label d) false (reread_failed x)
    | ok live ↦ judged (dns_label d) records_consistent (wrong live)
  ]

  -- the providers with the changes at their places, of which there may be fewer
  unfoldable pub verify_providers : List DnsChange → List (DnsProvider W) → W → List VerifyResult
  verify_providers cs [] w = []
  verify_providers [] (d ∷ ds) w = provider_verdict d (λ _. none) w ∷ verify_providers [] ds w
  verify_providers (c ∷ cs) (d ∷ ds) w =
      provider_verdict d (change_wrong c) w ∷ verify_providers cs ds w

  -- `verifyDeclarative`
  unfoldable pub verify_declarative : Engine W → DeclarativePlan → W → List VerifyResult
  verify_declarative e p w = verify_bindings p e.edges w ++ verify_providers p.change.dns e.dns w

  abbrev finish_rollback : DeclarativeReport → Error → W × Outcome → Ended W
  finish_rollback rep x (w, o) = (w, settled rep o, some x)

  abbrev persisted : DeclarativeReport → W × Outcome → Ended W
  persisted rep (w, o) = (w, settled rep o, none)

  -- `gateRuntimeVerify` and what follows it
  unfoldable pub accept : Engine W → List (Compensator W) → DeclarativeReport → W → Ended W
  accept e applied rep w =
      let unconfirmed = runtime_unconfirmed_results rep.verify in
      if not e.allow_unverified && not (is_nil unconfirmed)
      then finish_rollback rep (unverified_write (names_of unconfirmed))
          (rollback e applied w rep.outcome)
      else persisted rep (persist_edges e [] rep.plan.change.edges w rep.outcome)

  -- the read-back, after all steps were applied
  unfoldable pub settle : Engine W → List (Compensator W) → DeclarativeReport → W → Ended W
  unfolding accept
  settle e applied rep w =
      let rep' = record rep { applied = true; verify = verify_declarative e rep.plan w } in
      if not (verified rep'.verify)
      then finish_rollback rep'
          (verification_failed (names_of (keep_if (λ v. not v.passed) rep'.verify)))
          (rollback e applied w rep'.outcome)
      else accept e applied rep' w

  abbrev probed : ApplyStep W → W → Outcome → Outcome
  probed s w o = elim s.edge [ none ↦ o | some p ↦ (probe_edge p w o).1 ]

  unfoldable pub after_steps : Engine W → DeclarativeReport → W × StepsRun W → Ended W
  unfolding settle
  after_steps e rep (w, ran applied) = settle e applied rep w
  after_steps e rep (w, stopped applied s x) =
      finish_rollback rep (apply_step_failed s.name x)
        (rollback e applied w (probed s w rep.outcome))

  -- The zero host and service of the op: only its verb is set.
  unfoldable pub converge : Engine W → DeclarativeReport → W → Ended W
  unfolding after_steps run_steps
  converge e rep w = elim (snapshots e rep.plan.change.edges w) [
    | err x ↦ (w, rep, some x)
    | ok snaps ↦
        after_steps e rep
          (run_steps (build_steps e (plain_op expose [] []) rep.plan.change snaps) [] w)
  ]

  -- after `adoptInline`
  abbrev pub after_adopt : Engine W → DeclarativeReport → W × Option Error → Ended W
  after_adopt e rep (w, some x) = (w, rep, some x)
  after_adopt e rep (w, none) = converge e rep w

  abbrev pub confirmed : Engine W → DeclarativeReport → Result Error Bool → W → Ended W
  confirmed e rep (err x) w = (w, rep, some x)
  confirmed e rep (ok yes_) w =
      if not yes_ then (w, rep, none) else after_adopt e rep (adopt_edges rep.plan.adopt e.edges w)

  -- from the plan on
  unfoldable pub apply_plan : Engine W → DeclarativePlan → Confirm → W → Ended W
  apply_plan e p confirm w =
      if not (is_nil p.blocked)
      then (w, report_of p, some (apply_blocked (map (λ c. c.host) p.blocked)))
      else if plan_empty p
      then (w, report_of p, none)
      else elim (gate_ownership e p.change w) [
        | err x ↦ (w, report_of p, some x)
        | ok u ↦ confirmed e (report_of p) (confirm (change_for_confirm p)) w
      ]

  -- `ApplyDeclarative`
  unfoldable pub apply_declarative : Engine W → List Exposure → Options → Confirm → W → Ended W
  apply_declarative e exs opts confirm w = elim (gate_read_only e (codes "apply")) [
    | err x ↦ (w, report_of empty_plan, some x)
    | ok u ↦ elim (plan_declarative e exs opts w) [
      | err x ↦ (w, report_of empty_plan, some x)
      | ok p ↦ apply_plan e p confirm w
    ]
  ]
