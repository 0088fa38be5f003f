-- ===== src/Apply.antt =====
-- internal/core/apply.go: the mutating flow, from the plan to the
-- verified and persisted change. A flow returns the world, the report, and the error if any.
pub mod Guarded
pub mod Reversal
pub mod Atomic
pub mod Verified
pub mod Providers
pub mod Frame
use crenel.Prelude.{
  ℕ, Bool, true, false, not, ◌&&◌, ◌||◌, List, [], ◌∷◌, ◌++◌, map, contains, keep_if, is_nil,
  Option, none, some, Text, codes, ◌==◌, text_eq, if◌then◌else◌, Result, ok, err,
}
use crenel.Model.{
  Op, Verb, expose, unexpose, rename, EdgePlan, edge_change_empty, dns_change_empty, DnsChange,
  ChangeSet, change_set_empty, ephemeral_writes, PersistenceModel,
}
use crenel.Reports.{
  Error, apply_step_failed, verification_failed, unverified_write, VerifyResult, verified,
  runtime_unconfirmed_results, PersistWarning, persist_failed, ephemeral_write, Outcome, no_outcome,
  ApplyReport, empty_report,
}
use crenel.Ports.{EdgeProvider, DnsProvider}
use crenel.Engine.{EdgeBinding, Engine, binding, gate_read_only}
use crenel.Plan.{plan}
use crenel.Gate.{gate_ownership}
use crenel.Steps.{ApplyStep, Snapshots, snapshots, build_steps, edge_label, dns_label}
use crenel.Rollback.{Compensator, probe_edge, rollback}
use crenel.Verify.{verify}

abbrev pub verb_name : Verb → Text
verb_name expose = codes "expose"
verb_name unexpose = codes "unexpose"
verb_name rename = codes "rename"

-- `ConfirmFunc`
abbrev pub Confirm : Type 0
Confirm = ChangeSet → Result Error Bool

abbrev add_warning : Outcome → PersistWarning → Outcome
add_warning rep x = record rep { persist_warnings = rep.persist_warnings ++ (x ∷ []) }

-- What came of the steps: the compensators of all of them, or what failed and those before it.
pub data StepsRun (W : Type 0) : Type 0 where
  ran : List (Compensator W) → StepsRun W
  stopped : List (Compensator W) → ApplyStep W → Error → StepsRun W

abbrev pub Flow : Type 0 → Type 0
Flow W = W × ApplyReport × Option Error

abbrev with_outcome : ApplyReport → Outcome → ApplyReport
with_outcome rep o = record rep { outcome = o }

-- the failing providers that the error names
abbrev failing : List VerifyResult → List Text
failing vs = map (λ v. v.provider) (keep_if (λ v. not v.passed) vs)

module _ {W : Type 0} where
  abbrev pub compensator_of : ApplyStep W → Compensator W
  compensator_of s = record { name = s.name; undo = s.undo; edge = s.edge }

  -- the loop over the steps; `applied` grows at its end
  unfoldable pub run_steps : List (ApplyStep W) → List (Compensator W) → W → W × StepsRun W
  run_steps [] applied w = (w, ran applied)
  run_steps (s ∷ ss) applied w =
      let (w', failure) = s.forward w in
      elim failure [
        | some x ↦ (w', stopped applied s x)
        | none ↦ run_steps ss (applied ++ (compensator_of s ∷ [])) w'
      ]

  abbrev warn_persist : EdgePlan → EdgeBinding W → W × Option Error → Outcome → W × Outcome
  warn_persist p b (w, none) rep = (w, rep)
  warn_persist p b (w, some x) rep = (w, add_warning rep (persist_failed p.edge b.provider.name x))

  abbrev run_persister : EdgePlan → EdgeBinding W → W → Outcome → W × Outcome
  run_persister p b w rep = elim b.provider.persist [
    | none ↦ (w, rep)
    | some f ↦ warn_persist p b (f w) rep
  ]

  abbrev declare_ephemeral : EdgePlan → EdgeBinding W → Outcome → Outcome
  declare_ephemeral p b rep = elim b.provider.persistence_model [
    | none ↦ rep
    | some m ↦
        if not (edge_change_empty p.change) && ephemeral_writes m
        then add_warning rep (ephemeral_write p.edge b.provider.name m)
        else rep
  ]

  -- one edge of `persistEdges`
  unfoldable pub persist_edge : EdgePlan → EdgeBinding W → W → Outcome → W × Outcome
  persist_edge p b w rep =
      let (w', rep') = run_persister p b w rep in (w', declare_ephemeral p b rep')

  -- `persistEdges`, `seen` first
  unfoldable pub persist_edges : Engine W → List Text → List EdgePlan → W → Outcome → W × Outcome
  unfolding persist_edge
  persist_edges e seen [] w rep = (w, rep)
  persist_edges e seen (p ∷ ps) w rep =
      let skip = persist_edges e seen ps w rep in
      let unknown = persist_edges e (p.edge ∷ seen) ps w rep in
      if contains seen p.edge then skip else elim (binding e p.edge) [
        | none ↦ unknown
        | some b ↦
            let (w', rep') = persist_edge p b w rep in persist_edges e (p.edge ∷ seen) ps w' rep'
      ]

  abbrev finish_rollback : ApplyReport → W × Outcome → Error → Flow W
  finish_rollback rep (w, o) x = (w, with_outcome rep o, some x)

  -- `gateRuntimeVerify` and what follows it
  unfoldable pub accept : Engine W → ChangeSet → List (Compensator W) → ApplyReport → W → Flow W
  accept e cs applied rep w =
      let unconfirmed = runtime_unconfirmed_results rep.verify in
      if not e.allow_unverified && not (is_nil unconfirmed)
      then finish_rollback rep (rollback e applied w rep.outcome)
          (unverified_write (map (λ v. v.provider) unconfirmed))
      else let (w', o) = persist_edges e [] cs.edges w rep.outcome in (w', with_outcome rep o, none)

  -- the read-back, after all steps were applied
  unfoldable pub settle :
      Engine W → Op → ChangeSet → List (Compensator W) → ApplyReport → W → Flow W
  unfolding accept
  settle e op cs applied rep w =
      let rep' = record rep { applied = true; verify = verify e op cs w } in
      if not (verified rep'.verify)
      then finish_rollback rep' (rollback e applied w rep'.outcome)
          (verification_failed (failing rep'.verify))
      else accept e cs applied rep' w

  abbrev probe_failed : ApplyStep W → W → Outcome → Outcome
  probe_failed s w o = elim s.edge [ none ↦ o | some p ↦ (probe_edge p w o).1 ]

  unfoldable pub after_steps : Engine W → Op → ChangeSet → ApplyReport → W × StepsRun W → Flow W
  unfolding settle
  after_steps e op cs rep (w, ran applied) = settle e op cs applied rep w
  after_steps e op cs rep (w, stopped applied s x) =
      finish_rollback rep (rollback e applied w (probe_failed s w rep.outcome))
        (apply_step_failed s.name x)

  unfoldable pub execute : Engine W → Op → ChangeSet → ApplyReport → Snapshots → W → Flow W
  unfolding after_steps run_steps
  execute e op cs rep snaps w = after_steps e op cs rep (run_steps (build_steps e op cs snaps) [] w)

  abbrev snapshot_then : Engine W → Op → ChangeSet → ApplyReport → W → Flow W
  snapshot_then e op cs rep w = elim (snapshots e cs.edges w) [
    | err x ↦ (w, rep, some x)
    | ok snaps ↦ execute e op cs rep snaps w
  ]

  abbrev confirm_then : Engine W → Op → ChangeSet → Confirm → ApplyReport → W → Flow W
  confirm_then e op cs confirm rep w = elim (confirm cs) [
    | err x ↦ (w, rep, some x)
    | ok yes_ ↦ if not yes_ then (w, rep, none) else snapshot_then e op cs rep w
  ]

  -- `applyPlanned`
  unfoldable pub apply_planned : Engine W → Op → ChangeSet → Confirm → W → Flow W
  apply_planned e op cs confirm w =
      let rep = record (empty_report op) { new_public = cs.new_public } in
      if change_set_empty cs
      then (w, record rep { no_op = true }, none)
      else elim (gate_ownership e cs w) [
        | err x ↦ (w, rep, some x)
        | ok u ↦ confirm_then e op cs confirm rep w
      ]

  -- `Apply`
  unfoldable pub apply : Engine W → Op → Confirm → W → Flow W
  apply e op confirm w = elim (gate_read_only e (verb_name op.verb)) [
    | err x ↦ (w, empty_report op, some x)
    | ok u ↦ elim (plan e op w) [
      | err x ↦ (w, empty_report op, some x)
      | ok cs ↦ apply_planned e op cs confirm w
    ]
  ]
