-- ===== src/Apply/Atomic.antt =====
-- internal/core/apply.go: all or nothing, from the laws of the devices.
use mathlib.Core.List.{reverse-append}
use crenel.Prelude.{
  true, not, List, [], ◌∷◌, ◌++◌, reverse, is_nil, ◌&&◌, none, ◌≡◌, ◌≢◌, refl, sym, subst, inl, inr,
  arith, Option-cases, Result-cases, if_rule, All, Ordered,
}
use crenel.Model.{Op, ChangeSet, change_set_empty}
use crenel.Reports.{Error, Outcome, ApplyReport, verified, runtime_unconfirmed_results}
use crenel.Engine.{Engine}
use crenel.Gate.{gate_ownership}
use crenel.Steps.{ApplyStep, Snapshots, snapshots, build_steps}
use crenel.Steps.Sources.{origins}
use crenel.Apply.Reversal.{Reverts, Reversible, Undoes, Apart, build_steps-Reversible}
use crenel.Rollback.{Compensator, rollback, unwind}
use crenel.Rollback.Unwind.{Unwinds, unwind-restores}
use crenel.Verify.{verify}
use crenel.Apply.{
  StepsRun, ran, stopped, Flow, Confirm, compensator_of, run_steps, accept, settle, after_steps,
  execute, apply_planned, confirm_then, snapshot_then, finish_rollback,
}

module _ {W : Type 0} where
  abbrev applied_of : StepsRun W → List (Compensator W)
  applied_of (ran applied) = applied
  applied_of (stopped applied s x) = applied

  -- one more applied step, at the head of the reversed list
  Unwinds-snoc :
      (start w : W) (applied : List (Compensator W)) (s : ApplyStep W)
      → Reverts s w
      → (s.forward w).1 ≡ none
      → Unwinds start (reverse applied) w
      → Unwinds start (reverse (applied ++ compensator_of s ∷ [])) (s.forward w).0
  Unwinds-snoc start w applied s r worked u =
      rw (reverse-append applied (compensator_of s ∷ [])) (w, r.1 worked, u)

  run_steps-Unwinds :
      (start : W) (ss : List (ApplyStep W)) (applied : List (Compensator W)) (w : W)
      → Reversible ss w
      → Unwinds start (reverse applied) w
      → Unwinds start (reverse (applied_of (run_steps ss applied w).1)) (run_steps ss applied w).0
  unfolding run_steps
  run_steps-Unwinds start [] applied w r u = u
  run_steps-Unwinds start (s ∷ ss) applied w r u = elim (Option-cases (s.forward w).1) [
    | inl worked ↦
        rw (worked, run_steps)
          (run_steps-Unwinds start ss _ _ (r.1 worked)
            (Unwinds-snoc start w applied s r.0 worked u))
    | inr (x, failed) ↦
        rw (failed, run_steps)
          (subst (λ v. Unwinds start (reverse applied) v) (sym (r.0.0 (rw failed (λ e. cc)))) u)
  ]

  rollback-nil : (e : Engine W) (w : W) (o : Outcome) → rollback e [] w o ≡ (w, o)
  unfolding rollback
  rollback-nil e w o = ground arith

  rollback-cons :
      (e : Engine W) (c : Compensator W) (cs : List (Compensator W)) (w : W) (o : Outcome)
      → e.rollback ≡ true
      → rollback e (c ∷ cs) w o ≡ unwind (reverse (c ∷ cs)) [] w (record o { rolled_back = true })
  unfolding rollback
  rollback-cons e c cs w o on = ground arith

  rollback-restores :
      (start : W) (e : Engine W) (applied : List (Compensator W)) (w : W) (o : Outcome)
      → e.rollback ≡ true
      → Unwinds start (reverse applied) w
      → (rollback e applied w o).1.rollback_errors ≡ []
      → (rollback e applied w o).0 ≡ start
  rollback-restores start e [] w o on u h = rw (rollback-nil e w o) u
  rollback-restores start e (c ∷ cs) w o on u h =
      rw (rollback-cons e c cs w o on)
        (unwind-restores start (reverse (c ∷ cs)) [] w _ u (rw (rollback-cons e c cs w o on) at h))

  -- What holds of a flow that started in `start`.
  abbrev Restores : W → Flow W → Type 0
  Restores start f = f.2 ≢ none → f.1.outcome.rollback_errors ≡ [] → f.0 ≡ start

  finish-Restores :
      (start : W) (e : Engine W) (applied : List (Compensator W)) (rep : ApplyReport) (w : W)
      (o : Outcome) (x : Error)
      → e.rollback ≡ true
      → Unwinds start (reverse applied) w
      → Restores start (finish_rollback rep (rollback e applied w o) x)
  finish-Restores start e applied rep w o x on u failed h =
      rollback-restores start e applied w o on u h

  accept-Restores :
      (start : W) (e : Engine W) (cs : ChangeSet) (applied : List (Compensator W))
      (rep : ApplyReport) (w : W)
      → e.rollback ≡ true
      → Unwinds start (reverse applied) w
      → Restores start (accept e cs applied rep w)
  unfolding accept
  accept-Restores start e cs applied rep w on u =
      if_rule (Restores start)
        (not e.allow_unverified && not (is_nil (runtime_unconfirmed_results rep.verify)))
        (λ _. finish-Restores start e applied rep w rep.outcome _ on u)
        (λ _ failed. absurd (failed refl))

  settle-Restores :
      (start : W) (e : Engine W) (op : Op) (cs : ChangeSet) (applied : List (Compensator W))
      (rep : ApplyReport) (w : W)
      → e.rollback ≡ true
      → Unwinds start (reverse applied) w
      → Restores start (settle e op cs applied rep w)
  unfolding settle
  settle-Restores start e op cs applied rep w on u =
      if_rule (Restores start) (not (verified (verify e op cs w)))
        (λ _.
          finish-Restores start e applied (record rep { applied = true; verify = verify e op cs w })
            w rep.outcome _ on u)
        (λ _. accept-Restores start e cs applied _ w on u)

  after_steps-Restores :
      (start : W) (e : Engine W) (op : Op) (cs : ChangeSet) (rep : ApplyReport) (r : W × StepsRun W)
      → e.rollback ≡ true
      → Unwinds start (reverse (applied_of r.1)) r.0
      → Restores start (after_steps e op cs rep r)
  unfolding after_steps
  after_steps-Restores start e op cs rep (w, stopped applied s x) on u =
      finish-Restores start e applied rep w _ _ on u
  after_steps-Restores start e op cs rep (w, ran applied) on u =
      settle-Restores start e op cs applied rep w on u

  execute-Restores :
      (e : Engine W) (op : Op) (cs : ChangeSet) (rep : ApplyReport) (snaps : Snapshots) (w : W)
      → e.rollback ≡ true
      → Reversible (build_steps e op cs snaps) w
      → Restores w (execute e op cs rep snaps w)
  unfolding execute
  execute-Restores e op cs rep snaps w on r =
      after_steps-Restores w e op cs rep _ on
        (run_steps-Unwinds w (build_steps e op cs snaps) [] w r refl)

  snapshot_then-Restores :
      (e : Engine W) (op : Op) (cs : ChangeSet) (rep : ApplyReport) (w : W)
      → e.rollback ≡ true
      → All (Undoes op w) (origins e cs)
      → Ordered (Apart op) (origins e cs)
      → Restores w (snapshot_then e op cs rep w)
  snapshot_then-Restores e op cs rep w on undo apart =
      elim (Result-cases (snapshots e cs.edges w)) [
        | inl (snaps, eq) ↦
            rw (eq, snapshot_then)
              (execute-Restores e op cs rep snaps w on
                (build_steps-Reversible e op cs snaps w eq undo apart))
        | inr (x, eq) ↦ rw (eq, snapshot_then) (λ _ _. refl)
      ]

  confirm_then-Restores :
      (e : Engine W) (op : Op) (cs : ChangeSet) (confirm : Confirm) (rep : ApplyReport) (w : W)
      → e.rollback ≡ true
      → All (Undoes op w) (origins e cs)
      → Ordered (Apart op) (origins e cs)
      → Restores w (confirm_then e op cs confirm rep w)
  confirm_then-Restores e op cs confirm rep w on undo apart = elim (Result-cases (confirm cs)) [
    | inl (yes_, eq) ↦
        rw (eq, confirm_then)
          (if_rule (Restores w) (not yes_) (λ _ _ _. refl)
            (λ _. snapshot_then-Restores e op cs rep w on undo apart))
    | inr (x, eq) ↦ rw (eq, confirm_then) (λ _ _. refl)
  ]

  -- If rollback is enabled, if every device that is planned to change takes its change back (an edge
  -- where its live state is that of before the flow and the change is inverted by that live state, a
  -- DNS provider where its live records are those of before the flow, and a call that fails
  -- having changed nothing), and if no two of these devices show each other's changes, then a flow
  -- that returns an error and whose report lists no rollback error leaves the world exactly as
  -- it found it.
  pub apply_planned-atomic :
      (e : Engine W) (op : Op) (cs : ChangeSet) (confirm : Confirm) (w : W)
      → e.rollback ≡ true
      → All (Undoes op w) (origins e cs)
      → Ordered (Apart op) (origins e cs)
      → (apply_planned e op cs confirm w).2 ≢ none
      → (apply_planned e op cs confirm w).1.outcome.rollback_errors ≡ []
      → (apply_planned e op cs confirm w).0 ≡ w
  unfolding apply_planned
  apply_planned-atomic e op cs confirm w on undo apart =
      if_rule (Restores w) (change_set_empty cs) (λ _ _ _. refl)
        (λ _. elim (Result-cases (gate_ownership e cs w)) [
          | inl (u, eq) ↦ rw eq (confirm_then-Restores e op cs confirm _ w on undo apart)
          | inr (x, eq) ↦ rw eq (λ _ _. refl)
        ])
