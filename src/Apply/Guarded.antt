-- ===== src/Apply/Guarded.antt =====
-- No write without a plan, a passed gate and a confirmation.
use crenel.Prelude.{Text, true, false, ◌≡◌, ◌≢◌, refl, inl, inr, arith, if_rule, Result-cases, ok}
use crenel.Model.{Op, ChangeSet, change_set_empty}
use crenel.Reports.{ApplyReport}
use crenel.Engine.{Engine, gate_read_only}
use crenel.Plan.{plan}
use crenel.Gate.{gate_ownership}
use crenel.Gate.Permit.{Permitted, gate_ownership-Permitted}
use crenel.Apply.{Flow, Confirm, verb_name, confirm_then, apply_planned, apply}

module _ {W : Type 0} where
  -- A flow that started in `w` and changed the world had `P`.
  abbrev Needs : W → Type 0 → Flow W → Type 0
  Needs w P f = f.0 ≢ w → P

  confirm_then-Needs :
      (e : Engine W) (op : Op) (cs : ChangeSet) (confirm : Confirm) (rep : ApplyReport) (w : W)
      → Needs w (confirm cs ≡ ok true) (confirm_then e op cs confirm rep w)
  confirm_then-Needs e op cs confirm rep w = elim (Result-cases (confirm cs)) [
    | inl (true, eq) ↦ λ _. eq
    | inl (false, eq) ↦ rw (eq, confirm_then) (λ moved. absurd (moved refl))
    | inr (x, eq) ↦ rw (eq, confirm_then) (λ moved. absurd (moved refl))
  ]

  pub apply_planned-Needs :
      (e : Engine W) (op : Op) (cs : ChangeSet) (confirm : Confirm) (w : W)
      → Needs w ((confirm cs ≡ ok true) × Permitted e cs w) (apply_planned e op cs confirm w)
  unfolding apply_planned
  apply_planned-Needs e op cs confirm w =
      if_rule (Needs w ((confirm cs ≡ ok true) × Permitted e cs w)) (change_set_empty cs)
        (λ _ moved. absurd (moved refl))
        (λ _. elim (Result-cases (gate_ownership e cs w)) [
          | inl (u, eq) ↦ rw eq (λ moved.
              (confirm_then-Needs e op cs confirm _ w moved, gate_ownership-Permitted e cs w eq))
          | inr (x, eq) ↦ rw eq (λ moved. absurd (moved refl))
        ])

  gate_read_only-ok :
      (e : Engine W) (verb : Text) (u : Unit {0})
      → gate_read_only e verb ≡ ok u
      → e.read_only ≡ false
  unfolding gate_read_only
  gate_read_only-ok e verb u h = ground arith

  -- If `Apply` has changed anything, then the engine is not read-only, `Plan` had a change set, the
  -- operator confirmed that change set, and the gate had read every edge that it changes: no
  -- generator owns the edge, no touched host's route is foreign, and none has an unknown owner
  -- unless the engine is forced.
  pub apply-guarded :
      (e : Engine W) (op : Op) (confirm : Confirm) (w : W)
      → (apply e op confirm w).0 ≢ w
      → (e.read_only ≡ false)
        × ((cs : ChangeSet) × (plan e op w ≡ ok cs) × (confirm cs ≡ ok true) × Permitted e cs w)
  unfolding apply
  apply-guarded e op confirm w = elim (Result-cases (gate_read_only e (verb_name op.verb))) [
    | inr (x, sealed) ↦ rw (sealed, apply) (λ moved. absurd (moved refl))
    | inl (u, open_) ↦
        rw (open_, apply)
          (elim (Result-cases (plan e op w)) [
            | inr (x, failed) ↦ rw failed (λ moved. absurd (moved refl))
            | inl (cs, planned) ↦ rw planned (λ moved.
                let (yes_, permitted) = apply_planned-Needs e op cs confirm w moved in
                (gate_read_only-ok e (verb_name op.verb) u open_, (cs, refl, yes_, permitted)))
          ])
  ]
