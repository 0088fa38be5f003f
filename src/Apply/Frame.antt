-- ===== src/Apply/Frame.antt =====
-- internal/core/apply.go: what every provider leaves alone, every flow leaves alone.
use mathlib.Core.List.{reverse-cons}
use crenel.Prelude.{
  Bool, true, false, not, ◌&&◌, ◌||◌, text_eq, List, [], ◌∷◌, ◌++◌, reverse, is_nil, contains, Text,
  sym, subst, inl, inr, All, All-append, Option-cases, Result-cases, if_rule,
}
use crenel.Effects.{IsPreorder}
use crenel.Model.{Op, ChangeSet, EdgePlan, change_set_empty}
use crenel.Reports.{Outcome, ApplyReport, verified, runtime_unconfirmed_results}
use crenel.Engine.{EdgeBinding, Engine, binding}
use crenel.Gate.{gate_ownership}
use crenel.Steps.{ApplyStep, snapshots, build_steps}
use crenel.Rollback.{Compensator, Wedged, rollback, unwind, unwind_one, is_wedged}
use crenel.Verify.{verify}
use crenel.Apply.{
  StepsRun, ran, stopped, Flow, Confirm, compensator_of, run_steps, accept, settle, after_steps,
  execute, apply_planned, confirm_then, snapshot_then, persist_edges, persist_edge,
}
use crenel.Apply.Providers.{
  EdgeMoves, Framed, StepMoves, UndoMoves, binding-EdgeMoves, build_steps-StepMoves,
}

module _ {W : Type 0} (R : W → W → Type 0) (p : IsPreorder R) where
  All-reverse : (cs : List (Compensator W)) → All (UndoMoves R) cs → All (UndoMoves R) (reverse cs)
  All-reverse [] h = tt
  All-reverse (c ∷ cs) h =
      subst (All (UndoMoves R)) (sym (reverse-cons c cs))
        (All-append (UndoMoves R) (reverse cs) (c ∷ []) (All-reverse cs h.1) (h.0, tt))

  unwind_one-Moves :
      (c : Compensator W) (wedged : Bool) (w : W) (o : Outcome)
      → UndoMoves R c
      → R w (unwind_one c wedged w o).0
  unfolding unwind_one
  unwind_one-Moves c true w o h = p.reflexive w
  unwind_one-Moves c false w o h = elim (Option-cases (c.undo w).1) [
    | inl worked ↦ rw worked (h w)
    | inr (x, failed) ↦ rw failed (h w)
  ]

  unwind-Moves :
      (cs : List (Compensator W)) (cache : Wedged) (w : W) (o : Outcome)
      → All (UndoMoves R) cs
      → R w (unwind cs cache w o).0
  unfolding unwind
  unwind-Moves [] cache w o h = p.reflexive w
  unwind-Moves (c ∷ cs) cache w o h =
      p.transitive w _ _
        (unwind_one-Moves c (is_wedged c.edge cache w o).0 w (is_wedged c.edge cache w o).2 h.0)
        (unwind-Moves cs _ _ _ h.1)

  rollback-Moves :
      (e : Engine W) (applied : List (Compensator W)) (w : W) (o : Outcome)
      → All (UndoMoves R) applied
      → R w (rollback e applied w o).0
  unfolding rollback
  rollback-Moves e applied w o h =
      if_rule (λ (out : W × Outcome). R w out.0) (not e.rollback || is_nil applied)
        (λ _. p.reflexive w) (λ _. unwind-Moves (reverse applied) [] w _ (All-reverse applied h))

  -- the steps, with the compensators that are left
  abbrev RunMoves : W → W × StepsRun W → Type 0
  RunMoves w (w', ran applied) = R w w' × All (UndoMoves R) applied
  RunMoves w (w', stopped applied s x) = R w w' × All (UndoMoves R) applied

  run_steps-Moves :
      (ss : List (ApplyStep W)) (applied : List (Compensator W)) (w : W)
      → All (StepMoves R) ss
      → All (UndoMoves R) applied
      → (start : W) → R start w
      → RunMoves start (run_steps ss applied w)
  unfolding run_steps
  run_steps-Moves [] applied w h k start r = (r, k)
  run_steps-Moves (s ∷ ss) applied w h k start r =
      let moved = p.transitive start w (s.forward w).0 r (h.0.0 w) in
      elim (Option-cases (s.forward w).1) [
        | inl worked ↦
            rw (worked, run_steps)
              (run_steps-Moves ss (applied ++ (compensator_of s ∷ [])) (s.forward w).0 h.1
                (All-append (UndoMoves R) applied (compensator_of s ∷ []) k (h.0.1, tt)) start
                moved)
        | inr (x, failed) ↦ rw (failed, run_steps) (moved, k)
      ]

  persist_edge-Moves :
      (q : EdgePlan) (b : EdgeBinding W) (w : W) (o : Outcome)
      → EdgeMoves R b
      → R w (persist_edge q b w o).0
  unfolding persist_edge
  persist_edge-Moves q b w o h = elim (Option-cases b.provider.persist) [
    | inl none_ ↦ rw none_ (p.reflexive w)
    | inr (f, found) ↦ rw found (elim (Option-cases (f w).1) [
      | inl worked ↦ rw worked (h.1 f found w)
      | inr (x, failed) ↦ rw failed (h.1 f found w)
    ])
  ]

  persist_edges-Moves :
      (e : Engine W) (seen : List Text) (ps : List EdgePlan) (w : W) (o : Outcome)
      → Framed R e
      → R w (persist_edges e seen ps w o).0
  unfolding persist_edges
  persist_edges-Moves e seen [] w o h = p.reflexive w
  persist_edges-Moves e seen (q ∷ ps) w o h =
      if_rule (λ (out : W × Outcome). R w out.0) (contains seen q.edge)
        (λ _. persist_edges-Moves e seen ps w o h)
        (λ _. elim (Option-cases (binding e q.edge)) [
          | inl none_ ↦ rw none_ (persist_edges-Moves e (q.edge ∷ seen) ps w o h)
          | inr (b, found) ↦ rw found (
              p.transitive w (persist_edge q b w o).0 _
                (persist_edge-Moves q b w o (binding-EdgeMoves R p e q.edge b h found))
                (persist_edges-Moves e (q.edge ∷ seen) ps _ _ h))
        ])

  abbrev FlowMoves : W → Flow W → Type 0
  FlowMoves w f = R w f.0

  settle-Moves :
      (e : Engine W) (op : Op) (cs : ChangeSet) (applied : List (Compensator W)) (rep : ApplyReport)
      (w : W)
      → Framed R e
      → All (UndoMoves R) applied
      → FlowMoves w (settle e op cs applied rep w)
  unfolding settle accept
  settle-Moves e op cs applied rep w h k =
      let rep' = record rep { applied = true; verify = verify e op cs w } in
      if_rule (FlowMoves w) (not (verified rep'.verify)) (λ _. rollback-Moves e applied w _ k)
        (λ _.
          if_rule (FlowMoves w)
            (not e.allow_unverified && not (is_nil (runtime_unconfirmed_results rep'.verify)))
            (λ _. rollback-Moves e applied w _ k) (λ _. persist_edges-Moves e [] cs.edges w _ h))

  after_steps-Moves :
      (e : Engine W) (op : Op) (cs : ChangeSet) (rep : ApplyReport) (start : W) (r : W × StepsRun W)
      → Framed R e
      → RunMoves start r
      → FlowMoves start (after_steps e op cs rep r)
  unfolding after_steps
  after_steps-Moves e op cs rep start (w, ran applied) h k =
      p.transitive start w _ k.0 (settle-Moves e op cs applied rep w h k.1)
  after_steps-Moves e op cs rep start (w, stopped applied s x) h k =
      p.transitive start w _ k.0 (rollback-Moves e applied w _ k.1)

  confirm_then-Moves :
      (e : Engine W) (op : Op) (cs : ChangeSet) (confirm : Confirm) (rep : ApplyReport) (w : W)
      → Framed R e
      → FlowMoves w (confirm_then e op cs confirm rep w)
  unfolding execute
  confirm_then-Moves e op cs confirm rep w h = elim (Result-cases (confirm cs)) [
    | inr (x, failed) ↦ rw (failed, confirm_then) (p.reflexive w)
    | inl (false, declined) ↦ rw (declined, confirm_then) (p.reflexive w)
    | inl (true, agreed) ↦
        rw (agreed, confirm_then)
          (elim (Result-cases (snapshots e cs.edges w)) [
            | inr (x, failed) ↦ rw (failed, snapshot_then) (p.reflexive w)
            | inl (snaps, read) ↦
                rw (read, snapshot_then)
                  (after_steps-Moves e op cs rep w (run_steps (build_steps e op cs snaps) [] w) h (
                    run_steps-Moves (build_steps e op cs snaps) [] w
                      (build_steps-StepMoves R p e op cs snaps h) tt w (p.reflexive w)))
          ])
  ]

  -- A flow moves the world as its providers do: where every edge's applying and persisting and every
  -- DNS provider's applying stay in a reflexive and transitive relation of worlds, so does a planned
  -- flow with its rollback, however it ends.
  pub apply_planned-Moves :
      (e : Engine W) (op : Op) (cs : ChangeSet) (confirm : Confirm) (w : W)
      → Framed R e
      → R w (apply_planned e op cs confirm w).0
  unfolding apply_planned
  apply_planned-Moves e op cs confirm w h =
      if_rule (FlowMoves w) (change_set_empty cs) (λ _. p.reflexive w)
        (λ _. elim (Result-cases (gate_ownership e cs w)) [
          | inl (u, passed) ↦ rw passed (confirm_then-Moves e op cs confirm _ w h)
          | inr (x, failed) ↦ rw failed (p.reflexive w)
        ])
