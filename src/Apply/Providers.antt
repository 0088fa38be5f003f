-- ===== src/Apply/Providers.antt =====
-- internal/core/apply.go: what the providers of an engine may do to the world, and so its steps.
use crenel.Prelude.{
  ◌==◌, text_eq, List, [], ◌∷◌, ◌++◌, Text, ◌≡◌, inl, inr, All, In-All, All-In, All-append,
  sort_stable-In, find-In, Option-cases, if_rule, Option, some,
}
use crenel.Effects.{IsPreorder}
use crenel.Model.{
  Op, ChangeSet, DnsChange, EdgePlan, edge_change_empty, dns_change_empty, is_expose,
}
use crenel.Reports.{Error}
use crenel.Ports.{DnsProvider}
use crenel.Engine.{EdgeBinding, Engine, binding}
use crenel.Steps.{ApplyStep, Snapshots, build_steps, edge_steps, dns_steps, step_less}
use crenel.Rollback.{Compensator}

module _ {W : Type 0} (R : W → W → Type 0) where
  -- What an edge and a DNS provider may do to the world
  abbrev pub EdgeMoves : EdgeBinding W → Type 0
  EdgeMoves b =
      ((cs : ChangeSet) (w : W) → R w (b.provider.apply cs w).0)
      × ((f : W → W × Option Error) → b.provider.persist ≡ some f → (w : W) → R w (f w).0)

  abbrev pub DnsMoves : DnsProvider W → Type 0
  DnsMoves d = (c : DnsChange) (w : W) → R w (d.apply c w).0

  abbrev pub Framed : Engine W → Type 0
  Framed e = All EdgeMoves e.edges × All DnsMoves e.dns

  abbrev pub StepMoves : ApplyStep W → Type 0
  StepMoves s = ((w : W) → R w (s.forward w).0) × ((w : W) → R w (s.undo w).0)

  abbrev pub UndoMoves : Compensator W → Type 0
  UndoMoves c = (w : W) → R w (c.undo w).0

module _ {W : Type 0} (R : W → W → Type 0) (p : IsPreorder R) where
  pub binding-EdgeMoves :
      (e : Engine W) (name : Text) (b : EdgeBinding W)
      → Framed R e
      → binding e name ≡ some b
      → EdgeMoves R b
  unfolding binding
  binding-EdgeMoves e name b h found =
      All-In (EdgeMoves R) (find-In (λ b. b.name == name) e.edges found) h.0

  edge_steps-StepMoves :
      (e : Engine W) (op : Op) (snaps : Snapshots) (ps : List EdgePlan)
      → Framed R e
      → All (StepMoves R) (edge_steps e op snaps ps)
  unfolding edge_steps
  edge_steps-StepMoves e op snaps [] h = tt
  edge_steps-StepMoves e op snaps (q ∷ ps) h =
      let rest = edge_steps-StepMoves e op snaps ps h in
      if_rule (All (StepMoves R)) (edge_change_empty q.change) (λ _. rest)
        (λ _. elim (Option-cases (binding e q.edge)) [
          | inl none_ ↦ rw none_ rest
          | inr (b, found) ↦
              rw found
                (let moves = binding-EdgeMoves e q.edge b h found in ((moves.0 _, moves.0 _), rest))
        ])

  dns_steps-StepMoves :
      (ds : List (DnsProvider W)) (cs : List DnsChange)
      → All (DnsMoves R) ds
      → All (StepMoves R) (dns_steps ds cs)
  unfolding dns_steps
  dns_steps-StepMoves [] cs h = tt
  dns_steps-StepMoves (d ∷ ds) [] h = tt
  dns_steps-StepMoves (d ∷ ds) (c ∷ cs) h =
      let rest = dns_steps-StepMoves ds cs h.1 in
      if_rule (All (StepMoves R)) (dns_change_empty c) (λ _. rest) (λ _. ((h.0 c, h.0 _), rest))

  pub build_steps-StepMoves :
      (e : Engine W) (op : Op) (cs : ChangeSet) (snaps : Snapshots)
      → Framed R e
      → All (StepMoves R) (build_steps e op cs snaps)
  unfolding build_steps
  build_steps-StepMoves e op cs snaps h =
      let both =
        All-append (StepMoves R) (edge_steps e op snaps cs.edges) (dns_steps e.dns cs.dns)
          (edge_steps-StepMoves e op snaps cs.edges h) (dns_steps-StepMoves e.dns cs.dns h.1) in
      In-All (StepMoves R) (build_steps e op cs snaps) (λ s m.
        All-In (StepMoves R)
          (sort_stable-In (step_less (is_expose op.verb))
            (edge_steps e op snaps cs.edges ++ dns_steps e.dns cs.dns) m)
          both)
