-- ===== src/Apply/Reversal.antt =====
-- internal/core/apply.go: when the steps of a transaction can be undone. What the providers answer
-- for is put as laws of theirs; that the code undoes from what it read before is derived.
use crenel.Prelude.{
  ◌≡◌, ◌≢◌, refl, sym, ◌∙◌, ap, subst, List, [], ◌∷◌, map, inl, inr, arith, Bool-cases, Option,
  Option-cases, none, some, text_eq, text_beq, text_beq_iff, ok, In, here, there, In-cons_cases,
  All, In-All, All-In, All-append, Ordered, bind-eq-ok, map_err, map_err-eq-ok, sort_stable-In,
  sort_stable-apart, under,
}
use crenel.Model.{
  Op, is_expose, LiveEdgeState, EdgePlan, edge_change_empty, DnsChange, dns_change_empty, ChangeSet,
}
use crenel.Reports.{Error, snapshot_failed}
use crenel.Ports.{DnsProvider}
use crenel.Engine.{EdgeBinding, Engine, binding}
use crenel.Steps.{
  ApplyStep, Snapshots, snapshot_of, snapshots, edge_change_set, invert_edge, invert_dns, step_less,
  build_steps,
}
use crenel.Steps.Sources.{
  Origin, from_edge, from_dns, edge_origins, dns_origins, origins, step_of, sorted_origins,
  build_steps-sorted,
}

module _ {W : Type 0} where
  -- A call that fails has changed nothing, and the call that undoes one that worked, if it works
  -- too, leads back to the world before it.
  abbrev pub TakesBack : (W → W × Option Error) → (W → W × Option Error) → W → Type 0
  TakesBack forward undo w =
      ((forward w).1 ≢ none → (forward w).0 ≡ w)
      × ((forward w).1 ≡ none → (undo (forward w).0).1 ≡ none → (undo (forward w).0).0 ≡ w)

  abbrev pub Reverts : ApplyStep W → W → Type 0
  Reverts s w = TakesBack s.forward s.undo w

  -- Each step reverts in the world in which it is applied.
  abbrev pub Reversible : List (ApplyStep W) → W → Type 0
  Reversible [] w = Unit
  Reversible (s ∷ ss) w = Reverts s w × ((s.forward w).1 ≡ none → Reversible ss (s.forward w).0)

  -- The device of a step shows in `v` what it shows in `w`.
  abbrev pub Unseen : Origin W → W → W → Type 0
  Unseen (from_edge p b) w v = b.provider.read_live_state v ≡ b.provider.read_live_state w
  Unseen (from_dns d c) w v = d.live_records v ≡ d.live_records w

  abbrev pub forward_of : Op → Origin W → W → W × Option Error
  forward_of op (from_edge p b) = b.provider.apply (edge_change_set op p.change)
  forward_of op (from_dns d c) = d.apply c

  -- The law of a device that is planned to change, at the world `w` of the plan. An edge whose live
  -- state is that of `w` takes its change back, when it is given the change inverted by that live
  -- state. A DNS provider whose live records are those of `w` takes its change back, when it is
  -- given the records to remove as records to add, and the other way round.
  abbrev pub Undoes : Op → W → Origin W → Type 0
  Undoes op w (from_edge p b) =
      (live : LiveEdgeState) (v : W)
      → b.provider.read_live_state w ≡ ok live
      → b.provider.read_live_state v ≡ ok live
      → TakesBack (b.provider.apply (edge_change_set op p.change))
          (b.provider.apply (edge_change_set op (invert_edge p.change live))) v
  Undoes op w (from_dns d c) =
      (v : W)
      → d.live_records v ≡ d.live_records w
      → TakesBack (d.apply c) (d.apply (invert_dns c)) v

  -- Neither device shows the change of the other.
  abbrev pub Apart : Op → Origin W → Origin W → Type 0
  Apart op o u =
      ((v : W) → Unseen u v (forward_of op o v).0) × ((v : W) → Unseen o v (forward_of op u v).0)

  -- The snapshot of a step's edge is what the edge shows in `w`.
  abbrev Snapped : Snapshots → W → Origin W → Type 0
  Snapped snaps w (from_edge p b) = b.provider.read_live_state w ≡ ok (snapshot_of snaps p.edge)
  Snapped snaps w (from_dns d c) = Unit

  Unseen-trans : (o : Origin W) (w v u : W) → Unseen o w v → Unseen o v u → Unseen o w u
  Unseen-trans (from_edge p b) w v u h k = k ∙ h
  Unseen-trans (from_dns d c) w v u h k = k ∙ h

  -- Every edge that takes part is read before anything is applied, and its snapshot is what was read.
  snapshots-read :
      (e : Engine W) (ps : List EdgePlan) (w : W) (snaps : Snapshots) (p : EdgePlan)
      (b : EdgeBinding W)
      → snapshots e ps w ≡ ok snaps
      → In p ps
      → binding e p.edge ≡ some b
      → b.provider.read_live_state w ≡ ok (snapshot_of snaps p.edge)
  unfolding snapshots snapshot_of
  snapshots-read e [] w snaps p b h m bound = elim m [ ]
  snapshots-read e (q ∷ ps) w snaps p b h m bound = elim (Option-cases (binding e q.edge)) [
    | inl absent ↦ elim (In-cons_cases m) [
      | inl top ↦ absurd (ground (arith, ap (λ (x : EdgePlan). binding e x.edge) top))
      | inr later ↦ snapshots-read e ps w snaps p b (rw (absent, snapshots) at h) later bound
    ]
    | inr (c, found) ↦
        let (live, read, h1) =
          bind-eq-ok (map_err (snapshot_failed q.edge) (c.provider.read_live_state w)) _
            (rw (found, snapshots) at h) in
        let (others, rest, h2) = bind-eq-ok (snapshots e ps w) _ h1 in
        let taken : (q.edge, live) ∷ others ≡ snaps = ground arith in
        subst (λ (s : Snapshots). b.provider.read_live_state w ≡ ok (snapshot_of s p.edge)) taken
          (elim (Bool-cases (text_beq q.edge p.edge)) [
            | inl same ↦
                let one : some c ≡ some b =
                  sym found ∙ ap (binding e) ((text_beq_iff q.edge p.edge).0 same) ∙ bound in
                let it : c ≡ b = ground arith in
                rw (same, snapshot_of)
                  (subst (λ (x : EdgeBinding W). x.provider.read_live_state w ≡ ok live) it
                    (map_err-eq-ok _ _ read))
            | inr other ↦ elim (In-cons_cases m) [
              | inl top ↦
                  let same =
                    (text_beq_iff q.edge p.edge).1 (ap (λ (x : EdgePlan). x.edge) (sym top)) in
                  absurd (ground arith)
              | inr later ↦
                  rw (other, snapshot_of) (snapshots-read e ps w others p b rest later bound)
            ]
          ])
  ]

  edge_origins-Snapped :
      (e : Engine W) (w : W) (snaps : Snapshots) (ps : List EdgePlan)
      → ((p : EdgePlan) (b : EdgeBinding W)
          → In p ps
          → binding e p.edge ≡ some b
          → b.provider.read_live_state w ≡ ok (snapshot_of snaps p.edge))
      → All (Snapped snaps w) (edge_origins e ps)
  unfolding edge_origins
  edge_origins-Snapped e w snaps [] h = tt
  edge_origins-Snapped e w snaps (p ∷ ps) h =
      let rest = edge_origins-Snapped e w snaps ps (λ q b m. h q b (there m)) in
      elim (Option-cases (binding e p.edge)) [
        | inl absent ↦ rw (absent, edge_origins) rest
        | inr (b, found) ↦ elim (Bool-cases (edge_change_empty p.change)) [
          | inl t ↦ rw (found, edge_origins, t) rest
          | inr t ↦ rw (found, edge_origins, t) (h p b here found, rest)
        ]
      ]

  dns_origins-Snapped :
      (w : W) (snaps : Snapshots) (ps : List (DnsProvider W)) (cs : List DnsChange)
      → All (Snapped snaps w) (dns_origins ps cs)
  unfolding dns_origins
  dns_origins-Snapped w snaps [] cs = tt
  dns_origins-Snapped w snaps (p ∷ ps) [] = tt
  dns_origins-Snapped w snaps (p ∷ ps) (c ∷ cs) = elim (Bool-cases (dns_change_empty c)) [
    | inl t ↦ rw t (dns_origins-Snapped w snaps ps cs)
    | inr t ↦ rw t (tt, dns_origins-Snapped w snaps ps cs)
  ]

  -- one step, at a world in which its device shows what it showed
  origin-Reverts :
      (e : Engine W) (op : Op) (snaps : Snapshots) (w v : W) (o : Origin W)
      → Undoes op w o
      → Snapped snaps w o
      → Unseen o w v
      → Reverts (step_of e op snaps o) v
  origin-Reverts e op snaps w v (from_edge p b) undoes snapped unseen =
      undoes (snapshot_of snaps p.edge) v snapped (unseen ∙ snapped)
  origin-Reverts e op snaps w v (from_dns d c) undoes snapped unseen = undoes v unseen

  forward-step :
      (e : Engine W) (op : Op) (snaps : Snapshots) (o : Origin W) (v : W)
      → (step_of e op snaps o).forward v ≡ forward_of op o v
  forward-step e op snaps (from_edge p b) v = refl
  forward-step e op snaps (from_dns d c) v = refl

  forward-Unseen :
      (e : Engine W) (op : Op) (snaps : Snapshots) (w v : W) (o : Origin W) (os : List (Origin W))
      → All (Apart op o) os
      → All (λ u. Unseen u w v) os
      → All (λ u. Unseen u w ((step_of e op snaps o).forward v).0) os
  forward-Unseen e op snaps w v o os apart unseen = rw (forward-step e op snaps o v) (
      In-All (λ u. Unseen u w (forward_of op o v).0) os
        (λ u m.
          Unseen-trans u w v (forward_of op o v).0 (All-In (λ x. Unseen x w v) m unseen)
            ((All-In (Apart op o) m apart).0 v)))

  origins-Reversible :
      (e : Engine W) (op : Op) (snaps : Snapshots) (w v : W) (os : List (Origin W))
      → All (Undoes op w) os
      → All (Snapped snaps w) os
      → Ordered (Apart op) os
      → All (λ o. Unseen o w v) os
      → Reversible (map (step_of e op snaps) os) v
  origins-Reversible e op snaps w v [] undo snapped apart unseen = tt
  origins-Reversible e op snaps w v (o ∷ os) undo snapped apart unseen = (
    origin-Reverts e op snaps w v o undo.0 snapped.0 unseen.0,
    λ _.
        origins-Reversible e op snaps w ((step_of e op snaps o).forward v).0 os undo.1 snapped.1
          apart.1 (forward-Unseen e op snaps w v o os apart.0 unseen.1),
  )

  Unseen-refl : (w : W) (o : Origin W) → Unseen o w w
  Unseen-refl w (from_edge p b) = refl
  Unseen-refl w (from_dns d c) = refl

  -- The steps built from the snapshots that the code takes can be undone, if each device that is
  -- planned to change takes its change back, and no two of them show each other's.
  pub build_steps-Reversible :
      (e : Engine W) (op : Op) (cs : ChangeSet) (snaps : Snapshots) (w : W)
      → snapshots e cs.edges w ≡ ok snaps
      → All (Undoes op w) (origins e cs)
      → Ordered (Apart op) (origins e cs)
      → Reversible (build_steps e op cs snaps) w
  build_steps-Reversible e op cs snaps w taken undo apart =
      let less = under (step_less (is_expose op.verb)) (step_of e op snaps) in
      let os = sorted_origins e op cs snaps in
      let snapped =
        All-append (Snapped snaps w) (edge_origins e cs.edges) (dns_origins e.dns cs.dns)
          (edge_origins-Snapped e w snaps cs.edges
            (λ p b m bound. snapshots-read e cs.edges w snaps p b taken m bound))
          (dns_origins-Snapped w snaps e.dns cs.dns) in
      rw (build_steps-sorted e op cs snaps) (
        origins-Reversible e op snaps w w os
          (In-All (Undoes op w) os (λ o m. All-In (Undoes op w) (sort_stable-In less _ m) undo))
          (In-All (Snapped snaps w) os
            (λ o m. All-In (Snapped snaps w) (sort_stable-In less _ m) snapped))
          (sort_stable-apart less (Apart op) (λ o u h. (h.1, h.0)) (origins e cs) apart)
          (In-All (λ o. Unseen o w w) os (λ o m. Unseen-refl w o)))
