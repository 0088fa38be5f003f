-- ===== src/Apply/Verified.antt =====
-- A write is reported as applied, with no error, only after live state was read back.
use crenel.Prelude.{
  Bool, true, false, not, ◌&&◌, ◌≡◌, refl, ◌⊎◌, inl, inr, List, [], map, is_nil, none, some, In,
  arith, if_rule, Result-cases,
}
use crenel.Model.{Op, EdgePlan, ChangeSet, change_set_empty}
use crenel.Reports.{
  Outcome, no_outcome, VerifyResult, ApplyReport, empty_report, verified,
  runtime_unconfirmed_results,
}
use crenel.Ports.{DnsProvider}
use crenel.Engine.{EdgeBinding, Engine, binding}
use crenel.Gate.{gate_ownership}
use crenel.Steps.{snapshots}
use crenel.Rollback.{Compensator}
use crenel.Verify.{verify, verify_edges, verify_provider}
use crenel.Checks.Passed.{verified-append}
use crenel.Verify.Sound.{EdgeHolds, DnsHolds, verify_edges_sound, verify_dns-all}
use crenel.Apply.{
  Flow, Confirm, StepsRun, ran, stopped, persist_edges, settle, after_steps, execute, snapshot_then,
  confirm_then, apply_planned,
}

confirmed-cases :
    (accepted : Bool) (vs : List VerifyResult)
    → (not accepted && not (is_nil vs)) ≡ false
    → (accepted ≡ true) ⊎ (vs ≡ [])
confirmed-cases accepted vs h = ground arith

module _ {W : Type 0} where
  -- `v` is the world that was read back: every result passed there, none is left unconfirmed
  -- unless the operator accepts that, and what follows is only the persisting.
  abbrev ReadBack : Engine W → Op → ChangeSet → Outcome → Flow W → W → Type 0
  ReadBack e op cs o f v =
      (verified (verify e op cs v) ≡ true)
      × ((e.allow_unverified ≡ true) ⊎ (runtime_unconfirmed_results (verify e op cs v) ≡ []))
      × (f.0 ≡ (persist_edges e [] cs.edges v o).0)

  abbrev Seen : Engine W → Op → ChangeSet → Outcome → Flow W → Type 0
  Seen e op cs o f = f.2 ≡ none → f.1.applied ≡ true → (v : W) × ReadBack e op cs o f v

  settle-Seen :
      (e : Engine W) (op : Op) (cs : ChangeSet) (applied : List (Compensator W)) (rep : ApplyReport)
      (w : W)
      → Seen e op cs rep.outcome (settle e op cs applied rep w)
  unfolding settle
  settle-Seen e op cs applied rep w =
      if_rule (Seen e op cs rep.outcome) (not (verified (verify e op cs w))) (λ _ fine. cc fine)
        (λ good.
          if_rule (Seen e op cs rep.outcome)
            (not e.allow_unverified
              && not (is_nil (runtime_unconfirmed_results (verify e op cs w))))
            (λ _ fine. cc fine)
            (λ confirmed _ _.
              (w, (ground arith, confirmed-cases e.allow_unverified _ confirmed, refl))))

  after_steps-Seen :
      (e : Engine W) (op : Op) (cs : ChangeSet) (rep : ApplyReport) (r : W × StepsRun W)
      → Seen e op cs rep.outcome (after_steps e op cs rep r)
  unfolding after_steps
  after_steps-Seen e op cs rep (w, stopped applied s x) = λ fine. cc fine
  after_steps-Seen e op cs rep (w, ran applied) = settle-Seen e op cs applied rep w

  snapshot_then-Seen :
      (e : Engine W) (op : Op) (cs : ChangeSet) (rep : ApplyReport) (w : W)
      → Seen e op cs rep.outcome (snapshot_then e op cs rep w)
  unfolding execute
  snapshot_then-Seen e op cs rep w = elim (Result-cases (snapshots e cs.edges w)) [
    | inl (snaps, eq) ↦ rw (eq, snapshot_then) (after_steps-Seen e op cs rep _)
    | inr (x, eq) ↦ rw (eq, snapshot_then) (λ fine. cc fine)
  ]

  confirm_then-Seen :
      (e : Engine W) (op : Op) (cs : ChangeSet) (confirm : Confirm) (rep : ApplyReport) (w : W)
      → rep.applied ≡ false
      → Seen e op cs rep.outcome (confirm_then e op cs confirm rep w)
  confirm_then-Seen e op cs confirm rep w unapplied = elim (Result-cases (confirm cs)) [
    | inl (yes_, eq) ↦
        rw (eq, confirm_then)
          (if_rule (Seen e op cs rep.outcome) (not yes_) (λ _ _ applied. absurd (ground arith))
            (λ _. snapshot_then-Seen e op cs rep w))
    | inr (x, eq) ↦ rw (eq, confirm_then) (λ fine. cc fine)
  ]

  apply_planned-Seen :
      (e : Engine W) (op : Op) (cs : ChangeSet) (confirm : Confirm) (w : W)
      → Seen e op cs no_outcome (apply_planned e op cs confirm w)
  unfolding apply_planned
  apply_planned-Seen e op cs confirm w =
      if_rule (Seen e op cs no_outcome) (change_set_empty cs) (λ _ _ applied. cc applied)
        (λ _. elim (Result-cases (gate_ownership e cs w)) [
          | inl (u, eq) ↦ rw eq (
              confirm_then-Seen e op cs confirm
                (record (empty_report op) { new_public = cs.new_public }) w refl)
          | inr (x, eq) ↦ rw eq (λ fine. cc fine)
        ])

  -- If a flow reports the change as applied and returns no error, then there is a world that was
  -- read back after the change, and from which only the persisting of edges has followed. In that
  -- world every participating edge was read, has its default deny, and shows the op's host, its
  -- auth policies and its upstream TLS as planned; every DNS provider that the op's scopes appoint
  -- and whose zone covers the host was read and shows the records as the verb wants them; and no
  -- edge's daemon is unconfirmed unless the engine allows that.
  pub apply_planned-verified :
      (e : Engine W) (op : Op) (cs : ChangeSet) (confirm : Confirm) (w : W)
      → (apply_planned e op cs confirm w).2 ≡ none
      → (apply_planned e op cs confirm w).1.applied ≡ true
      → (v : W) × ((p : EdgePlan) (b : EdgeBinding W)
          → In p cs.edges
          → binding e p.edge ≡ some b
          → EdgeHolds b op v p)
        × ((p : DnsProvider W) → In p e.dns → DnsHolds op v p)
        × ((e.allow_unverified ≡ true) ⊎ (runtime_unconfirmed_results (verify e op cs v) ≡ []))
        × ((apply_planned e op cs confirm w).0 ≡ (persist_edges e [] cs.edges v no_outcome).0)
  apply_planned-verified e op cs confirm w fine applied =
      let (v, seen) = apply_planned-Seen e op cs confirm w fine applied in
      let (good, confirmed, rest) = seen in
      let (edges, dns) =
        verified-append (verify_edges e op v cs.edges) (map (verify_provider op v) e.dns)
          (unfold verify in good) in
      (
        v,
        λ p b m bound. verify_edges_sound e op v cs.edges p b edges m bound,
        λ p m. verify_dns-all op v e.dns p dns m,
        confirmed,
        rest,
      )
