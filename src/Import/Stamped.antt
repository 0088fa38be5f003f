-- ===== src/Import/Stamped.antt =====
-- internal/core/import.go: what an import that reports no error has read back.
use crenel.Prelude.{
  Bool, true, false, not, ◌&&◌, length, ◌≡◌, refl, sym, ◌∙◌, inl, inr, List, [], ◌∷◌, Text, All,
  Bool-cases, is_nil, Result-cases, arith, text_eq, Result, ok, err, Option, some, none, if_rule,
  codes,
}
use crenel.Model.{LiveEdgeState, reachable}
use crenel.Reports.{Error, Detail, now_managed, VerifyResult, verified}
use crenel.Engine.{EdgeBinding, Engine, gate_read_only}
use crenel.Import.{
  empty_import, AdoptCandidate, ImportPlan, ImportReport, is_managed, hosts_on, verify_import,
  verify_stamped, verify_adopted, binding_label, after_adopt, adopt_edges, import_routes,
  plan_import, unchanged,
}

-- The hosts are managed and reachable.
abbrev pub ManagedIn : LiveEdgeState → List Text → Type 0
ManagedIn live = All (λ h. (is_managed live h ≡ true) × (reachable live h ≡ true))

and_split : {a b : Bool} → a && b ≡ true → (a ≡ true) × (b ≡ true)
and_split h = ground arith

verify_adopted-ManagedIn :
    (label : Text) (live : LiveEdgeState) (fine : Detail) (hs : List Text)
    → (verify_adopted label live fine hs).passed ≡ true
    → ManagedIn live hs
verify_adopted-ManagedIn label live fine [] h = tt
verify_adopted-ManagedIn label live fine (x ∷ hs) h = elim (Bool-cases (is_managed live x)) [
  | inr e ↦ let never : false ≡ true = rw (e, verify_adopted) at h in ground arith
  | inl m ↦ elim (Bool-cases (reachable live x)) [
    | inr e ↦ let never : false ≡ true = rw (m, e, verify_adopted) at h in ground arith
    | inl r ↦ ((m, r), verify_adopted-ManagedIn label live fine hs (rw (m, r, verify_adopted) at h))
  ]
]

module _ {W : Type 0} where
  -- An edge shows its candidates managed and reachable, behind a default deny.
  abbrev pub StampedAt : List AdoptCandidate → W → EdgeBinding W → Type 0
  StampedAt cands w b =
      is_nil (hosts_on b.name cands) ≡ false
      → (live : LiveEdgeState) × (b.provider.read_live_state w ≡ ok live)
        × (live.deny_catch_all_present ≡ true)
        × ManagedIn live (hosts_on b.name cands)

  verify_stamped-passed :
      (b : EdgeBinding W) (hosts : List Text) (state : Result Error LiveEdgeState)
      → (verify_stamped b hosts state).passed ≡ true
      → (live : LiveEdgeState) × (state ≡ ok live)
        × (live.deny_catch_all_present ≡ true)
        × ManagedIn live hosts
  verify_stamped-passed b hosts (err x) = λ h. ground arith
  verify_stamped-passed b hosts (ok live) =
      if_rule
        (λ (v : VerifyResult).
          v.passed ≡ true
          → (s : LiveEdgeState) × (◌≡◌ {A = Result Error LiveEdgeState} (ok live) (ok s))
            × (s.deny_catch_all_present ≡ true)
            × ManagedIn s hosts)
        (not live.deny_catch_all_present) (λ _ h. ground arith)
        (λ e h. (
          live,
          refl,
          ground arith,
          verify_adopted-ManagedIn (binding_label b) live (now_managed (length hosts)) hosts h,
        ))

  verify_import-StampedAt :
      (cands : List AdoptCandidate) (bs : List (EdgeBinding W)) (w : W)
      → verified (verify_import cands bs w) ≡ true
      → All (StampedAt cands w) bs
  unfolding verify_import verified
  verify_import-StampedAt cands [] w h = tt
  verify_import-StampedAt cands (b ∷ bs) w h = elim (Bool-cases (is_nil (hosts_on b.name cands))) [
    | inl e ↦ (
      λ k. let never : true ≡ false = sym e ∙ k in ground arith,
      verify_import-StampedAt cands bs w (rw e at h),
    )
    | inr e ↦
        let (head, tail) = and_split (rw e at h) in
        (
          λ _. verify_stamped-passed b (hosts_on b.name cands) (b.provider.read_live_state w) head,
          verify_import-StampedAt cands bs w tail,
        )
  ]

  -- the report of a flow with no error that adopted
  abbrev ImportVerified : Engine W → W × ImportReport × Option Error → Type 0
  ImportVerified e f = f.2 ≡ none → f.1.adopted ≡ true → All (StampedAt f.1.plan.adopt f.0) e.edges

  unchanged-ImportVerified :
      (e : Engine W) (p : ImportPlan) (w : W) (x : Option Error)
      → ImportVerified e (unchanged p w x)
  unchanged-ImportVerified e p w x h k = ground arith

  after_adopt-ImportVerified :
      (e : Engine W) (p : ImportPlan) (o : W × Option Error) → ImportVerified e (after_adopt e p o)
  after_adopt-ImportVerified e p (w, some x) h k = ground arith
  after_adopt-ImportVerified e p (w, none) h k =
      elim (Bool-cases (verified (verify_import p.adopt e.edges w))) [
        | inl v ↦ verify_import-StampedAt p.adopt e.edges w v
        | inr v ↦ let never : some _ ≡ none = rw (v, after_adopt) at h in ground arith
      ]

  -- An import that reports that it adopted, and no error, has read back every edge with a candidate in
  -- the world that it leaves: the default deny is there, and each candidate's host is managed and as
  -- reachable as before.
  pub import_routes-Stamped :
      (e : Engine W) (confirm : ImportPlan → Result Error Bool) (w : W)
      → (import_routes e confirm w).2 ≡ none
      → (import_routes e confirm w).1.adopted ≡ true
      → All
          (StampedAt (import_routes e confirm w).1.plan.adopt (import_routes e confirm w).0)
          e.edges
  unfolding import_routes
  import_routes-Stamped e confirm w = elim (Result-cases (gate_read_only e (codes "import"))) [
    | inr (x, sealed) ↦
        rw (sealed, import_routes) (unchanged-ImportVerified e empty_import w (some x))
    | inl (u, open_) ↦
        rw (open_, import_routes)
          (elim (Result-cases (plan_import e w)) [
            | inr (x, failed) ↦ rw failed (unchanged-ImportVerified e empty_import w (some x))
            | inl (p, planned) ↦ rw planned (
                if_rule (ImportVerified e) (is_nil p.adopt)
                  (λ _. unchanged-ImportVerified e p w none)
                  (λ _. elim (Result-cases (confirm p)) [
                    | inr (x, failed) ↦ rw failed (unchanged-ImportVerified e p w (some x))
                    | inl (false, declined) ↦ rw declined (unchanged-ImportVerified e p w none)
                    | inl (true, agreed) ↦
                        rw agreed (after_adopt-ImportVerified e p (adopt_edges p.adopt e.edges w))
                  ]))
          ])
  ]
