-- ===== src/Import.antt =====
-- internal/core/import.go: adoption of routes that exist but are not managed, by stamping a marker.
pub mod Adoptable
pub mod Stamped
use crenel.Prelude.{
  ℕ, Bool, true, false, not, ◌&&◌, ◌||◌, List, [], ◌∷◌, ◌++◌, map, find, is_nil, length, keep_if,
  Option, none, some, Text, codes, ◌==◌, text_eq, equal_fold, ltb, nat_eq, if◌then◌else◌, map_err,
  Result, ok, err, ◌>>=◌, sort_stable,
}
use crenel.Model.{
  Op, expose, plain_op, http_proxy, unset_ingress, unclassified, RouteMode, Route, own_foreign,
  own_unknown, own_crenel, own_unmanaged, unset, Ownership, LiveEdgeState, reachable, ChangeSet,
}
use crenel.Reports.{
  Error, read_edge_failed, adoption_unsupported, adoption_failed, planned_routes,
  verification_failed, Detail, reread_failed, deny_missing_after_adopt, now_managed,
  not_managed_after_adopt, reachability_changed, VerifyResult, verdict, verified,
}
use crenel.Ports.{EdgeProvider}
use crenel.Gate.{text_less}
use crenel.Engine.{EdgeBinding, Engine, fronts_service, service_of, gate_read_only}

-- `AdoptCandidate`
pub record AdoptCandidate : Type 0 where
  pub edge : Text
  pub driver : Text
  pub host : Text
  pub service : Text
  pub address : Text
  pub mode : RouteMode

-- the reasons of an `ImportConflict`, with what their details name
pub data ConflictReason : Type 0 where
  foreign_managed : Text → ConflictReason
  ownership_unknown driver_unsupported exists_unmanaged : ConflictReason
  origin_mismatch : Text → Text → ConflictReason
  unresolvable : Error → ConflictReason

pub record ImportConflict : Type 0 where
  pub edge : Text
  pub driver : Text
  pub host : Text
  pub service : Text
  pub reason : ConflictReason

pub record ImportPlan : Type 0 where
  pub adopt : List AdoptCandidate
  pub conflicts : List ImportConflict
  pub already_managed : List Text

pub record ImportReport : Type 0 where
  pub plan : ImportPlan
  pub adopted : Bool
  pub verify : List VerifyResult

abbrev pub empty_import : ImportPlan
empty_import = record { adopt = []; conflicts = []; already_managed = [] }

-- What becomes of a route: it is outside the domain, managed, in conflict or adopted.
pub data Classified : Type 0 where
  outside : Classified
  managed_route : Text → Classified
  conflicting : ImportConflict → Classified
  adopted_route : AdoptCandidate → Classified

abbrev pub add_classified : Classified → ImportPlan → ImportPlan
add_classified outside p = p
add_classified (managed_route h) p = record p { already_managed = h ∷ p.already_managed }
add_classified (conflicting c) p = record p { conflicts = c ∷ p.conflicts }
add_classified (adopted_route a) p = record p { adopt = a ∷ p.adopt }

-- `managedRoute`, by the first route of the host
unfoldable pub is_managed : LiveEdgeState → Text → Bool
is_managed live host = elim (find (λ r. equal_fold r.host host) live.routes) [
  | some r ↦ r.managed
  | none ↦ false
]

-- Foreign-owned, and of an owner that could not be determined
abbrev pub is_foreign : Ownership → Bool
is_foreign own_foreign = true
is_foreign own_unknown = false
is_foreign own_crenel = false
is_foreign own_unmanaged = false
is_foreign unset = false

abbrev pub is_unknown : Ownership → Bool
is_unknown own_unknown = true
is_unknown own_foreign = false
is_unknown own_crenel = false
is_unknown own_unmanaged = false
is_unknown unset = false

-- `sort.Strings`
unfoldable pub sort_texts : List Text → List Text
sort_texts ts = sort_stable text_less ts

-- `LiveEdgeState{DenyCatchAllPresent: true}`
abbrev pub deny_only : LiveEdgeState
deny_only = record {
  routes = [];
  deny_catch_all_present = true;
  unparsed = [];
  generator = [];
  ingress_kind = unset_ingress;
  persistence = unclassified;
  raw = [];
}

abbrev only_address : List Route → Result Error Text
only_address [] = err (planned_routes 0)
only_address (r ∷ []) = ok r.upstream.address
only_address (r ∷ s ∷ rs) = err (planned_routes (length (r ∷ s ∷ rs)))

-- the tail of `Verified`'s error: the failing providers
abbrev failing : List VerifyResult → List Text
failing vs = map (λ v. v.provider) (keep_if (λ v. not v.passed) vs)

abbrev pub hosts_on : Text → List AdoptCandidate → List Text
hosts_on edge cands = map (λ c. c.host) (keep_if (λ c. c.edge == edge) cands)

-- the checks of `verifyImport` on the hosts of an edge that was read again
abbrev pub verify_adopted : Text → LiveEdgeState → Detail → List Text → VerifyResult
verify_adopted label live fine [] = verdict label true fine
verify_adopted label live fine (h ∷ hs) =
    let rest = verify_adopted label live fine hs in
    if not (is_managed live h)
    then verdict label false (not_managed_after_adopt h)
    else if not (reachable live h)
    then verdict label false (reachability_changed h)
    else rest

module _ {W : Type 0} where
  -- `desiredAddr`
  unfoldable pub desired_addr : EdgeBinding W → Text → Text → Result Error Text
  desired_addr b service host = b.provider.plan (plain_op expose service host) deny_only >>= λ cs.
      only_address cs.edge.add_routes

  abbrev pub conflict_at : EdgeBinding W → Text → Text → ConflictReason → ImportConflict
  conflict_at b host service reason = record {
    edge = b.name;
    driver = b.provider.name;
    host = host;
    service = service;
    reason = reason;
  }

  abbrev pub candidate_at : EdgeBinding W → Text → Text → Text → RouteMode → AdoptCandidate
  candidate_at b host service address mode = record {
    edge = b.name;
    driver = b.provider.name;
    host = host;
    service = service;
    address = address;
    mode = mode;
  }

  -- a route whose owner does not forbid it, by the backend that the driver would render
  abbrev pub classify_origin : EdgeBinding W → Text → Route → Result Error Text → Classified
  classify_origin b service r (err x) = outside
  classify_origin b service r (ok want) = elim b.provider.adopter [
    | none ↦ conflicting (conflict_at b r.host service driver_unsupported)
    | some f ↦
        if not (r.upstream.address == want)
        then conflicting (conflict_at b r.host service (origin_mismatch r.upstream.address want))
        else adopted_route (candidate_at b r.host service r.upstream.address r.upstream.mode)
  ]

  -- one route of `planImport`
  unfoldable pub classify : Engine W → EdgeBinding W → LiveEdgeState → Route → Classified
  classify e b live r =
      let service = service_of e r.host in
      if not (fronts_service b service)
      then outside
      else if r.managed
      then managed_route r.host
      else if is_foreign r.ownership
      then conflicting (conflict_at b r.host service (foreign_managed live.generator))
      else if is_unknown r.ownership
      then conflicting (conflict_at b r.host service ownership_unknown)
      else classify_origin b service r (desired_addr b service r.host)

  unfoldable pub classify_routes :
      Engine W → EdgeBinding W → LiveEdgeState → List Route → ImportPlan → ImportPlan
  unfolding classify
  classify_routes e b live [] p = p
  classify_routes e b live (r ∷ rs) p =
      add_classified (classify e b live r) (classify_routes e b live rs p)

  unfoldable pub import_edges : Engine W → List (EdgeBinding W) → W → Result Error ImportPlan
  unfolding classify_routes
  import_edges e [] w = ok empty_import
  import_edges e (b ∷ bs) w =
      map_err (read_edge_failed b.name) (b.provider.read_live_state w) >>= λ live.
      import_edges e bs w >>= λ p. ok (classify_routes e b live live.routes p)

  -- `planImport`
  unfoldable pub plan_import : Engine W → W → Result Error ImportPlan
  plan_import e w = import_edges e e.edges w >>= λ p.
      ok (record p { already_managed = sort_texts p.already_managed })

  abbrev adopted_by : Text → W × Option Error → W × Option Error
  adopted_by edge (w, none) = (w, none)
  adopted_by edge (w, some x) = (w, some (adoption_failed edge x))

  -- the hosts of one edge
  abbrev adopt_hosts : EdgeBinding W → List Text → W → W × Option Error
  adopt_hosts b hosts w = if is_nil hosts then (w, none) else elim b.provider.adopter [
    | none ↦ (w, some (adoption_unsupported b.name b.provider.name))
    | some f ↦ adopted_by b.name (f hosts w)
  ]

  abbrev then_adopt : (W → W × Option Error) → W × Option Error → W × Option Error
  then_adopt rest (w, none) = rest w
  then_adopt rest (w, some x) = (w, some x)

  -- the loop over the edges in `Import`, and `adoptInline` of internal/core/declarative.go
  unfoldable pub adopt_edges : List AdoptCandidate → List (EdgeBinding W) → W → W × Option Error
  adopt_edges cands [] w = (w, none)
  adopt_edges cands (b ∷ bs) w =
      then_adopt (adopt_edges cands bs) (adopt_hosts b (hosts_on b.name cands) w)

  abbrev pub binding_label : EdgeBinding W → Text
  binding_label b = codes "edge[" ++ (b.name ++ (codes "·" ++ (b.provider.name ++ codes "]")))

  abbrev pub verify_stamped : EdgeBinding W → List Text → Result Error LiveEdgeState → VerifyResult
  verify_stamped b hosts (err x) = verdict (binding_label b) false (reread_failed x)
  verify_stamped b hosts (ok live) =
      if not live.deny_catch_all_present
      then verdict (binding_label b) false deny_missing_after_adopt
      else verify_adopted (binding_label b) live (now_managed (length hosts)) hosts

  -- `verifyImport`
  unfoldable pub verify_import : List AdoptCandidate → List (EdgeBinding W) → W → List VerifyResult
  verify_import cands [] w = []
  verify_import cands (b ∷ bs) w =
      let rest = verify_import cands bs w in
      let hosts = hosts_on b.name cands in
      if is_nil hosts then rest else verify_stamped b hosts (b.provider.read_live_state w) ∷ rest

  abbrev pub after_adopt :
      Engine W → ImportPlan → W × Option Error → W × ImportReport × Option Error
  after_adopt e p (w, some x) = (w, record { plan = p; adopted = false; verify = [] }, some x)
  after_adopt e p (w, none) =
      let vs = verify_import p.adopt e.edges w in
      (
        w,
        record { plan = p; adopted = true; verify = vs },
        (if not (verified vs) then some (verification_failed (failing vs)) else none),
      )

  abbrev pub unchanged : ImportPlan → W → Option Error → W × ImportReport × Option Error
  unchanged p w x = (w, record { plan = p; adopted = false; verify = [] }, x)

  -- `Import`
  unfoldable pub import_routes :
      Engine W → (ImportPlan → Result Error Bool) → W → W × ImportReport × Option Error
  import_routes e confirm w = elim (gate_read_only e (codes "import")) [
    | err x ↦ unchanged empty_import w (some x)
    | ok u ↦ elim (plan_import e w) [
      | err x ↦ unchanged empty_import w (some x)
      | ok p ↦ if is_nil p.adopt then unchanged p w none else elim (confirm p) [
        | err x ↦ unchanged p w (some x)
        | ok yes_ ↦
            if not yes_ then unchanged p w none else after_adopt e p (adopt_edges p.adopt e.edges w)
      ]
    ]
  ]
