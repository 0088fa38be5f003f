-- ===== src/Declarative/Exposures.antt =====
-- internal/core/declarative.go: the exposures of a file, the plan and its options, and what becomes of
-- one exposure at one edge.
use crenel.Prelude.{
  Bool, not, ◌&&◌, List, [], ◌∷◌, find, is_nil, Option, none, some, Text, ◌==◌, text_eq, equal_fold,
  if◌then◌else◌, Result, ok, err, ◌>>=◌, map_err,
}
use crenel.Model.{
  Op, expose, plain_op, RouteMode, Scope, Route, LiveEdgeState, has_host, ChangeSet,
  change_set_empty,
}
use crenel.Reports.{Error, plan_edge_failed}
use crenel.Engine.{EdgeBinding, Engine, fronts_service, edge_selected, build_op}
use crenel.Gate.{ownership_of}
use crenel.Import.{
  AdoptCandidate, ImportConflict, foreign_managed, ownership_unknown, exists_unmanaged,
  origin_mismatch, unresolvable, is_foreign, is_unknown, is_managed, desired_addr, conflict_at,
  candidate_at,
}

pub record Exposure : Type 0 where
  pub host : Text
  pub service : Text
  pub mode : RouteMode
  pub auth : Text
  pub edges : List Text
  pub scopes : List Scope
  pub residency : Text

-- `DeclarativeOptions`
pub record Options : Type 0 where
  pub adopt : Bool
  pub prune : Bool

pub record DeclarativePlan : Type 0 where
  pub change : ChangeSet
  pub new_public : List Text
  pub adopt : List AdoptCandidate
  pub prune : List Text
  pub blocked : List ImportConflict

-- `DeclarativePlan.Empty`
unfoldable pub plan_empty : DeclarativePlan → Bool
plan_empty p = change_set_empty p.change && is_nil p.adopt && is_nil p.prune

-- The live states by the name of the edge; a later edge of a name replaces an earlier one.
abbrev pub Lives : Type 0
Lives = List (Text × LiveEdgeState)

unfoldable pub live_at : Lives → Text → Option LiveEdgeState
live_at [] name = none
live_at ((n, s) ∷ rest) name = elim (live_at rest name) [
  | some later ↦ some later
  | none ↦ if n == name then some s else none
]

-- What becomes of an exposure at an edge
pub data Placement : Type 0 where
  satisfied : Placement
  blocked_by : ImportConflict → Placement
  adopted_as : AdoptCandidate → Placement
  routed : List Route → Placement

-- `addrOf`
unfoldable pub addr_of : LiveEdgeState → Text → Text
addr_of live host = elim (find (λ r. equal_fold r.host host) live.routes) [
  | some r ↦ r.upstream.address
  | none ↦ []
]

abbrev pub exposure_op : Exposure → Text → Op
exposure_op ex host = record (plain_op expose ex.service host) { mode = ex.mode; auth = ex.auth }

module _ {W : Type 0} where
  -- `exposureHost`
  unfoldable pub exposure_host : Engine W → Exposure → Text
  exposure_host e ex = if not (ex.host == []) then ex.host else (build_op e expose ex.service).host

  -- `targetEdges`
  unfoldable pub target_edges : Exposure → List (EdgeBinding W) → List (EdgeBinding W)
  target_edges ex [] = []
  target_edges ex (b ∷ bs) =
      let rest = target_edges ex bs in
      if edge_selected ex.edges b.name && fronts_service b ex.service then b ∷ rest else rest

  -- a host that is present, unmanaged, and of an owner that does not forbid it
  abbrev pub place_unmanaged :
      Options → EdgeBinding W → LiveEdgeState → Exposure → Text → Result Error Text → Placement
  place_unmanaged opts b live ex host (err x) =
      blocked_by (conflict_at b host ex.service (unresolvable x))
  place_unmanaged opts b live ex host (ok want) =
      if not (addr_of live host == want)
      then blocked_by (conflict_at b host ex.service (origin_mismatch (addr_of live host) want))
      else if not opts.adopt
      then blocked_by (conflict_at b host ex.service exists_unmanaged)
      else adopted_as (candidate_at b host ex.service (addr_of live host) ex.mode)

  -- a host that is present
  unfoldable pub place_present :
      Options → EdgeBinding W → LiveEdgeState → Exposure → Text → Placement
  place_present opts b live ex host =
      if is_managed live host
      then satisfied
      else if is_foreign (ownership_of live host)
      then blocked_by (conflict_at b host ex.service (foreign_managed []))
      else if is_unknown (ownership_of live host)
      then blocked_by (conflict_at b host ex.service ownership_unknown)
      else place_unmanaged opts b live ex host (desired_addr b ex.service host)

  unfoldable pub place :
      Options → EdgeBinding W → LiveEdgeState → Exposure → Text → Result Error Placement
  unfolding place_present
  place opts b live ex host =
      if has_host live host
      then ok (place_present opts b live ex host)
      else map_err (plan_edge_failed b.name) (b.provider.plan (exposure_op ex host) live) >>= λ cs.
          ok (routed cs.edge.add_routes)
