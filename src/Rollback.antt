-- ===== src/Rollback.antt =====
-- internal/core/apply.go: the rollback, which undoes what was applied from the last step to the
-- first and skips an edge whose control plane does not answer.
pub mod Unwind
use crenel.Prelude.{
  ℕ, Bool, true, false, not, ◌&&◌, ◌||◌, List, [], ◌∷◌, ◌++◌, map, find, is_nil, reverse, Option,
  none, some, Text, codes, ◌==◌, text_eq, nat_eq, if◌then◌else◌, ltb, Result, ok, err, map_err,
  ◌>>=◌, sort_stable,
}
use crenel.Model.{
  Op, is_expose, Scope, internal, public, Route, unclassified, unset_ingress, LiveEdgeState,
  EdgeChange, edge_change_empty, DnsChange, dns_change_empty, EdgePlan, ChangeSet,
}
use crenel.Reports.{
  Error, apply_step_failed, snapshot_failed, RollbackError, skipped_unresponsive, undo_failed,
  Outcome,
}
use crenel.Ports.{EdgeProvider, DnsProvider}
use crenel.Engine.{EdgeBinding, Engine, binding}
use crenel.Chain.{chain_depth}

pub record Compensator (W : Type 0) : Type 0 where
  pub name : Text
  pub undo : W → W × Option Error
  pub edge : Option (EdgeProvider W)

-- The wedge status of the edges that were probed, by identity.
abbrev pub Wedged : Type 0
Wedged = List (ℕ × Bool)

unfoldable pub wedge_of : Wedged → ℕ → Option Bool
wedge_of [] k = none
wedge_of ((j, v) ∷ rest) k = if j == k then some v else wedge_of rest k

abbrev add_rollback_error : Outcome → RollbackError → Outcome
add_rollback_error rep x = record rep { rollback_errors = rep.rollback_errors ++ (x ∷ []) }

module _ {W : Type 0} where
  -- `probeEdge`: whether the edge is wedged
  unfoldable pub probe_edge : EdgeProvider W → W → Outcome → Bool × Outcome
  probe_edge p w rep = elim p.healthy [
    | none ↦ (false, rep)
    | some health ↦ elim (health w) [
      | none ↦ (false, rep)
      | some x ↦ (true, record rep { edge_unresponsive = true; recovery_hint = true })
    ]
  ]

  -- `isWedged`: each edge is probed once in a rollback
  unfoldable pub is_wedged :
      Option (EdgeProvider W) → Wedged → W → Outcome → Bool × Wedged × Outcome
  unfolding wedge_of
  is_wedged none cache w rep = (false, cache, rep)
  is_wedged (some p) cache w rep = elim (wedge_of cache p.identity) [
    | some v ↦ (v, cache, rep)
    | none ↦ let (v, rep') = probe_edge p w rep in (v, (p.identity, v) ∷ cache, rep')
  ]

  abbrev after_undo : Text → W × Option Error → Outcome → W × Outcome
  after_undo name (w, none) rep = (w, rep)
  after_undo name (w, some x) rep = (w, add_rollback_error rep (undo_failed name x))

  -- one compensator
  unfoldable pub unwind_one : Compensator W → Bool → W → Outcome → W × Outcome
  unwind_one c true w rep = (w, add_rollback_error rep (skipped_unresponsive c.name))
  unwind_one c false w rep = after_undo c.name (c.undo w) rep

  -- the loop of `rollback`, over the compensators from the last applied to the first
  unfoldable pub unwind : List (Compensator W) → Wedged → W → Outcome → W × Outcome
  unwind [] cache w rep = (w, rep)
  unwind (c ∷ cs) cache w rep =
      let (wedged, cache', rep') = is_wedged c.edge cache w rep in
      let (w', rep'') = unwind_one c wedged w rep' in unwind cs cache' w' rep''

  unfoldable pub rollback : Engine W → List (Compensator W) → W → Outcome → W × Outcome
  rollback e applied w rep =
      if not e.rollback || is_nil applied
      then (w, rep)
      else unwind (reverse applied) [] w (record rep { rolled_back = true })
