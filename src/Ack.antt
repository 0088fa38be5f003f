-- ===== src/Ack.antt =====
-- internal/core/ack.go: the acknowledgement marker is set on or removed from a route at the edges
-- that can, and read back.
pub mod ReadBack
use crenel.Prelude.{
  Bool, true, false, not, ◌&&◌, ◌||◌, List, [], ◌∷◌, ◌++◌, any, is_nil, Option, none, some, Text,
  codes, ◌==◌, has_prefix, to_lower, if◌then◌else◌, Result, ok, err,
}
use crenel.Model.{LiveEdgeState, Unparsed, is_acknowledged}
use crenel.Reports.{Error, ack_no_edge, unack_no_edge, ack_unconfirmed, unack_unconfirmed}
use crenel.Ports.{Acker, EdgeProvider}
use crenel.Engine.{EdgeBinding, Engine, gate_read_only}

-- `strings.Contains`, the text first
unfoldable pub contains_text : Text → Text → Bool
contains_text [] sub = is_nil sub
contains_text (x ∷ s) sub = has_prefix (x ∷ s) sub || contains_text s sub

-- an acknowledged entry with this reason, or with this host in its excerpt
unfoldable pub acknowledges : Text → Unparsed → Bool
acknowledges reason u =
    is_acknowledged u.kind && contains_text (to_lower u.reason) (to_lower reason)

unfoldable pub still_acknowledged : Text → Unparsed → Bool
still_acknowledged host u = is_acknowledged u.kind && contains_text u.raw_excerpt host

-- What came of the edges: the world, whether one accepted, and those that failed.
abbrev pub AckRun : Type 0 → Type 0
AckRun W = W × Bool × List Text

module _ {W : Type 0} where
  abbrev record_try : Text → W × Option Error → Bool → List Text → AckRun W
  record_try name (w, none) done failures = (w, true, failures)
  record_try name (w, some x) done failures = (w, done, failures ++ (name ∷ []))

  -- `ackUnackOnEdges`; a failure is named by its edge
  unfoldable pub ack_unack_on_edges :
      (Acker W → W → W × Option Error) → List (EdgeBinding W) → W → Bool → List Text → AckRun W
  ack_unack_on_edges op [] w done failures = (w, done, failures)
  ack_unack_on_edges op (b ∷ bs) w done failures =
      let skip = ack_unack_on_edges op bs w done failures in
      elim b.provider.acker [
        | none ↦ skip
        | some a ↦
            let (w', done', failures') = record_try b.name (op a w) done failures in
            ack_unack_on_edges op bs w' done' failures'
      ]

  -- Some edge that can be read has an entry with the property.
  unfoldable pub any_entry : (Unparsed → Bool) → List (EdgeBinding W) → W → Bool
  any_entry p [] w = false
  any_entry p (b ∷ bs) w = elim (b.provider.read_live_state w) [
    | err x ↦ any_entry p bs w
    | ok live ↦ any p live.unparsed || any_entry p bs w
  ]

  abbrev pub confirm_ack : Engine W → Text → Text → AckRun W → W × Option Error
  confirm_ack e host reason (w, done, failures) =
      if not done
      then (w, some (ack_no_edge host failures))
      else if any_entry (acknowledges reason) e.edges w
      then (w, none)
      else (w, some (ack_unconfirmed host))

  -- `Ack`
  unfoldable pub ack : Engine W → Text → Text → W → W × Option Error
  unfolding ack_unack_on_edges any_entry
  ack e host reason w = elim (gate_read_only e (codes "ack")) [
    | err x ↦ (w, some x)
    | ok u ↦
        confirm_ack e host reason (ack_unack_on_edges (λ a. a.ack host reason) e.edges w false [])
  ]

  abbrev pub confirm_unack : Engine W → Text → AckRun W → W × Option Error
  confirm_unack e host (w, done, failures) =
      if not done
      then (w, some (unack_no_edge host failures))
      else if any_entry (still_acknowledged host) e.edges w
      then (w, some (unack_unconfirmed host))
      else (w, none)

  -- `Unack`
  unfoldable pub unack : Engine W → Text → W → W × Option Error
  unack e host w = elim (gate_read_only e (codes "unack")) [
    | err x ↦ (w, some x)
    | ok u ↦ confirm_unack e host (ack_unack_on_edges (λ a. a.unack host) e.edges w false [])
  ]
