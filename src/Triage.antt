-- ===== src/Triage.antt =====
-- internal/core/triage.go: the entries that were not understood, and acknowledging them by their
-- place in the configuration.
pub mod ByLocator
use crenel.Prelude.{
  Bool, true, false, not, ◌&&◌, ◌||◌, List, [], ◌∷◌, ◌++◌, map, keep_if, is_nil, Option, none, some,
  Text, codes, ◌==◌, text_eq, if◌then◌else◌, Result, ok, err, ◌>>=◌, map_err,
}
use crenel.Model.{LiveEdgeState, Unparsed, is_acknowledged}
use crenel.Reports.{
  Error, read_edge_failed, ack_no_edge, unack_no_edge, ack_unconfirmed, unack_unconfirmed,
  no_edge_resolves, no_edge_named,
}
use crenel.Ports.{LocatorAcker, EdgeProvider}
use crenel.Engine.{EdgeBinding, Engine, gate_read_only}
use crenel.Ack.{AckRun, any_entry}

pub record TriageItem : Type 0 where
  pub edge : Text
  pub unparsed : Unparsed
  pub route_ackable : Bool

abbrev is_some {ℓ} : {A : Type ℓ} → Option A → Bool
is_some none = false
is_some (some a) = true

-- an acknowledged entry at this place
unfoldable pub acknowledged_at : Text → Unparsed → Bool
acknowledged_at locator u = is_acknowledged u.kind && u.locator == locator

-- `splitAcknowledged`, its first part
abbrev pub real_unknown : List Unparsed → List Unparsed
real_unknown us = keep_if (λ u. not (is_acknowledged u.kind)) us

module _ {W : Type 0} where
  -- the edges that are not passed over; the empty name passes over none
  unfoldable pub edges_named : Text → List (EdgeBinding W) → List (EdgeBinding W)
  edges_named name bs = keep_if (λ b. name == [] || b.name == name) bs

  abbrev pub item_of : EdgeBinding W → Unparsed → TriageItem
  item_of b u = record {
    edge = b.name;
    unparsed = u;
    route_ackable = is_some b.provider.locator_acker;
  }

  unfoldable pub triage_items : List (EdgeBinding W) → W → Result Error (List TriageItem)
  triage_items [] w = ok []
  triage_items (b ∷ bs) w = do
    live ← map_err (read_edge_failed b.name) (b.provider.read_live_state w)
    rest ← triage_items bs w
    ok (map (item_of b) (real_unknown live.unparsed) ++ rest)

  -- `NotUnderstood`
  unfoldable pub not_understood : Engine W → Text → W → Result Error (List TriageItem)
  unfolding triage_items edges_named
  not_understood e name w = do
    items ← triage_items (edges_named name e.edges) w
    if not (name == []) && is_nil (edges_named name e.edges)
        then err (no_edge_named name (map (λ b. b.name) e.edges))
        else ok items

  abbrev note_try : Text → W × Option Error → Bool → List Text → AckRun W
  note_try name (w, none) done failures = (w, true, failures)
  note_try name (w, some x) done failures = (w, done, failures ++ (name ∷ []))

  -- `onLocatorAckers`, over the edges that are not passed over
  unfoldable pub on_locator_ackers :
      (LocatorAcker W → W → W × Option Error)
      → List (EdgeBinding W)
      → W
      → Bool
      → List Text
      → AckRun W
  on_locator_ackers op [] w done failures = (w, done, failures)
  on_locator_ackers op (b ∷ bs) w done failures =
      let skip = on_locator_ackers op bs w done failures in
      elim b.provider.locator_acker [
        | none ↦ skip
        | some a ↦
            let (w', done', failures') = note_try b.name (op a w) done failures in
            on_locator_ackers op bs w' done' failures'
      ]

  abbrev pub confirm_ack_route : List (EdgeBinding W) → Text → AckRun W → W × Option Error
  confirm_ack_route bs locator (w, done, failures) =
      if not done
      then (w, some (ack_no_edge locator failures))
      else if any_entry (acknowledged_at locator) bs w
      then (w, none)
      else (w, some (ack_unconfirmed locator))

  -- `AckRoute`
  unfoldable pub ack_route : Engine W → Text → Text → Text → W → W × Option Error
  unfolding on_locator_ackers
  ack_route e name locator reason w = elim (gate_read_only e (codes "ack")) [
    | err x ↦ (w, some x)
    | ok u ↦ confirm_ack_route (edges_named name e.edges) locator (
        on_locator_ackers (λ a. a.ack_locator locator reason) (edges_named name e.edges) w false [])
  ]

  abbrev pub confirm_unack_route : List (EdgeBinding W) → Text → AckRun W → W × Option Error
  confirm_unack_route bs locator (w, done, failures) =
      if not done
      then (w, some (unack_no_edge locator failures))
      else if any_entry (acknowledged_at locator) bs w
      then (w, some (unack_unconfirmed locator))
      else (w, none)

  -- `UnackRoute`
  unfoldable pub unack_route : Engine W → Text → Text → W → W × Option Error
  unack_route e name locator w = elim (gate_read_only e (codes "unack")) [
    | err x ↦ (w, some x)
    | ok u ↦
        confirm_unack_route (edges_named name e.edges) locator
          (on_locator_ackers (λ a. a.unack_locator locator) (edges_named name e.edges) w false [])
  ]

  -- the loop of `RouteJSON`
  unfoldable pub first_json : Text → List (EdgeBinding W) → W → List Text → Result Error Text
  first_json locator [] w failures = err (no_edge_resolves locator failures)
  first_json locator (b ∷ bs) w failures =
      let skip = first_json locator bs w failures in
      let failed = first_json locator bs w (failures ++ (b.name ∷ [])) in
      elim b.provider.locator_acker [
        | none ↦ skip
        | some a ↦ elim (a.route_raw_json locator w) [ ok s ↦ ok s | err x ↦ failed ]
      ]

  -- `RouteJSON`
  unfoldable pub route_json : Engine W → Text → Text → W → Result Error Text
  unfolding first_json edges_named
  route_json e name locator w = first_json locator (edges_named name e.edges) w []
