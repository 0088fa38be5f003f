-- ===== src/Resume.antt =====
-- internal/core/resume.go: an interrupted op is driven again from live state.
pub mod Split
use crenel.Prelude.{
  Bool, true, false, List, [], ◌∷◌, ◌++◌, map, keep_if, not, Option, none, some, Text, codes,
  if◌then◌else◌, Result, ok, err,
}
use crenel.Model.{
  Op, EdgePlan, edge_change_empty, DnsChange, dns_change_empty, ChangeSet, change_set_empty,
}
use crenel.Reports.{Error, ApplyReport}
use crenel.Ports.{DnsProvider}
use crenel.Engine.{Engine, gate_read_only}
use crenel.Plan.{plan}
use crenel.Steps.{edge_label, dns_label}
use crenel.Apply.{Confirm, apply_planned}

-- `completed` is the field `Apply`, `none` where it keeps its zero value.
pub record ResumeReport : Type 0 where
  pub op : Op
  pub already : List Text
  pub pending : List Text
  pub nothing_to_do : Bool
  pub completed : Option ApplyReport

unfoldable pub edge_progress : List EdgePlan → List (Text × Bool)
edge_progress ps = map (λ p. (edge_label p, not (edge_change_empty p.change))) ps

abbrev nothing_yet : Op → ResumeReport
nothing_yet op = record {
  op = op;
  already = [];
  pending = [];
  nothing_to_do = false;
  completed = none;
}

module _ {W : Type 0} where
  -- The label of each DNS provider, and whether its change is pending. A provider with no change
  -- at its position is done.
  unfoldable pub dns_progress : List (DnsProvider W) → List DnsChange → List (Text × Bool)
  dns_progress [] changes = []
  dns_progress (p ∷ ps) [] = (dns_label p, false) ∷ dns_progress ps []
  dns_progress (p ∷ ps) (c ∷ cs) = (dns_label p, not (dns_change_empty c)) ∷ dns_progress ps cs

  unfoldable pub progress : Engine W → ChangeSet → List (Text × Bool)
  unfolding edge_progress dns_progress
  progress e cs = edge_progress cs.edges ++ dns_progress e.dns cs.dns

  unfoldable pub diagnose : Engine W → Op → ChangeSet → ResumeReport
  unfolding progress
  diagnose e op cs = record {
    op = op;
    already = map (λ x. x.0) (keep_if (λ x. not x.1) (progress e cs));
    pending = map (λ x. x.0) (keep_if (λ x. x.1) (progress e cs));
    nothing_to_do = change_set_empty cs;
    completed = none;
  }

  abbrev with_apply :
      ResumeReport → W × ApplyReport × Option Error → W × ResumeReport × Option Error
  with_apply rr (w, rep, x) = (w, record rr { completed = some rep }, x)

  -- `Resume`
  unfoldable pub resume : Engine W → Op → Confirm → W → W × ResumeReport × Option Error
  resume e op confirm w = elim (gate_read_only e (codes "resume")) [
    | err x ↦ (w, nothing_yet op, some x)
    | ok u ↦ elim (plan e op w) [
      | err x ↦ (w, nothing_yet op, some x)
      | ok cs ↦
          let rr = diagnose e op cs in
          if change_set_empty cs
          then (w, rr, none)
          else with_apply rr (apply_planned e op cs confirm w)
    ]
  ]
