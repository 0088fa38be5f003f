-- ===== src/Tests/Reads.antt =====
-- Status and acknowledgement in the small world, and the theorems on them.
use crenel.Prelude.{
  text_beq_iff, Bool, true, false, ◌≡◌, ◌≢◌, refl, List, [], ◌∷◌, map, none, some, In, here, there,
  ok, Text, codes, Option,
}
use crenel.Model.{LiveEdgeState, Unparsed, acknowledged_unknown, ChangeSet, zero_edge_change}
use crenel.Reports.{StatusReport}
use crenel.Ports.{EdgeProvider, Acker}
use crenel.Engine.{EdgeBinding, Engine}
use crenel.Follow.{EdgeReads}
use crenel.Chain.{role_for, role_forward, role_none, ChainRole}
use crenel.Gate.{gate_ownership}
use crenel.Gate.ChainPermit.{ParticipantPermitted, gate_ownership-ParticipantPermitted}
use crenel.Status.{status, edge_status}
use crenel.Status.Reads.{DistinctNames}
use crenel.Status.Rows.{RowsShow, status-RowsShow}
use crenel.Ack.{acknowledges, still_acknowledged, ack, unack}
use crenel.Ack.ReadBack.{ack-confirms_any}
use crenel.Tests.World.{
  World, host, chained, front, back, nothing, exposed, proxy, one_edge, live_of, engine, expose_op,
}

abbrev chained_reads : EdgeReads
chained_reads =
    (codes "f", ok (live_of exposed.routes)) ∷ (codes "b", ok (live_of exposed.routes)) ∷ []

abbrev chained_report : StatusReport
chained_report = record { edges = map (edge_status chained_reads exposed) chained.edges; dns = [] }

status_run : status chained exposed ≡ ok chained_report
unfolding status crenel.Status.read_all crenel.Status.read_edges crenel.Status.read_edge
    crenel.Status.dns_status
status_run = refl

chained-DistinctNames : DistinctNames chained.edges
chained-DistinctNames =
    (((λ h. let t = (text_beq_iff (codes "f") (codes "b")).1 h in cc t), tt), (tt, tt))

status-RowsShow_example : RowsShow chained exposed chained.edges chained_report.edges
status-RowsShow_example =
    status-RowsShow chained exposed chained_report chained-DistinctNames status_run

-- an entry of another route, acknowledged with the same reason
abbrev other_entry : Unparsed
other_entry = record {
  locator = codes "r2";
  kind = acknowledged_unknown;
  reason = codes "crenel-ack:known-ok";
  raw_excerpt = codes "other.io";
}

abbrev shown : World → LiveEdgeState
shown w = record (live_of w.routes) { unparsed = other_entry ∷ [] }

-- a driver that says it set the marker, and changes nothing
abbrev idle_acker : Acker World
idle_acker = record { ack = λ h r w. (w, none); unack = λ h w. (w, none) }

abbrev idle_proxy : EdgeProvider World
idle_proxy = record proxy { read_live_state = λ w. ok (shown w); acker = some idle_acker }

abbrev idle_edge : EdgeBinding World
idle_edge = record one_edge { provider = idle_proxy }

abbrev idle_engine : Engine World
idle_engine = engine (idle_edge ∷ []) [] []

same_reason : acknowledges (codes "known-ok") other_entry ≡ true
unfolding acknowledges crenel.Ack.contains_text crenel.Prelude.to_lower crenel.Prelude.has_prefix
same_reason = refl

ack-confirms_any_example : ack idle_engine host (codes "known-ok") nothing ≡ (nothing, none)
ack-confirms_any_example =
    ack-confirms_any idle_engine idle_edge idle_acker host (codes "known-ok") nothing
      (shown nothing) other_entry refl refl refl refl refl here same_reason

ack_run : (ack idle_engine host (codes "known-ok") nothing).1 ≡ none
unfolding ack crenel.Engine.gate_read_only crenel.Ack.ack_unack_on_edges crenel.Ack.any_entry
    acknowledges crenel.Ack.contains_text crenel.Prelude.to_lower crenel.Prelude.has_prefix
ack_run = refl

unack_run : (unack idle_engine host nothing).1 ≡ none
unfolding unack crenel.Engine.gate_read_only crenel.Ack.ack_unack_on_edges crenel.Ack.any_entry
    still_acknowledged crenel.Ack.contains_text crenel.Prelude.has_prefix
unack_run = refl

-- an op on the chain for which no edge has a change
abbrev quiet_set : ChangeSet
quiet_set = record {
  op = expose_op;
  edge = zero_edge_change;
  edges = [];
  dns = [];
  new_public = [];
}

gate_run : gate_ownership chained quiet_set exposed ≡ ok tt
unfolding gate_ownership crenel.Gate.gate_chain_ownership crenel.Gate.gate_participants
    crenel.Gate.gate_plans crenel.Gate.gate_chain_live crenel.Gate.gate_owner
    crenel.Gate.ownership_of role_for crenel.Engine.fronts_service crenel.Engine.internal_scoped
    crenel.Chain.downstream_participates crenel.Chain.participates_from crenel.Engine.binding
    crenel.Prelude.equal_fold crenel.Prelude.to_lower
gate_run = refl

front_forwards : role_for chained front host ≡ role_forward
unfolding role_for crenel.Engine.fronts_service crenel.Engine.internal_scoped
    crenel.Chain.downstream_participates crenel.Chain.participates_from crenel.Engine.binding
front_forwards = refl

back_takes_part : role_for chained back host ≢ role_none
unfolding role_for crenel.Engine.fronts_service
back_takes_part = λ h. cc

gate_ownership-ParticipantPermitted_example : ParticipantPermitted chained expose_op exposed back
gate_ownership-ParticipantPermitted_example =
    gate_ownership-ParticipantPermitted chained quiet_set exposed front back gate_run (λ h. cc) here
      front_forwards (there here) back_takes_part
