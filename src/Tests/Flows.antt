-- ===== src/Tests/Flows.antt =====
-- Runs of the mutating flow in the small world, and its theorems at them.
use crenel.Prelude.{
  arith, ap, is_nil, Ordered, Perm, ◌↔◌, ◌++◌, true, false, ◌≡◌, ◌≢◌, refl, ◌⊎◌, inl, inr, List, [],
  ◌∷◌, none, some, In, here, ok, Text, codes, map, Bool,
}
use crenel.Model.{EdgePlan, ChangeSet, expose, no_dns_change}
use crenel.Reports.{no_outcome, runtime_unconfirmed_results}
use crenel.Ports.{DnsProvider}
use crenel.Engine.{EdgeBinding, Engine, binding, gate_read_only}
use crenel.Plan.{plan}
use crenel.Gate.{gate_ownership}
use crenel.Steps.{Snapshots, build_steps, edge_steps, dns_steps, ApplyStep}
use crenel.Apply.{apply_planned, apply, persist_edges}
use crenel.Apply.Verified.{apply_planned-verified}
use crenel.Apply.Guarded.{apply-guarded}
use crenel.Verify.{verify}
use crenel.Verify.Sound.{EdgeHolds, DnsHolds}
use crenel.Gate.Permit.{Permitted, gate_ownership-Permitted}
use crenel.Steps.Order.{Before, build_steps-Ordered}
use crenel.Steps.Sources.{Origin, origins, step_of}
use crenel.Tests.World.{World, small, expose_op, expose_set, nothing, exposed, yes_always}

plan_run : plan small expose_op nothing ≡ ok expose_set
unfolding plan crenel.Model.validate_auth crenel.Engine.internal_scoped crenel.Plan.plan_edges
    crenel.Engine.edge_selected crenel.Chain.role_for crenel.Engine.fronts_service
    crenel.Plan.plan_dns crenel.Plan.plan_provider crenel.Plan.dns_skipped
    crenel.Engine.scope_selected crenel.Engine.dns_covers_host crenel.Engine.zone_covers
    crenel.Engine.dns_zone crenel.Prelude.to_lower crenel.Prelude.trim_suffix
    crenel.Prelude.has_suffix crenel.Engine.residency_supported crenel.Model.has_host
    crenel.Plan.add_hosts crenel.Plan.compute_new_public crenel.Plan.plan_edge
    crenel.Plan.public_record_names crenel.Prelude.equal_fold
plan_run = refl

apply_run : (apply_planned small expose_op expose_set yes_always nothing).0 ≡ exposed
unfolding apply_planned crenel.Model.change_set_empty crenel.Gate.gate_ownership
    crenel.Gate.gate_chain_ownership crenel.Chain.role_for crenel.Engine.fronts_service
    crenel.Gate.gate_plans crenel.Gate.gate_plan crenel.Engine.binding crenel.Gate.touched_hosts
    crenel.Prelude.sort_stable crenel.Gate.distinct crenel.Follow.indexed_route
    crenel.Steps.snapshots crenel.Apply.execute crenel.Steps.build_steps crenel.Steps.step_less
    crenel.Steps.dns_rank crenel.Chain.chain_depth crenel.Chain.relax_loop crenel.Chain.relax_edges
    crenel.Chain.relax_edge crenel.Steps.invert_edge crenel.Steps.invert_dns crenel.Verify.verify
    crenel.Verify.verify_edge crenel.Verify.verify_read crenel.Verify.verify_provider
    crenel.Checks.verify_artifact crenel.Checks.verify_verb crenel.Checks.verify_edge_host
    crenel.Checks.verify_edge_auth crenel.Checks.verify_edge_forward_tls crenel.Checks.route_of
    crenel.Checks.normalize_auth_presence crenel.Checks.verify_dns crenel.Checks.verify_present
    crenel.Checks.record_at_key crenel.Model.same_key crenel.Checks.same_dns_value
    crenel.Prelude.trim_space crenel.Prelude.equal_fold crenel.Prelude.to_lower
    crenel.Model.has_host crenel.Model.reachable crenel.Reports.verified
    crenel.Reports.runtime_unconfirmed_results crenel.Apply.accept crenel.Apply.persist_edges
    crenel.Apply.persist_edge crenel.Engine.scope_selected crenel.Engine.dns_covers_host
    crenel.Engine.zone_covers crenel.Engine.dns_zone crenel.Prelude.trim_suffix
    crenel.Prelude.has_suffix crenel.Rollback.rollback crenel.Rollback.unwind
    crenel.Rollback.unwind_one crenel.Rollback.is_wedged crenel.Rollback.wedge_of
    crenel.Rollback.probe_edge crenel.Steps.prior_routes crenel.Apply.settle
    crenel.Apply.after_steps crenel.Apply.run_steps
apply_run = refl

apply_fine : (apply_planned small expose_op expose_set yes_always nothing).2 ≡ none
unfolding apply_planned crenel.Model.change_set_empty crenel.Gate.gate_ownership
    crenel.Gate.gate_chain_ownership crenel.Chain.role_for crenel.Engine.fronts_service
    crenel.Gate.gate_plans crenel.Gate.gate_plan crenel.Engine.binding crenel.Gate.touched_hosts
    crenel.Prelude.sort_stable crenel.Gate.distinct crenel.Follow.indexed_route
    crenel.Steps.snapshots crenel.Apply.execute crenel.Steps.build_steps crenel.Steps.step_less
    crenel.Steps.dns_rank crenel.Chain.chain_depth crenel.Chain.relax_loop crenel.Chain.relax_edges
    crenel.Chain.relax_edge crenel.Steps.invert_edge crenel.Steps.invert_dns crenel.Verify.verify
    crenel.Verify.verify_edge crenel.Verify.verify_read crenel.Verify.verify_provider
    crenel.Checks.verify_artifact crenel.Checks.verify_verb crenel.Checks.verify_edge_host
    crenel.Checks.verify_edge_auth crenel.Checks.verify_edge_forward_tls crenel.Checks.route_of
    crenel.Checks.normalize_auth_presence crenel.Checks.verify_dns crenel.Checks.verify_present
    crenel.Checks.record_at_key crenel.Model.same_key crenel.Checks.same_dns_value
    crenel.Prelude.trim_space crenel.Prelude.equal_fold crenel.Prelude.to_lower
    crenel.Model.has_host crenel.Model.reachable crenel.Reports.verified
    crenel.Reports.runtime_unconfirmed_results crenel.Apply.accept crenel.Apply.persist_edges
    crenel.Apply.persist_edge crenel.Engine.scope_selected crenel.Engine.dns_covers_host
    crenel.Engine.zone_covers crenel.Engine.dns_zone crenel.Prelude.trim_suffix
    crenel.Prelude.has_suffix crenel.Rollback.rollback crenel.Rollback.unwind
    crenel.Rollback.unwind_one crenel.Rollback.is_wedged crenel.Rollback.wedge_of
    crenel.Rollback.probe_edge crenel.Steps.prior_routes crenel.Apply.settle
    crenel.Apply.after_steps crenel.Apply.run_steps
apply_fine = refl

apply_done : (apply_planned small expose_op expose_set yes_always nothing).1.applied ≡ true
unfolding apply_planned crenel.Model.change_set_empty crenel.Gate.gate_ownership
    crenel.Gate.gate_chain_ownership crenel.Chain.role_for crenel.Engine.fronts_service
    crenel.Gate.gate_plans crenel.Gate.gate_plan crenel.Engine.binding crenel.Gate.touched_hosts
    crenel.Prelude.sort_stable crenel.Gate.distinct crenel.Follow.indexed_route
    crenel.Steps.snapshots crenel.Apply.execute crenel.Steps.build_steps crenel.Steps.step_less
    crenel.Steps.dns_rank crenel.Chain.chain_depth crenel.Chain.relax_loop crenel.Chain.relax_edges
    crenel.Chain.relax_edge crenel.Steps.invert_edge crenel.Steps.invert_dns crenel.Verify.verify
    crenel.Verify.verify_edge crenel.Verify.verify_read crenel.Verify.verify_provider
    crenel.Checks.verify_artifact crenel.Checks.verify_verb crenel.Checks.verify_edge_host
    crenel.Checks.verify_edge_auth crenel.Checks.verify_edge_forward_tls crenel.Checks.route_of
    crenel.Checks.normalize_auth_presence crenel.Checks.verify_dns crenel.Checks.verify_present
    crenel.Checks.record_at_key crenel.Model.same_key crenel.Checks.same_dns_value
    crenel.Prelude.trim_space crenel.Prelude.equal_fold crenel.Prelude.to_lower
    crenel.Model.has_host crenel.Model.reachable crenel.Reports.verified
    crenel.Reports.runtime_unconfirmed_results crenel.Apply.accept crenel.Apply.persist_edges
    crenel.Apply.persist_edge crenel.Engine.scope_selected crenel.Engine.dns_covers_host
    crenel.Engine.zone_covers crenel.Engine.dns_zone crenel.Prelude.trim_suffix
    crenel.Prelude.has_suffix crenel.Rollback.rollback crenel.Rollback.unwind
    crenel.Rollback.unwind_one crenel.Rollback.is_wedged crenel.Rollback.wedge_of
    crenel.Rollback.probe_edge crenel.Steps.prior_routes crenel.Apply.settle
    crenel.Apply.after_steps crenel.Apply.run_steps
apply_done = refl

apply_planned-verified_example :
    (v : World) × ((p : EdgePlan) (b : EdgeBinding World)
      → In p expose_set.edges
      → binding small p.edge ≡ some b
      → EdgeHolds b expose_op v p)
    × ((p : DnsProvider World) → In p small.dns → DnsHolds expose_op v p)
    × ((small.allow_unverified ≡ true)
        ⊎ (runtime_unconfirmed_results (verify small expose_op expose_set v) ≡ []))
    × ((apply_planned small expose_op expose_set yes_always nothing).0
        ≡ (persist_edges small [] expose_set.edges v no_outcome).0)
apply_planned-verified_example =
    apply_planned-verified small expose_op expose_set yes_always nothing apply_fine apply_done

moved : (apply small expose_op yes_always nothing).0 ≢ nothing
unfolding apply crenel.Engine.gate_read_only plan apply_planned crenel.Model.validate_auth
    crenel.Engine.internal_scoped crenel.Plan.plan_edges crenel.Engine.edge_selected
    crenel.Chain.role_for crenel.Engine.fronts_service crenel.Plan.plan_dns
    crenel.Plan.plan_provider crenel.Plan.dns_skipped crenel.Engine.scope_selected
    crenel.Engine.dns_covers_host crenel.Engine.zone_covers crenel.Engine.dns_zone
    crenel.Prelude.to_lower crenel.Prelude.trim_suffix crenel.Prelude.has_suffix
    crenel.Engine.residency_supported crenel.Model.has_host crenel.Plan.add_hosts
    crenel.Plan.compute_new_public crenel.Plan.plan_edge crenel.Plan.public_record_names
    crenel.Prelude.equal_fold crenel.Model.change_set_empty crenel.Gate.gate_ownership
    crenel.Gate.gate_chain_ownership crenel.Gate.gate_plans crenel.Gate.gate_plan
    crenel.Engine.binding crenel.Gate.touched_hosts crenel.Prelude.sort_stable crenel.Gate.distinct
    crenel.Follow.indexed_route crenel.Steps.snapshots crenel.Apply.execute crenel.Steps.build_steps
    crenel.Steps.step_less crenel.Steps.dns_rank crenel.Chain.chain_depth crenel.Chain.relax_loop
    crenel.Chain.relax_edges crenel.Chain.relax_edge crenel.Steps.invert_edge
    crenel.Steps.invert_dns crenel.Verify.verify crenel.Verify.verify_edge crenel.Verify.verify_read
    crenel.Verify.verify_provider crenel.Checks.verify_artifact crenel.Checks.verify_verb
    crenel.Checks.verify_edge_host crenel.Checks.verify_edge_auth
    crenel.Checks.verify_edge_forward_tls crenel.Checks.route_of
    crenel.Checks.normalize_auth_presence crenel.Checks.verify_dns crenel.Checks.verify_present
    crenel.Checks.record_at_key crenel.Model.same_key crenel.Checks.same_dns_value
    crenel.Prelude.trim_space crenel.Model.reachable crenel.Reports.verified
    crenel.Reports.runtime_unconfirmed_results crenel.Apply.accept crenel.Apply.persist_edges
    crenel.Apply.persist_edge crenel.Rollback.rollback crenel.Rollback.unwind
    crenel.Rollback.unwind_one crenel.Rollback.is_wedged crenel.Rollback.wedge_of
    crenel.Rollback.probe_edge crenel.Steps.prior_routes crenel.Apply.settle
    crenel.Apply.after_steps crenel.Apply.run_steps
moved h = absurd (ground (arith, ap (λ (w : World). is_nil w.routes) h))

apply-guarded_example :
    (small.read_only ≡ false)
    × ((cs : ChangeSet) × (plan small expose_op nothing ≡ ok cs)
        × (yes_always cs ≡ ok true)
        × Permitted small cs nothing)
apply-guarded_example = apply-guarded small expose_op yes_always nothing moved

gate_run : gate_ownership small expose_set nothing ≡ ok tt
unfolding crenel.Model.change_set_empty crenel.Gate.gate_ownership crenel.Gate.gate_chain_ownership
    crenel.Chain.role_for crenel.Engine.fronts_service crenel.Gate.gate_plans crenel.Gate.gate_plan
    crenel.Engine.binding crenel.Gate.touched_hosts crenel.Prelude.sort_stable crenel.Gate.distinct
    crenel.Follow.indexed_route crenel.Steps.snapshots crenel.Apply.execute crenel.Steps.build_steps
    crenel.Steps.step_less crenel.Steps.dns_rank crenel.Chain.chain_depth crenel.Chain.relax_loop
    crenel.Chain.relax_edges crenel.Chain.relax_edge crenel.Steps.invert_edge
    crenel.Steps.invert_dns crenel.Verify.verify crenel.Verify.verify_edge crenel.Verify.verify_read
    crenel.Verify.verify_provider crenel.Checks.verify_artifact crenel.Checks.verify_verb
    crenel.Checks.verify_edge_host crenel.Checks.verify_edge_auth
    crenel.Checks.verify_edge_forward_tls crenel.Checks.route_of
    crenel.Checks.normalize_auth_presence crenel.Checks.verify_dns crenel.Checks.verify_present
    crenel.Checks.record_at_key crenel.Model.same_key crenel.Checks.same_dns_value
    crenel.Prelude.trim_space crenel.Prelude.equal_fold crenel.Prelude.to_lower
    crenel.Model.has_host crenel.Model.reachable crenel.Reports.verified
    crenel.Reports.runtime_unconfirmed_results crenel.Apply.accept crenel.Apply.persist_edges
    crenel.Apply.persist_edge crenel.Engine.scope_selected crenel.Engine.dns_covers_host
    crenel.Engine.zone_covers crenel.Engine.dns_zone crenel.Prelude.trim_suffix
    crenel.Prelude.has_suffix crenel.Rollback.rollback crenel.Rollback.unwind
    crenel.Rollback.unwind_one crenel.Rollback.is_wedged crenel.Rollback.wedge_of
    crenel.Rollback.probe_edge crenel.Steps.prior_routes crenel.Apply.settle
    crenel.Apply.after_steps crenel.Apply.run_steps
gate_run = refl

gate_ownership-Permitted_example : Permitted small expose_set nothing
gate_ownership-Permitted_example = gate_ownership-Permitted small expose_set nothing gate_run

build_steps-Ordered_example :
    (os : List (Origin World)) × (build_steps small expose_op expose_set []
      ≡ map (step_of small expose_op []) os)
    × Perm (origins small expose_set) os
    × Ordered (Before small true) os
build_steps-Ordered_example = build_steps-Ordered small expose_op expose_set []
