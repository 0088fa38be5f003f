-- ===== src/Tests/Renames.antt =====
-- Renames in the small world, and the theorems on renames at them.
use crenel.Prelude.{
  arith, Bool, true, false, ◌≡◌, ◌≢◌, refl, List, [], ◌∷◌, none, some, In, here, ok, Result, Text,
  codes, trim_space,
}
use crenel.Model.{EdgePlan, ChangeSet, rename, plain_op, zero_edge_change}
use crenel.Reports.{Error}
use crenel.Engine.{EdgeBinding, Engine, dns_covers_host}
use crenel.Rename.{plan_rename, rename_host, rename_set, rename_plan}
use crenel.Rename.Moves.{Moves, Served, plan_rename-Moves}
use crenel.Rename.Stuck.{rename_host-stuck}
use crenel.Tests.World.{World, host, small, one_edge, good_zone, exposed, yes_always, route_of_host}

abbrev new_host : Text
new_host = codes "b.io"

abbrev moved_set : ChangeSet
moved_set = rename_set new_host (rename_plan one_edge new_host (route_of_host host []) ∷ [])

rename_run : plan_rename small host new_host exposed ≡ ok moved_set
unfolding crenel.Rename.plan_rename crenel.Rename.rename_edges crenel.Rename.rename_edge
    crenel.Rename.find_route crenel.Prelude.equal_fold crenel.Prelude.to_lower crenel.Model.has_host
    crenel.Prelude.trim_space
rename_run = refl

plan_rename-Moves_example :
    (moved_set.edges ≢ [])
    × ((p : EdgePlan)
        → In p moved_set.edges
        → (b : EdgeBinding World) × In b small.edges
          × Moves b (trim_space host) (trim_space new_host) exposed p)
    × ((b : EdgeBinding World)
        → In b small.edges
        → Served b (trim_space host) (trim_space new_host) exposed moved_set.edges)
plan_rename-Moves_example = plan_rename-Moves small host new_host exposed moved_set rename_run

new_host_covered : dns_covers_host good_zone (trim_space new_host) ≡ true
unfolding dns_covers_host trim_space crenel.Engine.dns_zone crenel.Engine.zone_covers
    crenel.Prelude.to_lower crenel.Prelude.trim_suffix crenel.Prelude.has_suffix
new_host_covered = refl

abbrev never : ChangeSet → Result Error Bool
never cs = ok false

declined_run : (rename_host small host new_host never exposed).2 ≡ none
unfolding rename_host crenel.Engine.gate_read_only crenel.Gate.text_less crenel.Apply.apply_planned
    crenel.Rename.plan_rename crenel.Rename.rename_edges crenel.Rename.rename_edge
    crenel.Rename.find_route crenel.Prelude.equal_fold crenel.Prelude.to_lower crenel.Model.has_host
    crenel.Prelude.trim_space crenel.Model.change_set_empty crenel.Gate.gate_ownership
    crenel.Gate.gate_chain_ownership crenel.Chain.role_for crenel.Engine.fronts_service
    crenel.Gate.gate_plans crenel.Gate.gate_plan crenel.Engine.binding crenel.Gate.touched_hosts
    crenel.Prelude.sort_stable crenel.Gate.distinct crenel.Follow.indexed_route
    crenel.Steps.snapshots crenel.Apply.execute crenel.Steps.build_steps crenel.Steps.step_less
    crenel.Steps.dns_rank crenel.Chain.chain_depth crenel.Chain.relax_loop crenel.Chain.relax_edges
    crenel.Chain.relax_edge crenel.Steps.invert_edge crenel.Steps.invert_dns crenel.Verify.verify
    crenel.Verify.verify_edge crenel.Verify.verify_read crenel.Verify.verify_provider
    crenel.Checks.verify_artifact crenel.Checks.verify_verb crenel.Checks.verify_edge_host
    crenel.Checks.verify_edge_auth crenel.Checks.verify_edge_forward_tls crenel.Checks.route_of
    crenel.Checks.normalize_auth_presence crenel.Checks.verify_dns crenel.Checks.verify_present
    crenel.Checks.record_at_key crenel.Model.same_key crenel.Checks.same_dns_value
    crenel.Model.reachable crenel.Reports.verified crenel.Reports.runtime_unconfirmed_results
    crenel.Apply.accept crenel.Apply.persist_edges crenel.Apply.persist_edge
    crenel.Engine.scope_selected crenel.Engine.dns_covers_host crenel.Engine.zone_covers
    crenel.Engine.dns_zone crenel.Prelude.trim_suffix crenel.Prelude.has_suffix
    crenel.Rollback.rollback crenel.Rollback.unwind crenel.Rollback.unwind_one
    crenel.Rollback.is_wedged crenel.Rollback.wedge_of crenel.Rollback.probe_edge
    crenel.Steps.prior_routes crenel.Apply.settle crenel.Apply.after_steps crenel.Apply.run_steps
declined_run = refl

rename_host-stuck_example : (rename_host small host new_host never exposed).1.applied ≡ false
rename_host-stuck_example =
    rename_host-stuck small host new_host never exposed good_zone here new_host_covered declined_run

-- confirmed, the same rename ends in an error
confirmed_run : (rename_host small host new_host yes_always exposed).2 ≢ none
unfolding rename_host crenel.Engine.gate_read_only crenel.Gate.text_less crenel.Apply.apply_planned
    crenel.Checks.verify_edge_rename crenel.Rename.plan_rename crenel.Rename.rename_edges
    crenel.Rename.rename_edge crenel.Rename.find_route crenel.Prelude.equal_fold
    crenel.Prelude.to_lower crenel.Model.has_host crenel.Prelude.trim_space
    crenel.Model.change_set_empty crenel.Gate.gate_ownership crenel.Gate.gate_chain_ownership
    crenel.Chain.role_for crenel.Engine.fronts_service crenel.Gate.gate_plans crenel.Gate.gate_plan
    crenel.Engine.binding crenel.Gate.touched_hosts crenel.Prelude.sort_stable crenel.Gate.distinct
    crenel.Follow.indexed_route crenel.Steps.snapshots crenel.Apply.execute crenel.Steps.build_steps
    crenel.Steps.step_less crenel.Steps.dns_rank crenel.Chain.chain_depth crenel.Chain.relax_loop
    crenel.Chain.relax_edges crenel.Chain.relax_edge crenel.Steps.invert_edge
    crenel.Steps.invert_dns crenel.Verify.verify crenel.Verify.verify_edge crenel.Verify.verify_read
    crenel.Verify.verify_provider crenel.Checks.verify_artifact crenel.Checks.verify_verb
    crenel.Checks.verify_edge_host crenel.Checks.verify_edge_auth
    crenel.Checks.verify_edge_forward_tls crenel.Checks.route_of
    crenel.Checks.normalize_auth_presence crenel.Checks.verify_dns crenel.Checks.verify_present
    crenel.Checks.record_at_key crenel.Model.same_key crenel.Checks.same_dns_value
    crenel.Model.reachable crenel.Reports.verified crenel.Reports.runtime_unconfirmed_results
    crenel.Apply.accept crenel.Apply.persist_edges crenel.Apply.persist_edge
    crenel.Engine.scope_selected crenel.Engine.dns_covers_host crenel.Engine.zone_covers
    crenel.Engine.dns_zone crenel.Prelude.trim_suffix crenel.Prelude.has_suffix
    crenel.Rollback.rollback crenel.Rollback.unwind crenel.Rollback.unwind_one
    crenel.Rollback.is_wedged crenel.Rollback.wedge_of crenel.Rollback.probe_edge
    crenel.Steps.prior_routes crenel.Apply.settle crenel.Apply.after_steps crenel.Apply.run_steps
confirmed_run = λ h. cc
