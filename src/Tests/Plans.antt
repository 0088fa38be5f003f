-- ===== src/Tests/Plans.antt =====
-- Plans in the small world, and the theorems on plans at them.
use crenel.Prelude.{
  arith, Bool, true, false, ◌≡◌, ◌≢◌, ◌↔◌, ◌+◌, refl, List, [], ◌∷◌, map, length, none, some, In,
  here, is_nil, ok, Text, codes, contains, ◌⊎◌,
}
use crenel.Model.{
  Op, EdgePlan, ChangeSet, expose, Scope, scope_eq, public, no_dns_change, zero_edge_change,
  DnsChange, Record,
}
use crenel.Reports.{verified}
use crenel.Engine.{
  EdgeBinding, Engine, fronts_service, internal_scoped, scope_selected, dns_covers_host,
}
use crenel.Checks.{record_at_key}
use crenel.Plan.{plan, plan_provider, compute_new_public, has_public_dns}
use crenel.Plan.Boundary.{Planned, plan-Planned, plan-internal}
use crenel.Plan.Alignment.{Aligned, plan-Aligned}
use crenel.Plan.Announced.{Announces}
use crenel.Plan.NewPublic.{Clean, compute_new_public-exact}
use crenel.Resume.{diagnose}
use crenel.Resume.Split.{paired, Lists, diagnose-splits}
use crenel.Verify.{verify}
use crenel.Verify.Mirror.{verify-wants_skipped}
use crenel.Tests.World.{
  World, host, engine, one_edge, good_zone, small, expose_op, expose_set, nothing, edge_plan_for,
  route_of_host, record_of,
}

plan_small : plan small expose_op nothing ≡ ok expose_set
unfolding plan crenel.Model.validate_auth crenel.Engine.internal_scoped crenel.Plan.plan_edges
    crenel.Engine.edge_selected crenel.Chain.role_for crenel.Engine.fronts_service
    crenel.Plan.plan_dns crenel.Plan.plan_provider crenel.Plan.dns_skipped
    crenel.Engine.scope_selected crenel.Engine.dns_covers_host crenel.Engine.zone_covers
    crenel.Engine.dns_zone crenel.Prelude.to_lower crenel.Prelude.trim_suffix
    crenel.Prelude.has_suffix crenel.Engine.residency_supported crenel.Model.has_host
    crenel.Plan.add_hosts crenel.Plan.compute_new_public crenel.Plan.plan_edge
    crenel.Plan.public_record_names crenel.Prelude.equal_fold
plan_small = refl

plan-Planned_example :
    Planned small expose_op nothing (edge_plan_for (codes "e") (route_of_host host [] ∷ []))
plan-Planned_example = plan-Planned small expose_op nothing expose_set _ plan_small here

plan-Aligned_example : Aligned small expose_op nothing small.dns expose_set.dns
plan-Aligned_example = plan-Aligned small expose_op nothing expose_set plan_small

-- the same engine, with the service declared internal-only
abbrev inner : Engine World
inner = engine (one_edge ∷ []) (good_zone ∷ []) (host ∷ [])

abbrev inner_set : ChangeSet
inner_set = record {
  op = expose_op;
  edge = zero_edge_change;
  edges = edge_plan_for (codes "e") (route_of_host host [] ∷ []) ∷ [];
  dns = no_dns_change public ∷ [];
  new_public = [];
}

plan_inner : plan inner expose_op nothing ≡ ok inner_set
unfolding plan crenel.Model.validate_auth crenel.Engine.internal_scoped crenel.Plan.plan_edges
    crenel.Engine.edge_selected crenel.Chain.role_for crenel.Engine.fronts_service
    crenel.Plan.plan_dns crenel.Plan.plan_provider crenel.Plan.dns_skipped
    crenel.Engine.scope_selected crenel.Engine.dns_covers_host crenel.Engine.zone_covers
    crenel.Engine.dns_zone crenel.Prelude.to_lower crenel.Prelude.trim_suffix
    crenel.Prelude.has_suffix crenel.Engine.residency_supported crenel.Model.has_host
    crenel.Plan.add_hosts crenel.Plan.compute_new_public crenel.Plan.plan_edge
    crenel.Plan.public_record_names crenel.Prelude.equal_fold
plan_inner = refl

host_inner : internal_scoped inner host ≡ true
unfolding internal_scoped
host_inner = refl

plan-internal_example :
    (contains expose_op.scopes public ≡ false)
    × ((p : EdgePlan)
        → In p inner_set.edges
        → (b : EdgeBinding World) × In b inner.edges
          × (fronts_service b host ≡ true)
          × (p.edge ≡ b.name))
plan-internal_example = plan-internal inner expose_op nothing inner_set host_inner plan_inner

compute_new_public-exact_example :
    Clean (compute_new_public small expose_op expose_set.edges expose_set.dns)
    × ((x : Text)
        → In x (compute_new_public small expose_op expose_set.edges expose_set.dns)
          ↔ ((x ≢ []) × Announces (has_public_dns small) expose_set.edges expose_set.dns x))
compute_new_public-exact_example =
    compute_new_public-exact small expose_op expose_set.edges expose_set.dns refl

diagnose-splits_example :
    (map (λ x. x.0) (paired small.dns expose_set.dns) ≡ small.dns)
    × Lists small expose_set (diagnose small expose_op expose_set)
    × (((diagnose small expose_op expose_set).nothing_to_do ≡ true)
        ↔ ((diagnose small expose_op expose_set).pending ≡ []))
diagnose-splits_example = diagnose-splits small expose_op nothing expose_set plan_small

all_scopes : scope_selected expose_op.scopes public ≡ true
unfolding scope_selected
all_scopes = refl

zone_host : dns_covers_host good_zone host ≡ true
unfolding dns_covers_host crenel.Engine.dns_zone crenel.Engine.zone_covers crenel.Prelude.to_lower
    crenel.Prelude.trim_suffix crenel.Prelude.has_suffix
zone_host = refl

no_record : record_at_key nothing.records (record_of host public) ≡ none
unfolding record_at_key
no_record = refl

verify-wants_skipped_example :
    (plan_provider inner expose_op nothing good_zone ≡ ok (no_dns_change public))
    × (verified (verify inner expose_op inner_set nothing) ≡ false)
verify-wants_skipped_example =
    verify-wants_skipped inner expose_op inner_set nothing good_zone (record_of host public)
      (record_of host public ∷ []) [] here host_inner refl refl all_scopes zone_host refl here refl
      no_record
