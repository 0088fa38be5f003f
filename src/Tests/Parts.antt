-- ===== src/Tests/Parts.antt =====
-- The theorems on single operations, at small inputs.
use crenel.Prelude.{
  true, false, ◌≡◌, refl, List, [], ◌∷◌, none, some, ok, codes, trim_space, to_lower, trim_suffix,
  equal_fold, contains, nat_eq,
}
use crenel.Model.{
  expose, acknowledged_unknown, Unparsed, parse_ack_marker, ack_marker, ack_marker_for,
  valid_ack_reason,
}
use crenel.Model.AckRoundTrip.{IsMarkerHost, parse_ack_marker-ack_marker}
use crenel.Reports.{VerifyResult, verdict, records_present, no_outcome}
use crenel.Engine.{
  Engine, zone_covers, resolve_op, build_op, provider_zones, explicitly_fronts, default_evidence,
}
use crenel.Engine.Naming.{Resolves, resolve_op-Resolves}
use crenel.Rollback.{Compensator, unwind}
use crenel.Rollback.Unwind.{Unwinds, unwind-restores}
use crenel.Tests.World.{World, host, small, nothing, exposed}

abbrev acked : Unparsed
acked = record { locator = codes "r1"; kind = acknowledged_unknown; reason = []; raw_excerpt = [] }

slug : valid_ack_reason (codes "known-ok") ≡ true
unfolding valid_ack_reason
slug = refl

host-IsMarkerHost : IsMarkerHost host
unfolding to_lower
host-IsMarkerHost = ((λ h. cc), refl)

parse_ack_marker-ack_marker_example :
    (parse_ack_marker (ack_marker (codes "known-ok")) ≡ some (codes "known-ok"))
    × (parse_ack_marker (ack_marker_for host (codes "known-ok")) ≡ some (codes "known-ok"))
parse_ack_marker-ack_marker_example =
    parse_ack_marker-ack_marker host (codes "known-ok") slug host-IsMarkerHost

abbrev results : List VerifyResult
results = verdict (codes "e") true records_present ∷ []

bare : contains (trim_space (codes "a")) b'.' ≡ false
unfolding trim_space
bare = refl

resolve_run : resolve_op small expose (codes "a") ≡ ok (build_op small expose (codes "a"))
unfolding resolve_op crenel.Engine.resolve_bare build_op trim_space crenel.Engine.candidates
    crenel.Engine.zone_candidates crenel.Engine.default_evidence crenel.Engine.explicitly_fronts
    crenel.Engine.provider_zones crenel.Engine.provider_zones_from crenel.Engine.dns_zone equal_fold
    to_lower trim_suffix
resolve_run = refl

resolve_op-Resolves_example :
    Resolves small expose (trim_space (codes "a")) (build_op small expose (codes "a"))
resolve_op-Resolves_example =
    resolve_op-Resolves small expose (codes "a") (build_op small expose (codes "a")) bare
      resolve_run

abbrev undo_one : Compensator World
undo_one = record { name = codes "edge"; undo = λ w. (nothing, none); edge = none }

one-Unwinds : Unwinds nothing (undo_one ∷ []) exposed
one-Unwinds = (nothing, (λ _. refl), refl)

undo_errors : (unwind (undo_one ∷ []) [] exposed no_outcome).1.rollback_errors ≡ []
unfolding unwind crenel.Rollback.unwind_one crenel.Rollback.is_wedged
undo_errors = refl

unwind-restores_example : (unwind (undo_one ∷ []) [] exposed no_outcome).0 ≡ nothing
unwind-restores_example =
    unwind-restores nothing (undo_one ∷ []) [] exposed no_outcome one-Unwinds undo_errors
