-- ===== src/Reconcile/Unwritten.antt =====
-- internal/core/reconcile.go: the read-back of a record that was planned for its value.
use crenel.Prelude.{
  Bool, true, ◌≡◌, ◌≢◌, refl, List, [], ◌∷◌, Text, Option, some, none, Option-cases, Bool-cases,
  inl, inr, ok, arith, if_rule,
}
use crenel.Model.{Record}
use crenel.Ports.{DnsProvider}
use crenel.Checks.{same_dns_value}
use crenel.Declarative.Planning.{has_key}
use crenel.Reconcile.Canonical.{DriftDetail, no_record, points_at}
use crenel.Reconcile.Records.{
  wildcard_covering, exact_coverage_match, lack_absent, lacking, owns_all,
}
use crenel.Reconcile.Converging.{records_wrong, provider_verdict}

lack_absent-no_value :
    (coverage : List Record) (d : Record) (found target : Text)
    → lack_absent coverage d ≢ some (points_at found target)
unfolding lack_absent
lack_absent-no_value coverage d found target =
    if_rule (λ (x : Option DriftDetail). x ≢ some (points_at found target))
      (exact_coverage_match coverage d) (λ _ h. ground arith)
      (λ _. elim (Option-cases (wildcard_covering coverage d.name)) [
        | inl absent ↦
            rw absent (λ (h : some no_record ≡ some (points_at found target)). ground arith)
        | inr (w, covers) ↦ rw covers (
            if_rule (λ (x : Option DriftDetail). x ≢ some (points_at found target))
              (same_dns_value w.value d.value) (λ _ h. ground arith) (λ _ h. ground arith))
      ])

lacking-present :
    (all_owned : Bool) (live coverage : List Record) (d : Record) (found target : Text)
    → lacking all_owned live coverage d ≡ some (points_at found target)
    → has_key live d ≡ true
unfolding lacking
lacking-present all_owned live coverage d found target h = elim (Bool-cases (has_key live d)) [
  | inl there_ ↦ there_
  | inr absent ↦ absurd (lack_absent-no_value coverage d found target (rw (absent, lacking) at h))
]

records_wrong-present :
    (live : List Record) (d : Record)
    → has_key live d ≡ true
    → records_wrong live (d ∷ []) [] ≡ none
unfolding records_wrong
records_wrong-present live d h = rw (h, records_wrong) refl

module _ {W : Type 0} where
  -- If a reconcile plans a record because its live value is wrong, then the read-back of this record
  -- passes in the very world that the plan was made in, before anything is written: a write that does
  -- nothing is verified.
  pub verify-passes_unwritten :
      (p : DnsProvider W) (w : W) (live coverage : List Record) (d : Record) (found target : Text)
      → p.live_records w ≡ ok live
      → lacking (owns_all p) live coverage d ≡ some (points_at found target)
      → (provider_verdict p (d ∷ []) [] w).passed ≡ true
  verify-passes_unwritten p w live coverage d found target read lacks =
      let present = lacking-present (owns_all p) live coverage d found target lacks in
      rw (read, provider_verdict) (rw (records_wrong-present live d present) refl)
