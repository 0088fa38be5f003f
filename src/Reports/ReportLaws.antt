-- ===== src/Reports/ReportLaws.antt =====
-- The three verdicts over a list of read-back results agree.
use crenel.Prelude.{◌≡◌, refl, ◌↔◌, true, List, [], ◌∷◌, arith}
use crenel.Reports.{VerifyResult, verified, fully_verified, runtime_unconfirmed_results}

-- A write may be called fully verified exactly if every read-back passed and no daemon is left
-- unconfirmed, that is, if it is verified and `gateRuntimeVerify` has nothing to refuse.
pub fully_verified_iff :
    (vs : List VerifyResult)
    → (fully_verified vs ≡ true) ↔ ((verified vs ≡ true) × (runtime_unconfirmed_results vs ≡ []))
unfolding fully_verified verified runtime_unconfirmed_results
fully_verified_iff [] = (λ h. (refl, refl), λ h. refl)
fully_verified_iff (v ∷ vs) = let (to, from) = fully_verified_iff vs in ground arith
