-- ===== src/Model/DenyVerdict.antt =====
-- The three-valued default-deny verdict.
use crenel.Prelude.{
  ◌≡◌, refl, ◌↔◌, inl, inr, Bool, true, false, List, All, arith, [], ◌∷◌, Bool-cases,
}
use crenel.Model.LiveStates.{
  UnknownKind, Unparsed, is_acknowledged, acknowledged_unknown, fully_parsed, deny_state,
  deny_enforced, deny_missing, deny_unknown,
}

acknowledged_iff : (k : UnknownKind) → (is_acknowledged k ≡ true) ↔ (k ≡ acknowledged_unknown)
acknowledged_iff k = ground arith

fully_parsed_iff :
    (us : List Unparsed) → (fully_parsed us ≡ true) ↔ All (λ u. u.kind ≡ acknowledged_unknown) us
unfolding fully_parsed
fully_parsed_iff [] = (λ _. tt, λ _. refl)
fully_parsed_iff (u ∷ us) =
    let (to, from) = fully_parsed_iff us in
    let (here_to, here_from) = acknowledged_iff u.kind in
    (λ h. (here_to (ground arith), to (ground arith)), λ h. rw (here_from h.0) (from h.1))

-- ENFORCED is certified exactly if the catch-all deny is there and every entry that was not
-- understood is one that the operator acknowledged; MISSING exactly if the catch-all is not there;
-- in all other cases the verdict is UNKNOWN.
pub deny_state_iff :
    (present : Bool) (us : List Unparsed)
    → ((deny_state present us ≡ deny_enforced)
        ↔ ((present ≡ true) × All (λ u. u.kind ≡ acknowledged_unknown) us))
      × ((deny_state present us ≡ deny_missing) ↔ (present ≡ false))
      × ((deny_state present us ≡ deny_unknown)
          ↔ ((present ≡ true) × ¬ All (λ u. u.kind ≡ acknowledged_unknown) us))
unfolding deny_state
deny_state_iff false us = ((λ h. cc, λ h. cc h.0), (λ h. refl, λ h. refl), (λ h. cc, λ h. cc h.0))
deny_state_iff true us =
    let (to, from) = fully_parsed_iff us in
    elim (Bool-cases (fully_parsed us)) [
      | inl e ↦
          rw e (
            (λ h. (refl, to e), λ h. refl),
            (λ h. cc, λ h. cc),
            (λ h. cc, λ h. absurd (h.1 (to e))),
          )
      | inr e ↦ rw e (
        (λ h. cc, λ h. let t = from h.1 in cc),
        (λ h. cc, λ h. cc),
        (λ h. (refl, λ k. let t = from k in cc), λ h. refl),
      )
    ]
