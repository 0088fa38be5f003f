-- ===== src/Rollback/Unwind.antt =====
-- A rollback that reports no error has undone everything.
use mathlib.Core.List.{concat-ne-nil}
use crenel.Prelude.{
  Text, Bool, true, false, List, [], ◌∷◌, Option, none, some, ◌≡◌, refl, sym, ◌∙◌, ap, subst, arith,
}
use crenel.Ports.{EdgeProvider}
use crenel.Reports.{Error, Outcome}
use crenel.Rollback.{Compensator, Wedged, probe_edge, is_wedged, unwind_one, unwind, after_undo}

module _ {W : Type 0} where
  -- The compensators, last applied first, lead from `w` back to `start`, as far as none of them
  -- fails.
  abbrev pub Unwinds : W → List (Compensator W) → W → Type 0
  Unwinds start [] w = w ≡ start
  Unwinds start (c ∷ cs) w = (v : W) × ((c.undo w).1 ≡ none → (c.undo w).0 ≡ v) × Unwinds start cs v

  errors-probe_edge :
      (p : EdgeProvider W) (w : W) (rep : Outcome)
      → (probe_edge p w rep).1.rollback_errors ≡ rep.rollback_errors
  unfolding probe_edge
  errors-probe_edge p w rep = ground arith

  errors-is_wedged :
      (p : Option (EdgeProvider W)) (cache : Wedged) (w : W) (rep : Outcome)
      → (is_wedged p cache w rep).2.rollback_errors ≡ rep.rollback_errors
  unfolding is_wedged
  errors-is_wedged none cache w rep = refl
  errors-is_wedged (some p) cache w rep = ground (arith, errors-probe_edge p w rep)

  errors-after_undo :
      (name : Text) (r : W × Option Error) (rep : Outcome)
      → (after_undo name r rep).1.rollback_errors ≡ []
      → (rep.rollback_errors ≡ []) × (after_undo name r rep ≡ (r.0, rep)) × (r.1 ≡ none)
  errors-after_undo name (v, none) rep h = (h, refl, refl)
  errors-after_undo name (v, some x) rep h = absurd (concat-ne-nil _ rep.rollback_errors h)

  errors-unwind_one :
      (c : Compensator W) (wedged : Bool) (w : W) (rep : Outcome)
      → (unwind_one c wedged w rep).1.rollback_errors ≡ []
      → (rep.rollback_errors ≡ [])
        × (unwind_one c wedged w rep ≡ ((c.undo w).0, rep))
        × ((c.undo w).1 ≡ none)
  unfolding unwind_one
  errors-unwind_one c true w rep h = absurd (concat-ne-nil _ rep.rollback_errors h)
  errors-unwind_one c false w rep h = errors-after_undo c.name (c.undo w) rep h

  errors-unwind :
      (cs : List (Compensator W)) (cache : Wedged) (w : W) (rep : Outcome)
      → (unwind cs cache w rep).1.rollback_errors ≡ []
      → rep.rollback_errors ≡ []
  unfolding unwind
  errors-unwind [] cache w rep h = h
  errors-unwind (c ∷ cs) cache w rep h =
      let (wedged, cache', rep') = is_wedged c.edge cache w rep in
      let later = errors-unwind cs cache' (unwind_one c wedged w rep').0 _ h in
      sym (errors-is_wedged c.edge cache w rep) ∙ (errors-unwind_one c wedged w rep' later).0

  -- If each undo that works leads one world back, from the present world to the world of the start,
  -- then an unwinding that ends with no rollback error in its report ends in the world of the
  -- start.
  pub unwind-restores :
      (start : W) (cs : List (Compensator W)) (cache : Wedged) (w : W) (rep : Outcome)
      → Unwinds start cs w
      → (unwind cs cache w rep).1.rollback_errors ≡ []
      → (unwind cs cache w rep).0 ≡ start
  unfolding unwind
  unwind-restores start [] cache w rep u h = u
  unwind-restores start (c ∷ cs) cache w rep (v, back, u) h =
      let (wedged, cache', rep') = is_wedged c.edge cache w rep in
      let later = errors-unwind cs cache' (unwind_one c wedged w rep').0 _ h in
      let (clean, same, done) = errors-unwind_one c wedged w rep' later in
      let there : (unwind_one c wedged w rep').0 ≡ v =
        ap (λ (r : W × Outcome). r.0) same ∙ back done in
      unwind-restores start cs cache' _ _ (subst (λ x. Unwinds start cs x) (sym there) u) h
