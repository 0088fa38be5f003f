-- ===== src/Chain/Reach.antt =====
-- How a service is reached along a chain of edges, and the fuel of the walk.
use crenel.Prelude.{
  arith, ℕ, zero, suc, true, false, ◌||◌, ◌≡◌, ◌≢◌, refl, List, [], ◌∷◌, ◌⊎◌, inl, inr, Bool-cases,
  Option-cases, some, Text, ◌==◌, text_eq, text_beq_iff, length, contains,
}
use crenel.Engine.{EdgeBinding, Engine, binding, fronts_service, internal_scoped}
use crenel.Chain.{participates_from, downstream_participates, role_for, role_terminal, role_forward}

module _ {W : Type 0} where
  -- The edge leads to an edge that fronts the service: its downstream edge does, or leads to one.
  pub data LeadsTo (e : Engine W) (service : Text) : EdgeBinding W → Type 0 where
    last :
        {b d : EdgeBinding W}
        → b.downstream_edge ≢ []
        → binding e b.downstream_edge ≡ some d
        → fronts_service d service ≡ true
        → LeadsTo e service b
    more :
        {b d : EdgeBinding W}
        → b.downstream_edge ≢ []
        → binding e b.downstream_edge ≡ some d
        → LeadsTo e service d
        → LeadsTo e service b

  -- the test that ends the walk, and the step to the next edge
  pub participates_from-cases :
      (e : Engine W) (fuel : ℕ) (visited : List Text) (b : EdgeBinding W) (service : Text)
      → ((participates_from e (suc fuel) visited b service ≡ false))
        ⊎ ((d : EdgeBinding W) × (b.downstream_edge ≢ [])
            × (contains visited b.name ≡ false)
            × (binding e b.downstream_edge ≡ some d)
            × (participates_from e (suc fuel) visited b service ≡ (
                fronts_service d service || participates_from e fuel (b.name ∷ visited) d service)))
  unfolding participates_from
  participates_from-cases e fuel visited b service = elim (Bool-cases (b.downstream_edge == [])) [
    | inl e1 ↦ inl (rw e1 refl)
    | inr e1 ↦
        let some_ : b.downstream_edge ≢ [] =
          λ k. absurd (let t = (text_beq_iff b.downstream_edge []).1 k in ground arith) in
        elim (Bool-cases (contains visited b.name)) [
          | inl e2 ↦ inl (rw (e1, e2) refl)
          | inr e2 ↦ elim (Option-cases (binding e b.downstream_edge)) [
            | inl e3 ↦ inl (rw (e1, e2, e3) refl)
            | inr (d, e3) ↦ inr (d, some_, e2, e3, rw (e1, e2, e3) refl)
          ]
        ]
  ]

  pub participates_from-LeadsTo :
      (e : Engine W) (fuel : ℕ) (visited : List Text) (b : EdgeBinding W) (service : Text)
      → participates_from e fuel visited b service ≡ true
      → LeadsTo e service b
  participates_from-LeadsTo e zero visited b service h =
      let bad : false ≡ true = unfold participates_from in h in cc
  participates_from-LeadsTo e (suc fuel) visited b service h =
      elim (participates_from-cases e fuel visited b service) [
        | inl no_ ↦ cc
        | inr (d, some_, new, bound, same) ↦ elim (Bool-cases (fronts_service d service)) [
          | inl fronts ↦ last some_ bound fronts
          | inr not_ ↦
              more some_ bound
                (participates_from-LeadsTo e fuel (b.name ∷ visited) d service (ground arith))
        ]
      ]

  -- An edge forwards a service only if it does not front it, the service is not internal-only,
  -- and the edge leads along its chain to one that fronts the service; an edge that fronts the
  -- service is always its terminal.
  pub role_for_sound :
      (e : Engine W) (b : EdgeBinding W) (service : Text)
      → (role_for e b service ≡ role_forward
          → (fronts_service b service ≡ false)
            × (internal_scoped e service ≡ false)
            × LeadsTo e service b)
        × (role_for e b service ≡ role_terminal → fronts_service b service ≡ true)
        × (fronts_service b service ≡ true → role_for e b service ≡ role_terminal)
  unfolding role_for downstream_participates
  role_for_sound e b service = (
    λ h. (
      ground arith,
      ground arith,
      participates_from-LeadsTo e (suc (suc (length e.edges))) [] b service (ground arith),
    ),
    λ h. ground arith,
    λ h. ground arith,
  )
