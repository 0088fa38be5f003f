-- ===== src/Engine/Zones.antt =====
-- When a zone covers a host: at the boundary of a label.
use crenel.Prelude.{
  arith, subst, sym, ap, true, ◌≡◌, ◌↔◌, refl, [], ◌∷◌, ◌++◌, ◌⊎◌, inl, inr, Bool-cases, Text,
  codes, ◌==◌, text_eq, text_beq_iff, to_lower, trim_suffix, has_suffix,
}
use crenel.Engine.{zone_covers}

has_suffix-split :
    (s suffix : Text) → has_suffix s suffix ≡ true → (front : Text) × (s ≡ front ++ suffix)
unfolding has_suffix
has_suffix-split [] suffix h = ([], sym ((text_beq_iff suffix []).0 h))
has_suffix-split (x ∷ s) suffix h = elim (Bool-cases ((x ∷ s) == suffix)) [
  | inl e ↦ ([], (text_beq_iff (x ∷ s) suffix).0 e)
  | inr e ↦
      let (front, k) = has_suffix-split s suffix (ground arith) in (x ∷ front, ap (λ t. x ∷ t) k)
]

has_suffix_self : (s : Text) → has_suffix s s ≡ true
unfolding has_suffix
has_suffix_self [] = refl
has_suffix_self (x ∷ s) = let t = (text_beq_iff (x ∷ s) (x ∷ s)).1 refl in ground arith

has_suffix-append : (front suffix : Text) → has_suffix (front ++ suffix) suffix ≡ true
unfolding has_suffix
has_suffix-append [] suffix = has_suffix_self suffix
has_suffix-append (x ∷ front) suffix = ground (arith, has_suffix-append front suffix)

-- A zone covers a host exactly if it is the empty zone, or if the host, less a final dot and in
-- lower case, is the zone itself or ends in a dot and the zone.
pub zone_covers_iff :
    (zone host : Text)
    → (zone_covers zone host ≡ true) ↔ (
        (zone ≡ [])
        ⊎ ((to_lower (trim_suffix host (codes ".")) ≡ zone)
            ⊎ ((front : Text) × (to_lower (trim_suffix host (codes "."))
                  ≡ front ++ (codes "." ++ zone)))))
unfolding zone_covers
zone_covers_iff zone host =
    let h = to_lower (trim_suffix host (codes ".")) in
    (
      λ covers. elim (Bool-cases (zone == [])) [
        | inl e ↦ inl ((text_beq_iff zone []).0 e)
        | inr e ↦ elim (Bool-cases (h == zone)) [
          | inl f ↦ inr (inl ((text_beq_iff h zone).0 f))
          | inr f ↦ inr (inr (has_suffix-split h (codes "." ++ zone) (ground arith)))
        ]
      ],
      λ o. elim o [
        | inl e ↦ let t = (text_beq_iff zone []).1 e in ground arith
        | inr (inl e) ↦ let t = (text_beq_iff h zone).1 e in ground arith
        | inr (inr (front, e)) ↦
            let t : has_suffix h (codes "." ++ zone) ≡ true =
              subst (λ x. has_suffix x (codes "." ++ zone) ≡ true) (sym e)
                (has_suffix-append front (codes "." ++ zone)) in
            ground arith
      ],
    )
