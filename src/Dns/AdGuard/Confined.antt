-- ===== src/Dns/AdGuard/Confined.antt =====
-- internal/drivers/dns/adguard/adguard.go: what `Apply` may change.
use crenel.Prelude.{
  ◌≡◌, refl, ap, ◌∙◌, Bool, false, not, ◌||◌, inl, inr, List, [], ◌∷◌, ◌++◌, Text, contains,
  keep_if, Bool-cases, Result-cases, arith, text_eq, nat_eq, text_beq_iff, ok, if◌then◌else◌,
}
use crenel.Model.{Record, DnsChange}
use crenel.Effects.{Moves, IsPreorder, bind-Moves, each-Moves, each, lift, ◌>>◌}
use crenel.Dns.AdGuard.Rewrites.{Rewrite, Config, guard, under_zone}
use crenel.Dns.AdGuard.Driver.{
  Driver, Request, add_rewrite, delete_rewrite, rewrite_of, post, apply,
}
use crenel.Dns.AdGuard.Resolver.{Resolver, Posted, without, same_rewrite}

-- A name that the driver must leave alone: a wildcard, or one outside the zone
abbrev pub is_others : Config → Text → Bool
is_others cfg name = contains name b'*' || not (under_zone name cfg.zone)

-- The rewrites of such names
abbrev pub others : Config → List Rewrite → List Rewrite
others cfg = keep_if (λ r. is_others cfg r.domain)

others-append :
    (cfg : Config) (rs : List Rewrite) (r : Rewrite)
    → is_others cfg r.domain ≡ false
    → others cfg (rs ++ (r ∷ [])) ≡ others cfg rs
others-append cfg [] r h = rw h refl
others-append cfg (x ∷ rs) r h =
    ap (λ (t : List Rewrite). if is_others cfg x.domain then x ∷ t else t)
      (others-append cfg rs r h)

others-without :
    (cfg : Config) (rs : List Rewrite) (r : Rewrite)
    → is_others cfg r.domain ≡ false
    → others cfg (without r rs) ≡ others cfg rs
unfolding without
others-without cfg [] r h = refl
others-without cfg (x ∷ rs) r h =
    let ih = others-without cfg rs r h in
    elim (Bool-cases (same_rewrite r x)) [
      | inr e ↦ rw e (ap (λ (t : List Rewrite). if is_others cfg x.domain then x ∷ t else t) ih)
      | inl e ↦
          let named : x.domain ≡ r.domain = ground (arith, text_beq_iff x.domain r.domain) in
          rw (e, named, h) ih
    ]

guard-permits : (cfg : Config) (name : Text) → guard cfg name ≡ ok tt → is_others cfg name ≡ false
unfolding guard
guard-permits cfg name h = ground arith

module _ {W : Type 0} (d : Driver W) (resolver : Resolver d.doer) where
  abbrev Confined : W → W → Type 0
  Confined v w = others d.cfg (resolver.rewrites w) ≡ others d.cfg (resolver.rewrites v)

  Confined-IsPreorder : IsPreorder Confined
  Confined-IsPreorder = record { reflexive = λ s. refl; transitive = λ s t u f g. g ∙ f }

  Posted-Confined :
      (q : Request) (w : W) (changed : List Rewrite)
      → Posted d.doer resolver.rewrites q w changed
      → others d.cfg changed ≡ others d.cfg (resolver.rewrites w)
      → Confined w (post d q w).0
  unfolding post
  Posted-Confined q w changed h k = elim h [
    | inl e ↦ ap (others d.cfg) e ∙ k
    | inr e ↦ ap (others d.cfg) e.0
  ]

  guarded-Confined :
      (name : Text) (q : Request)
      → (is_others d.cfg name ≡ false → Moves Confined (post d q))
      → Moves Confined (lift (guard d.cfg name) >> post d q)
  guarded-Confined name q h w = elim (Result-cases (guard d.cfg name)) [
    | inl (u, passed) ↦ rw passed (h (guard-permits d.cfg name passed) w)
    | inr (x, refused) ↦ rw refused refl
  ]

  -- However it ends, applying a change leaves every rewrite of a wildcard or of a name outside the
  -- zone as it was.
  pub apply-Confined :
      (change : DnsChange) (w : W)
      → others d.cfg (resolver.rewrites (apply d change w).0) ≡ others d.cfg (resolver.rewrites w)
  unfolding apply
  apply-Confined change =
      bind-Moves Confined Confined-IsPreorder
        (each (λ r. lift (guard d.cfg r.name) >> post d (delete_rewrite (rewrite_of r)))
          change.remove)
        (λ _.
          each (λ r. lift (guard d.cfg r.name) >> post d (add_rewrite (rewrite_of r))) change.add)
        (each-Moves Confined Confined-IsPreorder
          (λ (r : Record). lift (guard d.cfg r.name) >> post d (delete_rewrite (rewrite_of r)))
          change.remove
          (λ r _. guarded-Confined r.name (delete_rewrite (rewrite_of r)) (λ h w.
            Posted-Confined (delete_rewrite (rewrite_of r)) w
              (without (rewrite_of r) (resolver.rewrites w)) (resolver.deletes (rewrite_of r) w)
              (others-without d.cfg (resolver.rewrites w) (rewrite_of r) h))))
        (λ _.
          each-Moves Confined Confined-IsPreorder
            (λ (r : Record). lift (guard d.cfg r.name) >> post d (add_rewrite (rewrite_of r)))
            change.add
            (λ r _. guarded-Confined r.name (add_rewrite (rewrite_of r)) (λ h w.
              Posted-Confined (add_rewrite (rewrite_of r)) w
                (resolver.rewrites w ++ (rewrite_of r ∷ [])) (resolver.adds (rewrite_of r) w)
                (others-append d.cfg (resolver.rewrites w) (rewrite_of r) h))))
