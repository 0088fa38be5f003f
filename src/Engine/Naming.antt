-- ===== src/Engine/Naming.antt =====
-- What a bare service name resolves to.
use crenel.Prelude.{
  arith, subst, sym, ap, ◌∙◌, true, false, ◌≡◌, refl, List, [], ◌∷◌, ◌++◌, ◌⊎◌, inl, inr, In, here,
  there, In-cons_cases, Bool-cases, Text, codes, text_eq, equal_fold, contains, trim_space, nat_eq,
  if_rule, ok,
}
use crenel.Model.{Op, Verb, plain_op}
use crenel.Engine.{
  Engine, explicitly_fronts, provider_zones, zone_candidates, default_evidence, candidates,
  resolve_bare, resolve_op, build_op,
}

same_op : (verb : Verb) {a b : Text} → a ≡ b → plain_op verb a a ≡ plain_op verb b b
same_op verb same = ap (λ (x : Text). plain_op verb x x) same

module _ {W : Type 0} where
  zone_candidates-In :
      (e : Engine W) (service : Text) (zs : List Text) (z : Text)
      → In z zs
      → equal_fold z e.zone ≡ false
      → explicitly_fronts e (service ++ (codes "." ++ z)) ≡ true
      → In (service ++ (codes "." ++ z)) (zone_candidates e service zs)
  unfolding zone_candidates
  zone_candidates-In e service (y ∷ zs) z m other fronts = elim (In-cons_cases m) [
    | inl top ↦
        subst (λ (x : Text). In (service ++ (codes "." ++ z)) (zone_candidates e service (x ∷ zs)))
          top (rw (other, fronts, zone_candidates) here)
    | inr later ↦
        let rest = zone_candidates-In e service zs z later other fronts in
        if_rule (In (service ++ (codes "." ++ z))) (equal_fold y e.zone) (λ _. rest)
          (λ _.
            if_rule (In (service ++ (codes "." ++ z)))
              (explicitly_fronts e (service ++ (codes "." ++ y))) (λ _. there rest) (λ _. rest))
  ]
  zone_candidates-In e service [] z m other fronts = elim m [ ]

  zone_candidates-fronts :
      (e : Engine W) (service : Text) (zs : List Text) (c : Text)
      → In c (zone_candidates e service zs)
      → explicitly_fronts e c ≡ true
  unfolding zone_candidates
  zone_candidates-fronts e service [] c m = elim m [ ]
  zone_candidates-fronts e service (z ∷ zs) c m = elim (Bool-cases (equal_fold z e.zone)) [
    | inl e1 ↦ zone_candidates-fronts e service zs c (rw (e1, zone_candidates) at m)
    | inr e1 ↦ elim (Bool-cases (explicitly_fronts e (service ++ (codes "." ++ z)))) [
      | inr e2 ↦ zone_candidates-fronts e service zs c (rw (e1, e2, zone_candidates) at m)
      | inl e2 ↦
          let kept : In c ((service ++ (codes "." ++ z)) ∷ zone_candidates e service zs) =
            rw (e1, e2, zone_candidates) at m in
          elim (In-cons_cases kept) [
            | inl top ↦ subst (λ (x : Text). explicitly_fronts e x ≡ true) (sym top) e2
            | inr later ↦ zone_candidates-fronts e service zs c later
          ]
    ]
  ]

  -- The candidates, by whether there is evidence for the default zone.
  candidates-cases :
      (e : Engine W) (service : Text)
      → ((default_evidence e service ≡ true)
          × (candidates e service
              ≡ (service ++ (codes "." ++ e.zone)) ∷ zone_candidates e service (provider_zones e)))
        ⊎ ((default_evidence e service ≡ false)
            × (candidates e service ≡ zone_candidates e service (provider_zones e)))
  unfolding candidates
  candidates-cases e service = elim (Bool-cases (default_evidence e service)) [
    | inl e1 ↦ inl (e1, rw e1 refl)
    | inr e1 ↦ inr (e1, rw e1 refl)
  ]

  -- What a resolution to `op` from the service `s` says.
  abbrev pub Resolves : Engine W → Verb → Text → Op → Type 0
  Resolves e verb s op =
      ((op ≡ build_op e verb s)
        ⊎ ((op ≡ plain_op verb op.host op.host) × (explicitly_fronts e op.host ≡ true)))
      × ((z : Text)
          → In z (provider_zones e)
          → equal_fold z e.zone ≡ false
          → explicitly_fronts e (s ++ (codes "." ++ z)) ≡ true
          → (default_evidence e s ≡ false)
            × (op ≡ plain_op verb (s ++ (codes "." ++ z)) (s ++ (codes "." ++ z))))

  no_other :
      (e : Engine W) (s z : Text)
      → zone_candidates e s (provider_zones e) ≡ []
      → In z (provider_zones e)
      → equal_fold z e.zone ≡ false
      → explicitly_fronts e (s ++ (codes "." ++ z)) ≡ true
      → ⊥
  no_other e s z empty m other fronts =
      elim (subst (In (s ++ (codes "." ++ z))) empty
        (zone_candidates-In e s (provider_zones e) z m other fronts)) [ ]

  the_other :
      (e : Engine W) (s z : Text) {c : Text}
      → zone_candidates e s (provider_zones e) ≡ c ∷ []
      → In z (provider_zones e)
      → equal_fold z e.zone ≡ false
      → explicitly_fronts e (s ++ (codes "." ++ z)) ≡ true
      → c ≡ s ++ (codes "." ++ z)
  the_other e s z one m other fronts =
      elim (In-cons_cases (
        subst (In (s ++ (codes "." ++ z))) one
          (zone_candidates-In e s (provider_zones e) z m other fronts))) [
            | inl top ↦ sym top
            | inr n ↦ elim n [ ]
          ]

  resolve_bare-Resolves :
      (e : Engine W) (verb : Verb) (s : Text) (cs : List Text) (op : Op)
      → candidates e s ≡ cs
      → resolve_bare e verb s cs ≡ ok op
      → Resolves e verb s op
  unfolding resolve_bare
  resolve_bare-Resolves e verb s [] op all_ h = elim (candidates-cases e s) [
    | inl (evidence, many) ↦ absurd (ground arith)
    | inr (none_, few) ↦
        let empty : zone_candidates e s (provider_zones e) ≡ [] = sym few ∙ all_ in
        (inl (ground arith), λ z m other fronts. absurd (no_other e s z empty m other fronts))
  ]
  resolve_bare-Resolves e verb s (c ∷ []) op all_ h = elim (candidates-cases e s) [
    | inl (evidence, many) ↦
        let empty : zone_candidates e s (provider_zones e) ≡ [] = ground arith in
        (inl (ground arith), λ z m other fronts. absurd (no_other e s z empty m other fronts))
    | inr (none_, few) ↦
        let one : zone_candidates e s (provider_zones e) ≡ c ∷ [] = sym few ∙ all_ in
        let host : plain_op verb c c ≡ op = ground arith in
        subst (Resolves e verb s) host (
          inr (refl, zone_candidates-fronts e s (provider_zones e) c (subst (In c) (sym one) here)),
          λ z m other fronts. (none_, same_op verb (the_other e s z one m other fronts)),
        )
  ]
  resolve_bare-Resolves e verb s (c ∷ d ∷ cs) op all_ h = absurd (ground arith)

  -- If a bare name, one without a dot, resolves to an op, then: the op is that of the name in the
  -- default zone, or of a host that an edge explicitly fronts; and if an edge explicitly fronts the
  -- name in another zone of a provider, then there is no evidence for the default zone, and
  -- the op is that of this host. So the name never resolves while two zones have evidence for it.
  pub resolve_op-Resolves :
      (e : Engine W) (verb : Verb) (service : Text) (op : Op)
      → contains (trim_space service) b'.' ≡ false
      → resolve_op e verb service ≡ ok op
      → Resolves e verb (trim_space service) op
  unfolding resolve_op
  resolve_op-Resolves e verb service op bare h =
      resolve_bare-Resolves e verb (trim_space service) (candidates e (trim_space service)) op refl
        (rw (bare, resolve_op) at h)
