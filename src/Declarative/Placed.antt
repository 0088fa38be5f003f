-- ===== src/Declarative/Placed.antt =====
-- internal/core/declarative.go: no exposure of a file is dropped by the plan.
use crenel.Prelude.{
  is_nil, true, false, not, ◌≡◌, refl, sym, ap, ◌∙◌, subst, inl, inr, List, [], ◌∷◌, Text, In, here,
  there, In-cons_cases, In-append, In-append_right, some, Bool-cases, Result, ok, err, map_err,
  bind-eq-ok, map_err-eq-ok, arith, if_rule, ◌==◌, text_eq, text_beq_iff, text_beq_refl,
}
use crenel.Model.{Route, LiveEdgeState, has_host, ChangeSet, EdgeChange, edge_change_empty}
use crenel.Reports.{Error, plan_edge_failed}
use crenel.Engine.{EdgeBinding}
use crenel.Import.{AdoptCandidate, ImportConflict, is_managed, is_foreign, is_unknown, desired_addr}
use crenel.Gate.{ownership_of}
use crenel.Declarative.Exposures.{
  Exposure, Options, Lives, live_at, Placement, satisfied, blocked_by, adopted_as, routed, addr_of,
  exposure_op, place_present, place_unmanaged, place,
}
use crenel.Declarative.Planning.{
  Placements, adoption_of, conflict_of, routes_of, adoptions, conflicts, routes_at, place_live,
  place_at,
}

pub ok_injective : {A : Type 0} {x y : A} → ◌≡◌ {A = Result Error A} (ok x) (ok y) → x ≡ y
ok_injective h = ground arith

pub blocked-In :
    (edge : Text) (x : Placement) (c : ImportConflict) (ps : Placements)
    → In (edge, x) ps
    → In c (conflict_of x)
    → In c (conflicts ps)
unfolding conflicts
blocked-In edge x c [] m k = elim m [ ]
blocked-In edge x c (p ∷ ps) here k = In-append (conflicts ps) k
blocked-In edge x c (p ∷ ps) (there m) k =
    In-append_right (conflict_of p.1) (blocked-In edge x c ps m k)

pub adopted-In :
    (edge : Text) (x : Placement) (a : AdoptCandidate) (ps : Placements)
    → In (edge, x) ps
    → In a (adoption_of x)
    → In a (adoptions ps)
unfolding adoptions
adopted-In edge x a [] m k = elim m [ ]
adopted-In edge x a (p ∷ ps) here k = In-append (adoptions ps) k
adopted-In edge x a (p ∷ ps) (there m) k =
    In-append_right (adoption_of p.1) (adopted-In edge x a ps m k)

pub routed-In :
    (edge : Text) (x : Placement) (r : Route) (ps : Placements)
    → In (edge, x) ps
    → In r (routes_of x)
    → In r (routes_at edge ps)
unfolding routes_at
routed-In edge x r [] m k = elim m [ ]
routed-In edge x r (p ∷ ps) here k = rw (text_beq_refl edge) (In-append (routes_at edge ps) k)
routed-In edge x r (p ∷ ps) (there m) k =
    if_rule (In r) (p.0 == edge) (λ _. In-append_right (routes_of p.1) (routed-In edge x r ps m k))
      (λ _. routed-In edge x r ps m k)

is_nil-In : {A : Type 0} (xs : List A) (x : A) → In x xs → is_nil xs ≡ false
is_nil-In [] x m = elim m [ ]
is_nil-In (y ∷ xs) x m = refl

pub not_empty : (c : EdgeChange) (r : Route) → In r c.add_routes → edge_change_empty c ≡ false
unfolding edge_change_empty
not_empty c r m = let some_ = is_nil-In c.add_routes r m in ground arith

module _ {W : Type 0} where
  -- what a placement of a host at an edge says
  abbrev pub PlaceMeans :
      Options → EdgeBinding W → LiveEdgeState → Exposure → Text → Placement → Type 0
  PlaceMeans opts b live ex host satisfied = is_managed live host ≡ true
  PlaceMeans opts b live ex host (blocked_by c) = (c.edge ≡ b.name) × (c.host ≡ host)
  PlaceMeans opts b live ex host (adopted_as a) =
      (a.edge ≡ b.name)
      × (a.host ≡ host)
      × (opts.adopt ≡ true)
      × (addr_of live host ≡ a.address)
      × (desired_addr b ex.service host ≡ ok a.address)
  PlaceMeans opts b live ex host (routed rs) =
      (has_host live host ≡ false)
      × (cs : ChangeSet) × (b.provider.plan (exposure_op ex host) live ≡ ok cs)
      × (cs.edge.add_routes ≡ rs)

  place_unmanaged-PlaceMeans :
      (opts : Options) (b : EdgeBinding W) (live : LiveEdgeState) (ex : Exposure) (host : Text)
      (want : Result Error Text)
      → desired_addr b ex.service host ≡ want
      → PlaceMeans opts b live ex host (place_unmanaged opts b live ex host want)
  place_unmanaged-PlaceMeans opts b live ex host (err x) resolved = (refl, refl)
  place_unmanaged-PlaceMeans opts b live ex host (ok want) resolved =
      if_rule (PlaceMeans opts b live ex host) (not (addr_of live host == want)) (λ _. (refl, refl))
        (λ same.
          if_rule (PlaceMeans opts b live ex host) (not opts.adopt) (λ _. (refl, refl))
            (λ asked.
              let kept : addr_of live host ≡ want =
                (text_beq_iff (addr_of live host) want).0 (ground arith) in
              (refl, refl, ground arith, refl, resolved ∙ ap ok (sym kept))))

  place_present-PlaceMeans :
      (opts : Options) (b : EdgeBinding W) (live : LiveEdgeState) (ex : Exposure) (host : Text)
      → PlaceMeans opts b live ex host (place_present opts b live ex host)
  unfolding place_present
  place_present-PlaceMeans opts b live ex host =
      if_rule (PlaceMeans opts b live ex host) (is_managed live host) (λ managed. managed)
        (λ _.
          if_rule (PlaceMeans opts b live ex host) (is_foreign (ownership_of live host))
            (λ _. (refl, refl))
            (λ _.
              if_rule (PlaceMeans opts b live ex host) (is_unknown (ownership_of live host))
                (λ _. (refl, refl))
                (λ _.
                  place_unmanaged-PlaceMeans opts b live ex host (desired_addr b ex.service host)
                    refl)))

  place-PlaceMeans :
      (opts : Options) (b : EdgeBinding W) (live : LiveEdgeState) (ex : Exposure) (host : Text)
      (x : Placement)
      → place opts b live ex host ≡ ok x
      → PlaceMeans opts b live ex host x
  unfolding place
  place-PlaceMeans opts b live ex host x h = elim (Bool-cases (has_host live host)) [
    | inl there_ ↦
        let same : ◌≡◌ {A = Result Error Placement} (ok (place_present opts b live ex host))
            (ok x) =
          rw (there_, place) at h in
        subst (PlaceMeans opts b live ex host) (ok_injective same)
          (place_present-PlaceMeans opts b live ex host)
    | inr absent ↦
        let (cs, planned, made) =
          bind-eq-ok
            (map_err (plan_edge_failed b.name) (b.provider.plan (exposure_op ex host) live))
            (λ (cs : ChangeSet). ok (routed cs.edge.add_routes)) (rw (absent, place) at h) in
        subst (PlaceMeans opts b live ex host) (ok_injective made) (
          absent,
          cs,
          map_err-eq-ok (plan_edge_failed b.name) (b.provider.plan (exposure_op ex host) live)
              planned,
          refl,
        )
  ]

  -- A placement of an exposure at an edge, from the live state that was read at its name
  abbrev pub PlacedIn : Options → Lives → Exposure → Text → Placements → EdgeBinding W → Type 0
  PlacedIn opts lives ex host ps b =
      (live : LiveEdgeState) × (x : Placement) × (live_at lives b.name ≡ some live)
      × In (b.name, x) ps
      × PlaceMeans opts b live ex host x

  abbrev pub KnownIn : Lives → EdgeBinding W → Type 0
  KnownIn lives b = (live : LiveEdgeState) × (live_at lives b.name ≡ some live)

  pub PlacedIn-mono :
      (opts : Options) (lives : Lives) (ex : Exposure) (host : Text) (ps qs : Placements)
      (b : EdgeBinding W)
      → ((y : Text × Placement) → In y ps → In y qs)
      → PlacedIn opts lives ex host ps b
      → PlacedIn opts lives ex host qs b
  PlacedIn-mono opts lives ex host ps qs b grows (live, x, known, m, means) =
      (live, x, known, grows (b.name, x) m, means)

  pub place_at-PlacedIn :
      (opts : Options) (lives : Lives) (ex : Exposure) (host : Text) (bs : List (EdgeBinding W))
      (ps : Placements)
      → place_at opts lives ex host bs ≡ ok ps
      → (b : EdgeBinding W) → In b bs
      → KnownIn lives b
      → PlacedIn opts lives ex host ps b
  unfolding place_at
  place_at-PlacedIn opts lives ex host [] ps h b m known = elim m [ ]
  place_at-PlacedIn opts lives ex host (c ∷ bs) ps h b m (live, known) =
      let (x, placed, more) = bind-eq-ok (place_live opts c (live_at lives c.name) ex host) _ h in
      let (rest, others, made) =
        bind-eq-ok (place_at opts lives ex host bs) (λ (qs : Placements). ok ((c.name, x) ∷ qs))
          more in
      subst (λ (qs : Placements). PlacedIn opts lives ex host qs b) (ok_injective made)
        (elim (In-cons_cases m) [
          | inl same ↦
              let found : live_at lives c.name ≡ some live =
                subst (λ (d : EdgeBinding W). live_at lives d.name ≡ some live) same known in
              let here_ : place opts c live ex host ≡ ok x = rw (found, place_live) at placed in
              subst (PlacedIn opts lives ex host ((c.name, x) ∷ rest)) (sym same)
                (live, x, found, here, place-PlaceMeans opts c live ex host x here_)
          | inr later ↦
              PlacedIn-mono opts lives ex host rest ((c.name, x) ∷ rest) b (λ y n. there n)
                (place_at-PlacedIn opts lives ex host bs rest others b later (live, known))
        ])
