-- ===== src/Declarative/Everywhere.antt =====
-- internal/core/declarative.go: the placements have every exposure at every edge that it targets.
use crenel.Prelude.{
  ◌&&◌, ◌≡◌, refl, sym, subst, inl, inr, List, [], ◌∷◌, ◌++◌, Text, In, here, there, In-cons_cases,
  In-append, In-append_right, Option-cases, Bool-cases, ok, err, map_err, ◌>>=◌, bind-eq-ok, arith,
  if_rule, ◌==◌, text_eq, text_beq_refl,
}
use crenel.Model.{LiveEdgeState, validate_auth}
use crenel.Reports.{read_edge_failed, exposure_without_host}
use crenel.Engine.{EdgeBinding, Engine, edge_selected, fronts_service}
use crenel.Declarative.Exposures.{Exposure, Options, Lives, live_at, exposure_host, target_edges}
use crenel.Declarative.Planning.{
  Placements, refused_auth, read_lives, place_at, place_exposure, place_all,
}
use crenel.Declarative.Pruned.{lives_injective}
use crenel.Declarative.Placed.{PlacedIn, PlacedIn-mono, KnownIn, place_at-PlacedIn, ok_injective}

module _ {W : Type 0} where
  pub target_edges-In :
      (ex : Exposure) (bs : List (EdgeBinding W)) (b : EdgeBinding W)
      → In b (target_edges ex bs)
      → In b bs
  unfolding target_edges
  target_edges-In ex [] b = λ m. m
  target_edges-In ex (c ∷ bs) b =
      if_rule (λ (ts : List (EdgeBinding W)). In b ts → In b (c ∷ bs))
        (edge_selected ex.edges c.name && fronts_service c ex.service)
        (λ _ m. elim (In-cons_cases m) [
          | inl same ↦ rw same here
          | inr later ↦ there (target_edges-In ex bs b later)
        ])
        (λ _ m. there (target_edges-In ex bs b m))

  live_at-known :
      (n : Text) (s : LiveEdgeState) (rest : Lives) (b : EdgeBinding W)
      → KnownIn rest b
      → KnownIn ((n, s) ∷ rest) b
  unfolding live_at
  live_at-known n s rest b (live, known) = (live, rw known refl)

  live_at-head :
      (s : LiveEdgeState) (rest : Lives) (b : EdgeBinding W) → KnownIn ((b.name, s) ∷ rest) b
  unfolding live_at
  live_at-head s rest b = elim (Option-cases (live_at rest b.name)) [
    | inr (later, found) ↦ (later, rw found refl)
    | inl absent ↦ (s, rw (absent, text_beq_refl b.name) refl)
  ]

  pub read_lives-KnownIn :
      (bs : List (EdgeBinding W)) (w : W) (lives : Lives)
      → read_lives bs w ≡ ok lives
      → (b : EdgeBinding W) → In b bs
      → KnownIn lives b
  unfolding read_lives
  read_lives-KnownIn [] w lives h b m = elim m [ ]
  read_lives-KnownIn (c ∷ bs) w lives h b m =
      let (first, read, more) =
        bind-eq-ok (map_err (read_edge_failed c.name) (c.provider.read_live_state w))
          (λ (s : LiveEdgeState). read_lives bs w >>= λ others. ok ((c.name, s) ∷ others)) h in
      let (others, reads, made) =
        bind-eq-ok (read_lives bs w) (λ (ls : Lives). ok ((c.name, first) ∷ ls)) more in
      subst (λ (ls : Lives). KnownIn ls b) (lives_injective made)
        (elim (In-cons_cases m) [
          | inl same ↦
              subst (λ (d : EdgeBinding W). KnownIn ((c.name, first) ∷ others) d) (sym same)
                (live_at-head first others c)
          | inr later ↦
              live_at-known c.name first others b (read_lives-KnownIn bs w others reads b later)
        ])

  place_exposure-PlacedIn :
      (e : Engine W) (opts : Options) (lives : Lives) (ex : Exposure) (ps : Placements)
      → place_exposure e opts lives ex ≡ ok ps
      → (b : EdgeBinding W) → In b (target_edges ex e.edges)
      → KnownIn lives b
      → PlacedIn opts lives ex (exposure_host e ex) ps b
  unfolding place_exposure
  place_exposure-PlacedIn e opts lives ex ps h b m known =
      elim (Bool-cases (exposure_host e ex == [])) [
        | inl empty ↦
            let never : err (exposure_without_host ex.service) ≡ ok ps =
              rw (empty, place_exposure) at h in
            ground arith
        | inr named ↦
            let (u, _, placed) =
              bind-eq-ok (refused_auth (exposure_host e ex) (validate_auth ex.mode ex.auth))
                (λ (u : Unit {0}).
                  place_at opts lives ex (exposure_host e ex) (target_edges ex e.edges))
                (rw (named, place_exposure) at h) in
            place_at-PlacedIn opts lives ex (exposure_host e ex) (target_edges ex e.edges) ps placed
              b m known
      ]

  pub place_all-PlacedIn :
      (e : Engine W) (opts : Options) (lives : Lives) (exs : List Exposure) (ps : Placements)
      → place_all e opts lives exs ≡ ok ps
      → (ex : Exposure) → In ex exs
      → (b : EdgeBinding W) → In b (target_edges ex e.edges)
      → KnownIn lives b
      → PlacedIn opts lives ex (exposure_host e ex) ps b
  unfolding place_all
  place_all-PlacedIn e opts lives [] ps h ex n b m known = elim n [ ]
  place_all-PlacedIn e opts lives (x ∷ exs) ps h ex n b m known =
      let (first, placed, more) =
        bind-eq-ok (place_exposure e opts lives x)
          (λ (qs : Placements). place_all e opts lives exs >>= λ rest. ok (qs ++ rest)) h in
      let (rest, others, made) =
        bind-eq-ok (place_all e opts lives exs) (λ (qs : Placements). ok (first ++ qs)) more in
      let host = exposure_host e ex in
      subst (λ (qs : Placements). PlacedIn opts lives ex host qs b) (ok_injective made)
        (elim (In-cons_cases n) [
          | inl same ↦
              PlacedIn-mono opts lives ex host first (first ++ rest) b (λ y k. In-append rest k)
                (place_exposure-PlacedIn e opts lives ex first
                  (subst (λ (y : Exposure). place_exposure e opts lives y ≡ ok first) (sym same)
                    placed)
                  b m known)
          | inr later ↦
              PlacedIn-mono opts lives ex host rest (first ++ rest) b
                (λ y k. In-append_right first k)
                (place_all-PlacedIn e opts lives exs rest others ex later b m known)
        ])
