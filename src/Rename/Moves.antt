-- ===== src/Rename/Moves.antt =====
-- What a rename plans: at every edge that serves the old host, and only there.
use crenel.Prelude.{
  arith, subst, sym, true, false, ◌≡◌, ◌≢◌, List, [], ◌∷◌, ◌++◌, ◌⊎◌, inl, inr, In, here, there,
  In-append, In-append_right, In-append_cases, In-cons_cases, Option-cases, none, some, refl, Text,
  text_eq, equal_fold, trim_space, find, find-In, text_beq_iff, Result-cases, find-eq-some, is_nil,
  ok, bind-eq-ok, map_err, map_err-eq-ok,
}
use crenel.Model.{auth_detected, unset, Route, LiveEdgeState, has_host, EdgePlan, ChangeSet}
use crenel.Reports.{rename_read_failed}
use crenel.Engine.{EdgeBinding, Engine}
use crenel.Rename.{
  renamed_route, find_route, rename_set, rename_plan, rename_edge, rename_edges, plan_rename,
}

-- The route under its new name: what it serves and how is that of the old one, the server name
-- follows the host, and the marks that core puts on a route it has read are cleared.
abbrev Carries : Text → Route → Route → Type 0
Carries new_host src r =
    (r.host ≡ new_host)
    × (r.upstream.server_name ≡ new_host)
    × (r.upstream.kind ≡ src.upstream.kind)
    × (r.upstream.mode ≡ src.upstream.mode)
    × (r.upstream.address ≡ src.upstream.address)
    × (r.upstream.tls_passthrough ≡ src.upstream.tls_passthrough)
    × (r.upstream.upstream_tls ≡ src.upstream.upstream_tls)
    × (r.upstream.auth ≡ src.upstream.auth)
    × (r.managed ≡ false)
    × (r.ownership ≡ unset)
    × (r.chain ≡ none)

module _ {W : Type 0} where
  -- The plan of an edge that takes the route `src` away and adds it under the new name, and
  -- nothing else, and keeps the default deny.
  abbrev pub Replaces : EdgeBinding W → Text → Route → EdgePlan → Type 0
  Replaces b new_host src p =
      (p.edge ≡ b.name)
      × (p.driver ≡ b.provider.name)
      × (p.change.remove_hosts ≡ src.host ∷ [])
      × (p.change.deny_catch_all_will_be_present ≡ true)
      × ((r : Route) × (p.change.add_routes ≡ r ∷ []) × Carries new_host src r)

  rename_plan-Replaces :
      (b : EdgeBinding W) (new_host : Text) (src : Route)
      → Replaces b new_host src (rename_plan b new_host src)
  rename_plan-Replaces b new_host src = (
    refl,
    refl,
    refl,
    refl,
    (
      renamed_route new_host src,
      refl,
      (refl, refl, refl, refl, refl, refl, refl, refl, refl, refl, refl),
    ),
  )

  -- The plan of one edge: it serves the old host, and not the new one, and the first route of the
  -- old host is replaced by itself under the new name, with a policy that can be written again.
  abbrev pub Moves : EdgeBinding W → Text → Text → W → EdgePlan → Type 0
  Moves b old_host new_host w p =
      (live : LiveEdgeState) × (src : Route) × (b.provider.read_live_state w ≡ ok live)
      × In src live.routes
      × (find_route live old_host ≡ some src)
      × (equal_fold src.host old_host ≡ true)
      × (has_host live new_host ≡ false)
      × (src.upstream.auth ≢ auth_detected)
      × Replaces b new_host src p

  rename_edge-Moves :
      (b : EdgeBinding W) (old_host new_host : Text) (live : LiveEdgeState) (w : W)
      (ps : List EdgePlan) (p : EdgePlan)
      → b.provider.read_live_state w ≡ ok live
      → rename_edge b old_host new_host live ≡ ok ps
      → In p ps
      → Moves b old_host new_host w p
  unfolding rename_edge find_route
  rename_edge-Moves b old_host new_host live w ps p reads h m =
      elim (Option-cases (find (λ (r : Route). equal_fold r.host old_host) live.routes)) [
        | inl absent ↦ let none_ : ps ≡ [] = ground arith in elim (subst (In p) none_ m) [ ]
        | inr (src, found) ↦
            let one : ps ≡ rename_plan b new_host src ∷ [] = ground arith in
            elim (In-cons_cases (subst (In p) one m)) [
              | inr n ↦ elim n [ ]
              | inl same ↦ (
                live,
                src,
                reads,
                find-In _ live.routes found,
                found,
                find-eq-some _ live.routes found,
                ground arith,
                ground (arith, text_beq_iff src.upstream.auth auth_detected),
                subst (Replaces b new_host src) (sym same) (rename_plan-Replaces b new_host src),
              )
            ]
      ]

  rename_edges-Moves :
      (bs : List (EdgeBinding W)) (old_host new_host : Text) (w : W) (ps : List EdgePlan)
      (p : EdgePlan)
      → rename_edges bs old_host new_host w ≡ ok ps
      → In p ps
      → (b : EdgeBinding W) × In b bs × Moves b old_host new_host w p
  unfolding rename_edges
  rename_edges-Moves [] old_host new_host w ps p h m =
      let none_ : ps ≡ [] = ground arith in elim (subst (In p) none_ m) [ ]
  rename_edges-Moves (b ∷ bs) old_host new_host w ps p h m =
      let (live, read, h1) =
        bind-eq-ok (map_err (rename_read_failed b.name) (b.provider.read_live_state w)) _ h in
      let (first, hf, h2) = bind-eq-ok (rename_edge b old_host new_host live) _ h1 in
      let (rest, hr, h3) = bind-eq-ok (rename_edges bs old_host new_host w) _ h2 in
      let same : ps ≡ first ++ rest = ground arith in
      elim (In-append_cases first (subst (In p) same m)) [
        | inl n ↦ (
          b,
          here,
          rename_edge-Moves b old_host new_host live w first p (map_err-eq-ok _ _ read) hf n,
        )
        | inr n ↦
            let (c, k, moves) = rename_edges-Moves bs old_host new_host w rest p hr n in
            (c, there k, moves)
      ]

  -- An edge either serves no old host, or its plan is among the plans.
  abbrev pub Served : EdgeBinding W → Text → Text → W → List EdgePlan → Type 0
  Served b old_host new_host w ps =
      (live : LiveEdgeState) × (b.provider.read_live_state w ≡ ok live)
      × ((find_route live old_host ≡ none)
          ⊎ ((src : Route) × (p : EdgePlan) × (find_route live old_host ≡ some src)
              × In p ps
              × Replaces b new_host src p))

  rename_edge-Served :
      (b : EdgeBinding W) (old_host new_host : Text) (live : LiveEdgeState) (w : W)
      (ps : List EdgePlan)
      → b.provider.read_live_state w ≡ ok live
      → rename_edge b old_host new_host live ≡ ok ps
      → Served b old_host new_host w ps
  unfolding rename_edge
  rename_edge-Served b old_host new_host live w ps reads h = (
    live,
    reads,
    elim (Option-cases (find_route live old_host)) [
      | inl absent ↦ inl absent
      | inr (src, found) ↦
          let one : rename_plan b new_host src ∷ [] ≡ ps = ground arith in
          inr (
            src,
            rename_plan b new_host src,
            found,
            subst (In (rename_plan b new_host src)) one here,
            rename_plan-Replaces b new_host src,
          )
    ],
  )

  Served-append :
      (b : EdgeBinding W) (old_host new_host : Text) (w : W) (first rest : List EdgePlan)
      → Served b old_host new_host w first ⊎ Served b old_host new_host w rest
      → Served b old_host new_host w (first ++ rest)
  Served-append b old_host new_host w first rest (inl (live, reads, inl absent)) =
      (live, reads, inl absent)
  Served-append b old_host new_host w first rest (inl (live, reads, inr (src, p, found, m, r))) =
      (live, reads, inr (src, p, found, In-append rest m, r))
  Served-append b old_host new_host w first rest (inr (live, reads, inl absent)) =
      (live, reads, inl absent)
  Served-append b old_host new_host w first rest (inr (live, reads, inr (src, p, found, m, r))) =
      (live, reads, inr (src, p, found, In-append_right first m, r))

  rename_edges-Served :
      (bs : List (EdgeBinding W)) (old_host new_host : Text) (w : W) (ps : List EdgePlan)
      (b : EdgeBinding W)
      → rename_edges bs old_host new_host w ≡ ok ps
      → In b bs
      → Served b old_host new_host w ps
  unfolding rename_edges
  rename_edges-Served [] old_host new_host w ps b h m = elim m [ ]
  rename_edges-Served (c ∷ bs) old_host new_host w ps b h m =
      let (live, read, h1) =
        bind-eq-ok (map_err (rename_read_failed c.name) (c.provider.read_live_state w)) _ h in
      let (first, hf, h2) = bind-eq-ok (rename_edge c old_host new_host live) _ h1 in
      let (rest, hr, h3) = bind-eq-ok (rename_edges bs old_host new_host w) _ h2 in
      let same : first ++ rest ≡ ps = ground arith in
      subst (Served b old_host new_host w) same (
        Served-append b old_host new_host w first rest (elim (In-cons_cases m) [
          | inl top ↦ inl (
              subst (λ (d : EdgeBinding W). Served d old_host new_host w first) (sym top)
                (rename_edge-Served c old_host new_host live w first (map_err-eq-ok _ _ read) hf))
          | inr later ↦ inr (rename_edges-Served bs old_host new_host w rest b hr later)
        ]))

  plan_rename-made :
      (e : Engine W) (old_name new_name : Text) (w : W) (cs : ChangeSet)
      → plan_rename e old_name new_name w ≡ ok cs
      → (plans : List EdgePlan) × (rename_edges e.edges
            (trim_space old_name)
            (trim_space new_name)
            w
          ≡ ok plans)
        × (is_nil plans ≡ false)
        × (cs ≡ rename_set (trim_space new_name) plans)
  unfolding plan_rename
  plan_rename-made e old_name new_name w cs h =
      elim (Result-cases (rename_edges e.edges (trim_space old_name) (trim_space new_name) w)) [
        | inl (plans, made) ↦ (plans, made, ground arith, ground arith)
        | inr (x, failed) ↦ absurd (ground arith)
      ]

  abbrev FromMade : Engine W → Text → Text → W → ChangeSet → Type 0
  FromMade e old_host new_host w cs =
      (cs.edges ≢ [])
      × ((p : EdgePlan)
          → In p cs.edges
          → (b : EdgeBinding W) × In b e.edges × Moves b old_host new_host w p)
      × ((b : EdgeBinding W) → In b e.edges → Served b old_host new_host w cs.edges)

  -- If a rename was planned, then there is at least one edge plan; every edge plan is of an edge of
  -- the engine that serves the old host and not the new one, and does no more than to remove the
  -- host of its first route for the old host and to add that route under the new name: the server
  -- name follows the host, the marks of managed, ownership and chain are cleared, and kind, mode,
  -- address, TLS and authentication are those of the route, the authentication being one that can
  -- be written again; and every edge of the engine was read, and has such a plan if it has a
  -- route for the old host.
  pub plan_rename-Moves :
      (e : Engine W) (old_name new_name : Text) (w : W) (cs : ChangeSet)
      → plan_rename e old_name new_name w ≡ ok cs
      → (cs.edges ≢ [])
        × ((p : EdgePlan)
            → In p cs.edges
            → (b : EdgeBinding W) × In b e.edges
              × Moves b (trim_space old_name) (trim_space new_name) w p)
        × ((b : EdgeBinding W)
            → In b e.edges
            → Served b (trim_space old_name) (trim_space new_name) w cs.edges)
  plan_rename-Moves e old_name new_name w cs h =
      let (plans, made, some_, same) = plan_rename-made e old_name new_name w cs h in
      subst (FromMade e (trim_space old_name) (trim_space new_name) w) (sym same) (
        ground arith,
        λ p m. rename_edges-Moves e.edges _ _ w plans p made m,
        λ b m. rename_edges-Served e.edges _ _ w plans b made m,
      )
