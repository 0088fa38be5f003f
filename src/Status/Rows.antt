-- ===== src/Status/Rows.antt =====
-- The rows of a status, and what they say of the edges.
use crenel.Prelude.{
  arith, subst, ap, ◌∙◌, true, not, ◌&&◌, if_rule, ◌≡◌, refl, List, [], ◌∷◌, ◌⊎◌, inl, inr, In,
  here, there, map, some, ◌≢◌, false, Option-cases, text_beq_iff, Result, ok, err, Result-cases,
  bind-eq-ok, text_eq,
}
use crenel.Model.{Route, LiveEdgeState, acknowledged_unknown, deny_unknown, deny_state}
use crenel.Reports.{Error, EdgeStatus, StatusReport, status_deny_state}
use crenel.Engine.{EdgeBinding, Engine}
use crenel.Follow.{EdgeReads, read_of, resolve_chain, effective_auth}
use crenel.Chain.{is_chain_front}
use crenel.Status.{
  is_chain_target, with_link, annotate_route, read_edge, read_edges, read_all, edge_status,
  dns_status, status, annotate_chain, unread_row,
}
use crenel.Status.Reads.{DistinctNames, read_of-edge}

-- A route of the row is the live route but for the link of a chain and the authentication, and it
-- shows the authentication of the live route if that has one.
abbrev ShowsRoute : Route → Route → Type 0
ShowsRoute s r =
    (record s { upstream = record s.upstream { auth = r.upstream.auth }; chain = r.chain } ≡ r)
    × (r.upstream.auth ≢ [] → s.upstream.auth ≡ r.upstream.auth)

-- The routes stand at the positions of the live ones.
abbrev ShowsRoutes : List Route → List Route → Type 0
ShowsRoutes [] [] = Unit
ShowsRoutes [] (r ∷ rs) = ⊥
ShowsRoutes (s ∷ ss) [] = ⊥
ShowsRoutes (s ∷ ss) (r ∷ rs) = ShowsRoute s r × ShowsRoutes ss rs

same-Shows : (rs : List Route) → ShowsRoutes rs rs
same-Shows [] = tt
same-Shows (r ∷ rs) = ((refl, λ _. refl), same-Shows rs)

module _ {W : Type 0} where
  -- The row of an edge that was read: it shows the live routes, default deny, unparsed entries,
  -- generator and persistence; and the very routes, if the edge is no front of a chain and does not
  -- leave the authentication to its downstream edge.
  abbrev ShowsLive : EdgeBinding W → W → EdgeStatus → Type 0
  ShowsLive b w s =
      (live : LiveEdgeState) × (b.provider.read_live_state w ≡ ok live)
      × ShowsRoutes s.routes live.routes
      × (is_chain_front b ≡ false → b.auth_downstream ≡ false → s.routes ≡ live.routes)
      × (s.deny_catch_all_present ≡ live.deny_catch_all_present)
      × (s.unparsed ≡ live.unparsed)
      × (s.generator ≡ live.generator)
      × (s.persistence ≡ live.persistence)

  -- The row of an edge that was not: the edge is the target of a chain, and the row is unknown.
  abbrev ShowsUnknown : Engine W → EdgeBinding W → W → EdgeStatus → Type 0
  ShowsUnknown e b w s =
      (x : Error) × (b.provider.read_live_state w ≡ err x)
      × (is_chain_target e b.name ≡ true)
      × (s.routes ≡ [])
      × (status_deny_state s ≡ deny_unknown)

  abbrev pub Shows : Engine W → W → EdgeBinding W → EdgeStatus → Type 0
  Shows e w b s =
      (s.name ≡ b.name) × (s.driver ≡ b.provider.name) × (ShowsLive b w s ⊎ ShowsUnknown e b w s)

  -- The rows stand at the positions of the edges.
  abbrev pub RowsShow : Engine W → W → List (EdgeBinding W) → List EdgeStatus → Type 0
  RowsShow e w [] [] = Unit
  RowsShow e w [] (s ∷ ss) = ⊥
  RowsShow e w (b ∷ bs) [] = ⊥
  RowsShow e w (b ∷ bs) (s ∷ ss) = Shows e w b s × RowsShow e w bs ss

  -- An authentication of its own is the effective one.
  effective_auth-own :
      (reads : EdgeReads) (b : EdgeBinding W) (r : Route)
      → r.upstream.auth ≢ []
      → effective_auth reads b r ≡ r.upstream.auth
  unfolding effective_auth
  effective_auth-own reads b r h = ground (arith, text_beq_iff r.upstream.auth [])

  annotate_route-Shows :
      (reads : EdgeReads) (b : EdgeBinding W) (r : Route) → ShowsRoute (annotate_route reads b r) r
  unfolding annotate_route
  annotate_route-Shows reads b r = elim (Option-cases (resolve_chain reads b r)) [
    | inl none_ ↦ rw (none_, annotate_route, with_link) (refl, effective_auth-own reads b r)
    | inr (link, found) ↦
        rw (found, annotate_route, with_link)
          (refl, effective_auth-own reads b (record r { chain = some link }))
  ]

  annotated-Shows :
      (reads : EdgeReads) (b : EdgeBinding W) (rs : List Route)
      → ShowsRoutes (map (annotate_route reads b) rs) rs
  annotated-Shows reads b [] = tt
  annotated-Shows reads b (r ∷ rs) = (annotate_route-Shows reads b r, annotated-Shows reads b rs)

  annotate_chain-Shows :
      (reads : EdgeReads) (b : EdgeBinding W) (rs : List Route)
      → ShowsRoutes (annotate_chain reads b rs) rs
  unfolding annotate_chain
  annotate_chain-Shows reads b rs =
      if_rule (λ (x : List Route). ShowsRoutes x rs)
        (not (is_chain_front b) && not b.auth_downstream) (λ _. same-Shows rs)
        (λ _. annotated-Shows reads b rs)

  annotate_chain-apart :
      (reads : EdgeReads) (b : EdgeBinding W) (rs : List Route)
      → is_chain_front b ≡ false
      → b.auth_downstream ≡ false
      → annotate_chain reads b rs ≡ rs
  unfolding annotate_chain
  annotate_chain-apart reads b rs h k = rw (h, k) refl

  read_edge-target :
      (e : Engine W) (b : EdgeBinding W) (w : W) {x : Error}
      → b.provider.read_live_state w ≡ err x
      → read_edge e b w ≡ ok (b.provider.read_live_state w)
      → is_chain_target e b.name ≡ true
  unfolding read_edge
  read_edge-target e b w {x} fails h = ground arith

  unread-unknown : (b : EdgeBinding W) → status_deny_state (unread_row b) ≡ deny_unknown
  unfolding status_deny_state deny_state crenel.Model.fully_parsed
  unread-unknown b = refl

  edge_status-Shows :
      (e : Engine W) (w : W) (reads : EdgeReads) (b : EdgeBinding W)
      → read_of reads b.name ≡ some (b.provider.read_live_state w)
      → read_edge e b w ≡ ok (b.provider.read_live_state w)
      → Shows e w b (edge_status reads w b)
  edge_status-Shows e w reads b found kept =
      elim (Result-cases (b.provider.read_live_state w))
        as (λ _. Shows e w b (edge_status reads w b)) [
          | inl (live, read) ↦
              let same : read_of reads b.name ≡ some (ok live) =
                found ∙ ap (λ (r : Result Error LiveEdgeState). some r) read in
              unfold edge_status in
              rw (same, edge_status)
                (
                  refl,
                  refl,
                  inl (
                    live,
                    read,
                    annotate_chain-Shows reads b live.routes,
                    annotate_chain-apart reads b live.routes,
                    refl,
                    refl,
                    refl,
                    refl,
                  ),
                )
          | inr (x, fails) ↦
              let same : read_of reads b.name ≡ some (err x) =
                found ∙ ap (λ (r : Result Error LiveEdgeState). some r) fails in
              unfold edge_status in
              rw (same, edge_status)
                (
                  refl,
                  refl,
                  inr (x, fails, read_edge-target e b w fails kept, refl, unread-unknown b),
                )
        ]

  rows-Show :
      (e : Engine W) (w : W) (reads : EdgeReads) (bs : List (EdgeBinding W))
      → ((b : EdgeBinding W)
          → In b bs
          → (read_of reads b.name ≡ some (b.provider.read_live_state w))
            × (read_edge e b w ≡ ok (b.provider.read_live_state w)))
      → RowsShow e w bs (map (edge_status reads w) bs)
  rows-Show e w reads [] h = tt
  rows-Show e w reads (b ∷ bs) h = (
    edge_status-Shows e w reads b (h b here).0 (h b here).1,
    rows-Show e w reads bs (λ c m. h c (there m)),
  )

  -- If the edges have distinct names and the status was read, then it has one row for each edge, at
  -- the edge's position and under its name and driver: either the edge was read, and the row shows
  -- its default deny, unparsed entries, generator and persistence as they are, and its routes at
  -- their positions, as they are but for the link of a chain and an authentication that was empty,
  -- and wholly as they are at an edge that is no front of a chain and does not leave the
  -- authentication to its downstream edge; or it was not read, and then it is the downstream edge of
  -- some edge, and its row has no route and an unknown default deny.
  pub status-RowsShow :
      (e : Engine W) (w : W) (rep : StatusReport)
      → DistinctNames e.edges
      → status e w ≡ ok rep
      → RowsShow e w e.edges rep.edges
  unfolding status read_all
  status-RowsShow e w rep distinct h =
      let (reads, all_, h1) = bind-eq-ok (read_edges e e.edges w) _ h in
      let (dns, records, h2) = bind-eq-ok (dns_status w e.dns) _ h1 in
      let same : map (edge_status reads w) e.edges ≡ rep.edges = ground arith in
      subst (RowsShow e w e.edges) same
        (rows-Show e w reads e.edges (λ b m. read_of-edge e e.edges w reads b distinct all_ m))
