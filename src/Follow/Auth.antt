-- ===== src/Follow/Auth.antt =====
-- When a route is reported as having no authentication.
use crenel.Prelude.{
  arith, ◌∙◌, subst, true, false, ◌≡◌, List, [], ◌∷◌, ◌⊎◌, inl, inr, In, here, there, Bool-cases,
  Option-cases, none, some, Text, equal_fold, ok, text_eq,
}
use crenel.Model.{Route, LiveEdgeState, is_mesh_grant, ChainLink}
use crenel.Engine.{EdgeBinding}
use crenel.Follow.{EdgeReads, read_of, indexed_route, chain_forward, resolve_chain, effective_auth}

pub indexed_route-In :
    (rs : List Route) (host : Text) {r : Route}
    → indexed_route rs host ≡ some r
    → In r rs × (equal_fold r.host host ≡ true)
unfolding indexed_route
indexed_route-In [] host h = cc
indexed_route-In (s ∷ rs) host {r} h = elim (Option-cases (indexed_route rs host)) [
  | inr (later, eq) ↦
      let same : later ≡ r = ground arith in
      let (m, f) = indexed_route-In rs host eq in
      subst (λ (x : Route). In x (s ∷ rs) × (equal_fold x.host host ≡ true)) same (there m, f)
  | inl eq ↦ elim (Bool-cases (equal_fold s.host host)) [
    | inl f ↦
        let same : s ≡ r = ground arith in
        subst (λ (x : Route). In x (s ∷ rs) × (equal_fold x.host host ≡ true)) same (here, f)
    | inr f ↦ absurd (ground arith)
  ]
]

module _ {W : Type 0} where
  -- The downstream edge was read, and serves the host with this policy.
  abbrev pub ServedDownstream : EdgeReads → EdgeBinding W → Route → Text → Type 0
  ServedDownstream reads b r auth =
      (live : LiveEdgeState) × (found : Route) × (read_of reads b.downstream_edge ≡ some (ok live))
      × In found live.routes
      × (equal_fold found.host r.host ≡ true)
      × (found.upstream.auth ≡ auth)

  resolve_chain-none :
      (reads : EdgeReads) (b : EdgeBinding W) (r : Route)
      → resolve_chain reads b r ≡ none
      → chain_forward b r ≡ false
  unfolding resolve_chain
  resolve_chain-none reads b r h = ground arith

  resolve_chain-read :
      (reads : EdgeReads) (b : EdgeBinding W) (r : Route) {link : ChainLink}
      → resolve_chain reads b r ≡ some link
      → link.resolved ≡ true
      → (live : LiveEdgeState) × (found : Route) × (read_of reads b.downstream_edge
          ≡ some (ok live))
        × (indexed_route live.routes r.host ≡ some found)
        × (found.upstream.auth ≡ link.downstream_auth)
  unfolding resolve_chain
  resolve_chain-read reads b r h k = ground arith

  -- If a route is reported as having no authentication, then it has none itself, and: it is a mesh
  -- grant; or it does not forward to the downstream edge of a chain, and the edge does not
  -- declare that its authentication is downstream; or the downstream edge was read, and serves
  -- the same host without authentication.
  pub effective_auth-open :
      (reads : EdgeReads) (b : EdgeBinding W) (r : Route)
      → effective_auth reads b r ≡ []
      → (r.upstream.auth ≡ [])
        × ((is_mesh_grant r.upstream.mode ≡ true)
            ⊎ (((chain_forward b r ≡ false) × (b.auth_downstream ≡ false))
                ⊎ ServedDownstream reads b r []))
  unfolding effective_auth
  effective_auth-open reads b r h = elim (Bool-cases (is_mesh_grant r.upstream.mode)) [
    | inl mesh ↦ (ground arith, inl mesh)
    | inr proxied ↦ elim (Option-cases (resolve_chain reads b r)) [
      | inl plain ↦ (ground arith, inr (inl (resolve_chain-none reads b r plain, ground arith)))
      | inr (link, leads) ↦
          let reached : link.resolved ≡ true = ground arith in
          let open_ : link.downstream_auth ≡ [] = ground arith in
          let (live, found, read, index, auth) = resolve_chain-read reads b r leads reached in
          let (served, same_host) = indexed_route-In live.routes r.host index in
          (ground arith, inr (inr (live, found, read, served, same_host, auth ∙ open_)))
    ]
  ]
