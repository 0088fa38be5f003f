-- ===== src/Steps/Inverse.antt =====
-- The change that undoes the change of an edge.
use crenel.Prelude.{
  subst, sym, ◌≡◌, refl, List, [], ◌∷◌, inl, inr, In, here, there, In-cons_cases, Option-cases,
  Text, ◌==◌, text_eq, text_beq_iff, find, find-In, find-eq-some, find-any, map, In-any,
}
use crenel.Model.{Route, LiveEdgeState, EdgeChange}
use crenel.Steps.{prior_routes, invert_edge}

prior_routes-In :
    (hs : List Text) (rs : List Route) (r : Route)
    → In r (prior_routes hs rs)
    → In r rs × In r.host hs
unfolding prior_routes
prior_routes-In [] rs r m = elim m [ ]
prior_routes-In (h ∷ hs) rs r m = elim (Option-cases (find (λ (s : Route). s.host == h) rs)) [
  | inl absent ↦
      let (n, k) = prior_routes-In hs rs r (rw (absent, prior_routes) at m) in (n, there k)
  | inr (s, found) ↦
      let with_head : In r (s ∷ prior_routes hs rs) = rw (found, prior_routes) at m in
      elim (In-cons_cases with_head) [
        | inr later ↦ let (n, k) = prior_routes-In hs rs r later in (n, there k)
        | inl top ↦
            let same : s.host ≡ h = (text_beq_iff s.host h).0 (find-eq-some _ rs found) in
            subst (λ (x : Route). In x rs × In x.host (h ∷ hs)) (sym top)
              (find-In _ rs found, subst (λ (y : Text). In y (h ∷ hs)) (sym same) here)
      ]
]

In-prior_routes :
    (hs : List Text) (rs : List Route) (h : Text) (r : Route)
    → In h hs
    → In r rs
    → r.host ≡ h
    → (s : Route) × In s (prior_routes hs rs) × (s.host ≡ h)
unfolding prior_routes
In-prior_routes [] rs h r m n same = elim m [ ]
In-prior_routes (k ∷ hs) rs h r m n same =
    elim (Option-cases (find (λ (s : Route). s.host == k) rs)) [
      | inl absent ↦ elim (In-cons_cases m) [
        | inl top ↦ absurd (
            find-any (λ (s : Route). s.host == k) rs
              (In-any (λ (s : Route). s.host == k) n ((text_beq_iff r.host k).1 (cc))) absent)
        | inr later ↦ rw (absent, prior_routes) (In-prior_routes hs rs h r later n same)
      ]
      | inr (s, found) ↦
          rw (found, prior_routes)
            (elim (In-cons_cases m) [
              | inl top ↦
                  let exact : s.host ≡ k = (text_beq_iff s.host k).0 (find-eq-some _ rs found) in
                  (s, here, cc)
              | inr later ↦
                  let (t, l, e) = In-prior_routes hs rs h r later n same in (t, there l, e)
            ])
    ]

host-In : {r : Route} {rs : List Route} → In r rs → In r.host (map (λ x. x.host) rs)
host-In here = here
host-In (there m) = there (host-In m)

-- The change that undoes an edge's change removes the host of every route that was added, adds only
-- routes that the snapshot has for a host that was removed, and for every removed host of which
-- the snapshot has a route, spelled alike, adds a route of that host.
pub invert_edge-restores :
    (c : EdgeChange) (snapshot : LiveEdgeState)
    → ((r : Route) → In r c.add_routes → In r.host (invert_edge c snapshot).remove_hosts)
      × ((r : Route)
          → In r (invert_edge c snapshot).add_routes
          → In r snapshot.routes × In r.host c.remove_hosts)
      × ((r : Route)
          → In r snapshot.routes
          → In r.host c.remove_hosts
          → (s : Route) × In s (invert_edge c snapshot).add_routes × (s.host ≡ r.host))
unfolding invert_edge
invert_edge-restores c snapshot = (
  λ r m. host-In m,
  λ r m. prior_routes-In c.remove_hosts snapshot.routes r m,
  λ r n m. In-prior_routes c.remove_hosts snapshot.routes r.host r m n refl,
)
