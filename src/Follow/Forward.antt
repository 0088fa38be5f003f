-- ===== src/Follow/Forward.antt =====
-- internal/core/chain_write.go against internal/core/chain.go: the forward that a chain front is
-- planned to have, and how it is read.
use crenel.Prelude.{
  Bool, true, false, ◌≡◌, ◌≢◌, ◌↔◌, refl, sym, [], ◌∷◌, inl, inr, arith, Bool-cases, some, In, here,
  In-cons_cases, Text, codes, text_eq, text_beq, text_beq_refl, text_beq_iff, if_rule, none,
  to_lower, trim_space, ok, bind-eq-ok, subst,
}
use crenel.Model.{
  Op, Verb, expose, unexpose, rename, Route, LiveEdgeState, has_host, EdgeChange, http_proxy,
  direct_backend, unset,
}
use crenel.Engine.{EdgeBinding}
use crenel.Chain.{
  kept_deny, is_chain_front, dial_is_tls_port, forward_dial, downstream_uses_tls, forward_route,
  plan_forward,
}
use crenel.Follow.{
  EdgeReads, read_of, indexed_route, dial_host, resolved_to, chain_forward, resolve_chain,
  effective_auth,
}

module _ {W : Type 0} where
  abbrev scheme_of : EdgeBinding W → Text
  scheme_of b = to_lower (trim_space b.downstream_scheme)

  -- A declared scheme decides on TLS, and else the port does.
  abbrev TlsAsDeclared : EdgeBinding W → Bool → Type 0
  TlsAsDeclared b tls =
      (scheme_of b ≡ codes "https" → tls ≡ true)
      × (scheme_of b ≡ codes "http" → tls ≡ false)
      × (scheme_of b ≢ codes "https"
          → scheme_of b ≢ codes "http"
          → tls ≡ dial_is_tls_port b.downstream_address)

  -- A route of the host that dials the downstream edge, without an authentication of its own; and
  -- that is read as a forward, with the authentication of the host's route at the downstream edge.
  abbrev ForwardsTo : EdgeBinding W → Text → Route → Type 0
  ForwardsTo b host r =
      (r.host ≡ host)
      × (r.upstream.server_name ≡ host)
      × (r.upstream.mode ≡ http_proxy)
      × (r.upstream.tls_passthrough ≡ false)
      × (r.upstream.address ≡ b.downstream_address)
      × (r.upstream.address ≢ [])
      × (r.upstream.auth ≡ [])
      × TlsAsDeclared b r.upstream.upstream_tls
      × (chain_forward b r ≡ true)
      × ((reads : EdgeReads) (down : LiveEdgeState) (s : Route)
          → read_of reads b.downstream_edge ≡ some (ok down)
          → indexed_route down.routes host ≡ some s
          → effective_auth reads b r ≡ s.upstream.auth)

  -- The change of a front for each verb: an added forward where there was no route of the host, a
  -- removed host where there was one, and else nothing; the default deny is always kept.
  abbrev pub FrontChange : EdgeBinding W → Verb → Text → LiveEdgeState → EdgeChange → Type 0
  FrontChange b expose host live c =
      (c.deny_catch_all_will_be_present ≡ true)
      × (c.remove_hosts ≡ [])
      × (has_host live host ≡ true → c.add_routes ≡ [])
      × (has_host live host ≡ false → (r : Route) × (c.add_routes ≡ r ∷ []) × ForwardsTo b host r)
  FrontChange b unexpose host live c =
      (c.deny_catch_all_will_be_present ≡ true)
      × (c.add_routes ≡ [])
      × ((h : Text) → In h c.remove_hosts ↔ ((h ≡ host) × (has_host live host ≡ true)))
  FrontChange b rename host live c =
      (c.deny_catch_all_will_be_present ≡ true) × (c.add_routes ≡ []) × (c.remove_hosts ≡ [])

  downstream_uses_tls-TlsAsDeclared :
      (b : EdgeBinding W) → TlsAsDeclared b (downstream_uses_tls b b.downstream_address)
  unfolding downstream_uses_tls
  downstream_uses_tls-TlsAsDeclared b =
      let https = text_beq_iff (scheme_of b) (codes "https") in
      let http = text_beq_iff (scheme_of b) (codes "http") in
      (λ h. rw (https.1 h) refl, λ h. rw h refl, λ h k. ground (arith, https, http))

  dialled-forward :
      (b : EdgeBinding W) (r : Route)
      → is_chain_front b ≡ true
      → r.upstream.mode ≡ http_proxy
      → r.upstream.address ≡ b.downstream_address
      → chain_forward b r ≡ true
  unfolding chain_forward
  dialled-forward b r front mode same =
      rw (front, mode, same, text_beq_refl (dial_host b.downstream_address))
        (if_rule (λ (x : Bool). x ≡ true) (text_beq b.downstream_address []) (λ _. refl)
          (λ _. refl))

  resolve_chain-found :
      (reads : EdgeReads) (b : EdgeBinding W) (r : Route) (down : LiveEdgeState) (s : Route)
      → chain_forward b r ≡ true
      → read_of reads b.downstream_edge ≡ some (ok down)
      → indexed_route down.routes r.host ≡ some s
      → resolve_chain reads b r ≡ some (resolved_to b.downstream_edge s)
  unfolding resolve_chain
  resolve_chain-found reads b r down s forwards read found = rw (forwards, read, found) refl

  followed-auth :
      (reads : EdgeReads) (b : EdgeBinding W) (r : Route) (down : LiveEdgeState) (s : Route)
      → chain_forward b r ≡ true
      → r.upstream.mode ≡ http_proxy
      → r.upstream.auth ≡ []
      → read_of reads b.downstream_edge ≡ some (ok down)
      → indexed_route down.routes r.host ≡ some s
      → effective_auth reads b r ≡ s.upstream.auth
  unfolding effective_auth
  followed-auth reads b r down s forwards mode open_ read found =
      rw (resolve_chain-found reads b r down s forwards read found, open_, mode) refl

  abbrev forwarding : EdgeBinding W → Text → Route
  forwarding b host = record {
    host = host;
    upstream = record {
      kind = direct_backend;
      mode = http_proxy;
      address = b.downstream_address;
      tls_passthrough = false;
      server_name = host;
      upstream_tls = downstream_uses_tls b b.downstream_address;
      auth = [];
    };
    managed = false;
    ownership = unset;
    chain = none;
  }

  forwarding-ForwardsTo :
      (b : EdgeBinding W) (host : Text)
      → is_chain_front b ≡ true
      → b.downstream_address ≢ []
      → ForwardsTo b host (forwarding b host)
  forwarding-ForwardsTo b host front some_ =
      let forwards = dialled-forward b (forwarding b host) front refl refl in
      (
        refl,
        refl,
        refl,
        refl,
        refl,
        some_,
        refl,
        downstream_uses_tls-TlsAsDeclared b,
        forwards,
        λ reads down s read found.
            followed-auth reads b (forwarding b host) down s forwards refl refl read found,
      )

  forward_route-ForwardsTo :
      (b : EdgeBinding W) (host : Text) (r : Route)
      → is_chain_front b ≡ true
      → forward_route b host ≡ ok r
      → ForwardsTo b host r
  unfolding forward_route forward_dial
  forward_route-ForwardsTo b host r front h =
      let (dial, dials, h1) = bind-eq-ok (forward_dial b) _ h in
      let some_ : b.downstream_address ≢ [] =
        λ nil. absurd (ground (arith, text_beq_iff b.downstream_address [])) in
      let same : b.downstream_address ≡ dial = ground arith in
      let made : forwarding b host ≡ r = ground arith in
      subst (ForwardsTo b host) made (forwarding-ForwardsTo b host front some_)

  expose-FrontChange :
      (b : EdgeBinding W) (op : Op) (live : LiveEdgeState) (change : EdgeChange)
      → is_chain_front b ≡ true
      → op.verb ≡ expose
      → plan_forward b op live ≡ ok change
      → FrontChange b expose op.host live change
  unfolding plan_forward
  expose-FrontChange b op live change front verb h = elim (Bool-cases (has_host live op.host)) [
    | inl there_ ↦
        let same : kept_deny [] [] ≡ change = ground arith in
        subst (FrontChange b expose op.host live) same
          (refl, refl, (λ _. refl), λ absent. absurd (ground arith))
    | inr absent ↦
        let h1 = rw (verb, plan_forward, absent) at h in
        let (r, made, h2) = bind-eq-ok (forward_route b op.host) _ h1 in
        let same : kept_deny (r ∷ []) [] ≡ change = ground arith in
        subst (FrontChange b expose op.host live) same (
          refl,
          refl,
          (λ there_. absurd (ground arith)),
          λ _. (r, refl, forward_route-ForwardsTo b op.host r front made),
        )
  ]

  unexpose-FrontChange :
      (b : EdgeBinding W) (op : Op) (live : LiveEdgeState) (change : EdgeChange)
      → op.verb ≡ unexpose
      → plan_forward b op live ≡ ok change
      → FrontChange b unexpose op.host live change
  unfolding plan_forward
  unexpose-FrontChange b op live change verb h = elim (Bool-cases (has_host live op.host)) [
    | inl there_ ↦
        let same : kept_deny [] (op.host ∷ []) ≡ change = ground arith in
        subst (FrontChange b unexpose op.host live) same (
          refl,
          refl,
          λ x. (
            (λ m. elim (In-cons_cases m) [ inl top ↦ (top, there_) | inr n ↦ elim n [ ] ]),
            λ (k : (x ≡ op.host) × (has_host live op.host ≡ true)).
                subst (λ (y : Text). In y (op.host ∷ [])) (sym k.0) here,
          ),
        )
    | inr absent ↦
        let same : kept_deny [] [] ≡ change = ground arith in
        subst (FrontChange b unexpose op.host live) same
          (refl, refl, λ x. ((λ m. elim m [ ]), λ k. absurd (ground arith)))
  ]

  verb-FrontChange :
      (b : EdgeBinding W) (op : Op) (live : LiveEdgeState) (change : EdgeChange) (v : Verb)
      → is_chain_front b ≡ true
      → op.verb ≡ v
      → plan_forward b op live ≡ ok change
      → FrontChange b v op.host live change
  unfolding plan_forward
  verb-FrontChange b op live change expose front verb h =
      expose-FrontChange b op live change front verb h
  verb-FrontChange b op live change unexpose front verb h =
      unexpose-FrontChange b op live change verb h
  verb-FrontChange b op live change rename front verb h =
      let same : kept_deny [] [] ≡ change = ground arith in
      subst (FrontChange b rename op.host live) same (refl, refl, refl)

  -- If a chain front has a planned change, then it keeps the default deny, and: on expose it adds
  -- nothing if the front has a route of the host, and else exactly one, which dials the downstream
  -- address, over TLS as the declared scheme or else the port says, has no authentication of its
  -- own, is read back as a forward, and shows the authentication of the host's route at the
  -- downstream edge; on unexpose it removes the host if the front has a route of it, and adds
  -- nothing; and on a rename it is empty.
  pub plan_forward-followed :
      (b : EdgeBinding W) (op : Op) (live : LiveEdgeState) (change : EdgeChange)
      → is_chain_front b ≡ true
      → plan_forward b op live ≡ ok change
      → FrontChange b op.verb op.host live change
  plan_forward-followed b op live change front h =
      verb-FrontChange b op live change op.verb front refl h
