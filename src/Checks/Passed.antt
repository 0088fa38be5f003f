-- ===== src/Checks/Passed.antt =====
-- What a check that passed has seen.
use crenel.Prelude.{
  Bool, true, false, not, List, [], ◌∷◌, ◌++◌, find, Option, none, some, Text, text_eq,
  text_beq_iff, ◌≡◌, refl, inl, inr, arith, In, In-cons_cases, All, Option-cases,
}
use crenel.Model.{
  Op, Verb, expose, unexpose, rename, is_mesh_grant, Route, LiveEdgeState, has_host, reachable,
  Record, EdgeChange,
}
use crenel.Reports.{Detail, VerifyResult, verified}
use crenel.Checks.{
  route_of, normalize_auth_presence, verify_edge_auth, verify_edge_forward_tls, verify_edge_host,
  verify_edge_rename, verify_artifact, verify_verb, unless_wrong, record_at_key, same_dns_value,
  verify_present, verify_absent, verify_dns,
}

-- The host of an op, or those of a rename, as the verb wants them.
abbrev pub HostHolds : Verb → Text → EdgeChange → LiveEdgeState → Type 0
HostHolds expose host c live = reachable live host ≡ true
HostHolds unexpose host c live = has_host live host ≡ false
HostHolds rename host c live =
    ((r : Route) → In r c.add_routes → reachable live r.host ≡ true)
    × ((h : Text) → In h c.remove_hosts → has_host live h ≡ false)

-- The route of a planned host is there, with the planned policy; a mesh grant is exempt.
abbrev pub AuthHolds : LiveEdgeState → Route → Type 0
AuthHolds live want =
    is_mesh_grant want.upstream.mode ≡ false
    → (got : Route) × (route_of live want.host ≡ some got)
      × (normalize_auth_presence got.upstream.auth ≡ normalize_auth_presence want.upstream.auth)

-- A route that was planned to dial its upstream over TLS does so.
abbrev pub TlsHolds : LiveEdgeState → Route → Type 0
TlsHolds live want =
    want.upstream.upstream_tls ≡ true
    → (got : Route) × (route_of live want.host ≡ some got) × (got.upstream.upstream_tls ≡ true)

auth_head :
    (live : LiveEdgeState) (want : Route) (ws : List Route)
    → is_mesh_grant want.upstream.mode ≡ false
    → verify_edge_auth live (want ∷ ws) ≡ none
    → (got : Route) × (route_of live want.host ≡ some got)
      × (normalize_auth_presence got.upstream.auth ≡ normalize_auth_presence want.upstream.auth)
unfolding verify_edge_auth
auth_head live want ws other h = elim (Option-cases (route_of live want.host)) [
  | inl absent ↦ absurd (ground arith)
  | inr (got, found) ↦ (
    got,
    found,
    (text_beq_iff (normalize_auth_presence got.upstream.auth)
          (normalize_auth_presence want.upstream.auth)).0
        (ground arith),
  )
]

pub verify_edge_auth_sound :
    (live : LiveEdgeState) (ws : List Route)
    → verify_edge_auth live ws ≡ none
    → All (AuthHolds live) ws
unfolding verify_edge_auth
verify_edge_auth_sound live [] h = tt
verify_edge_auth_sound live (want ∷ ws) h =
    (λ other. auth_head live want ws other h, verify_edge_auth_sound live ws (ground arith))

pub verify_edge_forward_tls_sound :
    (live : LiveEdgeState) (ws : List Route)
    → verify_edge_forward_tls live ws ≡ none
    → All (TlsHolds live) ws
unfolding verify_edge_forward_tls
verify_edge_forward_tls_sound live [] h = tt
verify_edge_forward_tls_sound live (want ∷ ws) h =
    (λ tls. ground arith, verify_edge_forward_tls_sound live ws (ground arith))

unless_wrong-passed :
    (label : Text) (d : Option Detail) (res : VerifyResult)
    → (unless_wrong label d res).passed ≡ true
    → (d ≡ none) × (res.passed ≡ true)
unless_wrong-passed label none res h = (refl, h)
unless_wrong-passed label (some d) res h = ground arith

verify_edge_host_sound :
    (label : Text) (live : LiveEdgeState) (op : Op) (c : EdgeChange) (v : Verb)
    → op.verb ≡ v
    → (verify_edge_host label live op).passed ≡ true
    → HostHolds v op.host c live
unfolding verify_edge_host
verify_edge_host_sound label live op c expose e h = ground arith
verify_edge_host_sound label live op c unexpose e h = ground arith
verify_edge_host_sound label live op c rename e h = absurd (ground arith)

pub find-none :
    {A : Type 0} (p : A → Bool) (xs : List A) (x : A) → find p xs ≡ none → In x xs → p x ≡ false
find-none p (y ∷ xs) x h m = elim (In-cons_cases m) [
  | inl top ↦ rw top (ground arith)
  | inr later ↦ find-none p xs x (ground arith) later
]
find-none p [] x h m = elim m [ ]

verify_edge_rename_sound :
    (label : Text) (live : LiveEdgeState) (host : Text) (c : EdgeChange)
    → (verify_edge_rename label live c).passed ≡ true
    → HostHolds rename host c live
unfolding verify_edge_rename
verify_edge_rename_sound label live host c h = (
  λ r m.
      let up = find-none (λ x. not (reachable live x.host)) c.add_routes r (ground arith) m in
      ground arith,
  λ x m. find-none (λ y. has_host live y) c.remove_hosts x (ground arith) m,
)

-- What one artifact shows of an op that was planned as the change `c`.
pub record ArtifactHolds (op : Op) (c : EdgeChange) (live : LiveEdgeState) : Type 0 where
  pub host : HostHolds op.verb op.host c live
  pub auth : All (AuthHolds live) c.add_routes
  pub tls : All (TlsHolds live) c.add_routes

verify_verb_sound :
    (label : Text) (live : LiveEdgeState) (op : Op) (c : EdgeChange) (v : Verb)
    → op.verb ≡ v
    → (verify_verb label live op c).passed ≡ true
    → HostHolds v op.host c live
verify_verb_sound label live op c expose e h =
    verify_edge_host_sound label live op c expose e (unfold verify_verb in rw (e, verify_verb) at h)
verify_verb_sound label live op c unexpose e h =
    verify_edge_host_sound label live op c unexpose e
      (unfold verify_verb in rw (e, verify_verb) at h)
verify_verb_sound label live op c rename e h =
    verify_edge_rename_sound label live op.host c (unfold verify_verb in rw (e, verify_verb) at h)

pub verify_artifact_sound :
    (label : Text) (live : LiveEdgeState) (op : Op) (c : EdgeChange)
    → (verify_artifact label live op c).passed ≡ true
    → ArtifactHolds op c live
unfolding verify_artifact
verify_artifact_sound label live op c h =
    let (tls, rest) = unless_wrong-passed label (verify_edge_forward_tls live c.add_routes) _ h in
    let (auth, base) = unless_wrong-passed label (verify_edge_auth live c.add_routes) _ rest in
    record {
      host = verify_verb_sound label live op c op.verb refl base;
      auth = verify_edge_auth_sound live c.add_routes auth;
      tls = verify_edge_forward_tls_sound live c.add_routes tls;
    }

-- The records of an op at a DNS provider, as the verb wants them. No read-back of a rename passes.
abbrev pub RecordsHold : Verb → List Record → List Record → Type 0
RecordsHold expose desired live =
    All
      (λ d.
        (r : Record) × (record_at_key live d ≡ some r) × (same_dns_value r.value d.value ≡ true))
      desired
RecordsHold unexpose desired live = All (λ d. record_at_key live d ≡ none) desired
RecordsHold rename desired live = ⊥

verify_present_sound :
    (label : Text) (live ds : List Record)
    → (verify_present label live ds).passed ≡ true
    → RecordsHold expose ds live
unfolding verify_present
verify_present_sound label live [] h = tt
verify_present_sound label live (d ∷ ds) h = elim (Option-cases (record_at_key live d)) [
  | inl absent ↦ absurd (ground arith)
  | inr (r, found) ↦ ((r, found, ground arith), verify_present_sound label live ds (ground arith))
]

verify_absent_sound :
    (label : Text) (live ds : List Record)
    → (verify_absent label live ds).passed ≡ true
    → RecordsHold unexpose ds live
unfolding verify_absent
verify_absent_sound label live [] h = tt
verify_absent_sound label live (d ∷ ds) h =
    (ground arith, verify_absent_sound label live ds (ground arith))

pub verify_dns_sound :
    (label : Text) (op : Op) (desired live : List Record) (v : Verb)
    → op.verb ≡ v
    → (verify_dns label op desired live).passed ≡ true
    → RecordsHold v desired live
verify_dns_sound label op desired live expose e h =
    verify_present_sound label live desired (unfold verify_dns in rw (e, verify_dns) at h)
verify_dns_sound label op desired live unexpose e h =
    verify_absent_sound label live desired (unfold verify_dns in rw (e, verify_dns) at h)
verify_dns_sound label op desired live rename e h =
    let bad : false ≡ true = unfold verify_dns in rw (e, verify_dns) at h in cc

pub verified-append :
    (vs us : List VerifyResult)
    → verified (vs ++ us) ≡ true
    → (verified vs ≡ true) × (verified us ≡ true)
unfolding verified
verified-append [] us h = (refl, h)
verified-append (v ∷ vs) us h = ground (arith, verified-append vs us)
