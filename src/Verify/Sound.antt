-- ===== src/Verify/Sound.antt =====
-- What a read-back that passed has seen, over the edges and the DNS providers.
use crenel.Prelude.{
  true, false, List, [], ◌∷◌, map, none, some, text_eq, ◌≡◌, refl, sym, ◌∙◌, inl, inr, arith, In,
  In-cons_cases, Bool-cases, Option-cases, Result-cases, ok,
}
use crenel.Model.{Op, LiveEdgeState, Record, EdgeChange, EdgePlan}
use crenel.Reports.{VerifyResult, verified}
use crenel.Ports.{EdgeProvider, DnsProvider}
use crenel.Engine.{EdgeBinding, Engine, binding, scope_selected, dns_covers_host}
use crenel.Checks.{verify_artifact}
use crenel.Steps.{edge_label, dns_label}
use crenel.Verify.{
  verify_read, verify_edge, verify_edges, verify_provider, runtime_layer, desired_or_nil,
}
use crenel.Checks.Passed.{ArtifactHolds, verify_artifact_sound, RecordsHold, verify_dns_sound}

module _ {W : Type 0} where
  -- An edge that passed was read, its default deny is in place, and its artifact holds.
  abbrev pub EdgeHolds : EdgeBinding W → Op → W → EdgePlan → Type 0
  EdgeHolds b op w p =
      (live : LiveEdgeState) × (b.provider.read_live_state w ≡ ok live)
      × (live.deny_catch_all_present ≡ true)
      × ArtifactHolds op p.change live

  runtime_layer-passed :
      (p : EdgeProvider W) (op : Op) (c : EdgeChange) (w : W) (res : VerifyResult)
      → (runtime_layer p op c w res).passed ≡ true
      → res.passed ≡ true
  runtime_layer-passed p op c w res h = ground arith

  verify_read_sound :
      (provider : EdgeProvider W) (op : Op) (w : W) (p : EdgePlan) (live : LiveEdgeState)
      → (verify_read provider op w p live).passed ≡ true
      → (live.deny_catch_all_present ≡ true) × ArtifactHolds op p.change live
  unfolding verify_read
  verify_read_sound provider op w p live h = elim (Bool-cases live.deny_catch_all_present) [
    | inl denies ↦ (
      denies,
      verify_artifact_sound (edge_label p) live op p.change (
          runtime_layer-passed provider op p.change w
            (verify_artifact (edge_label p) live op p.change) (ground arith)),
    )
    | inr open_ ↦ absurd (ground arith)
  ]

  verify_edge_sound :
      (b : EdgeBinding W) (op : Op) (w : W) (p : EdgePlan)
      → (verify_edge b op w p).passed ≡ true
      → EdgeHolds b op w p
  verify_edge_sound b op w p h = elim (Result-cases (b.provider.read_live_state w)) [
    | inr (x, unread) ↦
        let bad : false ≡ true = unfold verify_edge in rw (unread, verify_edge) at h in cc
    | inl (live, reading) ↦
        let (denies, holds) =
          verify_read_sound b.provider op w p live
            (unfold verify_edge in rw (reading, verify_edge) at h) in
        (live, reading, denies, holds)
  ]

  -- A provider that is asked about the op's host was read, and its records hold.
  abbrev pub DnsHolds : Op → W → DnsProvider W → Type 0
  DnsHolds op w p =
      scope_selected op.scopes p.scope ≡ true
      → dns_covers_host p op.host ≡ true
      → (live : List Record) × (p.live_records w ≡ ok live)
        × RecordsHold op.verb (desired_or_nil p op) live

  verify_provider_sound :
      (op : Op) (w : W) (p : DnsProvider W)
      → (verify_provider op w p).passed ≡ true
      → DnsHolds op w p
  verify_provider_sound op w p h chosen covers = elim (Result-cases (p.live_records w)) [
    | inr (x, unread) ↦
        let bad : false ≡ true =
          unfold verify_provider in rw (chosen, covers, unread, verify_provider) at h in
        cc
    | inl (live, reading) ↦ (
      live,
      reading,
      verify_dns_sound (dns_label p) op (desired_or_nil p op) live op.verb refl
          (unfold verify_provider in rw (chosen, covers, reading, verify_provider) at h),
    )
  ]

  same_binding :
      (e : Engine W) (op : Op) (w : W) (p q : EdgePlan) (b c : EdgeBinding W)
      → p ≡ q
      → binding e p.edge ≡ some b
      → binding e q.edge ≡ some c
      → (verify_edge c op w q).passed ≡ true
      → EdgeHolds b op w p
  same_binding e op w p q b c top bound found h =
      let there : binding e p.edge ≡ some c = rw top found in
      let one : c ≡ b = cc in verify_edge_sound b op w p (rw (one, ← top) at h)

  pub verify_edges_sound :
      (e : Engine W) (op : Op) (w : W) (ps : List EdgePlan) (p : EdgePlan) (b : EdgeBinding W)
      → verified (verify_edges e op w ps) ≡ true
      → In p ps
      → binding e p.edge ≡ some b
      → EdgeHolds b op w p
  unfolding verified
  verify_edges_sound e op w (q ∷ qs) p b h m bound = elim (Option-cases (binding e q.edge)) [
    | inl unbound ↦ elim (In-cons_cases m) [
      | inl top ↦
          let none_here : binding e p.edge ≡ none = rw top unbound in
          let both : some b ≡ none = sym bound ∙ none_here in cc
      | inr later ↦
          verify_edges_sound e op w qs p b (unfold verify_edges in rw (unbound, verify_edges) at h)
            later bound
    ]
    | inr (c, found) ↦
        let both : verified (verify_edge c op w q ∷ verify_edges e op w qs) ≡ true =
          unfold verify_edges in rw (found, verify_edges) at h in
        elim (In-cons_cases m) [
          | inl top ↦ same_binding e op w p q b c top bound found (ground arith)
          | inr later ↦ verify_edges_sound e op w qs p b (ground arith) later bound
        ]
  ]
  verify_edges_sound e op w [] p b h m bound = elim m [ ]

  pub verify_dns-all :
      (op : Op) (w : W) (ps : List (DnsProvider W)) (p : DnsProvider W)
      → verified (map (verify_provider op w) ps) ≡ true
      → In p ps
      → DnsHolds op w p
  unfolding verified
  verify_dns-all op w (q ∷ ps) p h m = elim (In-cons_cases m) [
    | inl top ↦ rw top (verify_provider_sound op w q (ground arith))
    | inr later ↦ verify_dns-all op w ps p (ground arith) later
  ]
  verify_dns-all op w [] p h m = elim m [ ]
