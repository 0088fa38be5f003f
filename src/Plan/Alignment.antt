-- ===== src/Plan/Alignment.antt =====
-- The DNS half of a plan: one change for each provider, at its position.
use crenel.Prelude.{
  arith, subst, true, false, ◌≡◌, List, [], ◌∷◌, ◌⊎◌, inl, inr, Bool-cases, Result, ok, bind-eq-ok,
  map_err, map_err-eq-ok,
}
use crenel.Model.{Op, Record, DnsChange, no_dns_change, ChangeSet, public, scope_eq}
use crenel.Reports.{Error, desired_records_failed, dns_diff_failed}
use crenel.Ports.{DnsProvider}
use crenel.Engine.{Engine, residency_supported, scope_selected, dns_covers_host, internal_scoped}
use crenel.Plan.{plan_dns, plan_provider, dns_skipped, plan}
use crenel.Plan.Parts.{plan-Parts}

module _ {W : Type 0} where
  -- The op does not appoint the provider's scope, its zone does not cover the host, or it is public
  -- and the service internal-only.
  abbrev pub LeftOut : Engine W → Op → DnsProvider W → Type 0
  LeftOut e op p =
      (scope_selected op.scopes p.scope ≡ false)
      ⊎ (dns_covers_host p op.host ≡ false)
      ⊎ ((p.scope ≡ public) × (internal_scoped e op.service ≡ true))

  -- and none of these
  abbrev pub Appointed : Engine W → Op → DnsProvider W → Type 0
  Appointed e op p =
      (scope_selected op.scopes p.scope ≡ true)
      × (dns_covers_host p op.host ≡ true)
      × (p.scope ≡ public → internal_scoped e op.service ≡ false)

  dns_skipped-LeftOut :
      (e : Engine W) (op : Op) (p : DnsProvider W) → dns_skipped e op p ≡ true → LeftOut e op p
  unfolding dns_skipped
  dns_skipped-LeftOut e op p h = ground arith

  dns_skipped-Appointed :
      (e : Engine W) (op : Op) (p : DnsProvider W) → dns_skipped e op p ≡ false → Appointed e op p
  unfolding dns_skipped
  dns_skipped-Appointed e op p h = ground arith

  -- The slot of a provider: empty if the provider is left out, and else the difference between the
  -- records that it desires and those that it has, for a residency that it supports.
  abbrev pub Slot : Engine W → Op → W → DnsProvider W → DnsChange → Type 0
  Slot e op w p c =
      (LeftOut e op p × (c ≡ no_dns_change p.scope))
      ⊎ (Appointed e op p
          × (residency_supported p op.residency ≡ ok tt)
          × ((rs : List Record) × (p.desired_records op ≡ ok rs) × (p.diff op rs w ≡ ok c)))

  abbrev pub Aligned : Engine W → Op → W → List (DnsProvider W) → List DnsChange → Type 0
  Aligned e op w [] [] = Unit
  Aligned e op w [] (c ∷ cs) = ⊥
  Aligned e op w (p ∷ ps) [] = ⊥
  Aligned e op w (p ∷ ps) (c ∷ cs) = Slot e op w p c × Aligned e op w ps cs

  plan_provider-Slot :
      (e : Engine W) (op : Op) (w : W) (p : DnsProvider W) {c : DnsChange}
      → plan_provider e op w p ≡ ok c
      → Slot e op w p c
  unfolding plan_provider
  plan_provider-Slot e op w p {c} h = elim (Bool-cases (dns_skipped e op p)) [
    | inl skipped ↦
        let same : ◌≡◌ {A = Result Error DnsChange} (ok (no_dns_change p.scope)) (ok c) =
          rw skipped at h in
        inl (dns_skipped-LeftOut e op p skipped, ground arith)
    | inr kept ↦
        let (u, supported, h1) = bind-eq-ok (residency_supported p op.residency) _ (rw kept at h) in
        let (rs, desired, h2) =
          bind-eq-ok (map_err (desired_records_failed p.name) (p.desired_records op)) _ h1 in
        inr (
          dns_skipped-Appointed e op p kept,
          supported,
          (rs, map_err-eq-ok _ _ desired, map_err-eq-ok (dns_diff_failed p.name) _ h2),
        )
  ]

  plan_dns-Aligned :
      (e : Engine W) (op : Op) (w : W) (ps : List (DnsProvider W)) (cs : List DnsChange)
      → plan_dns e op w ps ≡ ok cs
      → Aligned e op w ps cs
  unfolding plan_dns
  plan_dns-Aligned e op w [] [] h = tt
  plan_dns-Aligned e op w [] (c ∷ cs) h = ground arith
  plan_dns-Aligned e op w (p ∷ ps) cs h =
      let (c, hc, h1) = bind-eq-ok (plan_provider e op w p) _ h in
      let (rest, hr, h2) = bind-eq-ok (plan_dns e op w ps) _ h1 in
      let same : c ∷ rest ≡ cs = ground arith in
      subst (Aligned e op w (p ∷ ps)) same
        (plan_provider-Slot e op w p hc, plan_dns-Aligned e op w ps rest hr)

  -- If an op was planned, then the plan has exactly one DNS change for each provider, at the
  -- provider's position: the empty change if the op does not appoint the provider's scope, its zone
  -- does not cover the host, or it is public and the service internal-only; and else the
  -- provider's own difference between the records it desires for the op and those it has, the
  -- op's residency being one that it supports.
  pub plan-Aligned :
      (e : Engine W) (op : Op) (w : W) (cs : ChangeSet)
      → plan e op w ≡ ok cs
      → Aligned e op w e.dns cs.dns
  plan-Aligned e op w cs h =
      let parts = plan-Parts e op w h in plan_dns-Aligned e op w e.dns cs.dns parts.dns_planned
