-- ===== src/Verify/Mirror.antt =====
-- Where the read-back asks a DNS provider for more than the plan gave it.
use crenel.Prelude.{
  arith, subst, true, false, ◌≡◌, ◌≢◌, refl, List, map, In, All-In, Bool-cases, none, text_eq, ok,
  inl, inr,
}
use crenel.Model.{Op, Verb, expose, rename, public, scope_eq, Record, no_dns_change, ChangeSet}
use crenel.Reports.{verified}
use crenel.Ports.{DnsProvider}
use crenel.Engine.{Engine, internal_scoped, scope_selected, dns_covers_host}
use crenel.Checks.{record_at_key}
use crenel.Checks.Passed.{RecordsHold, verified-append}
use crenel.Verify.{verify, verify_edges, verify_provider, desired_or_nil}
use crenel.Verify.Sound.{DnsHolds, verify_dns-all}
use crenel.Plan.{plan_provider, dns_skipped}

each_is_there :
    (v : Verb) (rs live live' : List Record) (d : Record) (ds : List Record)
    → v ≡ expose
    → rs ≡ ds
    → live' ≡ live
    → In d ds
    → RecordsHold v rs live'
    → record_at_key live d ≢ none
each_is_there v rs live live' d ds exposing same read m holds =
    let there_ : RecordsHold expose ds live =
      subst (λ u. RecordsHold u ds live) exposing
        (subst (λ rs'. RecordsHold v rs' live) same (subst (RecordsHold v rs) read holds)) in
    let (r, found, value) = All-In _ m there_ in λ missing. cc

pub no_rename : (v : Verb) (rs live : List Record) → v ≡ rename → RecordsHold v rs live → ⊥
no_rename v rs live renaming holds = subst (λ u. RecordsHold u rs live) renaming holds

module _ {W : Type 0} where
  verify-dns :
      (e : Engine W) (op : Op) (cs : ChangeSet) (w : W) (p : DnsProvider W)
      → verified (verify e op cs w) ≡ true
      → In p e.dns
      → DnsHolds op w p
  unfolding verify
  verify-dns e op cs w p good m =
      let (edges, dns) =
        verified-append (verify_edges e op w cs.edges) (map (verify_provider op w) e.dns) good in
      verify_dns-all op w e.dns p dns m

  skips-internal :
      (e : Engine W) (op : Op) (p : DnsProvider W)
      → internal_scoped e op.service ≡ true
      → p.scope ≡ public
      → dns_skipped e op p ≡ true
  unfolding dns_skipped
  skips-internal e op p inside outside = ground arith

  skipped-plan :
      (e : Engine W) (op : Op) (w : W) (p : DnsProvider W)
      → dns_skipped e op p ≡ true
      → plan_provider e op w p ≡ ok (no_dns_change p.scope)
  unfolding plan_provider
  skipped-plan e op w p h = rw h refl

  -- The plan for an internal-only service leaves a public provider's slot empty, but the read-back
  -- of an expose still wants the records that the provider desires: if one of them is not
  -- there, then the change does not verify.
  pub verify-wants_skipped :
      (e : Engine W) (op : Op) (cs : ChangeSet) (w : W) (p : DnsProvider W) (d : Record)
      (ds live : List Record)
      → In p e.dns
      → internal_scoped e op.service ≡ true
      → p.scope ≡ public
      → op.verb ≡ expose
      → scope_selected op.scopes p.scope ≡ true
      → dns_covers_host p op.host ≡ true
      → p.desired_records op ≡ ok ds
      → In d ds
      → p.live_records w ≡ ok live
      → record_at_key live d ≡ none
      → (plan_provider e op w p ≡ ok (no_dns_change p.scope))
        × (verified (verify e op cs w) ≡ false)
  verify-wants_skipped e op cs w p d ds live m inside outside exposing appointed covered desired
        wants reads missing =
      (
        skipped-plan e op w p (skips-internal e op p inside outside),
        elim (Bool-cases (verified (verify e op cs w))) [
          | inr bad ↦ bad
          | inl good ↦
              let (live', reads', holds) = verify-dns e op cs w p good m appointed covered in
              let once : live' ≡ live = ground arith in
              let wanted : desired_or_nil p op ≡ ds = ground arith in
              absurd (
                each_is_there op.verb (desired_or_nil p op) live live' d ds exposing wanted once
                  wants holds missing)
        ],
      )

  -- The read-back of a rename never passes if a DNS provider has a zone that covers the new host
  -- and a scope that the op appoints: no state of the world verifies it.
  pub verify-fails_rename :
      (e : Engine W) (op : Op) (cs : ChangeSet) (w : W) (p : DnsProvider W)
      → In p e.dns
      → op.verb ≡ rename
      → scope_selected op.scopes p.scope ≡ true
      → dns_covers_host p op.host ≡ true
      → verified (verify e op cs w) ≡ false
  verify-fails_rename e op cs w p m renaming appointed covered =
      elim (Bool-cases (verified (verify e op cs w))) [
        | inr bad ↦ bad
        | inl good ↦
            let (live, reads, holds) = verify-dns e op cs w p good m appointed covered in
            absurd (no_rename op.verb (desired_or_nil p op) live renaming holds)
      ]
