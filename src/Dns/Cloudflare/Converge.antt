-- ===== src/Dns/Cloudflare/Converge.antt =====
-- internal/drivers/dns/cloudflare/cloudflare.go: an expose settles at a service that answers.
use crenel.Prelude.{
  ◌≤◌, true, ◌≡◌, ◌≢◌, refl, sym, ap, ◌∙◌, subst, inl, inr, List, [], ◌∷◌, length, arith, Result,
  ok, err, append-nil, Result-cases,
}
use crenel.Model.{Record, Op, Verb, DnsChange, expose, dns_change_empty}
use crenel.Effects.{next-ok, lift, each, ◌>>◌}
use crenel.Dns.Cloudflare.Records.{CfRecord, CfError, Config, fqdn, partition, validate_content}
use crenel.Dns.Cloudflare.Api.{Driver, Session, list_zone}
use crenel.Dns.Cloudflare.Service.{Service}
use crenel.Dns.Cloudflare.Listing.{records_of}
use crenel.Dns.Cloudflare.Reliable.{Reliable}
use crenel.Dns.Cloudflare.Surgical.{IdsDistinct}
use crenel.Dns.Cloudflare.Placed.{addition-Placed, Settled}
use crenel.Dns.Cloudflare.Calls.{Yields, next-Yields, list_zone-Yields, add_records-Yields}
use crenel.Dns.Cloudflare.Surgery.{guard_all, change_for, addition, additions, rendered_change}
use crenel.Dns.Cloudflare.Driver.{diff, apply, add_record, remove_owned}

ok_injective : {E A : Type 0} {a b : A} → ◌≡◌ {A = Result E A} (ok a) (ok b) → a ≡ b
ok_injective e = ground arith

rendered_injective :
    (cfg : Config) (managed add : List Record) {change : DnsChange}
    → ◌≡◌ {A = Result CfError DnsChange} (ok (rendered_change cfg managed add [])) (ok change)
    → (change.add ≡ add) × (change.remove ≡ [])
rendered_injective cfg managed add {change} e =
    let same : rendered_change cfg managed add [] ≡ change = ok_injective e in
    (sym (ap (λ (c : DnsChange). c.add) same), sym (ap (λ (c : DnsChange). c.remove) same))

-- An expose of one record that is planned adds what `addition` says.
change_for_expose :
    (cfg : Config) (all : List CfRecord) (want : Record) (change : DnsChange)
    → change_for cfg all expose (want ∷ []) ≡ ok change
    → (addition want (partition cfg all want.name want.record_type) ≡ ok change.add)
      × (change.remove ≡ [])
unfolding change_for additions
change_for_expose cfg all want change e =
    elim (Result-cases (addition want (partition cfg all want.name want.record_type))) [
      | inl (adds, h) ↦
          let (added, removed) =
            rendered_injective cfg (want ∷ []) adds (rw (h, append-nil adds) at e) in
          (h ∙ ap ok (sym added), removed)
      | inr (x, h) ↦
          let never : ◌≡◌ {A = Result CfError DnsChange} (err x) (ok change) = rw h at e in
          ground arith
    ]

-- At a settled name nothing is added.
change_for-Settled :
    (cfg : Config) (all : List CfRecord) (want : Record)
    → Settled want (partition cfg all want.name want.record_type)
    → change_for cfg all expose (want ∷ []) ≡ ok (rendered_change cfg (want ∷ []) [] [])
unfolding change_for additions
change_for-Settled cfg all want (o, others, found, h) = rw (found, h) refl

module _ {W : Type 0} (d : Driver W) (service : Service d.doer) (reliable : Reliable service)
    (limit : (w : W) → length (reliable.pages w) ≤ d.page_limit)
    (some_page : 1 ≤ d.page_limit) where
  -- a diff on a resolved session whose records pass the guard
  diff-Yields :
      (op : Op) (want : Record) (s : Session W) (change : DnsChange)
      → s.zone_id ≢ []
      → guard_all d.cfg (want ∷ []) ≡ ok tt
      → change_for d.cfg (records_of d service s) op.verb (want ∷ []) ≡ ok change
      → Yields d service (diff d op (want ∷ []) s) change (records_of d service s)
  unfolding diff
  diff-Yields op want s change z guarded e =
      let listed = list_zone-Yields d service reliable limit some_page s z in
      rw guarded (
        next-Yields d service (λ all. lift (change_for d.cfg all op.verb (want ∷ [])))
          (list_zone d s) listed
          (record { returns = e; leaves = listed.leaves; resolved = listed.resolved }))

  -- and what is known of one that returned a change
  diff_planned :
      (op : Op) (want : Record) (s : Session W) (change : DnsChange)
      → s.zone_id ≢ []
      → (diff d op (want ∷ []) s).1 ≡ ok change
      → (guard_all d.cfg (want ∷ []) ≡ ok tt)
        × (change_for d.cfg (records_of d service s) op.verb (want ∷ []) ≡ ok change)
  unfolding diff
  diff_planned op want s change z e = elim (Result-cases (guard_all d.cfg (want ∷ []))) [
    | inl (t, h) ↦ (
      h,
      sym (
            ap (λ (o : Session W × Result CfError DnsChange). o.1)
              (next-ok (λ all. lift (change_for d.cfg all op.verb (want ∷ []))) (list_zone d s)
                (list_zone-Yields d service reliable limit some_page s z).returns))
          ∙ rw h at e,
    )
    | inr (x, h) ↦
        let never : ◌≡◌ {A = Result CfError DnsChange} (err x) (ok change) = rw h at e in
        ground arith
  ]

  -- The name is one that `fqdn` leaves alone once it is qualified.
  abbrev Qualifies : Record → Type 0
  Qualifies want =
      fqdn (fqdn want.name d.cfg.zone_name) d.cfg.zone_name ≡ fqdn want.name d.cfg.zone_name

  apply-Yields :
      (want : Record) (change : DnsChange) (t : Session W)
      → t.zone_id ≢ []
      → IdsDistinct (records_of d service t)
      → Qualifies want
      → validate_content want ≡ ok tt
      → change.remove ≡ []
      → addition want (partition d.cfg (records_of d service t) want.name want.record_type)
        ≡ ok change.add
      → (ts : List CfRecord) × Yields d service (apply d change t) tt ts
        × Settled want (partition d.cfg ts want.name want.record_type)
  unfolding apply
  apply-Yields want change t z ids name valid none_removed added =
      let listed = list_zone-Yields d service reliable limit some_page t z in
      let rs = records_of d service t in
      let at = partition d.cfg rs want.name want.record_type in
      let (ts, made, settled) =
        add_records-Yields d service reliable limit some_page want change.add (list_zone d t).0 rs
          listed.resolved listed.leaves ids name valid at refl
          (addition-Placed want at change.add added) in
      (
        ts,
        next-Yields d service
            (λ all.
              each (λ rem. remove_owned d (partition d.cfg all rem.name rem.record_type))
                change.remove
              >> each (λ add. add_record d add (partition d.cfg all add.name add.record_type))
                  change.add)
            (list_zone d t) listed (rw none_removed made),
        settled,
      )

  -- At a service that answers, and for a name and a value that it takes, an expose that was planned
  -- from a resolved session is applied without an error, leaves one record of ours with the wanted
  -- value at the name, and is planned as an empty change from then on.
  pub expose-Converges :
      (op : Op) (want : Record) (s : Session W) (change : DnsChange)
      → op.verb ≡ expose
      → s.zone_id ≢ []
      → IdsDistinct (records_of d service s)
      → Qualifies want
      → validate_content want ≡ ok tt
      → (diff d op (want ∷ []) s).1 ≡ ok change
      → let applied : Session W × Result CfError (Unit {0}) =
          apply d change (diff d op (want ∷ []) s).0 in
        (applied.1 ≡ ok tt)
        × Settled want (partition d.cfg (records_of d service applied.0) want.name want.record_type)
        × ((again : DnsChange) × ((diff d op (want ∷ []) applied.0).1 ≡ ok again)
            × (dns_change_empty again ≡ true))
  unfolding dns_change_empty
  expose-Converges op want s change verb z ids name valid e =
      let (guarded, planned) = diff_planned op want s change z e in
      let was = diff-Yields op want s change z guarded planned in
      let t : Session W = (diff d op (want ∷ []) s).0 in
      let (added, removed) =
        change_for_expose d.cfg (records_of d service s) want change (rw verb at planned) in
      let (ts, made, settled) =
        apply-Yields want change t was.resolved (rw was.leaves ids) name valid removed
          (rw was.leaves added) in
      let settled_now =
        subst (λ (xs : List CfRecord). Settled want (partition d.cfg xs want.name want.record_type))
          (sym made.leaves) settled in
      let u : Session W = (apply d change t).0 in
      let again =
        diff-Yields op want u (rendered_change d.cfg (want ∷ []) [] []) made.resolved guarded (
          subst
            (λ (v : Verb).
              change_for d.cfg (records_of d service u) v (want ∷ [])
              ≡ ok (rendered_change d.cfg (want ∷ []) [] []))
            (sym verb) (change_for-Settled d.cfg (records_of d service u) want settled_now)) in
      (made.returns, settled_now, (rendered_change d.cfg (want ∷ []) [] [], again.returns, refl))
