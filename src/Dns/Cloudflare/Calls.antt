-- ===== src/Dns/Cloudflare/Calls.antt =====
-- internal/drivers/dns/cloudflare/cloudflare.go: the calls of an expose at a service that
-- answers.
use crenel.Prelude.{
  ◌≤◌, true, false, ◌≡◌, ◌≢◌, refl, sym, ◌∙◌, subst, inl, inr, List, [], ◌∷◌, ◌++◌, Text, here,
  length, arith, text_eq, Result, ok, err, equal_fold_refl,
}
use crenel.Model.{Record}
use crenel.Effects.{Call, next, next-ok, done, lift, each, ◌>>=◌, ◌>>◌}
use crenel.Dns.Cloudflare.Records.{
  CfRecord, CfError, owned, fqdn, partition, new_record, changed_record, validate_content,
}
use crenel.Dns.Cloudflare.Marker.{new_record-owned, changed_record-owned}
use crenel.Dns.Cloudflare.Api.{
  Driver, Session, Request, Answer, post_record, put_record, api, send, resolve_zone_id, list_zone,
  create_record, update_record,
}
use crenel.Dns.Cloudflare.Service.{Service, Written, with_id, replaced, answer_of, after, is_answer}
use crenel.Dns.Cloudflare.Listing.{
  records_of, list_zone-Same, list_zone-Stable, resolve_zone_id-resolved,
}
use crenel.Dns.Cloudflare.Reliable.{Reliable, list_zone_complete}
use crenel.Dns.Cloudflare.Surgical.{IdsDistinct, with_id-owned}
use crenel.Dns.Cloudflare.Partition.{
  at_name-written, partition-append, partition-replaced, Known, partition_ours,
}
use crenel.Dns.Cloudflare.Driver.{add_record}
use crenel.Dns.Cloudflare.Placed.{
  Placed, fresh, right, moved, Settled, new_record_fits, changed_record_fits, replaced_one,
}

module _ {W : Type 0} (d : Driver W) (service : Service d.doer) where
  -- A call that returned a value, on a resolved session, and left these records
  pub record Yields {A : Type 0} (o : Session W × Result CfError A) (a : A) (rs : List CfRecord)
      : Type 0 where
    pub returns : o.1 ≡ ok a
    pub leaves : records_of d service o.0 ≡ rs
    pub resolved : o.0.zone_id ≢ []

  pub next-Yields :
      {A B : Type 0} (k : A → Call (Session W) CfError B) (o : Session W × Result CfError A) {a : A}
      {b : B} {rs ts : List CfRecord}
      → Yields o a rs
      → Yields (k a o.0) b ts
      → Yields (next k o) b ts
  next-Yields {A} {B} k o {a} {b} {rs} {ts} f g =
      subst (λ (out : Session W × Result CfError B). Yields out b ts) (sym (next-ok k o f.returns))
        g

  pub done_Yields :
      {A : Type 0} (a : A) (s : Session W)
      → s.zone_id ≢ []
      → Yields (s, ok a) a (records_of d service s)
  done_Yields a s z = record { returns = refl; leaves = refl; resolved = z }

  once-Yields :
      (o : Session W × Result CfError (Unit {0})) {ts : List CfRecord}
      → Yields o tt ts
      → Yields (next (λ _. done tt) o) tt ts
  once-Yields o y =
      next-Yields (λ _. done tt) o y
        (record { returns = refl; leaves = y.leaves; resolved = y.resolved })

module _ {W : Type 0} (d : Driver W) (service : Service d.doer) (reliable : Reliable service)
    (limit : (w : W) → length (reliable.pages w) ≤ d.page_limit)
    (some_page : 1 ≤ d.page_limit) where
  pub list_zone-Yields :
      (s : Session W)
      → s.zone_id ≢ []
      → Yields d service (list_zone d s) (records_of d service s) (records_of d service s)
  list_zone-Yields s z = record {
    returns = list_zone_complete d service reliable s z some_page (limit s.world);
    leaves = list_zone-Same d service s;
    resolved = subst (λ (t : Text). t ≢ []) (sym (list_zone-Stable d s z)) z;
  }

  answer_cases : (r : Result CfError Answer) → is_answer r ≡ true → (a : Answer) × (r ≡ ok a)
  answer_cases (ok a) h = (a, refl)
  answer_cases (err e) h = cc

  send-Yields :
      (q : Request) (s : Session W) (rs : List CfRecord)
      → s.zone_id ≢ []
      → is_answer (answer_of d.doer q s.world) ≡ true
      → Written
          (records_of d service s)
          (service.records (after d.doer q s.world))
          (answer_of d.doer q s.world)
          rs
      → Yields d service (send d q s) tt rs
  unfolding api
  send-Yields q s rs z answered w =
      let (a, e) = answer_cases (answer_of d.doer q s.world) answered in
      let written : service.records (after d.doer q s.world) ≡ rs = elim w [
        | inl made ↦ made
        | inr k ↦ let never : true ≡ false = sym answered ∙ k.1 in ground arith
      ] in
      next-Yields d service (λ _. done tt) (api d q s) {a = a}
        (record { returns = e; leaves = written; resolved = z })
        (record { returns = refl; leaves = written; resolved = z })

  checked-Yields :
      (q : Text → Request) (want : Record) (s : Session W) (rs : List CfRecord)
      → s.zone_id ≢ []
      → validate_content want ≡ ok tt
      → Yields d service (send d (q s.zone_id) s) tt rs
      → Yields d service
          ((resolve_zone_id d >>= λ zone. lift (validate_content want) >> send d (q zone)) s)
          tt
          rs
  checked-Yields q want s rs z valid sent = rw (resolve_zone_id-resolved d s z, valid) sent

  create_record-Yields :
      (want : Record) (s : Session W)
      → s.zone_id ≢ []
      → validate_content want ≡ ok tt
      → Yields d service (create_record d want s) tt (
          records_of d service s
          ++ (with_id
                (service.new_id s.zone_id (new_record d.cfg want) s.world)
                (new_record d.cfg want)
              ∷ []))
  unfolding create_record
  create_record-Yields want s z valid =
      let new = new_record d.cfg want in
      checked-Yields (λ zone. post_record zone new) want s _ z valid
        (send-Yields (post_record s.zone_id new) s _ z
          (reliable.post_answered s.zone_id new s.world) (service.posts s.zone_id new s.world))

  update_record-Yields :
      (o : CfRecord) (want : Record) (s : Session W)
      → s.zone_id ≢ []
      → validate_content want ≡ ok tt
      → owned o ≡ true
      → Yields d service
          (update_record d o want s)
          tt
          (replaced o.id (changed_record d.cfg o want) (records_of d service s))
  unfolding update_record
  update_record-Yields o want s z valid ours =
      let new = changed_record d.cfg o want in
      rw ours (
        checked-Yields (λ zone. put_record zone o.id new) want s _ z valid
          (send-Yields (put_record s.zone_id o.id new) s _ z
            (reliable.put_answered s.zone_id o.id new s.world)
            (service.puts s.zone_id o.id new s.world)))

  -- the step of `apply` for the records that the expose adds
  pub add_records-Yields :
      (want : Record) (adds : List Record) (s : Session W) (rs : List CfRecord)
      → s.zone_id ≢ []
      → records_of d service s ≡ rs
      → IdsDistinct rs
      → fqdn (fqdn want.name d.cfg.zone_name) d.cfg.zone_name ≡ fqdn want.name d.cfg.zone_name
      → validate_content want ≡ ok tt
      → (at : List CfRecord × List CfRecord) → partition d.cfg rs want.name want.record_type ≡ at
      → Placed want at adds
      → (ts : List CfRecord) × Yields d service
          (each (λ add. add_record d add (partition d.cfg rs add.name add.record_type)) adds s)
          tt
          ts
        × Settled want (partition d.cfg ts want.name want.record_type)
  add_records-Yields want adds s rs z same ids name valid at found fresh =
      let c =
        with_id (service.new_id s.zone_id (new_record d.cfg want) s.world)
          (new_record d.cfg want) in
      let (at_host, typed, valued) = new_record_fits d.cfg want in
      let marked = with_id-owned c.id (new_record d.cfg want) (new_record-owned d.cfg want) in
      let placed = at_name-written d.cfg want c name at_host typed in
      (
        rs ++ (c ∷ []),
        rw found (
            once-Yields d service (create_record d want s) (
              subst
                (λ (ts : List CfRecord).
                  Yields d service (create_record d want s) tt (ts ++ (c ∷ [])))
                same (create_record-Yields want s z valid))),
        (
          c,
          [],
          partition-append d.cfg want.name want.record_type rs c placed marked ∙ rw found refl,
          rw valued (equal_fold_refl want.value),
        ),
      )
  add_records-Yields want adds s rs z same ids name valid at found (right {o} {others} h) = (
    rs,
    subst (Yields d service (s, ok tt) tt) same (done_Yields d service tt s z),
    (o, others, found, h),
  )
  add_records-Yields want adds s rs z same ids name valid at found (moved {o} {others}) =
      let new = changed_record d.cfg o want in
      let (n, a, w) = partition_ours d.cfg want.name want.record_type rs o (rw found here) in
      let known : Known d.cfg want.name want.record_type o.id rs =
        λ x m e. let is_o = ids x o m n e in (rw is_o a, rw is_o w) in
      let c = with_id o.id new in
      let (at_host, typed, valued) = changed_record_fits d.cfg o want in
      let marked = with_id-owned o.id new (changed_record-owned d.cfg o want w) in
      let placed = at_name-written d.cfg want c name at_host typed in
      (
        replaced o.id new rs,
        rw found (
            once-Yields d service (update_record d o want s) (
              subst
                (λ (ts : List CfRecord).
                  Yields d service (update_record d o want s) tt (replaced o.id new ts))
                same (update_record-Yields o want s z valid w))),
        (
          c,
          others,
          partition-replaced d.cfg want.name want.record_type o.id rs new placed marked known
              ∙ rw found (replaced_one o new others),
          rw valued (equal_fold_refl want.value),
        ),
      )
