-- ===== src/Dns/Cloudflare/Foreign.antt =====
-- internal/drivers/dns/cloudflare/cloudflare.go: what `Apply` does to the records of others.
use crenel.Prelude.{
  true, not, ◌≡◌, refl, sym, ap, ◌∙◌, subst, inl, inr, List, [], ◌∷◌, Text, In, here, arith,
  text_eq, Result, ok, if_rule, Result-cases,
}
use crenel.Model.{Record, DnsChange}
use crenel.Effects.{
  Call, Moves, IsPreorder, bind-Moves, each-Moves, each, done, lift, next, ◌>>=◌, ◌>>◌,
}
use crenel.Dns.Cloudflare.Records.{
  CfRecord, CfError, owned, new_record, changed_record, validate_content, partition,
}
use crenel.Dns.Cloudflare.Marker.{new_record-owned, changed_record-owned}
use crenel.Dns.Cloudflare.Api.{
  Driver, Session, Request, post_record, put_record, remove_record, api, resolve_zone_id, list_zone,
  create_record, update_record, delete_record, send,
}
use crenel.Dns.Cloudflare.Partition.{partition_ours}
use crenel.Dns.Cloudflare.Listing.{
  records_of, Same, resolve_zone_id-Same, list_zone-Same, list_zone-Shown,
}
use crenel.Dns.Cloudflare.Service.{Service, with_id, after}
use crenel.Dns.Cloudflare.Driver.{apply, add_record, remove_owned}
use crenel.Dns.Cloudflare.Surgical.{
  IdsDistinct, Surgical, Surgical-same, Surgical-trans, OursAt, append-Surgical, dropped-Surgical,
  replaced-Surgical, Written-Surgical, with_id-owned,
}

module _ {W : Type 0} (d : Driver W) (service : Service d.doer) (targets : List CfRecord) where
  abbrev here_are : Session W → List CfRecord
  here_are = records_of d service

  -- A record that has the id of one of our targets is ours.
  abbrev Guarded : Session W → Type 0
  Guarded s = (o : CfRecord) → In o targets → owned o ≡ true → OursAt o.id (here_are s)

  abbrev Safe : Session W → Session W → Type 0
  Safe s t = Guarded s → Surgical (here_are s) (here_are t)

  still_Guarded : (s t : Session W) → Guarded s → Surgical (here_are s) (here_are t) → Guarded t
  still_Guarded s t h k o m ours x n e = elim (k.old_or_owned x n) [
    | inl old ↦ h o m ours x old e
    | inr marked ↦ marked
  ]

  Safe-IsPreorder : IsPreorder Safe
  Safe-IsPreorder = record {
    reflexive = λ s h. Surgical-same (here_are s);
    transitive = λ s t u f g h. Surgical-trans (f h) (g (still_Guarded s t h (f h)));
  }

  Same-Safe : (s t : Session W) → Same d service s t → Safe s t
  Same-Safe s t e h = subst (Surgical (here_are s)) (sym e) (Surgical-same (here_are s))

  checked-Safe :
      (q : Text → Request) (r : Record)
      → ((zone : Text) → Moves Safe (send d (q zone)))
      → Moves Safe (resolve_zone_id d >>= λ zone. lift (validate_content r) >> send d (q zone))
  checked-Safe q r h =
      bind-Moves Safe Safe-IsPreorder (resolve_zone_id d)
        (λ zone. lift (validate_content r) >> send d (q zone))
        (λ s. Same-Safe s (resolve_zone_id d s).0 (resolve_zone_id-Same d service s))
        (λ zone.
          bind-Moves Safe Safe-IsPreorder (lift (validate_content r)) (λ _. send d (q zone))
            (λ s k. Surgical-same (here_are s)) (λ _. h zone))

  -- A request whose effect is surgical is safe to send.
  send-Safe :
      (q : Request)
      → ((s : Session W)
          → Guarded s
          → Surgical (here_are s) (service.records (after d.doer q s.world)))
      → Moves Safe (send d q)
  unfolding api
  send-Safe q h =
      bind-Moves Safe Safe-IsPreorder (api d q) (λ _. done tt) h
        (λ _ s k. Surgical-same (here_are s))

  create_record-Safe : (r : Record) → Moves Safe (create_record d r)
  unfolding create_record
  create_record-Safe r =
      let new = new_record d.cfg r in
      checked-Safe (λ zone. post_record zone new) r
        (λ zone. send-Safe (post_record zone new) (λ s h.
          Written-Surgical _ _ _ _ (service.posts zone new s.world) (
            append-Surgical (here_are s) (with_id (service.new_id zone new s.world) new)
              (with_id-owned (service.new_id zone new s.world) new (new_record-owned d.cfg r)))))

  update_record-Safe : (o : CfRecord) (r : Record) → In o targets → Moves Safe (update_record d o r)
  unfolding update_record
  update_record-Safe o r m s =
      let new = changed_record d.cfg o r in
      if_rule (λ (c : Call (Session W) CfError (Unit {0})). Safe s (c s).0) (not (owned o))
        (λ _ h. Surgical-same (here_are s))
        (λ e.
          let ours : owned o ≡ true = ground arith in
          checked-Safe (λ zone. put_record zone o.id new) r
            (λ zone. send-Safe (put_record zone o.id new) (λ t h.
              Written-Surgical _ _ _ _ (service.puts zone o.id new t.world) (
                replaced-Surgical o.id new (here_are t)
                  (with_id-owned o.id new (changed_record-owned d.cfg o r ours)) (h o m ours))))
            s)

  delete_record-Safe : (o : CfRecord) → In o targets → Moves Safe (delete_record d o)
  unfolding delete_record
  delete_record-Safe o m s =
      if_rule (λ (c : Call (Session W) CfError (Unit {0})). Safe s (c s).0) (not (owned o))
        (λ _ h. Surgical-same (here_are s))
        (λ e.
          let ours : owned o ≡ true = ground arith in
          bind-Moves Safe Safe-IsPreorder (resolve_zone_id d)
            (λ zone. send d (remove_record zone o.id))
            (λ t. Same-Safe t (resolve_zone_id d t).0 (resolve_zone_id-Same d service t))
            (λ zone. send-Safe (remove_record zone o.id) (λ t h.
              Written-Surgical _ _ _ _ (service.removes zone o.id t.world)
                (dropped-Surgical o.id (here_are t) (h o m ours))))
            s)

  add_record-Safe :
      (r : Record) (at : List CfRecord × List CfRecord)
      → ((o : CfRecord) → In o at.0 → In o targets)
      → Moves Safe (add_record d r at)
  add_record-Safe r ([], []) h = create_record-Safe r
  add_record-Safe r ([], f ∷ fs) h = λ s k. Surgical-same (here_are s)
  add_record-Safe r (o ∷ [], fs) h = update_record-Safe o r (h o here)
  add_record-Safe r (o ∷ p ∷ ours, fs) h = λ s k. Surgical-same (here_are s)

  apply_listed-Safe :
      (change : DnsChange)
      → Moves Safe (
          each
            (λ rem. remove_owned d (partition d.cfg targets rem.name rem.record_type))
            change.remove
          >> each
              (λ add. add_record d add (partition d.cfg targets add.name add.record_type))
              change.add)
  apply_listed-Safe change =
      bind-Moves Safe Safe-IsPreorder
        (each (λ rem. remove_owned d (partition d.cfg targets rem.name rem.record_type))
          change.remove)
        (λ _.
          each (λ add. add_record d add (partition d.cfg targets add.name add.record_type))
            change.add)
        (each-Moves Safe Safe-IsPreorder
          (λ (rem : Record). remove_owned d (partition d.cfg targets rem.name rem.record_type))
          change.remove
          (λ rem _.
            each-Moves Safe Safe-IsPreorder (delete_record d)
              (partition d.cfg targets rem.name rem.record_type).0
              (λ o m.
                delete_record-Safe o
                  ((partition_ours d.cfg rem.name rem.record_type targets o m).0))))
        (λ _.
          each-Moves Safe Safe-IsPreorder
            (λ (add : Record). add_record d add (partition d.cfg targets add.name add.record_type))
            change.add
            (λ add _.
              add_record-Safe add (partition d.cfg targets add.name add.record_type)
                (λ o m. (partition_ours d.cfg add.name add.record_type targets o m).0)))

module _ {W : Type 0} (d : Driver W) (service : Service d.doer) where
  -- what `apply` does behind the listing
  abbrev behind :
      DnsChange → Session W × Result CfError (List CfRecord) → Session W × Result CfError (Unit {0})
  behind change = next (λ all.
      each (λ rem. remove_owned d (partition d.cfg all rem.name rem.record_type)) change.remove
      >> each (λ add. add_record d add (partition d.cfg all add.name add.record_type)) change.add)

  listed_Guarded :
      (s t : Session W) (all : List CfRecord)
      → list_zone d s ≡ (t, ok all)
      → IdsDistinct (records_of d service s)
      → records_of d service t ≡ records_of d service s
      → Guarded d service all t
  listed_Guarded s t all e ids same o m ours x n eq =
      let old = subst (In x) same n in
      let shown = list_zone-Shown d service s t all e o m in
      subst (λ (y : CfRecord). owned y ≡ true) (sym (ids x o old shown eq)) ours

  listed-Surgical :
      (change : DnsChange) (s t : Session W) (r : Result CfError (List CfRecord))
      → list_zone d s ≡ (t, r)
      → IdsDistinct (records_of d service s)
      → Surgical (records_of d service s) (records_of d service (behind change (t, r)).0)
  listed-Surgical change s t r e ids =
      let same : records_of d service t ≡ records_of d service s =
        sym (ap (λ (o : Session W × Result CfError (List CfRecord)). records_of d service o.0) e)
        ∙ list_zone-Same d service s in
      elim (Result-cases r) [
        | inl (all, found) ↦
            let listed : list_zone d s ≡ (t, ok all) = rw found at e in
            rw found (
              subst
                (λ (y : List CfRecord).
                  Surgical y (records_of d service (behind change (t, ok all)).0))
                same
                (apply_listed-Safe d service all change t (listed_Guarded s t all listed ids same)))
        | inr (x, failed) ↦ rw failed (
            subst (λ (y : List CfRecord). Surgical y (records_of d service t)) same
              (Surgical-same (records_of d service t)))
      ]

  -- Whatever a change is and however it ends, applying it at a service where ids are distinct leaves
  -- every record of others as it was, and every record that was not there before carries the marker.
  pub apply-Surgical :
      (change : DnsChange) (s : Session W)
      → IdsDistinct (records_of d service s)
      → Surgical (records_of d service s) (records_of d service (apply d change s).0)
  unfolding apply
  apply-Surgical change s ids =
      listed-Surgical change s (list_zone d s).0 (list_zone d s).1 refl ids
