-- ===== src/Dns/Cloudflare/Moves.antt =====
-- internal/drivers/dns/cloudflare/cloudflare.go: what every request does, `Apply` does.
use crenel.Prelude.{
  not, List, [], ◌∷◌, Text, find, equal_fold, if_rule, ◌==◌, text_eq, Result, Option, some, none,
}
use crenel.Model.{Record, DnsChange}
use crenel.Effects.{Call, Moves, IsPreorder, bind-Moves, each-Moves, each, done, lift, ◌>>=◌, ◌>>◌}
use crenel.Dns.Cloudflare.Records.{
  CfRecord, CfError, owned, norm_name, new_record, changed_record, validate_content, partition,
}
use crenel.Dns.Cloudflare.Api.{
  Driver, Session, Zone, Request, zones_named, records_page, post_record, put_record, remove_record,
  api, send, pick_zone, chosen_zone, resolve_zone_id, list_zone, read_pages, create_record,
  update_record, delete_record,
}
use crenel.Dns.Cloudflare.Listing.{read_pages-Moves}
use crenel.Dns.Cloudflare.Driver.{apply, add_record, remove_owned}

module _ {W : Type 0} (d : Driver W) (R : Session W → Session W → Type 0) (p : IsPreorder R)
    (asks : (q : Request) → Moves R (api d q))
    (caches : (s : Session W) (id : Text) → R s (record { zone_id = id; world = s.world })) where
  chosen_zone-Moves : (z : Option Zone) → Moves R (chosen_zone d.cfg z)
  chosen_zone-Moves none s = p.reflexive s
  chosen_zone-Moves (some z) s = caches s z.id

  pick_zone-Moves : (zones : Option (List Zone)) → Moves R (pick_zone d.cfg zones)
  pick_zone-Moves none s = p.reflexive s
  pick_zone-Moves (some zones) s =
      chosen_zone-Moves
        (find (λ z. equal_fold (norm_name z.name) (norm_name d.cfg.zone_name)) zones) s

  resolve_zone_id-Moves : Moves R (resolve_zone_id d)
  unfolding resolve_zone_id
  resolve_zone_id-Moves s =
      if_rule (λ (o : Session W × Result CfError Text). R s o.0) (not (s.zone_id == []))
        (λ _. p.reflexive s)
        (λ _.
          if_rule (λ (o : Session W × Result CfError Text). R s o.0) (d.cfg.zone_name == [])
            (λ _. p.reflexive s)
            (λ _.
              bind-Moves R p (api d (zones_named (norm_name d.cfg.zone_name)))
                (λ a. pick_zone d.cfg a.payload.as_zones)
                (asks (zones_named (norm_name d.cfg.zone_name)))
                (λ a. pick_zone-Moves a.payload.as_zones) s))

  list_zone-Moves : Moves R (list_zone d)
  unfolding list_zone
  list_zone-Moves =
      bind-Moves R p (resolve_zone_id d) (λ zone. read_pages d d.page_limit zone 1 [])
        resolve_zone_id-Moves
        (λ zone.
          read_pages-Moves d R p (λ z page. asks (records_page z page)) d.page_limit zone 1 [])

  send-Moves : (q : Request) → Moves R (send d q)
  send-Moves q = bind-Moves R p (api d q) (λ _. done tt) (asks q) (λ _ s. p.reflexive s)

  checked-Moves :
      (q : Text → Request) (r : Record)
      → Moves R (resolve_zone_id d >>= λ zone. lift (validate_content r) >> send d (q zone))
  checked-Moves q r =
      bind-Moves R p (resolve_zone_id d) (λ zone. lift (validate_content r) >> send d (q zone))
        resolve_zone_id-Moves
        (λ zone.
          bind-Moves R p (lift (validate_content r)) (λ _. send d (q zone)) p.reflexive
            (λ _. send-Moves (q zone)))

  update_record-Moves : (o : CfRecord) (r : Record) → Moves R (update_record d o r)
  unfolding update_record
  update_record-Moves o r s =
      if_rule (λ (c : Call (Session W) CfError (Unit {0})). R s (c s).0) (not (owned o))
        (λ _. p.reflexive s)
        (λ _. checked-Moves (λ zone. put_record zone o.id (changed_record d.cfg o r)) r s)

  delete_record-Moves : (o : CfRecord) → Moves R (delete_record d o)
  unfolding delete_record
  delete_record-Moves o s =
      if_rule (λ (c : Call (Session W) CfError (Unit {0})). R s (c s).0) (not (owned o))
        (λ _. p.reflexive s)
        (λ _.
          bind-Moves R p (resolve_zone_id d) (λ zone. send d (remove_record zone o.id))
            resolve_zone_id-Moves (λ zone. send-Moves (remove_record zone o.id)) s)

  add_record-Moves : (r : Record) (at : List CfRecord × List CfRecord) → Moves R (add_record d r at)
  unfolding create_record
  add_record-Moves r ([], []) = checked-Moves (λ zone. post_record zone (new_record d.cfg r)) r
  add_record-Moves r ([], f ∷ fs) = p.reflexive
  add_record-Moves r (o ∷ [], fs) = update_record-Moves o r
  add_record-Moves r (o ∷ x ∷ ours, fs) = p.reflexive

  pub apply-Moves : (change : DnsChange) → Moves R (apply d change)
  unfolding apply
  apply-Moves change =
      bind-Moves R p (list_zone d)
        (λ all.
          each (λ rem. remove_owned d (partition d.cfg all rem.name rem.record_type)) change.remove
          >> each (λ add. add_record d add (partition d.cfg all add.name add.record_type))
              change.add)
        list_zone-Moves
        (λ all.
          bind-Moves R p
            (each (λ rem. remove_owned d (partition d.cfg all rem.name rem.record_type))
              change.remove)
            (λ _.
              each (λ add. add_record d add (partition d.cfg all add.name add.record_type))
                change.add)
            (each-Moves R p
              (λ (rem : Record). remove_owned d (partition d.cfg all rem.name rem.record_type))
              change.remove
              (λ rem _.
                each-Moves R p (delete_record d) (partition d.cfg all rem.name rem.record_type).0
                  (λ o _. delete_record-Moves o)))
            (λ _.
              each-Moves R p
                (λ (add : Record). add_record d add (partition d.cfg all add.name add.record_type))
                change.add
                (λ add _. add_record-Moves add (partition d.cfg all add.name add.record_type))))
