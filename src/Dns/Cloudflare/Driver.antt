-- ===== src/Dns/Cloudflare/Driver.antt =====
-- internal/drivers/dns/cloudflare/cloudflare.go: the operations of the driver, and the provider that
-- core is wired to.
use crenel.Prelude.{
  true, suc, ◌&&◌, List, [], ◌∷◌, map, keep_if, length, Text, Result, ok, err, Option, some, none,
}
use crenel.Model.{Record, DnsChange, Op}
use crenel.Reports.{Error, provider_error}
use crenel.Ports.{DnsProvider}
use crenel.Effects.{Call, done, fail, lift, each, ◌>>=◌, ◌>>◌}
use crenel.Dns.Cloudflare.Records.{
  CfRecord, CfError, owned, under_zone, to_model, partition, desired_records, driver_name,
  foreign_conflict, many_owned,
}
use crenel.Dns.Cloudflare.Api.{
  Driver, Session, list_zone, create_record, update_record, delete_record,
}
use crenel.Dns.Cloudflare.Surgery.{guard_all, change_for}

module _ {W : Type 0} where
  unfoldable pub live_records : Driver W → Call (Session W) CfError (List Record)
  live_records d = list_zone d >>= λ all. done (
      map (λ r. to_model r d.cfg.scope)
        (keep_if (λ r. owned r && under_zone r.name d.cfg.zone_name) all))

  unfoldable pub coverage_records : Driver W → Call (Session W) CfError (List Record)
  coverage_records d = list_zone d >>= λ all.
      done
        (map (λ r. to_model r d.cfg.scope) (keep_if (λ r. under_zone r.name d.cfg.zone_name) all))

  unfoldable pub diff : Driver W → Op → List Record → Call (Session W) CfError DnsChange
  diff d op desired =
      lift (guard_all d.cfg desired)
      >> (list_zone d >>= λ all. lift (change_for d.cfg all op.verb desired))

  -- the case of `Apply` for one record to add
  abbrev pub add_record :
      Driver W → Record → List CfRecord × List CfRecord → Call (Session W) CfError (Unit {0})
  add_record d add ([], []) = create_record d add
  add_record d add ([], f ∷ foreign) =
      fail (foreign_conflict add (map (λ r. r.content) (f ∷ foreign)))
  add_record d add (o ∷ [], foreign) = update_record d o add
  add_record d add (o ∷ p ∷ ours, foreign) = fail (many_owned add (suc (suc (length ours))))

  -- the case for one to remove
  abbrev pub remove_owned :
      Driver W → List CfRecord × List CfRecord → Call (Session W) CfError (Unit {0})
  remove_owned d (ours, foreign) = each (delete_record d) ours

  unfoldable pub apply : Driver W → DnsChange → Call (Session W) CfError (Unit {0})
  apply d change = list_zone d >>= λ all.
      each (λ rem. remove_owned d (partition d.cfg all rem.name rem.record_type)) change.remove
      >> each (λ add. add_record d add (partition d.cfg all add.name add.record_type)) change.add

-- The errors that core sees are the texts of the driver's.
abbrev pub described : {A : Type 0} → (CfError → Text) → Result CfError A → Result Error A
described text (ok a) = ok a
described text (err e) = err (provider_error (text e))

module _ {W : Type 0} where
  abbrev pub reported :
      (CfError → Text) → Session W × Result CfError (Unit {0}) → Session W × Option Error
  reported text (s, ok u) = (s, none)
  reported text (s, err e) = (s, some (provider_error (text e)))

  -- The driver as the `DNSProvider` of core. The port takes a read to observe the session only, so
  -- the zone id that a read resolves is cached by the next `apply`.
  unfoldable pub provider : (CfError → Text) → Driver W → DnsProvider (Session W)
  provider text d = record {
    name = driver_name d.cfg;
    scope = d.cfg.scope;
    desired_records = λ op. described text (desired_records d.cfg op);
    diff = λ op desired s. described text (diff d op desired s).1;
    apply = λ change s. reported text (apply d change s);
    live_records = λ s. described text (live_records d s).1;
    managed_zone = some d.cfg.zone_name;
    residency_target = none;
    owns_all_live_records = some true;
    coverage_records = some (λ s. described text (coverage_records d s).1);
  }
