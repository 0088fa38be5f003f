-- ===== src/Dns/AdGuard/Driver.antt =====
-- internal/drivers/dns/adguard/adguard.go: the operations of the driver over the `Doer` of the control
-- API, which is a parameter. A body is its text and what `json.Unmarshal` makes of it.
use crenel.Prelude.{
  ℕ, ◌&&◌, ◌||◌, List, [], Text, codes, leb, ◌==◌, nat_eq, text_eq, if◌then◌else◌, Result, ok, err,
  Option, some, none,
}
use crenel.Model.{Record, DnsChange, Op}
use crenel.Reports.{Error, provider_error}
use crenel.Ports.{DnsProvider}
use crenel.Effects.{Call, lift, each, ◌>>=◌, ◌>>◌}
use crenel.Dns.Texts.{clip}
use crenel.Dns.AdGuard.Rewrites.{
  Rewrite, Config, AgError, unreachable, undecoded_list, authentication_failed, rate_limited,
  http_error, guard, guard_all, change_for, zone_records, driver_name, desired_records,
  residency_target,
}

pub data Request : Type 0 where
  -- `GET /control/rewrite/list`
  list_rewrites : Request
  -- `POST /control/rewrite/add` and `/control/rewrite/delete`
  add_rewrite delete_rewrite : Rewrite → Request

-- `rewrites` is `none` where the text is no list of rewrites.
pub record Body : Type 0 where
  pub text : Text
  pub rewrites : Option (List Rewrite)

abbrev pub Doer : Type 0 → Type 0
Doer W = Request → W → W × Result Text (ℕ × Body)

pub record Driver (W : Type 0) : Type 0 where
  pub cfg : Config
  pub doer : Doer W

unfoldable pub http_err : Text → ℕ → Text → Result AgError (Unit {0})
http_err op status body =
    if leb 200 status && leb status 299
    then ok tt
    else if status == 401 || status == 403
    then err (authentication_failed op status (clip body))
    else if status == 429
    then err (rate_limited op status (clip body))
    else err (http_error op status (clip body))

abbrev pub read_list : Config → Result Text (ℕ × Body) → Result AgError (List Record)
read_list cfg (err e) = err (unreachable (codes "rewrite/list") e)
read_list cfg (ok (status, body)) = elim (http_err (codes "rewrite/list") status body.text) [
  | err e ↦ err e
  | ok u ↦ if body.text == [] then ok [] else elim body.rewrites [
    | none ↦ err undecoded_list
    | some rewrites ↦ ok (zone_records cfg rewrites)
  ]
]

abbrev pub read_post : Text → Result Text (ℕ × Body) → Result AgError (Unit {0})
read_post path (err e) = err (unreachable path e)
read_post path (ok (status, body)) = http_err path status body.text

abbrev pub rewrite_of : Record → Rewrite
rewrite_of r = record { domain = r.name; answer = r.value }

abbrev pub post_path : Request → Text
post_path list_rewrites = codes "/control/rewrite/list"
post_path (add_rewrite r) = codes "/control/rewrite/add"
post_path (delete_rewrite r) = codes "/control/rewrite/delete"

module _ {W : Type 0} where
  unfoldable pub live_records : Driver W → Call W AgError (List Record)
  live_records d w = let (w', reply) = d.doer list_rewrites w in (w', read_list d.cfg reply)

  unfoldable pub diff : Driver W → Op → List Record → Call W AgError DnsChange
  diff d op desired =
      lift (guard_all d.cfg desired)
      >> (live_records d >>= λ live. lift (change_for d.cfg live op.verb desired))

  unfoldable pub post : Driver W → Request → Call W AgError (Unit {0})
  post d q w = let (w', reply) = d.doer q w in (w', read_post (post_path q) reply)

  unfoldable pub apply : Driver W → DnsChange → Call W AgError (Unit {0})
  apply d change =
      each (λ r. lift (guard d.cfg r.name) >> post d (delete_rewrite (rewrite_of r))) change.remove
      >> each (λ r. lift (guard d.cfg r.name) >> post d (add_rewrite (rewrite_of r))) change.add

-- The errors that core sees are the texts of the driver's.
abbrev pub described : {A : Type 0} → (AgError → Text) → Result AgError A → Result Error A
described text (ok a) = ok a
described text (err e) = err (provider_error (text e))

module _ {W : Type 0} where
  abbrev pub reported : (AgError → Text) → W × Result AgError (Unit {0}) → W × Option Error
  reported text (w, ok u) = (w, none)
  reported text (w, err e) = (w, some (provider_error (text e)))

  -- The driver as the `DNSProvider` of core, with its `ZoneReporter` and `ResidencyTargeter`
  unfoldable pub provider : (AgError → Text) → Driver W → DnsProvider W
  provider text d = record {
    name = driver_name d.cfg;
    scope = d.cfg.scope;
    desired_records = λ op. described text (desired_records d.cfg op);
    diff = λ op desired w. described text (diff d op desired w).1;
    apply = λ change w. reported text (apply d change w);
    live_records = λ w. described text (live_records d w).1;
    managed_zone = some d.cfg.zone;
    residency_target = some (λ class. described text (residency_target d.cfg class));
    owns_all_live_records = none;
    coverage_records = none;
  }
