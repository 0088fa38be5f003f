-- ===== src/Tests/Rewrites.antt =====
-- A resolver that answers every request, and the driver's theorems on it.
use crenel.Prelude.{
  ℕ, true, false, ◌≡◌, refl, inl, List, [], ◌∷◌, ◌++◌, none, some, Text, codes, Result, ok, ◌≢◌,
  text_beq_iff, equal_fold, err, has_suffix, trim_suffix, to_lower,
}
use crenel.Model.{Op, plain_op, expose, unexpose, internal, DnsChange, dns_change_empty}
use crenel.Dns.AdGuard.Rewrites.{
  Rewrite, AgError, Config, zone_records, guard, under_zone, norm_name, live_by_name, record_for,
  conflicting_rewrite, driver_name,
}
use crenel.Dns.AdGuard.Driver.{
  list_rewrites, add_rewrite, delete_rewrite, Body, Doer, Driver, http_err, apply, diff,
}
use crenel.Dns.AdGuard.Conflict.{diff-reads_last}
use crenel.Dns.AdGuard.Resolver.{Resolver, Answers, without}
use crenel.Dns.AdGuard.Confined.{others, apply-Confined}
use crenel.Dns.AdGuard.Restore.{perform, expose-unexpose}

abbrev good : Result Text (ℕ × Body)
good = ok (200, record { text = codes "OK"; rewrites = none })

abbrev rewrites_doer : Doer (List Rewrite)
rewrites_doer list_rewrites w = (w, ok (200, record { text = codes "[]"; rewrites = some w }))
rewrites_doer (add_rewrite r) w = (w ++ (r ∷ []), good)
rewrites_doer (delete_rewrite r) w = (without r w, good)

rewrites_resolver : Resolver rewrites_doer
rewrites_resolver = record {
  rewrites = λ w. w;
  lists = λ w. refl;
  adds = λ r w. inl refl;
  deletes = λ r w. inl refl;
}

rewrites-Answers : Answers rewrites_resolver
unfolding rewrites_resolver http_err
rewrites-Answers = record { listed = λ cfg w. refl; added = λ r w. refl; deleted = λ r w. refl }

abbrev home : Config
home = record {
  zone = codes "h.io";
  scope = internal;
  edge_addr = codes "10.0.0.1";
  targets = [];
  instance_name = codes "home";
  zone_in_name = false;
}

abbrev ag_driver : Driver (List Rewrite)
ag_driver = record { cfg = home; doer = rewrites_doer }

abbrev at_home : List Rewrite
at_home = record { domain = codes "shop.com"; answer = codes "10.0.0.9" } ∷ []

abbrev named : Text → DnsChange
named name = record {
  scope = internal;
  add = record_for home name (codes "10.0.0.1") ∷ [];
  remove = [];
  managed = [];
  rendered = [];
}

apply-Confined_example :
    others home (apply ag_driver (named (codes "app.h.io")) at_home).0 ≡ others home at_home
unfolding rewrites_resolver
apply-Confined_example =
    apply-Confined ag_driver rewrites_resolver (named (codes "app.h.io")) at_home

expose-unexpose_example :
    let up : Op = plain_op expose (codes "app") (codes "app.h.io") in
    let down : Op = plain_op unexpose (codes "app") (codes "app.h.io") in
    let want = record_for home (codes "app.h.io") (codes "10.0.0.1") in
    let exposed : List Rewrite × Result AgError (Unit {0}) = perform ag_driver up want at_home in
    (exposed.1 ≡ ok tt)
    × (exposed.0
        ≡ at_home ++ (record { domain = codes "app.h.io"; answer = codes "10.0.0.1" } ∷ []))
    × ((perform ag_driver down want exposed.0).1 ≡ ok tt)
    × ((perform ag_driver down want exposed.0).0 ≡ at_home)
unfolding rewrites_resolver guard under_zone norm_name to_lower trim_suffix has_suffix live_by_name
    zone_records
expose-unexpose_example =
    expose-unexpose ag_driver rewrites_resolver rewrites-Answers
      (plain_op expose (codes "app") (codes "app.h.io"))
      (plain_op unexpose (codes "app") (codes "app.h.io")) (codes "app.h.io") (codes "10.0.0.1")
      at_home refl refl refl refl

abbrev two_answers : List Rewrite
two_answers =
    record { domain = codes "app.h.io"; answer = codes "10.0.0.9" }
    ∷ record { domain = codes "App.h.io."; answer = codes "10.0.0.1" }
    ∷ record { domain = codes "git.h.io"; answer = codes "10.0.0.9" }
    ∷ []

git_differs : norm_name (codes "git.h.io") ≢ norm_name (codes "app.h.io")
unfolding norm_name to_lower trim_suffix has_suffix
git_differs = λ h. let t = (text_beq_iff (codes "git.h.io") (codes "app.h.io")).1 h in cc t

diff-reads_last_example :
    let op : Op = plain_op expose (codes "app") (codes "app.h.io") in
    let want = record_for home (codes "app.h.io") (codes "10.0.0.1") in
    (equal_fold (codes "10.0.0.1") (codes "10.0.0.1") ≡ true
      → (change : DnsChange) × ((diff ag_driver op (want ∷ []) two_answers).1 ≡ ok change)
        × (dns_change_empty change ≡ true))
    × (equal_fold (codes "10.0.0.1") (codes "10.0.0.1") ≡ false
        → (diff ag_driver op (want ∷ []) two_answers).1
          ≡ err (
              conflicting_rewrite
                (driver_name home)
                (codes "app.h.io")
                (codes "10.0.0.1")
                (codes "10.0.0.1")))
unfolding rewrites_resolver guard under_zone norm_name to_lower trim_suffix has_suffix
diff-reads_last_example =
    diff-reads_last ag_driver rewrites_resolver rewrites-Answers
      (plain_op expose (codes "app") (codes "app.h.io")) (codes "app.h.io") (codes "10.0.0.1")
      (record { domain = codes "app.h.io"; answer = codes "10.0.0.9" } ∷ [])
      (record { domain = codes "App.h.io."; answer = codes "10.0.0.1" })
      (record { domain = codes "git.h.io"; answer = codes "10.0.0.9" } ∷ []) two_answers refl refl
      refl (git_differs, tt) refl
