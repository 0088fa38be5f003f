-- ===== src/Dns/AdGuard/Conflict.antt =====
-- internal/drivers/dns/adguard/adguard.go: which rewrite of a name an expose looks at.
use crenel.Prelude.{
  ◌≡◌, ◌≢◌, refl, sym, ap, ◌∙◌, true, false, inl, inr, List, [], ◌∷◌, ◌++◌, All, Text, Bool-cases,
  text_eq, text_beq, text_beq_iff, nat_eq, Result, ok, err, some, none, equal_fold,
}
use crenel.Model.{Record, DnsChange, dns_change_empty, Op, expose}
use crenel.Effects.{lift, next-ok}
use crenel.Dns.AdGuard.Rewrites.{
  Rewrite, AgError, conflicting_rewrite, Config, driver_name, norm_name, under_zone, guard,
  guard_all, live_by_name, zone_records, record_for, change_for, additions, rendered_change,
}
use crenel.Dns.AdGuard.Driver.{Driver, live_records, diff}
use crenel.Dns.AdGuard.Resolver.{Resolver, Answers}
use crenel.Dns.AdGuard.Restore.{guard-under_zone}

-- Whether a name is in the zone depends on its normal form alone.
under_zone-norm :
    (a b zone : Text) → norm_name a ≡ norm_name b → under_zone a zone ≡ under_zone b zone
unfolding under_zone
under_zone-norm a b zone same = rw same refl

-- A name that no rewrite has is not among the live records.
absent_after :
    (cfg : Config) (name : Text) (rs : List Rewrite)
    → All (λ (x : Rewrite). norm_name x.domain ≢ norm_name name) rs
    → live_by_name (zone_records cfg rs) name ≡ none
unfolding live_by_name zone_records
absent_after cfg name [] h = refl
absent_after cfg name (x ∷ rs) h = elim (Bool-cases (under_zone x.domain cfg.zone)) [
  | inr e ↦ rw e (absent_after cfg name rs h.1)
  | inl e ↦ elim (Bool-cases (text_beq (norm_name x.domain) (norm_name name))) [
    | inl same ↦ absurd (h.0 ((text_beq_iff _ _).0 same))
    | inr other ↦ rw (e, live_by_name, absent_after cfg name rs h.1, other) refl
  ]
]

-- The live record of a name is that of its last rewrite.
last_found :
    (cfg : Config) (name : Text) (before : List Rewrite) (r : Rewrite) (after : List Rewrite)
    → under_zone name cfg.zone ≡ true
    → norm_name r.domain ≡ norm_name name
    → All (λ (x : Rewrite). norm_name x.domain ≢ norm_name name) after
    → live_by_name (zone_records cfg (before ++ (r ∷ after))) name
      ≡ some (record_for cfg r.domain r.answer)
unfolding live_by_name zone_records
last_found cfg name [] r after inside same h =
    let zoned = under_zone-norm r.domain name cfg.zone same ∙ inside in
    rw
      (
        zoned,
        live_by_name,
        absent_after cfg name after h,
        (text_beq_iff (norm_name r.domain) (norm_name name)).1 same,
      )
      refl
last_found cfg name (x ∷ before) r after inside same h =
    let found = last_found cfg name before r after inside same h in
    elim (Bool-cases (under_zone x.domain cfg.zone)) [
      | inl e ↦ rw (e, live_by_name, found) refl
      | inr e ↦ rw e found
    ]

change_for_right :
    (cfg : Config) (live : List Record) (want cur : Record)
    → live_by_name live want.name ≡ some cur
    → equal_fold cur.value want.value ≡ true
    → change_for cfg live expose (want ∷ []) ≡ ok (rendered_change cfg [] [])
unfolding change_for additions
change_for_right cfg live want cur h right = rw (h, right) refl

change_for_wrong :
    (cfg : Config) (live : List Record) (want cur : Record)
    → live_by_name live want.name ≡ some cur
    → equal_fold cur.value want.value ≡ false
    → change_for cfg live expose (want ∷ [])
      ≡ err (conflicting_rewrite (driver_name cfg) want.name cur.value want.value)
unfolding change_for additions
change_for_wrong cfg live want cur h wrong = rw (h, wrong) refl

module _ {W : Type 0} (d : Driver W) (resolver : Resolver d.doer) (answers : Answers resolver) where
  -- what a diff returns at a resolver that answers
  diff-change_for :
      (op : Op) (want : Record) (w : W)
      → op.verb ≡ expose
      → guard d.cfg want.name ≡ ok tt
      → (diff d op (want ∷ []) w).1
        ≡ change_for d.cfg (zone_records d.cfg (resolver.rewrites w)) expose (want ∷ [])
  unfolding diff guard_all live_records
  diff-change_for op want w verb guarded =
      rw (guarded, sym verb)
        (ap (λ (o : W × Result AgError DnsChange). o.1)
          (next-ok (λ rs. lift (change_for d.cfg rs op.verb (want ∷ []))) (live_records d w)
            (answers.listed d.cfg w)))

  -- An expose at a resolver that answers looks at the last rewrite of the name alone, names being
  -- compared without case and trailing dot: whatever the rewrites before it are, and the rewrites of
  -- other names after it, the planned change is empty if the last one has the wanted answer, and
  -- otherwise the diff fails with the conflict of that answer and the wanted one.
  pub diff-reads_last :
      (op : Op) (name answer : Text) (before : List Rewrite) (r : Rewrite) (after : List Rewrite)
      (w : W)
      → op.verb ≡ expose
      → guard d.cfg name ≡ ok tt
      → norm_name r.domain ≡ norm_name name
      → All (λ (x : Rewrite). norm_name x.domain ≢ norm_name name) after
      → resolver.rewrites w ≡ before ++ (r ∷ after)
      → (equal_fold r.answer answer ≡ true
          → (change : DnsChange) × ((diff d op (record_for d.cfg name answer ∷ []) w).1 ≡ ok change)
            × (dns_change_empty change ≡ true))
        × (equal_fold r.answer answer ≡ false
            → (diff d op (record_for d.cfg name answer ∷ []) w).1
              ≡ err (conflicting_rewrite (driver_name d.cfg) name r.answer answer))
  unfolding dns_change_empty
  diff-reads_last op name answer before r after w verb guarded same others stands =
      let want = record_for d.cfg name answer in
      let cur = record_for d.cfg r.domain r.answer in
      let live = zone_records d.cfg (resolver.rewrites w) in
      let inside = guard-under_zone d.cfg name guarded in
      let found : live_by_name live name ≡ some cur =
        rw stands (last_found d.cfg name before r after inside same others) in
      let planned = diff-change_for op want w verb guarded in
      (
        λ right. (
          rendered_change d.cfg [] [],
          planned ∙ change_for_right d.cfg live want cur found right,
          refl,
        ),
        λ wrong. planned ∙ change_for_wrong d.cfg live want cur found wrong,
      )
