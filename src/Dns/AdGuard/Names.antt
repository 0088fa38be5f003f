-- ===== src/Dns/AdGuard/Names.antt =====
-- internal/drivers/dns/adguard/adguard.go: the rewrites of a name, when one is added or dropped.
use crenel.Prelude.{
  ◌≡◌, refl, sym, ap, ◌∙◌, Bool, true, false, inl, inr, List, [], ◌∷◌, ◌++◌, Text, Bool-cases,
  arith, text_eq, nat_eq, text_beq, text_beq_iff, text_beq_refl, some, none,
}
use crenel.Model.{Record}
use crenel.Dns.AdGuard.Rewrites.{
  Rewrite, Config, under_zone, norm_name, live_by_name, zone_records, record_for,
}
use crenel.Dns.AdGuard.Resolver.{without}

pub zone_records-append :
    (cfg : Config) (rs : List Rewrite) (r : Rewrite)
    → under_zone r.domain cfg.zone ≡ true
    → zone_records cfg (rs ++ (r ∷ []))
      ≡ zone_records cfg rs ++ (record_for cfg r.domain r.answer ∷ [])
unfolding zone_records
zone_records-append cfg [] r h = rw h refl
zone_records-append cfg (x ∷ rs) r h = elim (Bool-cases (under_zone x.domain cfg.zone)) [
  | inl e ↦ rw (e, zone_records-append cfg rs r h) refl
  | inr e ↦ rw (e, zone_records-append cfg rs r h) refl
]

pub live_by_name-append :
    (live : List Record) (r : Record) → live_by_name (live ++ (r ∷ [])) r.name ≡ some r
unfolding live_by_name
live_by_name-append [] r = rw (text_beq_refl (norm_name r.name)) refl
live_by_name-append (x ∷ live) r = rw (live_by_name-append live r) refl

-- Texts that a test tells apart are different.
told_apart :
    (test : Text → Bool) (s t : Text) → test s ≡ false → test t ≡ true → text_beq s t ≡ false
told_apart test s t h k = elim (Bool-cases (text_beq s t)) [
  | inl e ↦
      let never : true ≡ false = sym k ∙ ap test (sym ((text_beq_iff s t).0 e)) ∙ h in ground arith
  | inr e ↦ e
]

-- what a name that stands nowhere says of the first record and of the others
absent_cases :
    (x : Record) (rest : List Record) (name : Text)
    → live_by_name (x ∷ rest) name ≡ none
    → (text_beq (norm_name x.name) (norm_name name) ≡ false) × (live_by_name rest name ≡ none)
unfolding live_by_name
absent_cases x rest name h = ground arith

-- A name that no rewrite of the zone has is no rewrite's domain.
head_differs :
    (cfg : Config) (x : Rewrite) (rs : List Rewrite) (name : Text)
    → under_zone name cfg.zone ≡ true
    → live_by_name (zone_records cfg (x ∷ rs)) name ≡ none
    → (text_beq x.domain name ≡ false) × (live_by_name (zone_records cfg rs) name ≡ none)
unfolding zone_records
head_differs cfg x rs name h absent = elim (Bool-cases (under_zone x.domain cfg.zone)) [
  | inl e ↦
      let (named, rest) =
        absent_cases (record_for cfg x.domain x.answer) (zone_records cfg rs) name
          (rw (e, zone_records) at absent) in
      (
        told_apart (λ (t : Text). text_beq (norm_name t) (norm_name name)) x.domain name named
            (text_beq_refl (norm_name name)),
        rest,
      )
  | inr e ↦ (
    told_apart (λ (t : Text). under_zone t cfg.zone) x.domain name e h,
    rw (e, zone_records) at absent,
  )
]

pub without-append :
    (cfg : Config) (rs : List Rewrite) (r : Rewrite)
    → under_zone r.domain cfg.zone ≡ true
    → live_by_name (zone_records cfg rs) r.domain ≡ none
    → without r (rs ++ (r ∷ [])) ≡ rs
unfolding without
without-append cfg [] r h absent = rw (text_beq_refl r.domain, text_beq_refl r.answer) refl
without-append cfg (x ∷ rs) r h absent =
    let (differs, rest) = head_differs cfg x rs r.domain h absent in
    rw differs (ap (λ (t : List Rewrite). x ∷ t) (without-append cfg rs r h rest))
