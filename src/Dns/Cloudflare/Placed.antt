-- ===== src/Dns/Cloudflare/Placed.antt =====
-- internal/drivers/dns/cloudflare/cloudflare.go: what an expose adds for a record, and the records
-- that are written for it.
use crenel.Prelude.{
  true, ◌≡◌, refl, subst, inl, inr, List, [], ◌∷◌, Bool-cases, arith, text_eq, text_beq_refl, ok,
  equal_fold, to_upper,
}
use crenel.Model.{Record}
use crenel.Dns.Cloudflare.Records.{CfRecord, Config, fqdn, new_record, changed_record}
use crenel.Dns.Cloudflare.Service.{with_id, replaced}
use crenel.Dns.Cloudflare.Surgery.{addition}

-- What an expose adds, by what stands at its name: a new record, nothing to a right one, and our value
-- again to a record of ours that has another.
pub data Placed (want : Record) : List CfRecord × List CfRecord → List Record → Type 0 where
  fresh : Placed want ([], []) (want ∷ [])
  right :
      {o : CfRecord} {others : List CfRecord}
      → equal_fold o.content want.value ≡ true
      → Placed want (o ∷ [], others) []
  moved : {o : CfRecord} {others : List CfRecord} → Placed want (o ∷ [], others) (want ∷ [])

pub addition-Placed :
    (want : Record) (at : List CfRecord × List CfRecord) (adds : List Record)
    → addition want at ≡ ok adds
    → Placed want at adds
addition-Placed want ([], []) adds e =
    let same : want ∷ [] ≡ adds = ground arith in subst (Placed want ([], [])) same fresh
addition-Placed want ([], f ∷ others) adds e = ground arith
addition-Placed want (o ∷ [], others) adds e = elim (Bool-cases (equal_fold o.content want.value)) [
  | inl h ↦
      let same : [] ≡ adds = ground arith in subst (Placed want (o ∷ [], others)) same (right h)
  | inr h ↦
      let same : want ∷ [] ≡ adds = ground arith in subst (Placed want (o ∷ [], others)) same moved
]
addition-Placed want (o ∷ p ∷ ours, others) adds e = ground arith

-- One record of ours stands at the name, with the value.
abbrev pub Settled : Record → List CfRecord × List CfRecord → Type 0
Settled want at =
    (o : CfRecord) × (others : List CfRecord) × (at ≡ (o ∷ [], others))
    × (equal_fold o.content want.value ≡ true)

-- A written record stands at the name, with the value.
abbrev pub WrittenFor : Config → Record → CfRecord → Type 0
WrittenFor cfg want r =
    (r.name ≡ fqdn want.name cfg.zone_name)
    × (r.record_type ≡ to_upper want.record_type)
    × (r.content ≡ want.value)

pub new_record_fits : (cfg : Config) (want : Record) → WrittenFor cfg want (new_record cfg want)
unfolding new_record
new_record_fits cfg want = (refl, refl, refl)

pub changed_record_fits :
    (cfg : Config) (o : CfRecord) (want : Record) → WrittenFor cfg want (changed_record cfg o want)
unfolding changed_record
changed_record_fits cfg o want = (refl, refl, refl)

pub replaced_one :
    (o new : CfRecord) (others : List CfRecord)
    → ◌≡◌ {A = List CfRecord × List CfRecord}
        (replaced o.id new (o ∷ []), others)
        (with_id o.id new ∷ [], others)
unfolding replaced
replaced_one o new others = rw (text_beq_refl o.id) refl
