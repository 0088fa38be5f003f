-- ===== src/Dns/Cloudflare/Partition.antt =====
-- internal/drivers/dns/cloudflare/cloudflare.go: what `partition` finds after a record was added or
-- changed.
use crenel.Prelude.{
  ℕ, true, ◌≡◌, refl, inl, inr, List, [], ◌∷◌, ◌++◌, Text, In, here, there, In-cons_cases,
  Bool-cases, arith, text_eq, text_beq, text_beq_iff, text_beq_refl, to_upper, upper_code,
}
use crenel.Model.{Record}
use crenel.Dns.Cloudflare.Records.{CfRecord, Config, owned, fqdn, at_name, partition}
use crenel.Dns.Cloudflare.Service.{with_id, replaced}

upper_code_idem : (c : ℕ) → upper_code (upper_code c) ≡ upper_code c
upper_code_idem c = ground arith

to_upper_idem : (s : Text) → to_upper (to_upper s) ≡ to_upper s
unfolding to_upper
to_upper_idem [] = refl
to_upper_idem (c ∷ s) = rw (upper_code_idem c, to_upper_idem s) refl

-- A record that is written for a name stands at this name.
pub at_name-written :
    (cfg : Config) (want : Record) (r : CfRecord)
    → fqdn (fqdn want.name cfg.zone_name) cfg.zone_name ≡ fqdn want.name cfg.zone_name
    → r.name ≡ fqdn want.name cfg.zone_name
    → r.record_type ≡ to_upper want.record_type
    → at_name cfg want.name want.record_type r ≡ true
unfolding at_name
at_name-written cfg want r same named typed =
    rw
      (
        named,
        typed,
        same,
        to_upper_idem want.record_type,
        text_beq_refl (fqdn want.name cfg.zone_name),
        text_beq_refl (to_upper want.record_type),
      )
      refl

module _ (cfg : Config) (name typ : Text) where
  abbrev parts : List CfRecord → List CfRecord × List CfRecord
  parts rs = partition cfg rs name typ

  -- one more record of ours at the name
  pub partition-append :
      (rs : List CfRecord) (r : CfRecord)
      → at_name cfg name typ r ≡ true
      → owned r ≡ true
      → parts (rs ++ (r ∷ [])) ≡ ((parts rs).0 ++ (r ∷ []), (parts rs).1)
  unfolding partition
  partition-append [] r h o = rw (h, o) refl
  partition-append (x ∷ rs) r h o = elim (Bool-cases (at_name cfg name typ x)) [
    | inl a ↦ elim (Bool-cases (owned x)) [
      | inl w ↦ rw (a, w, partition-append rs r h o) refl
      | inr w ↦ rw (a, w, partition-append rs r h o) refl
    ]
    | inr a ↦ rw (a, partition-append rs r h o) refl
  ]

  -- Every record of an id is ours and at the name.
  abbrev pub Known : Text → List CfRecord → Type 0
  Known id rs =
      (x : CfRecord) → In x rs → x.id ≡ id → (at_name cfg name typ x ≡ true) × (owned x ≡ true)

  pub partition-replaced :
      (id : Text) (rs : List CfRecord) (r : CfRecord)
      → at_name cfg name typ (with_id id r) ≡ true
      → owned (with_id id r) ≡ true
      → Known id rs
      → parts (replaced id r rs) ≡ (replaced id r (parts rs).0, (parts rs).1)
  unfolding partition replaced
  partition-replaced id [] r h o k = refl
  partition-replaced id (x ∷ rs) r h o k =
      let ih = partition-replaced id rs r h o (λ y m. k y (there m)) in
      elim (Bool-cases (text_beq x.id id)) [
        | inl e ↦
            let (a, w) = k x here ((text_beq_iff x.id id).0 e) in rw (e, h, o, a, w, ih) (rw e refl)
        | inr e ↦ elim (Bool-cases (at_name cfg name typ x)) [
          | inl a ↦ elim (Bool-cases (owned x)) [
            | inl w ↦ rw (e, a, w, ih) (rw e refl)
            | inr w ↦ rw (e, a, w, ih) refl
          ]
          | inr a ↦ rw (e, a, ih) refl
        ]
      ]

  -- What `partition` calls ours is in the list, at the name and ours.
  pub partition_ours :
      (rs : List CfRecord) (o : CfRecord)
      → In o (parts rs).0
      → In o rs × (at_name cfg name typ o ≡ true) × (owned o ≡ true)
  unfolding partition
  partition_ours [] o = λ m. elim m [ ]
  partition_ours (x ∷ rs) o =
      let later : In o (parts rs).0
          → In o (x ∷ rs) × (at_name cfg name typ o ≡ true) × (owned o ≡ true) =
        λ m. let (n, a, w) = partition_ours rs o m in (there n, a, w) in
      elim (Bool-cases (at_name cfg name typ x)) [
        | inl a ↦ elim (Bool-cases (owned x)) [
          | inl w ↦ λ m. elim (In-cons_cases (rw (a, w) at m)) [
            | inl e ↦ (rw e here, rw e a, rw e w)
            | inr n ↦ later n
          ]
          | inr w ↦ λ m. later (rw (a, w) at m)
        ]
        | inr a ↦ λ m. later (rw a at m)
      ]
