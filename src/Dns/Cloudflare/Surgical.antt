-- ===== src/Dns/Cloudflare/Surgical.antt =====
-- A change of the records of a service that touches no record of others, and the effects of single
-- requests as such changes.
use crenel.Prelude.{
  true, not, ◌≡◌, refl, sym, ap, ◌∙◌, subst, ◌⊎◌, inl, inr, List, [], ◌∷◌, ◌++◌, Text, keep_if,
  keep_if-In, In, here, there, In-append_cases, In-cons_cases, Bool-cases, ◌==◌, text_eq, text_beq,
  text_beq_iff, if◌then◌else◌, Result,
}
use crenel.Dns.Cloudflare.Records.{CfRecord, CfError, owned}
use crenel.Dns.Cloudflare.Api.{Answer}
use crenel.Dns.Cloudflare.Service.{Written, with_id, replaced, dropped}

abbrev pub foreign : List CfRecord → List CfRecord
foreign = keep_if (λ r. not (owned r))

-- The records of others are the same, and a record that was not there before is marked.
pub record Surgical (before after : List CfRecord) : Type 0 where
  pub same_foreign : foreign after ≡ foreign before
  pub old_or_owned : (x : CfRecord) → In x after → In x before ⊎ (owned x ≡ true)

pub Surgical-same : (rs : List CfRecord) → Surgical rs rs
Surgical-same rs = record { same_foreign = refl; old_or_owned = λ x m. inl m }

pub Surgical-trans : {a b c : List CfRecord} → Surgical a b → Surgical b c → Surgical a c
Surgical-trans f g = record {
  same_foreign = g.same_foreign ∙ f.same_foreign;
  old_or_owned = λ x m. elim (g.old_or_owned x m) [ inl n ↦ f.old_or_owned x n | inr o ↦ inr o ];
}

-- Every record of an id is ours.
abbrev pub OursAt : Text → List CfRecord → Type 0
OursAt id rs = (x : CfRecord) → In x rs → x.id ≡ id → owned x ≡ true

foreign-append :
    (rs : List CfRecord) (r : CfRecord) → owned r ≡ true → foreign (rs ++ (r ∷ [])) ≡ foreign rs
foreign-append [] r h = rw h refl
foreign-append (x ∷ rs) r h =
    ap (λ (t : List CfRecord). if not (owned x) then x ∷ t else t) (foreign-append rs r h)

pub append-Surgical :
    (rs : List CfRecord) (r : CfRecord) → owned r ≡ true → Surgical rs (rs ++ (r ∷ []))
append-Surgical rs r h = record {
  same_foreign = foreign-append rs r h;
  old_or_owned = λ x m. elim (In-append_cases rs m) [
    | inl n ↦ inl n
    | inr n ↦ elim (In-cons_cases n) [ inl e ↦ inr (rw e h) | inr o ↦ elim o [ ] ]
  ];
}

foreign-dropped :
    (id : Text) (rs : List CfRecord) → OursAt id rs → foreign (dropped id rs) ≡ foreign rs
unfolding dropped
foreign-dropped id [] h = refl
foreign-dropped id (x ∷ rs) h =
    let ih = foreign-dropped id rs (λ y m. h y (there m)) in
    elim (Bool-cases (text_beq x.id id)) [
      | inl e ↦ rw e (rw (h x here ((text_beq_iff x.id id).0 e)) ih)
      | inr e ↦ rw e (ap (λ (t : List CfRecord). if not (owned x) then x ∷ t else t) ih)
    ]

pub dropped-Surgical : (id : Text) (rs : List CfRecord) → OursAt id rs → Surgical rs (dropped id rs)
unfolding dropped
dropped-Surgical id rs h = record {
  same_foreign = foreign-dropped id rs h;
  old_or_owned = λ x m. inl (keep_if-In (λ x. not (x.id == id)) rs m).0;
}

foreign-replaced :
    (id : Text) (r : CfRecord) (rs : List CfRecord)
    → owned (with_id id r) ≡ true
    → OursAt id rs
    → foreign (replaced id r rs) ≡ foreign rs
unfolding replaced
foreign-replaced id r [] o h = refl
foreign-replaced id r (x ∷ rs) o h =
    let ih = foreign-replaced id r rs o (λ y m. h y (there m)) in
    elim (Bool-cases (text_beq x.id id)) [
      | inl e ↦ rw e (rw (o, h x here ((text_beq_iff x.id id).0 e)) ih)
      | inr e ↦ rw e (ap (λ (t : List CfRecord). if not (owned x) then x ∷ t else t) ih)
    ]

replaced-In :
    (id : Text) (r : CfRecord) (rs : List CfRecord)
    → owned (with_id id r) ≡ true
    → (x : CfRecord) → In x (replaced id r rs)
    → In x rs ⊎ (owned x ≡ true)
unfolding replaced
replaced-In id r [] o x m = elim m [ ]
replaced-In id r (y ∷ rs) o x m = elim (In-cons_cases m) [
  | inl e ↦ elim (Bool-cases (text_beq y.id id)) [
    | inl t ↦ inr (rw (e, t) o)
    | inr t ↦ inl (let same : x ≡ y = e ∙ rw t refl in rw same here)
  ]
  | inr n ↦ elim (replaced-In id r rs o x n) [ inl l ↦ inl (there l) | inr o ↦ inr o ]
]

pub replaced-Surgical :
    (id : Text) (r : CfRecord) (rs : List CfRecord)
    → owned (with_id id r) ≡ true
    → OursAt id rs
    → Surgical rs (replaced id r rs)
replaced-Surgical id r rs o h = record {
  same_foreign = foreign-replaced id r rs o h;
  old_or_owned = replaced-In id r rs o;
}

pub Written-Surgical :
    (a b : List CfRecord) (answer : Result CfError Answer) (c : List CfRecord)
    → Written a b answer c
    → Surgical a c
    → Surgical a b
Written-Surgical a b answer c w h = elim w [
  | inl e ↦ subst (Surgical a) (sym e) h
  | inr k ↦ subst (Surgical a) (sym k.0) (Surgical-same a)
]

pub with_id-owned : (id : Text) (r : CfRecord) → owned r ≡ true → owned (with_id id r) ≡ true
unfolding owned
with_id-owned id r h = h

-- The ids of a list tell its records apart.
abbrev pub IdsDistinct : List CfRecord → Type 0
IdsDistinct rs = (x y : CfRecord) → In x rs → In y rs → x.id ≡ y.id → x ≡ y
