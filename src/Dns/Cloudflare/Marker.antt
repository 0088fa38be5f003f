-- ===== src/Dns/Cloudflare/Marker.antt =====
-- internal/drivers/dns/cloudflare/cloudflare.go: the records that the driver writes carry its marker.
use crenel.Prelude.{
  ℕ, true, false, ◌≡◌, refl, ap, ◌∙◌, inl, inr, [], ◌∷◌, ◌++◌, reverse, Text, codes, trim_space,
  trim_left, is_space, Bool-cases, has_prefix, ◌==◌, text_eq,
}
use mathlib.Core.List.{reverse-append}
use crenel.Model.{Record}
use crenel.Dns.Cloudflare.Records.{
  CfRecord, Config, owned, marker_for, marker_prefix, norm_name, new_record, changed_record,
}

trim_left-append :
    (a : Text) (c : ℕ) (b : Text)
    → is_space c ≡ false
    → trim_left (a ++ (c ∷ b)) ≡ trim_left a ++ (c ∷ b)
trim_left-append [] c b h = rw h refl
trim_left-append (x ∷ a) c b h = elim (Bool-cases (is_space x)) [
  | inl e ↦ rw e (trim_left-append a c b h)
  | inr e ↦ rw e refl
]

abbrev head_of_mark : Text
head_of_mark = marker_prefix ++ codes " host="

trim_space-mark :
    (y : Text) → trim_space (head_of_mark ++ y) ≡ head_of_mark ++ reverse (trim_left (reverse y))
unfolding trim_space
trim_space-mark y =
    ap (λ (t : Text). reverse (trim_left t)) (reverse-append head_of_mark y)
    ∙ ap (reverse {A = ℕ}) (trim_left-append (reverse y) b'=' (codes "tsoh lenerc:yb-deganam") refl)
    ∙ reverse-append (trim_left (reverse y)) (reverse head_of_mark)

marker_for-owned : (r : CfRecord) (name : Text) → r.comment ≡ marker_for name → owned r ≡ true
unfolding owned marker_for has_prefix
marker_for-owned r name h = rw (h, trim_space-mark (norm_name name)) refl

pub new_record-owned : (cfg : Config) (r : Record) → owned (new_record cfg r) ≡ true
unfolding new_record
new_record-owned cfg r = marker_for-owned (new_record cfg r) r.name refl

pub changed_record-owned :
    (cfg : Config) (target : CfRecord) (r : Record)
    → owned target ≡ true
    → owned (changed_record cfg target r) ≡ true
unfolding changed_record owned
changed_record-owned cfg target r h = elim (Bool-cases (target.comment == [])) [
  | inl e ↦ marker_for-owned (changed_record cfg target r) r.name (rw e refl)
  | inr e ↦ rw e h
]
