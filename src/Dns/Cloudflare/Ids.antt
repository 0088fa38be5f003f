-- ===== src/Dns/Cloudflare/Ids.antt =====
-- Distinct ids stay distinct, whatever the driver asks of the service.
use crenel.Prelude.{
  ◌≡◌, ◌≢◌, refl, sym, ap, ◌∙◌, subst, if_rule, if◌then◌else◌, inl, inr, List, [], ◌∷◌, ◌++◌, Text,
  not, In, here, there, In-append_cases, In-cons_cases, keep_if-In, ◌==◌, text_eq, text_beq_iff,
  Result,
}
use crenel.Model.{DnsChange}
use crenel.Effects.{Moves, IsPreorder}
use crenel.Dns.Cloudflare.Records.{CfRecord, CfError}
use crenel.Dns.Cloudflare.Api.{
  Driver, Session, Request, Answer, zones_named, records_page, post_record, put_record,
  remove_record, api,
}
use crenel.Dns.Cloudflare.Service.{Service, Written, with_id, replaced, dropped}
use crenel.Dns.Cloudflare.Listing.{records_of}
use crenel.Dns.Cloudflare.Surgical.{IdsDistinct}
use crenel.Dns.Cloudflare.Moves.{apply-Moves}
use crenel.Dns.Cloudflare.Driver.{apply}

dropped-IdsDistinct :
    (id : Text) (rs : List CfRecord) → IdsDistinct rs → IdsDistinct (dropped id rs)
unfolding dropped
dropped-IdsDistinct id rs h x y m n e =
    h x y (keep_if-In (λ r. not (r.id == id)) rs m).0 (keep_if-In (λ r. not (r.id == id)) rs n).0 e

append-IdsDistinct :
    (rs : List CfRecord) (r : CfRecord)
    → ((x : CfRecord) → In x rs → x.id ≢ r.id)
    → IdsDistinct rs
    → IdsDistinct (rs ++ (r ∷ []))
append-IdsDistinct rs r fresh h x y m n e = elim (In-append_cases rs m) [
  | inl old ↦ elim (In-append_cases rs n) [
    | inl old' ↦ h x y old old' e
    | inr new ↦ elim (In-cons_cases new) [
      | inl is_r ↦ elim (fresh x old (e ∙ ap (λ (z : CfRecord). z.id) is_r)) [ ]
      | inr none_ ↦ elim none_ [ ]
    ]
  ]
  | inr new ↦ elim (In-cons_cases new) [
    | inr none_ ↦ elim none_ [ ]
    | inl is_r ↦ elim (In-append_cases rs n) [
      | inl old ↦ elim (fresh y old (sym e ∙ ap (λ (z : CfRecord). z.id) is_r)) [ ]
      | inr new' ↦ elim (In-cons_cases new') [
        | inl is_r' ↦ is_r ∙ sym is_r'
        | inr none_ ↦ elim none_ [ ]
      ]
    ]
  ]
]

-- the record that a replaced one was
origin :
    (id : Text) (r : CfRecord) (rs : List CfRecord) (x : CfRecord)
    → In x (replaced id r rs)
    → (x' : CfRecord) × In x' rs × (x'.id ≡ x.id) × (x ≡ (if x'.id == id then with_id id r else x'))
unfolding replaced
origin id r [] x m = elim m [ ]
origin id r (y ∷ rs) x m = elim (In-cons_cases m) [
  | inl is_y ↦
      let kept : (if y.id == id then with_id id r else y).id ≡ y.id =
        if_rule (λ (z : CfRecord). z.id ≡ y.id) (y.id == id) (λ t. sym ((text_beq_iff y.id id).0 t))
          (λ _. refl) in
      (y, here, sym (ap (λ (z : CfRecord). z.id) is_y ∙ kept), is_y)
  | inr later ↦ let (x', n, same, made) = origin id r rs x later in (x', there n, same, made)
]

replaced-IdsDistinct :
    (id : Text) (r : CfRecord) (rs : List CfRecord)
    → IdsDistinct rs
    → IdsDistinct (replaced id r rs)
replaced-IdsDistinct id r rs h x y m n e =
    let (x', m', same_x, made_x) = origin id r rs x m in
    let (y', n', same_y, made_y) = origin id r rs y n in
    let same : x' ≡ y' = h x' y' m' n' (same_x ∙ e ∙ sym same_y) in
    made_x ∙ ap (λ (z : CfRecord). if z.id == id then with_id id r else z) same ∙ sym made_y

Written-IdsDistinct :
    (a b : List CfRecord) (answer : Result CfError Answer) (c : List CfRecord)
    → Written a b answer c
    → IdsDistinct a
    → IdsDistinct c
    → IdsDistinct b
Written-IdsDistinct a b answer c w h k = elim w [
  | inl e ↦ subst IdsDistinct (sym e) k
  | inr e ↦ subst IdsDistinct (sym e.0) h
]

module _ {W : Type 0} (d : Driver W) (service : Service d.doer) where
  abbrev KeepsIds : Session W → Session W → Type 0
  KeepsIds s t = IdsDistinct (records_of d service s) → IdsDistinct (records_of d service t)

  KeepsIds-IsPreorder : IsPreorder KeepsIds
  KeepsIds-IsPreorder = record { reflexive = λ s h. h; transitive = λ s t u f g h. g (f h) }

  asks-KeepsIds : (q : Request) → Moves KeepsIds (api d q)
  unfolding api
  asks-KeepsIds (zones_named name) s h = subst IdsDistinct (sym (service.zones_read name s.world)) h
  asks-KeepsIds (records_page zone page) s h =
      subst IdsDistinct (sym (service.page_reads zone page s.world)) h
  asks-KeepsIds (post_record zone r) s h =
      Written-IdsDistinct _ _ _ _ (service.posts zone r s.world) h (
        append-IdsDistinct (records_of d service s) (with_id (service.new_id zone r s.world) r)
          (service.new_id_fresh zone r s.world) h)
  asks-KeepsIds (put_record zone id r) s h =
      Written-IdsDistinct _ _ _ _ (service.puts zone id r s.world) h
        (replaced-IdsDistinct id r (records_of d service s) h)
  asks-KeepsIds (remove_record zone id) s h =
      Written-IdsDistinct _ _ _ _ (service.removes zone id s.world) h
        (dropped-IdsDistinct id (records_of d service s) h)

  pub apply-IdsDistinct :
      (change : DnsChange) (s : Session W)
      → IdsDistinct (records_of d service s)
      → IdsDistinct (records_of d service (apply d change s).0)
  apply-IdsDistinct change s =
      apply-Moves d KeepsIds KeepsIds-IsPreorder asks-KeepsIds (λ s id h. h) change s
