-- ===== src/Dns/Cloudflare/Listing.antt =====
-- internal/drivers/dns/cloudflare/cloudflare.go: what the reads leave alone, and what a listing shows.
use crenel.Prelude.{
  ℕ, suc, zero, ◌+◌, false, not, ◌≡◌, ◌≢◌, text_beq, text_beq_iff, refl, sym, ap, ◌∙◌, subst, inl,
  inr, List, [], ◌++◌, Text, In, In-append_cases, find, equal_fold, Bool-cases, if_rule, arith,
  ◌==◌, text_eq, Result, ok, Option, some, none,
}
use crenel.Effects.{Call, Moves, IsPreorder, bind-Moves, bind-eq-ok}
use crenel.Dns.Cloudflare.Records.{CfRecord, CfError, norm_name}
use crenel.Dns.Cloudflare.Api.{
  Driver, Session, Zone, chosen_zone, Answer, zones_named, records_page, read_answer, api,
  pick_zone, resolve_zone_id, list_zone, read_pages, turn_page, last_page,
}
use crenel.Dns.Cloudflare.Service.{Service}

ok_injective :
    {S : Type 0} {s t : S} {A : Type 0} {a b : A}
    → ◌≡◌ {A = S × Result CfError A} (s, ok a) (t, ok b)
    → a ≡ b
ok_injective e = ground arith

module _ {W : Type 0} (d : Driver W) (R : Session W → Session W → Type 0) (p : IsPreorder R) where
  turn_page-Moves :
      (more : List CfRecord → Call (Session W) CfError (List CfRecord)) (total : Option ℕ)
      (page : ℕ) (all : List CfRecord) (shown : Option (List CfRecord))
      → ((seen : List CfRecord) → Moves R (more seen))
      → Moves R (turn_page more total page all shown)
  turn_page-Moves more total page all none h s = p.reflexive s
  turn_page-Moves more total page all (some recs) h s =
      if_rule (λ (m : Call (Session W) CfError (List CfRecord)). R s (m s).0)
        (last_page total page recs) (λ _. p.reflexive s) (λ _. h (all ++ recs) s)

  -- The loop moves a session as its requests do.
  pub read_pages-Moves :
      ((zone : Text) (page : ℕ) → Moves R (api d (records_page zone page)))
      → (left : ℕ) (zone : Text) (page : ℕ) (all : List CfRecord)
      → Moves R (read_pages d left zone page all)
  unfolding read_pages
  read_pages-Moves h zero zone page all = λ s. p.reflexive s
  read_pages-Moves h (suc left) zone page all =
      bind-Moves R p (api d (records_page zone page))
        (λ a.
          turn_page (read_pages d left zone (page + 1)) a.total_pages page all a.payload.as_records)
        (h zone page)
        (λ a.
          turn_page-Moves (read_pages d left zone (page + 1)) a.total_pages page all
            a.payload.as_records (read_pages-Moves h left zone (page + 1)))

module _ {W : Type 0} (d : Driver W) where
  -- The zone id that is cached stays.
  abbrev pub Stable : Session W → Session W → Type 0
  Stable s t = t.zone_id ≡ s.zone_id

  Stable-IsPreorder : IsPreorder Stable
  Stable-IsPreorder = record { reflexive = λ s. refl; transitive = λ s t u p q. q ∙ p }

  pub resolve_zone_id-resolved :
      (s : Session W) → s.zone_id ≢ [] → resolve_zone_id d s ≡ (s, ok s.zone_id)
  unfolding resolve_zone_id
  resolve_zone_id-resolved s z =
      let known : text_beq s.zone_id [] ≡ false = ground (arith, text_beq_iff s.zone_id []) in
      rw known refl

  pub list_zone-Stable : (s : Session W) → s.zone_id ≢ [] → Stable s (list_zone d s).0
  unfolding list_zone api
  list_zone-Stable s z = rw (resolve_zone_id-resolved s z) (
      read_pages-Moves d Stable Stable-IsPreorder (λ zone page t. refl) d.page_limit s.zone_id 1 []
        s)

module _ {W : Type 0} (d : Driver W) (service : Service d.doer) where
  abbrev pub records_of : Session W → List CfRecord
  records_of s = service.records s.world

  -- The service has the records that it had.
  abbrev pub Same : Session W → Session W → Type 0
  Same s t = records_of t ≡ records_of s

  pub Same-IsPreorder : IsPreorder Same
  Same-IsPreorder = record { reflexive = λ s. refl; transitive = λ s t u p q. q ∙ p }

  chosen_zone-Same : (z : Option Zone) → Moves Same (chosen_zone d.cfg z)
  chosen_zone-Same none s = refl
  chosen_zone-Same (some z) s = refl

  pick_zone-Same : (zones : Option (List Zone)) → Moves Same (pick_zone d.cfg zones)
  pick_zone-Same none s = refl
  pick_zone-Same (some zones) s =
      chosen_zone-Same (find (λ z. equal_fold (norm_name z.name) (norm_name d.cfg.zone_name)) zones)
        s

  abbrev Stays : {A : Type 0} → Session W → Session W × Result CfError A → Type 0
  Stays s o = Same s o.0

  pub resolve_zone_id-Same : Moves Same (resolve_zone_id d)
  unfolding resolve_zone_id api
  resolve_zone_id-Same s =
      if_rule (Stays s) (not (s.zone_id == [])) (λ _. refl)
        (λ _.
          if_rule (Stays s) (d.cfg.zone_name == []) (λ _. refl)
            (λ _.
              bind-Moves Same Same-IsPreorder (api d (zones_named (norm_name d.cfg.zone_name)))
                (λ a. pick_zone d.cfg a.payload.as_zones)
                (λ t. service.zones_read (norm_name d.cfg.zone_name) t.world)
                (λ a. pick_zone-Same a.payload.as_zones) s))

  pub list_zone-Same : Moves Same (list_zone d)
  unfolding list_zone api
  list_zone-Same =
      bind-Moves Same Same-IsPreorder (resolve_zone_id d)
        (λ zone. read_pages d d.page_limit zone 1 []) resolve_zone_id-Same
        (λ zone.
          read_pages-Moves d Same Same-IsPreorder (λ z page t. service.page_reads z page t.world)
            d.page_limit zone 1 [])

  -- Every record of the list stands at the service.
  abbrev pub Shown : List CfRecord → Session W → Type 0
  Shown rs s = (r : CfRecord) → In r rs → In r (records_of s)

  Shown-append :
      (rs ts : List CfRecord) (s : Session W) → Shown rs s → Shown ts s → Shown (rs ++ ts) s
  Shown-append rs ts s h k r m = elim (In-append_cases rs m) [ inl n ↦ h r n | inr n ↦ k r n ]

  turn_page-Shown :
      (more : List CfRecord → Call (Session W) CfError (List CfRecord)) (total : Option ℕ)
      (page : ℕ) (all : List CfRecord) (shown : Option (List CfRecord)) (s : Session W)
      → Shown all s
      → ((rs : List CfRecord) → shown ≡ some rs → Shown rs s)
      → ((seen : List CfRecord)
          → Shown seen s
          → (t : Session W) (rs : List CfRecord) → more seen s ≡ (t, ok rs)
          → Shown rs s)
      → (t : Session W) (rs : List CfRecord) → turn_page more total page all shown s ≡ (t, ok rs)
      → Shown rs s
  turn_page-Shown more total page all none s h k next_page t rs e = ground arith
  turn_page-Shown more total page all (some recs) s h k next_page t rs e =
      let both = Shown-append all recs s h (k recs refl) in
      elim (Bool-cases (last_page total page recs)) [
        | inl l ↦
            let ended : all ++ recs ≡ rs = ok_injective (rw (l, turn_page) at e) in
            subst (λ (x : List CfRecord). Shown x s) ended both
        | inr l ↦ next_page (all ++ recs) both t rs (rw (l, turn_page) at e)
      ]

  read_pages-Shown :
      (left : ℕ) (zone : Text) (page : ℕ) (all : List CfRecord) (s : Session W)
      → Shown all s
      → (t : Session W) (rs : List CfRecord) → read_pages d left zone page all s ≡ (t, ok rs)
      → Shown rs s
  unfolding read_pages api
  read_pages-Shown zero zone page all s h t rs e = ground arith
  read_pages-Shown (suc left) zone page all s h t rs e =
      let more = read_pages d left zone (page + 1) in
      let (u, a, asked, turned) =
        bind-eq-ok (api d (records_page zone page))
          (λ (a : Answer). turn_page more a.total_pages page all a.payload.as_records) s e in
      let same : records_of u ≡ records_of s =
        sym (ap (λ (o : Session W × Result CfError Answer). records_of o.0) asked)
        ∙ service.page_reads zone page s.world in
      let answer : read_answer (records_page zone page) (d.doer (records_page zone page) s.world).1
          ≡ ok a =
        ap (λ (o : Session W × Result CfError Answer). o.1) asked in
      let here_too = λ (xs : List CfRecord) (k : Shown xs s).
        subst (λ (y : List CfRecord). (r : CfRecord) → In r xs → In r y) (sym same) k in
      subst (λ (y : List CfRecord). (r : CfRecord) → In r rs → In r y) same
        (turn_page-Shown more a.total_pages page all a.payload.as_records u (here_too all h)
          (λ xs f. here_too xs (service.page_shows zone page s.world a xs answer f))
          (λ seen k. read_pages-Shown left zone (page + 1) seen u k) t rs turned)

  pub list_zone-Shown :
      (s t : Session W) (rs : List CfRecord) → list_zone d s ≡ (t, ok rs) → Shown rs s
  unfolding list_zone
  list_zone-Shown s t rs e =
      let (u, zone, resolved, listed) =
        bind-eq-ok (resolve_zone_id d) (λ (z : Text). read_pages d d.page_limit z 1 []) s e in
      let same : records_of u ≡ records_of s =
        sym (ap (λ (o : Session W × Result CfError Text). records_of o.0) resolved)
        ∙ resolve_zone_id-Same s in
      subst (λ (y : List CfRecord). (r : CfRecord) → In r rs → In r y) same
        (read_pages-Shown d.page_limit zone 1 [] u (λ r m. elim m [ ]) t rs listed)
