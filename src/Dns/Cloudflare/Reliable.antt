-- ===== src/Dns/Cloudflare/Reliable.antt =====
-- A service that answers every request as documented: a page shows its part of the records with the
-- count of the pages, only the last page may be empty, and a write is acknowledged. On it a listing
-- comes to its end with every record.
use crenel.Prelude.{
  ℕ, suc, zero, ◌+◌, ◌-◌, ◌≤◌, ◌<◌, true, false, ◌≡◌, ◌≢◌, text_beq, text_beq_iff, refl, sym, ap,
  ◌∙◌, subst, List, [], ◌∷◌, ◌++◌, Text, append-nil, append_assoc, length, if_rule, arith, text_eq,
  Result, ok, some,
}
use crenel.Effects.{Call, next-ok}
use crenel.Dns.Cloudflare.Records.{CfRecord, CfError}
use crenel.Dns.Cloudflare.Api.{
  Driver, Session, Answer, Doer, records_page, post_record, put_record, api, resolve_zone_id,
  list_zone, read_pages, turn_page, last_page,
}
use crenel.Dns.Cloudflare.Listing.{records_of}
use crenel.Dns.Cloudflare.Service.{Service, answer_of, after, is_answer}

abbrev pub concat : List (List CfRecord) → List CfRecord
concat [] = []
concat (p ∷ ps) = p ++ concat ps

-- the pages behind the first `n`
abbrev pub pages_from : ℕ → List (List CfRecord) → List (List CfRecord)
pages_from zero ps = ps
pages_from (suc n) [] = []
pages_from (suc n) (p ∷ ps) = pages_from n ps

-- a page, from 0; empty beyond the last
abbrev pub page_at : ℕ → List (List CfRecord) → List CfRecord
page_at n [] = []
page_at zero (p ∷ ps) = p
page_at (suc n) (p ∷ ps) = page_at n ps

-- Pages are counted from 1.
pub record Reliable {W : Type 0} {doer : Doer W} (service : Service doer) : Type 0 where
  pub pages : W → List (List CfRecord)
  pub whole : (w : W) → concat (pages w) ≡ service.records w
  pub page_answer : ℕ → W → Answer
  pub page_answered :
      (zone : Text) (page : ℕ) (w : W)
      → answer_of doer (records_page zone page) w ≡ ok (page_answer page w)
  pub page_shown :
      (page : ℕ) (w : W)
      → (page_answer page w).payload.as_records ≡ some (page_at (page - 1) (pages w))
  pub pages_counted :
      (page : ℕ) (w : W) → (page_answer page w).total_pages ≡ some (length (pages w))
  pub page_full :
      (page : ℕ) (w : W) → 1 ≤ page → page_at (page - 1) (pages w) ≡ [] → length (pages w) ≤ page
  pub pages_kept :
      (zone : Text) (page : ℕ) (w : W) → pages (after doer (records_page zone page) w) ≡ pages w
  pub post_answered :
      (zone : Text) (r : CfRecord) (w : W)
      → is_answer (answer_of doer (post_record zone r) w) ≡ true
  pub put_answered :
      (zone id : Text) (r : CfRecord) (w : W)
      → is_answer (answer_of doer (put_record zone id r) w) ≡ true

concat-page :
    (n : ℕ) (ps : List (List CfRecord))
    → concat (pages_from n ps) ≡ page_at n ps ++ concat (pages_from (suc n) ps)
concat-page zero [] = refl
concat-page (suc n) [] = refl
concat-page zero (p ∷ ps) = refl
concat-page (suc n) (p ∷ ps) = concat-page n ps

pages_from-nil : (n : ℕ) (ps : List (List CfRecord)) → length ps ≤ n → pages_from n ps ≡ []
pages_from-nil zero [] h = refl
pages_from-nil (suc n) [] h = refl
pages_from-nil zero (p ∷ ps) h = ground arith
pages_from-nil (suc n) (p ∷ ps) h = pages_from-nil n ps (omega arith)

last_page_iff :
    (total page : ℕ) (recs : List CfRecord)
    → (recs ≡ [] → total ≤ page)
    → (last_page (some total) page recs ≡ true → total ≤ page)
      × (last_page (some total) page recs ≡ false → page < total)
last_page_iff total page [] h = (λ _. h refl, λ e. ground arith)
last_page_iff total page (r ∷ recs) h = (λ e. ground arith, λ e. ground arith)

module _ {W : Type 0} (d : Driver W) (service : Service d.doer) (reliable : Reliable service) where
  abbrev pages_of : Session W → List (List CfRecord)
  pages_of s = reliable.pages s.world

  -- the list that the loop returns from a page on
  abbrev rest_of : ℕ → Session W → List CfRecord
  rest_of page s = concat (pages_from (page - 1) (pages_of s))

  rest_of-page :
      (page : ℕ) (s : Session W)
      → 1 ≤ page
      → rest_of page s ≡ page_at (page - 1) (pages_of s) ++ concat (pages_from page (pages_of s))
  rest_of-page page s h =
      subst
        (λ (n : ℕ).
          rest_of page s ≡ page_at (page - 1) (pages_of s) ++ concat (pages_from n (pages_of s)))
        {x = suc (page - 1)} (omega arith) (concat-page (page - 1) (pages_of s))

  rest_of-next :
      (page : ℕ) (s u : Session W)
      → pages_of u ≡ pages_of s
      → rest_of (page + 1) u ≡ concat (pages_from page (pages_of s))
  rest_of-next page s u kept = let n : page + 1 - 1 ≡ page = omega arith in rw (n, kept) refl

  turn_page_complete :
      (more : List CfRecord → Call (Session W) CfError (List CfRecord)) (page : ℕ)
      (all : List CfRecord) (s u : Session W)
      → 1 ≤ page
      → (page < length (pages_of s)
          → (more (all ++ page_at (page - 1) (pages_of s)) u).1
            ≡ ok
                ((all ++ page_at (page - 1) (pages_of s)) ++ concat (pages_from page (pages_of s))))
      → (turn_page more
          (some (length (pages_of s)))
          page
          all
          (some (page_at (page - 1) (pages_of s)))
          u).1
        ≡ ok (all ++ rest_of page s)
  turn_page_complete more page all s u h k =
      let shown = page_at (page - 1) (pages_of s) in
      let (ended, goes_on) =
        last_page_iff (length (pages_of s)) page shown (reliable.page_full page s.world h) in
      rw (rest_of-page page s h) (
        if_rule
          (λ (m : Call (Session W) CfError (List CfRecord)).
            (m u).1 ≡ ok (all ++ (shown ++ concat (pages_from page (pages_of s)))))
          (last_page (some (length (pages_of s))) page shown)
          (λ e. rw (pages_from-nil page (pages_of s) (ended e), append-nil shown) refl)
          (λ e.
            k (goes_on e) ∙ ap ok (append_assoc all shown (concat (pages_from page (pages_of s))))))

  read_pages_complete :
      (left : ℕ) (zone : Text) (page : ℕ) (all : List CfRecord) (s : Session W)
      → 1 ≤ page
      → 1 ≤ left
      → length (pages_of s) ≤ page - 1 + left
      → (read_pages d left zone page all s).1 ≡ ok (all ++ rest_of page s)
  unfolding read_pages api
  read_pages_complete zero zone page all s h l k = ground arith
  read_pages_complete (suc left) zone page all s h l k =
      let a = reliable.page_answer page s.world in
      let u : Session W = (api d (records_page zone page) s).0 in
      let kept : pages_of u ≡ pages_of s = reliable.pages_kept zone page s.world in
      let turn = λ (b : Answer).
        turn_page (read_pages d left zone (page + 1)) b.total_pages page all b.payload.as_records in
      ap (λ (o : Session W × Result CfError (List CfRecord)). o.1)
        (next-ok turn (api d (records_page zone page) s) (reliable.page_answered zone page s.world))
      ∙ rw (reliable.pages_counted page s.world, reliable.page_shown page s.world)
          (turn_page_complete (read_pages d left zone (page + 1)) page all s u h (λ more.
            let seen = all ++ page_at (page - 1) (pages_of s) in
            let ih = read_pages_complete left zone (page + 1) seen u (omega arith) (omega arith) (
              subst (λ (ps : List (List CfRecord)). length ps ≤ page + 1 - 1 + left) (sym kept)
                (omega arith)) in
            ih ∙ ap (λ (t : List CfRecord). ok (seen ++ t)) (rest_of-next page s u kept)))

  -- The listing of a resolved zone comes to its end with every record, if it may read all pages.
  pub list_zone_complete :
      (s : Session W)
      → s.zone_id ≢ []
      → 1 ≤ d.page_limit
      → length (pages_of s) ≤ d.page_limit
      → (list_zone d s).1 ≡ ok (records_of d service s)
  unfolding list_zone resolve_zone_id
  list_zone_complete s z l k =
      let resolved : text_beq s.zone_id [] ≡ false = ground (arith, text_beq_iff s.zone_id []) in
      rw resolved (
        read_pages_complete d.page_limit s.zone_id 1 [] s (omega arith) l (omega arith)
        ∙ ap ok (reliable.whole s.world))
