-- ===== src/Dns/Cloudflare/Service.antt =====
-- What the driver relies on of the service behind its `Doer`: the records of the account, and what
-- each request does to them. A request that is not answered well may have been carried out or not.
use crenel.Prelude.{
  ◌≡◌, ◌≢◌, ◌⊎◌, Bool, true, false, not, List, [], ◌∷◌, ◌++◌, Text, map, keep_if, In, ◌==◌, text_eq,
  if◌then◌else◌, Result, ok, err, ℕ, some,
}
use crenel.Dns.Cloudflare.Records.{CfRecord, CfError}
use crenel.Dns.Cloudflare.Api.{
  Request, zones_named, records_page, post_record, put_record, remove_record, Doer, Answer,
  read_answer,
}

abbrev pub with_id : Text → CfRecord → CfRecord
with_id id r = record r { id = id }

-- the record of an id exchanged for another, and dropped
unfoldable pub replaced : Text → CfRecord → List CfRecord → List CfRecord
replaced id r = map (λ x. if x.id == id then with_id id r else x)

unfoldable pub dropped : Text → List CfRecord → List CfRecord
dropped id = keep_if (λ x. not (x.id == id))

module _ {W : Type 0} where
  -- the answer to a request, as `api` reads it
  abbrev pub answer_of : Doer W → Request → W → Result CfError Answer
  answer_of doer q w = read_answer q (doer q w).1

  abbrev pub after : Doer W → Request → W → W
  after doer q w = (doer q w).0

abbrev pub is_answer : Result CfError Answer → Bool
is_answer (ok a) = true
is_answer (err e) = false

-- A write took place, or it did not and was not answered well either.
abbrev pub Written : List CfRecord → List CfRecord → Result CfError Answer → List CfRecord → Type 0
Written before after answer changed =
    (after ≡ changed) ⊎ ((after ≡ before) × (is_answer answer ≡ false))

pub record Service {W : Type 0} (doer : Doer W) : Type 0 where
  pub records : W → List CfRecord
  pub zones_read : (name : Text) (w : W) → records (after doer (zones_named name) w) ≡ records w
  pub page_reads :
      (zone : Text) (page : ℕ) (w : W) → records (after doer (records_page zone page) w) ≡ records w
  pub page_shows :
      (zone : Text) (page : ℕ) (w : W) (a : Answer) (rs : List CfRecord)
      → answer_of doer (records_page zone page) w ≡ ok a
      → a.payload.as_records ≡ some rs
      → (r : CfRecord) → In r rs
      → In r (records w)
  pub new_id : Text → CfRecord → W → Text
  pub new_id_fresh :
      (zone : Text) (r : CfRecord) (w : W) (x : CfRecord)
      → In x (records w)
      → x.id ≢ new_id zone r w
  pub posts :
      (zone : Text) (r : CfRecord) (w : W)
      → Written
          (records w)
          (records (after doer (post_record zone r) w))
          (answer_of doer (post_record zone r) w)
          (records w ++ (with_id (new_id zone r w) r ∷ []))
  pub puts :
      (zone id : Text) (r : CfRecord) (w : W)
      → Written
          (records w)
          (records (after doer (put_record zone id r) w))
          (answer_of doer (put_record zone id r) w)
          (replaced id r (records w))
  pub removes :
      (zone id : Text) (w : W)
      → Written
          (records w)
          (records (after doer (remove_record zone id) w))
          (answer_of doer (remove_record zone id) w)
          (dropped id (records w))
