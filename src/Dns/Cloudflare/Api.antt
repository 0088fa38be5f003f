-- ===== src/Dns/Cloudflare/Api.antt =====
-- internal/drivers/dns/cloudflare/cloudflare.go: one call of the API, the `Doer` that carries it, and
-- the calls that change a record. The service behind the `Doer` is a parameter; a body is what
-- `json.Unmarshal` makes of it.
use crenel.Prelude.{
  ℕ, suc, zero, ◌+◌, Bool, true, not, ◌&&◌, ◌||◌, List, [], ◌∷◌, ◌++◌, Text, codes, any, find,
  equal_fold, leb, ◌==◌, nat_eq, text_eq, if◌then◌else◌, Result, ok, err, Option, some, none,
}
use crenel.Model.{Record, span}
use crenel.Effects.{Call, done, fail, lift, ◌>>=◌, ◌>>◌}
use crenel.Dns.Texts.{clip}
use crenel.Dns.Cloudflare.Records.{
  CfRecord, Config, ApiError, CfError, owned, norm_name, new_record, changed_record,
  validate_content, no_zone, zone_not_found, undecoded_zones, undecoded_records, not_owned,
  unreachable, undecoded_response, bad_status, authentication_failed, rate_limited, http_error,
  too_many_pages,
}

-- A method, a path and a body of the API
pub data Request : Type 0 where
  -- `GET /zones?name=`
  zones_named : Text → Request
  -- `GET /zones/<zone>/dns_records?per_page=100&page=<page>`
  records_page : Text → ℕ → Request
  -- `POST /zones/<zone>/dns_records`
  post_record : Text → CfRecord → Request
  -- `PUT` and `DELETE /zones/<zone>/dns_records/<id>`
  put_record : Text → Text → CfRecord → Request
  remove_record : Text → Text → Request

abbrev pub request_method : Request → Text
request_method (zones_named name) = codes "GET"
request_method (records_page zone page) = codes "GET"
request_method (post_record zone r) = codes "POST"
request_method (put_record zone id r) = codes "PUT"
request_method (remove_record zone id) = codes "DELETE"

abbrev records_path : Text → Text
records_path zone = codes "/zones/" ++ (zone ++ codes "/dns_records")

-- the path up to its query
abbrev request_path : Request → Text
request_path (zones_named name) = codes "/zones"
request_path (records_page zone page) = records_path zone
request_path (post_record zone r) = records_path zone
request_path (put_record zone id r) = records_path zone ++ (codes "/" ++ id)
request_path (remove_record zone id) = records_path zone ++ (codes "/" ++ id)

unfoldable pub path_head : Text → Text
path_head path = (span (λ c. not (c == b'?')) path).0

-- `truncate`, where a byte is a character
unfoldable pub truncate : Text → Text
unfolding clip
truncate s = clip s

-- a zone of the answer to `zones_named`
pub record Zone : Type 0 where
  pub id : Text
  pub name : Text

-- `result`, decoded as the one or as the other list; `none` where that is an error
pub record Payload : Type 0 where
  pub as_zones : Option (List Zone)
  pub as_records : Option (List CfRecord)

-- `cfEnvelope`, with `total_pages` of its `result_info`
pub record Envelope : Type 0 where
  pub success : Bool
  pub errors : List ApiError
  pub payload : Payload
  pub total_pages : Option ℕ

pub data Body : Type 0 where
  no_body : Body
  not_envelope : Text → Body
  envelope : Envelope → Body

-- A status and a body, or no answer at all
abbrev pub Doer : Type 0 → Type 0
Doer W = Request → W → W × Result Text (ℕ × Body)

-- What `api` returns: the page count and the result
pub record Answer : Type 0 where
  pub total_pages : Option ℕ
  pub payload : Payload

unfoldable pub has_code : List ApiError → ℕ → Bool
has_code errs code = any (λ e. e.code == code) errs

unfoldable pub api_error : Text → Text → ℕ → List ApiError → CfError
api_error method path status errs =
    if status == 403 || has_code errs 10000
    then authentication_failed method path status errs
    else if status == 429 || has_code errs 971
    then rate_limited method path status errs
    else http_error method path status errs

abbrev pub is_success : ℕ → Bool
is_success status = leb 200 status && leb status 299

abbrev pub decode_answer : Text → Text → ℕ → Body → Result CfError Answer
decode_answer method path status no_body = err (api_error method path status [])
decode_answer method path status (not_envelope text) =
    if is_success status
    then err (undecoded_response method path)
    else err (bad_status method path status (truncate text))
decode_answer method path status (envelope e) =
    if not (is_success status) || not e.success
    then err (api_error method path status e.errors)
    else ok (record { total_pages = e.total_pages; payload = e.payload })

-- behind `Do`
unfoldable pub read_answer : Request → Result Text (ℕ × Body) → Result CfError Answer
read_answer q (err e) = err (unreachable (request_method q) (path_head (request_path q)) e)
read_answer q (ok (status, body)) =
    decode_answer (request_method q) (path_head (request_path q)) status body

-- `Driver`: its configuration and channel. A listing reads at most `page_limit` pages.
pub record Driver (W : Type 0) : Type 0 where
  pub cfg : Config
  pub doer : Doer W
  pub page_limit : ℕ

-- The cached zone id, empty until it is resolved, and the world
pub record Session (W : Type 0) : Type 0 where
  pub zone_id : Text
  pub world : W

abbrev pub last_page : Option ℕ → ℕ → List CfRecord → Bool
last_page none page recs = true
last_page (some total) page [] = true
last_page (some total) page (r ∷ recs) = leb total page

module _ {W : Type 0} where
  -- the session of `New`
  unfoldable pub new_session : Driver W → W → Session W
  new_session d w = record { zone_id = d.cfg.zone_id; world = w }

  abbrev pub answered :
      Request → Text → W × Result Text (ℕ × Body) → Session W × Result CfError Answer
  answered q zone (w, reply) = (record { zone_id = zone; world = w }, read_answer q reply)

  unfoldable pub api : Driver W → Request → Call (Session W) CfError Answer
  api d q s = answered q s.zone_id (d.doer q s.world)

  abbrev pub cache_zone : Text → Call (Session W) CfError Text
  cache_zone id s = (record { zone_id = id; world = s.world }, ok id)

  abbrev pub chosen_zone : Config → Option Zone → Call (Session W) CfError Text
  chosen_zone cfg none = fail (zone_not_found cfg.zone_name)
  chosen_zone cfg (some z) = cache_zone z.id

  -- the zone of the configured name
  abbrev pub pick_zone : Config → Option (List Zone) → Call (Session W) CfError Text
  pick_zone cfg none = fail undecoded_zones
  pick_zone cfg (some zones) =
      chosen_zone cfg (find (λ z. equal_fold (norm_name z.name) (norm_name cfg.zone_name)) zones)

  unfoldable pub resolve_zone_id : Driver W → Call (Session W) CfError Text
  resolve_zone_id d s =
      if not (s.zone_id == [])
      then (s, ok s.zone_id)
      else if d.cfg.zone_name == []
      then (s, err no_zone)
      else (api d (zones_named (norm_name d.cfg.zone_name)) >>= λ a.
            pick_zone d.cfg a.payload.as_zones)
          s

  -- behind the answer with a page: the loop ends, or goes on with what was read
  abbrev pub turn_page :
      (List CfRecord → Call (Session W) CfError (List CfRecord))
      → Option ℕ
      → ℕ
      → List CfRecord
      → Option (List CfRecord)
      → Call (Session W) CfError (List CfRecord)
  turn_page more total page all none = fail undecoded_records
  turn_page more total page all (some recs) =
      if last_page total page recs then done (all ++ recs) else more (all ++ recs)

  -- the loop of `listZone`, on the pages that may still be read
  unfoldable pub read_pages :
      Driver W → ℕ → Text → ℕ → List CfRecord → Call (Session W) CfError (List CfRecord)
  read_pages d zero zone page all = fail too_many_pages
  read_pages d (suc left) zone page all = api d (records_page zone page) >>= λ a.
      turn_page (read_pages d left zone (page + 1)) a.total_pages page all a.payload.as_records

  unfoldable pub list_zone : Driver W → Call (Session W) CfError (List CfRecord)
  list_zone d = resolve_zone_id d >>= λ zone. read_pages d d.page_limit zone 1 []

  -- a call whose result is not read
  abbrev pub send : Driver W → Request → Call (Session W) CfError (Unit {0})
  send d q = api d q >>= λ a. done tt

  unfoldable pub create_record : Driver W → Record → Call (Session W) CfError (Unit {0})
  create_record d r = resolve_zone_id d >>= λ zone.
      lift (validate_content r) >> send d (post_record zone (new_record d.cfg r))

  unfoldable pub update_record : Driver W → CfRecord → Record → Call (Session W) CfError (Unit {0})
  update_record d target r =
      if not (owned target)
      then fail (not_owned (codes "update") target)
      else resolve_zone_id d >>= λ zone.
          lift (validate_content r)
          >> send d (put_record zone target.id (changed_record d.cfg target r))

  unfoldable pub delete_record : Driver W → CfRecord → Call (Session W) CfError (Unit {0})
  delete_record d target =
      if not (owned target)
      then fail (not_owned (codes "delete") target)
      else resolve_zone_id d >>= λ zone. send d (remove_record zone target.id)
