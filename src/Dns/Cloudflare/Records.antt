-- ===== src/Dns/Cloudflare/Records.antt =====
-- internal/drivers/dns/cloudflare/cloudflare.go: the records, their ownership marker and their names.
use crenel.Prelude.{
  ℤ, pos, leb_ℤ, ℕ, Bool, false, not, ◌&&◌, ◌||◌, List, [], ◌∷◌, ◌++◌, Text, codes, contains,
  has_prefix, has_suffix, trim_space, trim_suffix, to_lower, to_upper, ◌==◌, nat_eq, text_eq,
  if◌then◌else◌, Result, ok, err,
}
use crenel.Model.{Record, Scope, DnsChange, Op}
use crenel.Dns.Ip.{family_of, ipv4, ipv6, no_address}

-- `cfRecord`
pub record CfRecord : Type 0 where
  pub id : Text
  pub record_type : Text
  pub name : Text
  pub content : Text
  pub ttl : ℤ
  pub proxied : Bool
  pub comment : Text

pub record Config : Type 0 where
  pub zone_name : Text
  pub zone_id : Text
  pub scope : Scope
  pub edge_addr : Text
  pub proxied : Bool
  pub ttl : ℤ
  pub zone_in_name : Bool

abbrev pub marker_prefix : Text
marker_prefix = codes "managed-by:crenel"

unfoldable pub owned : CfRecord → Bool
owned r =
    let c = trim_space r.comment in c == marker_prefix || has_prefix c (marker_prefix ++ codes " ")

unfoldable pub norm_name : Text → Text
norm_name s = to_lower (trim_suffix (trim_space s) (codes "."))

unfoldable pub marker_for : Text → Text
marker_for name = marker_prefix ++ (codes " host=" ++ norm_name name)

unfoldable pub fqdn : Text → Text → Text
fqdn name zone =
    let n = norm_name name in
    let z = norm_name zone in
    if z == [] || n == z || has_suffix n (b'.' ∷ z) then n else n ++ (b'.' ∷ z)

unfoldable pub under_zone : Text → Text → Bool
under_zone name zone =
    let n = norm_name name in
    let z = norm_name zone in if z == [] then false else n == z || has_suffix n (b'.' ∷ z)

unfoldable pub ttl_or_auto : ℤ → ℤ
ttl_or_auto ttl = if leb_ℤ ttl (pos 0) then pos 1 else ttl

unfoldable pub ttl_for_proxied : ℤ → Bool → ℤ
ttl_for_proxied ttl proxied = if proxied then pos 1 else ttl_or_auto ttl

-- `cfAPIError`
pub record ApiError : Type 0 where
  pub code : ℕ
  pub message : Text

-- the body of `createRecord`
unfoldable pub new_record : Config → Record → CfRecord
new_record cfg r = record {
  id = [];
  record_type = to_upper r.record_type;
  name = fqdn r.name cfg.zone_name;
  content = r.value;
  ttl = ttl_for_proxied cfg.ttl cfg.proxied;
  proxied = cfg.proxied;
  comment = marker_for r.name;
}

-- the body of `updateRecord`
unfoldable pub changed_record : Config → CfRecord → Record → CfRecord
changed_record cfg target r = record {
  id = [];
  record_type = to_upper r.record_type;
  name = fqdn r.name cfg.zone_name;
  content = r.value;
  ttl = ttl_for_proxied target.ttl target.proxied;
  proxied = target.proxied;
  comment = if target.comment == [] then marker_for r.name else target.comment;
}

-- The errors of the driver, with what their messages name
pub data CfError : Type 0 where
  no_host no_zone : CfError
  undecoded_zones undecoded_records : CfError
  zone_not_found : Text → CfError
  refuse_wildcard : Text → CfError
  outside_zone : Text → Text → CfError
  foreign_conflict : Record → List Text → CfError
  many_owned : Record → ℕ → CfError
  not_owned : Text → CfRecord → CfError
  invalid_ipv4 invalid_ipv6 : Text → CfError
  unknown_verb : CfError
  -- the method and the path up to its query
  unreachable : Text → Text → Text → CfError
  undecoded_response : Text → Text → CfError
  bad_status : Text → Text → ℕ → Text → CfError
  authentication_failed rate_limited http_error : Text → Text → ℕ → List ApiError → CfError
  -- the listing ran out of the pages it may read
  too_many_pages : CfError

unfoldable pub guard : Config → Text → Result CfError (Unit {0})
guard cfg name =
    if contains name b'*'
    then err (refuse_wildcard name)
    else if under_zone (norm_name name) cfg.zone_name || not (contains (norm_name name) b'.')
    then ok tt
    else err (outside_zone name cfg.zone_name)

-- the records at a name and of a type
unfoldable pub at_name : Config → Text → Text → CfRecord → Bool
at_name cfg name typ r =
    fqdn r.name cfg.zone_name == fqdn name cfg.zone_name && to_upper r.record_type == to_upper typ

-- `partition`: ours, and foreign
unfoldable pub partition : Config → List CfRecord → Text → Text → List CfRecord × List CfRecord
partition cfg [] name typ = ([], [])
partition cfg (r ∷ all) name typ =
    let (ours, foreign) = partition cfg all name typ in
    if not (at_name cfg name typ r)
    then (ours, foreign)
    else if owned r
    then (r ∷ ours, foreign)
    else (ours, r ∷ foreign)

unfoldable pub validate_content : Record → Result CfError (Unit {0})
validate_content r =
    if to_upper r.record_type == codes "A"
    then elim (family_of r.value) [
      | ipv4 ↦ ok tt
      | ipv6 ↦ err (invalid_ipv4 r.value)
      | no_address ↦ err (invalid_ipv4 r.value)
    ]
    else if to_upper r.record_type == codes "AAAA"
    then elim (family_of r.value) [
      | ipv4 ↦ err (invalid_ipv6 r.value)
      | ipv6 ↦ ok tt
      | no_address ↦ err (invalid_ipv6 r.value)
    ]
    else ok tt

unfoldable pub to_model : CfRecord → Scope → Record
to_model r scope = record {
  name = norm_name r.name;
  record_type = to_upper r.record_type;
  value = r.content;
  scope = scope;
  ttl = r.ttl;
  proxied = r.proxied;
}

unfoldable pub desired_records : Config → Op → Result CfError (List Record)
desired_records cfg op =
    if op.host == []
    then err no_host
    else ok (
        record {
          name = fqdn op.host cfg.zone_name;
          record_type = codes "A";
          value = cfg.edge_addr;
          scope = cfg.scope;
          ttl = pos 0;
          proxied = false;
        }
        ∷ [])

-- `Name`
unfoldable pub driver_name : Config → Text
driver_name cfg =
    if cfg.zone_in_name then codes "cloudflare-api/" ++ cfg.zone_name else codes "cloudflare-api"

abbrev pub add_line : Record → Text
add_line r =
    codes "+ CREATE/UPDATE "
    ++ (r.record_type
        ++ (codes " "
            ++ (r.name
                ++ (codes " -> "
                    ++ (r.value ++ (codes " [" ++ (marker_prefix ++ (codes "]" ++ (10 ∷ [])))))))))

abbrev pub remove_line : Record → Text
remove_line r =
    codes "- DELETE "
    ++ (r.record_type
        ++ (codes " "
            ++ (r.name ++ (codes " -> " ++ (r.value ++ (codes " [owned]" ++ (10 ∷ [])))))))

abbrev pub lines : (Record → Text) → List Record → Text
lines line [] = []
lines line (r ∷ rs) = line r ++ lines line rs

unfoldable pub render_preview : DnsChange → Text
render_preview change =
    let text = lines add_line change.add ++ lines remove_line change.remove in
    if text == [] then codes "No changes." ++ (10 ∷ []) else text
