-- ===== src/Dns/AdGuard/Rewrites.antt =====
-- internal/drivers/dns/adguard/adguard.go: names, targets and the change that `Diff` computes.
use crenel.Prelude.{
  ℕ, pos, Bool, false, not, ◌||◌, List, [], ◌∷◌, ◌++◌, Text, codes, contains, has_suffix,
  trim_suffix, to_lower, equal_fold, ◌==◌, text_eq, nat_eq, if◌then◌else◌, Result, ok, err, ◌>>=◌,
  ◌>>◌, Option, some, none,
}
use crenel.Model.{Record, Scope, DnsChange, Op, Verb, expose, unexpose, rename}
use crenel.Dns.Ip.{family_of, ipv4, ipv6, no_address}

-- `rewrite`
pub record Rewrite : Type 0 where
  pub domain : Text
  pub answer : Text

-- The keys of `targets` are distinct.
pub record Config : Type 0 where
  pub zone : Text
  pub scope : Scope
  pub edge_addr : Text
  pub targets : List (Text × Text)
  pub instance_name : Text
  pub zone_in_name : Bool

-- The errors of the driver, with what their messages name
pub data AgError : Type 0 where
  no_host : AgError
  no_target : Text → Text → AgError
  refuse_wildcard : Text → Text → AgError
  outside_zone : Text → Text → Text → AgError
  conflicting_rewrite : Text → Text → Text → Text → AgError
  unknown_verb : AgError
  unreachable : Text → Text → AgError
  undecoded_list : AgError
  authentication_failed rate_limited http_error : Text → ℕ → Text → AgError

unfoldable pub norm_name : Text → Text
norm_name s = to_lower (trim_suffix s (codes "."))

unfoldable pub under_zone : Text → Text → Bool
under_zone name zone =
    let n = norm_name name in
    let z = norm_name zone in if z == [] then false else n == z || has_suffix n (b'.' ∷ z)

-- `Name`
unfoldable pub driver_name : Config → Text
driver_name cfg =
    let name =
      if cfg.instance_name == []
      then codes "adguard"
      else codes "adguard[" ++ (cfg.instance_name ++ codes "]") in
    if cfg.zone_in_name then name ++ (b'/' ∷ cfg.zone) else name

unfoldable pub record_type : Text → Text
record_type answer = elim (family_of answer) [
  | ipv4 ↦ codes "A"
  | ipv6 ↦ codes "AAAA"
  | no_address ↦ codes "CNAME"
]

abbrev pub target_of : List (Text × Text) → Text → Text
target_of [] class = []
target_of ((key, addr) ∷ rest) class = if key == class then addr else target_of rest class

unfoldable pub residency_target : Config → Text → Result AgError Text
residency_target cfg class =
    if class == []
    then ok cfg.edge_addr
    else if not (target_of cfg.targets class == [])
    then ok (target_of cfg.targets class)
    else err (no_target (driver_name cfg) class)

abbrev pub record_for : Config → Text → Text → Record
record_for cfg name answer = record {
  name = name;
  record_type = record_type answer;
  value = answer;
  scope = cfg.scope;
  ttl = pos 0;
  proxied = false;
}

unfoldable pub desired_records : Config → Op → Result AgError (List Record)
desired_records cfg op =
    if op.host == []
    then err no_host
    else residency_target cfg op.residency >>= λ target. ok (record_for cfg op.host target ∷ [])

-- the rewrites of the zone
unfoldable pub zone_records : Config → List Rewrite → List Record
zone_records cfg [] = []
zone_records cfg (r ∷ rest) =
    let records = zone_records cfg rest in
    if under_zone r.domain cfg.zone then record_for cfg r.domain r.answer ∷ records else records

unfoldable pub guard : Config → Text → Result AgError (Unit {0})
guard cfg name =
    if contains name b'*'
    then err (refuse_wildcard (driver_name cfg) name)
    else if not (under_zone name cfg.zone)
    then err (outside_zone (driver_name cfg) name cfg.zone)
    else ok tt

unfoldable pub guard_all : Config → List Record → Result AgError (Unit {0})
guard_all cfg [] = ok tt
guard_all cfg (r ∷ rs) = guard cfg r.name >> guard_all cfg rs

-- `liveByName`, where the later record of a name wins
unfoldable pub live_by_name : List Record → Text → Option Record
live_by_name [] name = none
live_by_name (r ∷ rs) name = elim (live_by_name rs name) [
  | some later ↦ some later
  | none ↦ if norm_name r.name == norm_name name then some r else none
]

abbrev pub addition : Config → Record → Option Record → Result AgError (List Record)
addition cfg r none = ok (r ∷ [])
addition cfg r (some cur) =
    if equal_fold cur.value r.value
    then ok []
    else err (conflicting_rewrite (driver_name cfg) r.name cur.value r.value)

unfoldable pub additions : Config → List Record → List Record → Result AgError (List Record)
additions cfg live [] = ok []
additions cfg live (r ∷ rs) = addition cfg r (live_by_name live r.name) >>= λ add.
    additions cfg live rs >>= λ rest. ok (add ++ rest)

abbrev pub removal : Record → Option Record → List Record
removal r none = []
removal r (some cur) = if equal_fold cur.value r.value then r ∷ [] else []

unfoldable pub removals : List Record → List Record → List Record
removals live [] = []
removals live (r ∷ rs) = removal r (live_by_name live r.name) ++ removals live rs

abbrev pub add_line : Record → Text
add_line r = codes "+ ADD rewrite " ++ (r.name ++ (codes " -> " ++ (r.value ++ (10 ∷ []))))

abbrev pub remove_line : Record → Text
remove_line r = codes "- DELETE rewrite " ++ (r.name ++ (codes " -> " ++ (r.value ++ (10 ∷ []))))

abbrev pub lines : (Record → Text) → List Record → Text
lines line [] = []
lines line (r ∷ rs) = line r ++ lines line rs

unfoldable pub render_preview : DnsChange → Text
render_preview change =
    let text = lines add_line change.add ++ lines remove_line change.remove in
    if text == [] then codes "No changes." ++ (10 ∷ []) else text

abbrev pub rendered_change : Config → List Record → List Record → DnsChange
rendered_change cfg add remove =
    let change : DnsChange = record {
      scope = cfg.scope;
      add = add;
      remove = remove;
      managed = [];
      rendered = [];
    } in
    record change { rendered = render_preview change }

unfoldable pub change_for : Config → List Record → Verb → List Record → Result AgError DnsChange
change_for cfg live expose desired =
    additions cfg live desired >>= λ add. ok (rendered_change cfg add [])
change_for cfg live unexpose desired = ok (rendered_change cfg [] (removals live desired))
change_for cfg live rename desired = err unknown_verb
