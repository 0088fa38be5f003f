-- ===== src/Model/Ops.antt =====
-- internal/model/model.go: `Verb`, `RouteMode`, `Scope`, `Op` and `ValidateAuth`.
use crenel.Prelude.{
  Bool, true, false, not, ◌&&◌, ◌||◌, ◌≡◌, ◌↔◌, List, [], Text, codes, ◌==◌, text_eq, Eq, arith,
  if◌then◌else◌, Result, ok, err,
}

pub data Verb : Type 0 where
  expose unexpose rename : Verb

-- `other` is any further string of the Go type.
pub data RouteMode : Type 0 where
  http_proxy tcp_passthrough mesh_grant : RouteMode
  other_mode : Text → RouteMode

pub data Scope : Type 0 where
  internal public : Scope

abbrev pub scope_beq : Scope → Scope → Bool
scope_beq internal internal = true
scope_beq public public = true
scope_beq internal public = false
scope_beq public internal = false

pub scope_beq_iff : (a b : Scope) → (scope_beq a b ≡ true) ↔ (a ≡ b)
scope_beq_iff a b = ground arith

instance abbrev pub scope_eq : Eq Scope
scope_eq = record { same = scope_beq; decides = scope_beq_iff }

abbrev pub is_expose : Verb → Bool
is_expose expose = true
is_expose unexpose = false
is_expose rename = false

abbrev pub is_mesh_grant : RouteMode → Bool
is_mesh_grant mesh_grant = true
is_mesh_grant http_proxy = false
is_mesh_grant tcp_passthrough = false
is_mesh_grant (other_mode m) = false

-- `AuthNone`, `AuthDetected` and `AuthDownstream`
abbrev pub auth_none : Text
auth_none = codes "none"

abbrev pub auth_detected : Text
auth_detected = codes "(detected)"

abbrev pub auth_downstream_marker : Text
auth_downstream_marker = codes "downstream"

-- `ErrAuthUnsupportedForMode` with what its message names: the policy and the mode.
pub record AuthUnsupported : Type 0 where
  pub auth : Text
  pub mode : RouteMode

unfoldable pub validate_auth : RouteMode → Text → Result AuthUnsupported (Unit {0})
validate_auth mode auth = if auth == [] || auth == auth_none then ok tt else elim mode [
  | http_proxy ↦ ok tt
  | tcp_passthrough ↦ err (record { auth = auth; mode = tcp_passthrough })
  | mesh_grant ↦ err (record { auth = auth; mode = mesh_grant })
  | other_mode m ↦ err (record { auth = auth; mode = other_mode m })
]

pub record Op : Type 0 where
  pub verb : Verb
  pub service : Text
  pub host : Text
  pub mode : RouteMode
  pub params : List (Text × Text)
  pub auth : Text
  pub to : Text
  pub edges : List Text
  pub scopes : List Scope
  pub residency : Text

-- `Op{Verb: verb, Service: service, Host: host}`, the other fields at their zero values
abbrev pub plain_op : Verb → Text → Text → Op
plain_op verb service host = record {
  verb = verb;
  service = service;
  host = host;
  mode = http_proxy;
  params = [];
  auth = [];
  to = [];
  edges = [];
  scopes = [];
  residency = [];
}

-- `Op.HasAuthPolicy`
unfoldable pub has_auth_policy : Text → Bool
has_auth_policy auth = not (auth == []) && not (auth == auth_none)
