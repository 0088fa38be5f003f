-- ===== src/Model/LiveStates.antt =====
-- internal/model/model.go: `Unparsed`, `IngressKind`, `PersistenceModel`, `DenyState` and
-- `LiveEdgeState`.
use crenel.Prelude.{
  ℕ, ◌+◌, Bool, true, false, not, ◌&&◌, List, Text, length, any, all, map, equal_fold,
  if◌then◌else◌,
}
use crenel.Model.Routes.{Route}

pub data UnknownKind : Type 0 where
  handler_unrecognized subroute_not_descended matcher_conditional : UnknownKind
  backend_indirect server_not_read foreign_managed ingress_external : UnknownKind
  acknowledged_unknown : UnknownKind

abbrev pub is_acknowledged : UnknownKind → Bool
is_acknowledged acknowledged_unknown = true
is_acknowledged handler_unrecognized = false
is_acknowledged subroute_not_descended = false
is_acknowledged matcher_conditional = false
is_acknowledged backend_indirect = false
is_acknowledged server_not_read = false
is_acknowledged foreign_managed = false
is_acknowledged ingress_external = false

pub record Unparsed : Type 0 where
  pub locator : Text
  pub kind : UnknownKind
  pub reason : Text
  pub raw_excerpt : Text

-- `unset_ingress` is the empty string.
pub data IngressKind : Type 0 where
  unset_ingress public_listener tunnel overlay unknown_ingress : IngressKind

-- `IngressKind.External`
unfoldable pub is_external : IngressKind → Bool
is_external tunnel = true
is_external overlay = true
is_external unknown_ingress = true
is_external public_listener = false
is_external unset_ingress = false

-- `unclassified` is the empty string.
pub data PersistenceModel : Type 0 where
  unclassified durable_config durable_file resume_flag ephemeral_admin : PersistenceModel
  unknown_persistence : PersistenceModel

-- `PersistenceModel.Durable`
unfoldable pub is_durable : PersistenceModel → Bool
is_durable durable_config = true
is_durable durable_file = true
is_durable resume_flag = true
is_durable ephemeral_admin = false
is_durable unknown_persistence = false
is_durable unclassified = false

-- `PersistenceModel.EphemeralWrites`
unfoldable pub ephemeral_writes : PersistenceModel → Bool
ephemeral_writes ephemeral_admin = true
ephemeral_writes unknown_persistence = true
ephemeral_writes durable_config = false
ephemeral_writes durable_file = false
ephemeral_writes resume_flag = false
ephemeral_writes unclassified = false

-- `PersistenceModel.Classified`
unfoldable pub is_classified : PersistenceModel → Bool
is_classified unclassified = false
is_classified durable_config = true
is_classified durable_file = true
is_classified resume_flag = true
is_classified ephemeral_admin = true
is_classified unknown_persistence = true

pub data DenyState : Type 0 where
  deny_missing deny_enforced deny_unknown : DenyState

pub record LiveEdgeState : Type 0 where
  pub routes : List Route
  pub deny_catch_all_present : Bool
  pub unparsed : List Unparsed
  pub generator : Text
  pub ingress_kind : IngressKind
  pub persistence : PersistenceModel
  pub raw : Text

-- `Coverage`: understood, and total
unfoldable pub coverage : LiveEdgeState → ℕ × ℕ
coverage s = (length s.routes, length s.routes + length s.unparsed)

-- `FullyParsed`, over the entries, for `EdgeStatus` has the same method.
unfoldable pub fully_parsed : List Unparsed → Bool
fully_parsed us = all (λ u. is_acknowledged u.kind) us

-- `DenyState`, likewise
unfoldable pub deny_state : Bool → List Unparsed → DenyState
deny_state present us =
    if not present
    then deny_missing
    else if not (fully_parsed us)
    then deny_unknown
    else deny_enforced

unfoldable pub has_host : LiveEdgeState → Text → Bool
has_host s host = any (λ r. equal_fold r.host host) s.routes

-- `Hosts`, before it is sorted
unfoldable pub hosts : LiveEdgeState → List Text
hosts s = map (λ r. r.host) s.routes

unfoldable pub reachable : LiveEdgeState → Text → Bool
reachable s host = s.deny_catch_all_present && has_host s host
