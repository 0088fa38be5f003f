-- ===== src/Model/Routes.antt =====
-- internal/model/model.go: `Upstream`, `Ownership`, `Route` and `ChainLink`.
use crenel.Prelude.{ℕ, Bool, true, false, Option, Text}
use crenel.Model.Ops.{RouteMode}

pub data UpstreamKind : Type 0 where
  forward_to_origin direct_backend : UpstreamKind

pub record Upstream : Type 0 where
  pub kind : UpstreamKind
  pub mode : RouteMode
  pub address : Text
  pub tls_passthrough : Bool
  pub server_name : Text
  pub upstream_tls : Bool
  pub auth : Text

-- `unset` is the empty string of a route that never came from live state.
pub data Ownership : Type 0 where
  own_crenel own_unmanaged own_foreign own_unknown unset : Ownership

unfoldable pub ownership_from_marker : Bool → Ownership
ownership_from_marker true = own_crenel
ownership_from_marker false = own_unmanaged

-- `Ownership.Mutable`
unfoldable pub is_mutable : Ownership → Bool
is_mutable own_crenel = true
is_mutable own_unmanaged = true
is_mutable unset = true
is_mutable own_foreign = false
is_mutable own_unknown = false

-- The messages of a link that is not resolved, with the edge that they name.
pub data LinkReason : Type 0 where
  no_reason : LinkReason
  not_configured could_not_be_read dangling_forward : Text → LinkReason
  wildcard_relay : ℕ → Text → LinkReason

pub record ChainLink : Type 0 where
  pub downstream_edge : Text
  pub resolved : Bool
  pub downstream_address : Text
  pub downstream_auth : Text
  pub reason : LinkReason

pub record Route : Type 0 where
  pub host : Text
  pub upstream : Upstream
  pub managed : Bool
  pub ownership : Ownership
  pub chain : Option ChainLink
