-- ===== src/Model/AuthRule.antt =====
-- `ValidateAuth` against the rule that it states.
use crenel.Prelude.{◌≡◌, ◌↔◌, ◌⊎◌, ok, arith, false, Text}
use crenel.Model.Ops.{RouteMode, http_proxy, validate_auth, has_auth_policy}

-- `ValidateAuth` accepts an op exactly if it attaches no real policy (the auth is "" or "none"),
-- or its mode is the HTTP proxy.
pub validate_auth_iff :
    (mode : RouteMode) (auth : Text)
    → (validate_auth mode auth ≡ ok tt) ↔ ((has_auth_policy auth ≡ false) ⊎ (mode ≡ http_proxy))
unfolding validate_auth has_auth_policy
validate_auth_iff mode auth = ground arith
