-- ===== src/Auth.antt =====
-- privaite/middleware/auth.py and privaite/utils/security.py: which requests are let through.
mod Laws
mod Tests
use priv_ai_te.Prelude.{
  ℕ, Bool, true, false, not, ◌&&◌, ◌||◌, List, [], ◌∷◌, ◌++◌, null, any, drop, if◌then◌else◌, Text,
  codes, text_eq,
}
use priv_ai_te.Prelude.Prefixes.{is_prefix}

-- What of the configuration, the routes and the environment the decision reads. The keys are the
-- ones that `get_api_keys` reads from PRIVAITE_API_KEYS.
pub record Settings : Type 0 where
  pub auth_enabled : Bool
  pub gateway_enabled : Bool
  pub gateway_route_paths : List Text
  pub gateway_models_path : Text
  pub allowed_keys : List Text

pub data Response : Type 0 where
  -- `call_next`, with `request.state.privaite_client` where it was set.
  call_next : Response
  call_next_as : Bool → Response
  no_keys_configured : Response
  missing_header : Response
  invalid_key : Response

abbrev pub public_paths : List Text
public_paths =
    codes "/health" ∷ codes "/ready" ∷ codes "/docs" ∷ codes "/openapi.json" ∷ codes "/redoc" ∷ []

abbrev pub is_listed : Text → List Text → Bool
is_listed path = any (λ p. text_eq path p)

-- `hmac.compare_digest` is equality, in constant time.
unfoldable pub verify_api_key : Text → List Text → Bool
verify_api_key provided allowed_keys = any (λ key. text_eq provided key) allowed_keys

unfoldable pub holds_privaite_key : Settings → Text → Bool
unfolding verify_api_key
holds_privaite_key settings auth_header =
    if null settings.allowed_keys || not (is_prefix (codes "Bearer ") auth_header)
    then false
    else verify_api_key (drop 7 auth_header) settings.allowed_keys

-- The header is empty where the request has none.
unfoldable pub dispatch : Settings → Text → Text → Response
unfolding verify_api_key holds_privaite_key
dispatch settings path auth_header =
    if not settings.auth_enabled
    then call_next
    else if is_listed path public_paths
    then call_next
    else if settings.gateway_enabled && is_listed path settings.gateway_route_paths
    then call_next
    else if settings.gateway_enabled && text_eq path settings.gateway_models_path
    then call_next_as (holds_privaite_key settings auth_header)
    else if null settings.allowed_keys
    then no_keys_configured
    else if not (is_prefix (codes "Bearer ") auth_header)
    then missing_header
    else if verify_api_key (drop 7 auth_header) settings.allowed_keys
    then call_next
    else invalid_key
