-- ===== src/Auth/Laws.antt =====
-- Who gets past privaite/middleware/auth.py.
use priv_ai_te.Prelude.{
  ◌≡◌, ◌↔◌, refl, Bool, true, false, not, ◌&&◌, ◌||◌, List, [], ◌∷◌, null, drop, if◌then◌else◌,
  arith, Text, codes, text_eq, text_eq_iff,
}
use priv_ai_te.Prelude.Prefixes.{is_prefix}
use priv_ai_te.Auth.{
  Settings, call_next, call_next_as, no_keys_configured, missing_header, invalid_key, public_paths,
  is_listed, verify_api_key, holds_privaite_key, dispatch,
}

-- A path that is checked: no public one, and with the gateway on none of its routes.
abbrev pub is_guarded : Settings → Text → Bool
is_guarded s path =
    s.auth_enabled
    && not (is_listed path public_paths)
    && not (
        s.gateway_enabled
        && (is_listed path s.gateway_route_paths || text_eq path s.gateway_models_path))

-- The header presents one of the keys.
abbrev pub Presents : Settings → Text → Type 0
Presents s auth_header =
    (is_prefix (codes "Bearer ") auth_header ≡ true)
    × (is_listed (drop 7 auth_header) s.allowed_keys ≡ true)

-- The checks in their order, on what they found.
decision :
    (on public gateway route model empty bearer verified : Bool)
    → (on && not public && not (gateway && (route || model))) ≡ true
    → (empty ≡ true → verified ≡ false)
    → ((if not on
          then call_next
          else if public
          then call_next
          else if gateway && route
          then call_next
          else if gateway && model
          then call_next_as (if empty || not bearer then false else verified)
          else if empty
          then no_keys_configured
          else if not bearer
          then missing_header
          else if verified
          then call_next
          else invalid_key)
        ≡ call_next)
      ↔ ((bearer ≡ true) × (verified ≡ true))
decision on public gateway route model empty bearer verified guarded h = ground arith

null-is_listed : (key : Text) (keys : List Text) → null keys ≡ true → is_listed key keys ≡ false
null-is_listed key [] h = refl
null-is_listed key (k ∷ keys) h = absurd (ground arith)

-- On a checked path, exactly the requests that present one of the keys get through.
pub dispatch_iff :
    (s : Settings) (path auth_header : Text)
    → is_guarded s path ≡ true
    → (dispatch s path auth_header ≡ call_next) ↔ Presents s auth_header
unfolding dispatch verify_api_key holds_privaite_key
dispatch_iff s path auth_header guarded =
    decision s.auth_enabled (is_listed path public_paths) s.gateway_enabled
      (is_listed path s.gateway_route_paths) (text_eq path s.gateway_models_path)
      (null s.allowed_keys) (is_prefix (codes "Bearer ") auth_header)
      (is_listed (drop 7 auth_header) s.allowed_keys) guarded
      (null-is_listed (drop 7 auth_header) s.allowed_keys)

-- With authentication and the gateway on, and a shared path that is neither public nor another route
-- of the gateway, the flag of a request to that path is set exactly if it presents one of the keys.
pub dispatch-models_path :
    (s : Settings) (auth_header : Text)
    → s.auth_enabled ≡ true
    → s.gateway_enabled ≡ true
    → is_listed s.gateway_models_path public_paths ≡ false
    → is_listed s.gateway_models_path s.gateway_route_paths ≡ false
    → (dispatch s s.gateway_models_path auth_header ≡ call_next_as true) ↔ Presents s auth_header
unfolding dispatch holds_privaite_key verify_api_key
dispatch-models_path s auth_header on gateway a b =
    ground (arith, text_eq_iff s.gateway_models_path s.gateway_models_path)
