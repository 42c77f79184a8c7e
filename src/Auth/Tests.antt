-- ===== src/Auth/Tests.antt =====
-- The theorems on privaite/middleware/auth.py at concrete inputs.
use priv_ai_te.Prelude.{◌≡◌, ◌↔◌, refl, true, [], ◌∷◌, codes}
use priv_ai_te.Auth.{Settings, call_next, dispatch}
use priv_ai_te.Auth.Laws.{Presents}
use priv_ai_te.Auth.Laws

abbrev settings : Settings
settings = record {
  auth_enabled = true;
  gateway_enabled = true;
  gateway_route_paths = codes "/v1/messages" ∷ [];
  gateway_models_path = codes "/v1/models";
  allowed_keys = codes "k1" ∷ codes "k2" ∷ [];
}

dispatch_iff_example :
    (dispatch settings (codes "/stats") (codes "Bearer k2") ≡ call_next)
    ↔ Presents settings (codes "Bearer k2")
dispatch_iff_example = Laws.dispatch_iff settings (codes "/stats") (codes "Bearer k2") refl
