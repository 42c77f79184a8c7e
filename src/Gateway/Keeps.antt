-- ===== src/Gateway/Keeps.antt =====
-- The scrub of privaite/gateway/scrub.py keeps the invariants of the mapping: what its protocols share.
use priv_ai_te.Prelude.{◌||◌, Option, none, some, List, [], ◌∷◌, Text, null, not}
use priv_ai_te.Json.{
  Json, Fields, boolean, number, str, arr, obj, get_field, is_truthy_json, is_hashable,
}
use priv_ai_te.Mapping.{PiiMapping, empty}
use priv_ai_te.Anonymizer.Invariants.{IsInvariant}
use priv_ai_te.Engine.{Result, passed, blocked, unsupported, failed, PiiEngine}
use priv_ai_te.Engine.Documents.{walk_anonymize-Keeps}
use priv_ai_te.Action.{Action, crash, at_texts}
use priv_ai_te.Action.Keeps.{After, Keeps, Keeps-bind, Keeps-on_value, Keeps-choose, Keeps-at_texts}
use priv_ai_te.Gateway.{
  by_kind, scrub_document, scrub_str, discard, gate_document, unless_null, at_values,
}

module _ {S : Type 0} (g : PiiEngine S) (P : PiiMapping → Type 0)
    (i : IsInvariant g.generate g.anonymization P) where
  pub Keeps-by_kind :
      {A : Type 0} (kind : Option Json) (act : Action A) → Keeps P act → Keeps P (by_kind kind act)
  Keeps-by_kind kind act k = Keeps-choose P (is_hashable kind) act crash k (λ m p. tt)

  pub scrub_document-Keeps : (j : Json) → Keeps P (scrub_document g j)
  unfolding scrub_document
  scrub_document-Keeps = walk_anonymize-Keeps g P i

  pub scrub_str-Keeps : (s : Text) → Keeps P (scrub_str g s)
  unfolding scrub_str
  scrub_str-Keeps s = scrub_document-Keeps (str s)

  discard-After : (r : Result (Json × PiiMapping)) (m : PiiMapping) → P m → After P (discard g r m)
  unfolding discard
  discard-After (passed r) m p = p
  discard-After (blocked ts) m p = tt
  discard-After unsupported m p = tt
  discard-After failed m p = tt

  pub gate_document-Keeps : (o : Option Json) → Keeps P (gate_document g o)
  unfolding gate_document
  gate_document-Keeps none = λ m p. p
  gate_document-Keeps (some v) =
      Keeps-choose P (null g.block_entities || not (is_truthy_json v)) _ _ (λ m p. p)
        (λ m p. discard-After (scrub_document g v empty) m p)

  unless_null-Keeps :
      (f : Json → Action Json) (new : Fields) (k : Text) (j : Json)
      → ((j : Json) → Keeps P (f j))
      → Keeps P (unless_null g f new k j)
  unless_null-Keeps f new k Json.null kf = λ m p. p
  unless_null-Keeps f new k (boolean b) kf = Keeps-bind P _ _ (kf (boolean b)) (λ j' m p. p)
  unless_null-Keeps f new k (number n) kf = Keeps-bind P _ _ (kf (number n)) (λ j' m p. p)
  unless_null-Keeps f new k (str s) kf = Keeps-bind P _ _ (kf (str s)) (λ j' m p. p)
  unless_null-Keeps f new k (arr items) kf = Keeps-bind P _ _ (kf (arr items)) (λ j' m p. p)
  unless_null-Keeps f new k (obj fields) kf = Keeps-bind P _ _ (kf (obj fields)) (λ j' m p. p)

  pub at_values-Keeps :
      (ks : List Text) (f : Json → Action Json) (block new : Fields)
      → ((j : Json) → Keeps P (f j))
      → Keeps P (at_values g ks f block new)
  unfolding at_values
  at_values-Keeps [] f block new kf = λ m p. p
  at_values-Keeps (k ∷ ks) f block new kf =
      Keeps-bind P _ _
        (Keeps-on_value P (get_field k block) _ _ (λ j. unless_null-Keeps f new k j kf) (λ m p. p))
        (λ next. at_values-Keeps ks f block next kf)

  pub texts-Keeps :
      (ks : List Text) (block new : Fields) → Keeps P (at_texts ks (scrub_str g) block new)
  texts-Keeps ks block new = Keeps-at_texts P ks (scrub_str g) block new scrub_str-Keeps
