-- ===== src/Gateway/Derived.antt =====
-- What the scrub of privaite/gateway/scrub.py makes of a value, for both of its protocols.
use priv_ai_te.Prelude.{◌≡◌, ◌||◌, Option, none, some, List, [], ◌∷◌, Text, null, not}
use priv_ai_te.Json.{
  Json, Fields, boolean, number, str, arr, obj, get_field, is_truthy_json, is_hashable,
}
use priv_ai_te.Mapping.{PiiMapping, empty}
use priv_ai_te.Anonymizer.Coherent.{IsCoherent}
use priv_ai_te.Engine.{Result, passed, blocked, unsupported, failed, PiiEngine, walk_anonymize}
use priv_ai_te.Engine.Traced.{Post, IsTraced}
use priv_ai_te.Action.{Action, crash, at_texts}
use priv_ai_te.Action.Makes.{
  Grows, Makes, Makes-pure, Makes-implied, Makes-bind, Makes-crash, Makes-choose, Makes-on_value,
}
use priv_ai_te.Action.Derived.{
  traced, From, FromFields, FieldsAreDerived, Scrubs, ScrubsText, Makes-set, Makes-unchanged,
  Makes-at_texts, walk_anonymize-Makes,
}
use priv_ai_te.Gateway.{
  by_kind, scrub_document, scrub_str, discard, gate_document, unless_null, at_values,
}

pub Makes-by_kind :
    {A : Type 0} (m0 : PiiMapping) (Q : PiiMapping → A → Type 0) (kind : Option Json)
    (act : Action A)
    → Makes m0 Q act
    → Makes m0 Q (by_kind kind act)
Makes-by_kind m0 Q kind act k = Makes-choose m0 Q (is_hashable kind) act crash k (Makes-crash m0 Q)

module _ {S : Type 0} (g : PiiEngine S) where
  -- The gate leaves the mapping as it is.
  abbrev pub Gated : PiiMapping → Unit {0} → Type 0
  Gated m u = Unit

  discard-Grows :
      (r : Result (Json × PiiMapping)) (m : PiiMapping)
      → IsCoherent m
      → Post (Grows m Gated) (discard g r m)
  unfolding discard
  discard-Grows (passed r) m c = (c, λ f o q. q, tt)
  discard-Grows (blocked ts) m c = tt
  discard-Grows unsupported m c = tt
  discard-Grows failed m c = tt

  pub gate_document-Makes : (o : Option Json) (m0 : PiiMapping) → Makes m0 Gated (gate_document g o)
  unfolding gate_document
  gate_document-Makes none m0 = Makes-pure m0 Gated tt (λ m y. tt)
  gate_document-Makes (some v) m0 =
      Makes-choose m0 Gated (null g.block_entities || not (is_truthy_json v)) _ _
        (Makes-pure m0 Gated tt (λ m y. tt)) (λ m x c. discard-Grows (scrub_document g v empty) m c)

  module _ (loads : Text → Option Json) (dumps : Json → Text) where
    pub scrub_document-Makes : Scrubs g loads dumps (scrub_document g)
    unfolding scrub_document
    scrub_document-Makes j m0 =
        Makes-implied m0 (λ m out. IsTraced g m j out) (From g loads dumps j) (walk_anonymize g j)
          (λ n out h. traced j out h) (walk_anonymize-Makes g loads dumps j m0)

    pub scrub_str-Makes : ScrubsText g loads dumps (scrub_str g)
    unfolding scrub_str
    scrub_str-Makes s m0 = scrub_document-Makes (str s) m0

    module _ (f : Json → Action Json) (kf : Scrubs g loads dumps f) where
      unless_null-Makes :
          (block new : Fields) (k : Text) (j : Json) (m0 : PiiMapping)
          → FieldsAreDerived g loads dumps m0 block new
          → get_field k block ≡ some j
          → Makes m0 (FromFields g loads dumps block) (unless_null g f new k j)
      unless_null-Makes block new k Json.null m0 d h = Makes-unchanged g loads dumps block new m0 d
      unless_null-Makes block new k (boolean b) m0 d h =
          Makes-set g loads dumps k block new (boolean b) m0 _ d h (kf (boolean b) m0)
      unless_null-Makes block new k (number n) m0 d h =
          Makes-set g loads dumps k block new (number n) m0 _ d h (kf (number n) m0)
      unless_null-Makes block new k (str s) m0 d h =
          Makes-set g loads dumps k block new (str s) m0 _ d h (kf (str s) m0)
      unless_null-Makes block new k (arr items) m0 d h =
          Makes-set g loads dumps k block new (arr items) m0 _ d h (kf (arr items) m0)
      unless_null-Makes block new k (obj fields) m0 d h =
          Makes-set g loads dumps k block new (obj fields) m0 _ d h (kf (obj fields) m0)

      pub at_values-Makes :
          (ks : List Text) (block new : Fields) (m0 : PiiMapping)
          → FieldsAreDerived g loads dumps m0 block new
          → Makes m0 (FromFields g loads dumps block) (at_values g ks f block new)
      unfolding at_values
      at_values-Makes [] block new m0 d = Makes-unchanged g loads dumps block new m0 d
      at_values-Makes (k ∷ ks) block new m0 d =
          Makes-bind m0 (FromFields g loads dumps block) _ _ _
            (Makes-on_value m0 (FromFields g loads dumps block) (get_field k block) _ _
              (λ j here. unless_null-Makes block new k j m0 d here)
              (Makes-unchanged g loads dumps block new m0 d))
            (λ next m1 x d1. at_values-Makes ks block next m1 d1)

    pub texts-Makes :
        (ks : List Text) (block new : Fields) (m0 : PiiMapping)
        → FieldsAreDerived g loads dumps m0 block new
        → Makes m0 (FromFields g loads dumps block) (at_texts ks (scrub_str g) block new)
    texts-Makes ks block new m0 d =
        Makes-at_texts g loads dumps ks (scrub_str g) block new m0 scrub_str-Makes d
