-- ===== src/Gateway/Anthropic/Derived.antt =====
-- What `scrub_anthropic_request` of privaite/gateway/scrub.py makes of the blocks of a message.
use priv_ai_te.Prelude.{◌≡◌, refl, true, false, Option, none, some, [], ◌∷◌, Text, codes, text_eq}
use priv_ai_te.Json.{Json, Fields, str, obj, field, get_field, text_in}
use priv_ai_te.Mapping.{PiiMapping}
use priv_ai_te.Anonymizer.Extends.{Extends}
use priv_ai_te.Engine.{PiiEngine}
use priv_ai_te.Action.{Action, pure, ◌>>=◌}
use priv_ai_te.Action.Makes.{
  Makes, Makes-pure, Makes-bind, Makes-choose, Makes-on_text, Makes-on_value,
}
use priv_ai_te.Action.Derived.{
  IsDerived, object, FieldsAreDerived, derived_on, fields_derived_on, same_fields,
  set_field-derived, Makes-obj, Makes-same,
}
use priv_ai_te.Messages.{JsonText}
use priv_ai_te.Messages.Derived.{FromObj, Made, Makes-put}
use priv_ai_te.Gateway.{scrub_document, scrub_str, set_present}
use priv_ai_te.Gateway.Derived.{
  Makes-by_kind, scrub_document-Makes, scrub_str-Makes, at_values-Makes, texts-Makes,
}
use priv_ai_te.Gateway.Anthropic.{
  thinking_types, tool_use_types, tool_result_types, anthropic_opaque_types, generic_text_fields,
  generic_data_fields, scrub_tool_use_block, scrub_text_source, scrub_unknown_block, scrub_fields,
}

-- The scrub of a Messages request takes no string for the text of a JSON document.
abbrev pub no_text : JsonText
no_text = record { loads = λ s. none; dumps = λ j. [] }

module _ {S : Type 0} (g : PiiEngine S) where
  -- What is put under a key is derived from what is there.
  abbrev pub FromPart : Text → Fields → PiiMapping → Option Json → Type 0
  FromPart k block m none = Unit
  FromPart k block m (some v) =
      (j : Json) × (get_field k block ≡ some j) × IsDerived g no_text.loads no_text.dumps m j v

  -- And nothing is put only if there is nothing.
  abbrev pub FromContent : Fields → PiiMapping → Option Json → Type 0
  FromContent block m none = get_field (codes "content") block ≡ none
  FromContent block m (some v) =
      (j : Json) × (get_field (codes "content") block ≡ some j)
      × IsDerived g no_text.loads no_text.dumps m j v

  abbrev pub FromValue : Json → PiiMapping → Option Json → Type 0
  FromValue j m none = Unit
  FromValue j m (some v) = IsDerived g no_text.loads no_text.dumps m j v

  pub content_part :
      (block : Fields) (m : PiiMapping) (o : Option Json)
      → FromContent block m o
      → FromPart (codes "content") block m o
  content_part block m none h = tt
  content_part block m (some v) h = h

  pub later_content :
      (k : Text) (j : Json) (fields : Fields) (m : PiiMapping) (o : Option Json)
      → text_eq k (codes "content") ≡ false
      → FromContent fields m o
      → FromContent (field k j fields) m o
  unfolding get_field
  later_content k j fields m none e h = rw e h
  later_content k j fields m (some v) e (i, h, d) = (i, rw e h, d)

  pub first_content :
      (k : Text) (j v : Json) (fields : Fields) (m : PiiMapping)
      → text_eq k (codes "content") ≡ true
      → IsDerived g no_text.loads no_text.dumps m j v
      → FromContent (field k j fields) m (some v)
  unfolding get_field
  first_content k j v fields m e d = (j, rw e refl, d)

  pub later_source :
      (k : Text) (j : Json) (fields : Fields) (m : PiiMapping) (o : Option Json)
      → text_eq k (codes "source") ≡ false
      → FromPart (codes "source") fields m o
      → FromPart (codes "source") (field k j fields) m o
  unfolding get_field
  later_source k j fields m none e h = tt
  later_source k j fields m (some v) e (i, h, d) = (i, rw e h, d)

  pub first_source :
      (k : Text) (j : Json) (fields : Fields) (m : PiiMapping) (o : Option Json)
      → text_eq k (codes "source") ≡ true
      → FromValue j m o
      → FromPart (codes "source") (field k j fields) m o
  unfolding get_field
  first_source k j fields m none e d = tt
  first_source k j fields m (some v) e d = (j, rw e refl, d)

  -- What is derived is put in its place.
  set_present-derived :
      (k : Text) (block new : Fields) (a b : PiiMapping) (o : Option Json)
      → Extends a b
      → FromPart k block a o
      → FieldsAreDerived g no_text.loads no_text.dumps b block new
      → FieldsAreDerived g no_text.loads no_text.dumps b block (set_present k o new)
  set_present-derived k block new a b none x h d = d
  set_present-derived k block new a b (some v) x (j, here, h) d =
      set_field-derived g no_text.loads no_text.dumps b k block new j v d here
        (derived_on g no_text.loads no_text.dumps a b x j v h)

  put_part :
      (k : Text) (block new : Fields) (m0 : PiiMapping) (act : Action (Option Json))
      → Makes m0 (FromPart k block) act
      → FieldsAreDerived g no_text.loads no_text.dumps m0 block new
      → Makes m0 (FromObj g no_text block) (act >>= λ c. pure (obj (set_present k c new)))
  put_part k block new m0 act h d =
      Makes-bind m0 (FromPart k block) (FromObj g no_text block) act _ h (λ c m1 x hc.
        Makes-pure m1 (FromObj g no_text block) (obj (set_present k c new)) (λ m y.
          object block (set_present k c new) (
            set_present-derived k block new m1 m c y hc (
              fields_derived_on g no_text.loads no_text.dumps m0 m (λ f o q. y f o (x f o q)) block
                new d))))

  tool_use_block-Makes :
      (block : Fields) (m0 : PiiMapping)
      → Makes m0 (FromObj g no_text block) (scrub_tool_use_block g block)
  unfolding scrub_tool_use_block
  tool_use_block-Makes block m0 =
      Makes-on_value m0 (FromObj g no_text block) (get_field (codes "input") block) _ _
        (λ j here.
          Makes-put g no_text (codes "input") block j m0 (scrub_document g j) here
            (scrub_document-Makes g no_text.loads no_text.dumps j m0))
        (Makes-same g no_text.loads no_text.dumps (obj block) m0)

  pub text_source-Makes :
      (source : Fields) (m0 : PiiMapping)
      → Makes m0 (FromObj g no_text source) (scrub_text_source g source)
  unfolding scrub_text_source
  text_source-Makes source m0 =
      Makes-on_text m0 (FromObj g no_text source) (get_field (codes "data") source) _ _
        (λ s here.
          Makes-put g no_text (codes "data") source (str s) m0 (scrub_str g s) here
            (scrub_str-Makes g no_text.loads no_text.dumps s m0))
        (Makes-same g no_text.loads no_text.dumps (obj source) m0)

  module _ (block : Fields) (content source : Action (Option Json))
      (kc : (m0 : PiiMapping) → Makes m0 (FromPart (codes "content") block) content)
      (ks : (m0 : PiiMapping) → Makes m0 (FromPart (codes "source") block) source) where
    unknown_block-Makes :
        (m0 : PiiMapping)
        → Makes m0 (FromObj g no_text block) (scrub_unknown_block g block content source)
    unfolding scrub_unknown_block
    unknown_block-Makes m0 =
        Makes-bind m0 (Made g no_text block) (FromObj g no_text block) _ _
          (texts-Makes g no_text.loads no_text.dumps generic_text_fields block block m0
            (same_fields g no_text.loads no_text.dumps m0 block))
          (λ n1 m1 _ d1.
            Makes-bind m1 (Made g no_text block) (FromObj g no_text block) _ _
              (at_values-Makes g no_text.loads no_text.dumps (scrub_document g)
                (scrub_document-Makes g no_text.loads no_text.dumps) generic_data_fields block n1 m1
                d1)
              (λ n2 m2 _ d2.
                Makes-bind m2 (FromPart (codes "content") block) (FromObj g no_text block) content _
                  (kc m2)
                  (λ c m3 x3 h3.
                    put_part (codes "source") block (set_present (codes "content") c n2) m3 source
                      (ks m3)
                      (set_present-derived (codes "content") block n2 m3 m3 c (λ f o q. q) h3
                        (fields_derived_on g no_text.loads no_text.dumps m2 m3 x3 block n2 d2)))))

    pub fields-Makes :
        (m0 : PiiMapping) → Makes m0 (FromObj g no_text block) (scrub_fields g block content source)
    unfolding scrub_fields
    fields-Makes m0 =
        let kind = get_field (codes "type") block in
        let Q = FromObj g no_text block in
        let here = same_fields g no_text.loads no_text.dumps m0 block in
        Makes-by_kind m0 Q kind _ (
          Makes-choose m0 Q (text_in kind thinking_types) _ _
            (Makes-same g no_text.loads no_text.dumps (obj block) m0)
            (Makes-choose m0 Q (text_in kind (codes "text" ∷ [])) _ _
              (Makes-obj g no_text.loads no_text.dumps block m0 _
                (texts-Makes g no_text.loads no_text.dumps (codes "text" ∷ []) block block m0 here))
              (Makes-choose m0 Q (text_in kind tool_use_types) _ _ (tool_use_block-Makes block m0) (
                Makes-choose m0 Q (text_in kind tool_result_types) _ _
                  (put_part (codes "content") block block m0 content (kc m0) here)
                  (Makes-choose m0 Q (text_in kind (codes "document" ∷ [])) _ _
                    (Makes-bind m0 (Made g no_text block) Q _ _
                      (texts-Makes g no_text.loads no_text.dumps
                        (codes "title" ∷ codes "context" ∷ []) block block m0 here)
                      (λ new m1 _ d. put_part (codes "source") block new m1 source (ks m1) d))
                    (Makes-choose m0 Q (text_in kind (codes "search_result" ∷ [])) _ _
                      (Makes-bind m0 (Made g no_text block) Q _ _
                        (texts-Makes g no_text.loads no_text.dumps
                          (codes "title" ∷ codes "source" ∷ []) block block m0 here)
                        (λ new m1 _ d. put_part (codes "content") block new m1 content (kc m1) d))
                      (Makes-choose m0 Q (text_in kind anthropic_opaque_types) _ _
                        (Makes-same g no_text.loads no_text.dumps (obj block) m0)
                        (unknown_block-Makes m0))))))))
