-- ===== src/Gateway/Responses/Whole.antt =====
-- `scrub_responses_request` of privaite/gateway/scrub.py: the body that it makes, beside the one that it was given,
-- and the mapping at its end.
use priv_ai_te.Prelude.{
  ◌≡◌, Bool, true, false, Option, none, some, List, [], ◌∷◌, Text, codes, text_eq, refl,
}
use priv_ai_te.Prelude.Dicts.{lookup}
use priv_ai_te.Json.{
  Json, Fields, boolean, number, str, arr, obj, nil, item, end, field, get_field, set_field,
  has_field, text_in, is_zero,
}
use priv_ai_te.Mapping.{PiiMapping, empty, reserve}
use priv_ai_te.Anonymizer.Coherent.{IsCoherent}
use priv_ai_te.Engine.{PiiEngine, passed}
use priv_ai_te.Engine.Traced.{Post-passed}
use priv_ai_te.Action.{Action, pure, crash, ◌>>=◌, choose, each_item, each_field}
use priv_ai_te.Action.Makes.{
  Grows, Makes, Makes-pure, Makes-bind, Makes-crash, Makes-choose, Makes-on_text, Makes-on_fields,
  Makes-on_value,
}
use priv_ai_te.Action.Derived.{
  object, FieldsAreDerived, fields_derived_on, same_fields, set_field-derived, Makes-set,
  Makes-set_items, Makes-obj, Makes-same, Makes-unchanged, Makes-each_item, Makes-each_field,
}
use priv_ai_te.Messages.{JsonText}
use priv_ai_te.Messages.Keeps.{reserved-IsCoherent, empty-IsCoherent}
use priv_ai_te.Messages.Derived.{ScrubsEach, FromObj, Made, Makes-put, anonymize_arguments-Makes}
use priv_ai_te.Gateway.{at_values, gate_document}
use priv_ai_te.Gateway.Derived.{Gated, gate_document-Makes, scrub_str-Makes, at_values-Makes}
use priv_ai_te.Gateway.Responses.{
  opaque_types, data_fields, ends_with, on_type, scrub_data_value, scrub_output_item,
  scrub_data_item, scrub_custom_tool_call, scrub_typed_item, scrub_kind, scrub_responses_item,
  scrub_input, scrub_prompt, scrub_responses_request,
}
use priv_ai_te.Gateway.Responses.Derived.{
  data_value-Makes, responses_content-Makes, generic_item-Makes,
}

module _ (m0 : PiiMapping) (Q : PiiMapping → Json → Type 0) where
  on_number-Makes :
      (b : Bool) (act : Action Json) → Makes m0 Q act → Makes m0 Q (choose b act crash)
  on_number-Makes b act k = Makes-choose m0 Q b act crash k (Makes-crash m0 Q)

  Makes-on_type :
      (o : Option Json) (f : Text → Action Json)
      → ((s : Text) → Makes m0 Q (f s))
      → Makes m0 Q (on_type o f)
  Makes-on_type none f k = k []
  Makes-on_type (some (str s)) f k = k s
  Makes-on_type (some Json.null) f k = k []
  Makes-on_type (some (boolean true)) f k = Makes-crash m0 Q
  Makes-on_type (some (boolean false)) f k = k []
  Makes-on_type (some (number n)) f k = on_number-Makes (is_zero n) (f []) (k [])
  Makes-on_type (some (arr nil)) f k = k []
  Makes-on_type (some (arr (item j items))) f k = Makes-crash m0 Q
  Makes-on_type (some (obj end)) f k = k []
  Makes-on_type (some (obj (field n j fields))) f k = Makes-crash m0 Q

module _ {S : Type 0} (g : PiiEngine S) (json : JsonText) where
  module _ (kind : Text) (fields : Fields) (m0 : PiiMapping) where
    output_item-Makes : Makes m0 (FromObj g json fields) (scrub_output_item g json kind fields)
    unfolding scrub_output_item
    output_item-Makes =
        Makes-choose m0 (FromObj g json fields) (ends_with (codes "_output") kind) _ _
          (Makes-on_value m0 (FromObj g json fields) (get_field (codes "output") fields) _ _
            (λ output here.
              Makes-put g json (codes "output") fields output m0 _ here
                (data_value-Makes g json output m0))
            (generic_item-Makes g json fields m0))
          (generic_item-Makes g json fields m0)

    data_item-Makes : Makes m0 (FromObj g json fields) (scrub_data_item g json kind fields)
    unfolding scrub_data_item
    data_item-Makes = at_names (lookup kind data_fields)
      where
        at_names :
            (o : Option (List Text))
            → Makes m0 (FromObj g json fields) (elim o [
              | none ↦ scrub_output_item g json kind fields
              | some names ↦ at_values g names (scrub_data_value g json) fields fields >>= λ new.
                  pure (obj new)
            ])
        at_names none = output_item-Makes
        at_names (some names) = Makes-obj g json.loads json.dumps fields m0 _ (
            at_values-Makes g json.loads json.dumps (scrub_data_value g json)
              (data_value-Makes g json) names fields fields m0
              (same_fields g json.loads json.dumps m0 fields))

    custom_tool_call-Makes :
        Makes m0 (FromObj g json fields) (scrub_custom_tool_call g json kind fields)
    unfolding scrub_custom_tool_call
    custom_tool_call-Makes =
        Makes-choose m0 (FromObj g json fields) (text_eq kind (codes "custom_tool_call")) _ _
          (Makes-on_text m0 (FromObj g json fields) (get_field (codes "input") fields) _ _
            (λ s here.
              Makes-put g json (codes "input") fields (str s) m0 _ here
                (scrub_str-Makes g json.loads json.dumps s m0))
            data_item-Makes)
          data_item-Makes

    typed_item-Makes : Makes m0 (FromObj g json fields) (scrub_typed_item g json kind fields)
    unfolding scrub_typed_item
    typed_item-Makes =
        Makes-choose m0 (FromObj g json fields) (text_eq kind (codes "function_call")) _ _
          (Makes-on_text m0 (FromObj g json fields) (get_field (codes "arguments") fields) _ _
            (λ s here.
              Makes-put g json (codes "arguments") fields (str s) m0 _ here
                (anonymize_arguments-Makes g json s m0))
            custom_tool_call-Makes)
          custom_tool_call-Makes

    kind-Makes : Makes m0 (FromObj g json fields) (scrub_kind g json kind fields)
    unfolding scrub_kind
    kind-Makes =
        Makes-choose m0 (FromObj g json fields) (text_in (some (str kind)) opaque_types) _ _
          (Makes-same g json.loads json.dumps (obj fields) m0) typed_item-Makes

  item-Makes : ScrubsEach g json (scrub_responses_item g json)
  unfolding scrub_responses_item
  item-Makes (str s) m0 = scrub_str-Makes g json.loads json.dumps s m0
  item-Makes (obj fields) m0 =
      let typed =
        Makes-on_type m0 (FromObj g json fields) (get_field (codes "type") fields)
          (λ kind. scrub_kind g json kind fields) (λ kind. kind-Makes kind fields m0) in
      Makes-choose m0 (FromObj g json fields) (has_field (codes "role") fields) _ _
        (Makes-on_value m0 (FromObj g json fields) (get_field (codes "content") fields) _ _
          (λ content here.
            Makes-put g json (codes "content") fields content m0 _ here
              (responses_content-Makes g json content m0))
          typed)
        typed
  item-Makes (arr items) m0 = Makes-same g json.loads json.dumps (arr items) m0
  item-Makes (number n) m0 = Makes-same g json.loads json.dumps (number n) m0
  item-Makes (boolean b) m0 = Makes-same g json.loads json.dumps (boolean b) m0
  item-Makes Json.null m0 = Makes-same g json.loads json.dumps Json.null m0

  input-Makes :
      (body : Fields) (o : Option Json) (m0 : PiiMapping)
      → get_field (codes "input") body ≡ o
      → Makes m0 (Made g json body) (scrub_input g json body o)
  unfolding scrub_input
  input-Makes body (some (str (c ∷ s))) m0 h =
      Makes-set g json.loads json.dumps (codes "input") body body (str (c ∷ s)) m0 _
        (same_fields g json.loads json.dumps m0 body) h
        (scrub_str-Makes g json.loads json.dumps (c ∷ s) m0)
  input-Makes body (some (arr items)) m0 h =
      Makes-set_items g json.loads json.dumps (codes "input") body items m0
        (each_item (scrub_responses_item g json) items) h
        (Makes-each_item g json.loads json.dumps (scrub_responses_item g json) item-Makes items m0)
  input-Makes body none m0 h =
      Makes-unchanged g json.loads json.dumps body body m0
        (same_fields g json.loads json.dumps m0 body)
  input-Makes body (some (str [])) m0 h =
      Makes-unchanged g json.loads json.dumps body body m0
        (same_fields g json.loads json.dumps m0 body)
  input-Makes body (some (obj fs)) m0 h =
      Makes-unchanged g json.loads json.dumps body body m0
        (same_fields g json.loads json.dumps m0 body)
  input-Makes body (some (number n)) m0 h =
      Makes-unchanged g json.loads json.dumps body body m0
        (same_fields g json.loads json.dumps m0 body)
  input-Makes body (some (boolean b)) m0 h =
      Makes-unchanged g json.loads json.dumps body body m0
        (same_fields g json.loads json.dumps m0 body)
  input-Makes body (some Json.null) m0 h =
      Makes-unchanged g json.loads json.dumps body body m0
        (same_fields g json.loads json.dumps m0 body)

  prompt-Makes :
      (body new : Fields) (m0 : PiiMapping)
      → FieldsAreDerived g json.loads json.dumps m0 body new
      → Makes m0 (Made g json body) (scrub_prompt g json (get_field (codes "prompt") body) new)
  unfolding scrub_prompt
  prompt-Makes body new m0 d =
      Makes-on_fields m0 (Made g json body) (get_field (codes "prompt") body) _ _
        (λ p here.
          Makes-on_fields m0 (Made g json body) (get_field (codes "variables") p) _ _
            (λ variables inside.
              Makes-bind m0 _ _ (each_field (scrub_data_value g json) variables) _
                (Makes-each_field g json.loads json.dumps (scrub_data_value g json)
                  (data_value-Makes g json) variables m0)
                (λ fs m1 x h.
                  Makes-pure m1 (Made g json body)
                    (set_field (codes "prompt") (obj (set_field (codes "variables") (obj fs) p))
                      new)
                    (λ m y.
                      set_field-derived g json.loads json.dumps m (codes "prompt") body new (obj p)
                        (obj (set_field (codes "variables") (obj fs) p))
                        (fields_derived_on g json.loads json.dumps m0 m (λ f o q. y f o (x f o q))
                          body new d)
                        here
                        (object p (set_field (codes "variables") (obj fs) p) (
                          set_field-derived g json.loads json.dumps m (codes "variables") p p
                            (obj variables) (obj fs) (same_fields g json.loads json.dumps m p)
                            inside
                            (object variables fs (
                              fields_derived_on g json.loads json.dumps m1 m y variables fs h)))))))
            (Makes-unchanged g json.loads json.dumps body new m0 d))
        (Makes-unchanged g json.loads json.dumps body new m0 d)

  -- If a Responses request passes, its mapping is coherent, and the new body has the shape and the keys of the
  -- old one, but that an object without `content` may have a null there: each part is the same, or
  -- was made by the walk, or is the JSON text of what the walk made of the document that the old
  -- string is the JSON text of; and every pair that the mapping of one of the results of
  -- `anonymize_text` in it notes is restored by the mapping at the end.
  pub scrub_responses_request-AreDerived :
      (body out : Fields) (m' : PiiMapping)
      → scrub_responses_request g json body ≡ passed (out, m')
      → IsCoherent m' × FieldsAreDerived g json.loads json.dumps m' body out
  unfolding scrub_responses_request
  scrub_responses_request-AreDerived body out m' h =
      let start = reserve g.decimals (obj body) empty in
      let (c, _, d) =
        Post-passed (Grows start (Made g json body)) _ out m'
          (Makes-bind start (Made g json body) (Made g json body)
            (scrub_input g json body (get_field (codes "input") body)) _
            (input-Makes body (get_field (codes "input") body) start refl)
            (λ b1 m1 _ d1.
              Makes-bind m1 (Made g json body) (Made g json body)
                (scrub_prompt g json (get_field (codes "prompt") body) b1) _
                (prompt-Makes body b1 m1 d1)
                (λ b2 m2 _ d2.
                  Makes-bind m2 (Gated g) (Made g json body)
                    (gate_document g (get_field (codes "instructions") body)) _
                    (gate_document-Makes g (get_field (codes "instructions") body) m2)
                    (λ u m3 x _.
                      Makes-unchanged g json.loads json.dumps body b2 m3
                        (fields_derived_on g json.loads json.dumps m2 m3 x body b2 d2))))
            start (λ f o q. q) (reserved-IsCoherent g.decimals (obj body) empty empty-IsCoherent))
          h in
      (c, d)
