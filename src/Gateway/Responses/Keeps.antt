-- ===== src/Gateway/Responses/Keeps.antt =====
-- `scrub_responses_request` of privaite/gateway/scrub.py keeps the invariants of the mapping over a
-- whole request.
use priv_ai_te.Prelude.{Bool, true, false, Option, none, some, List, [], ◌∷◌, Text, codes, text_eq}
use priv_ai_te.Prelude.Dicts.{lookup}
use priv_ai_te.Json.{
  Json, Items, Fields, boolean, number, str, arr, obj, nil, item, end, field, get_field, has_field,
  text_in, is_zero,
}
use priv_ai_te.Mapping.{PiiMapping, empty, reserve}
use priv_ai_te.Anonymizer.Invariants.{IsInvariant}
use priv_ai_te.Engine.{PiiEngine}
use priv_ai_te.Action.{Action, pure, crash, ◌>>=◌, choose}
use priv_ai_te.Action.Keeps.{
  After, Keeps, Keeps-bind, Keeps-on_text, Keeps-on_fields, Keeps-on_value, Keeps-choose,
  Keeps-each_item, Keeps-each_field, Keeps-at_text,
}
use priv_ai_te.Messages.{JsonText, anonymize_arguments}
use priv_ai_te.Messages.Keeps.{anonymize_arguments-Keeps}
use priv_ai_te.Gateway.{scrub_str, at_values}
use priv_ai_te.Gateway.Keeps.{
  Keeps-by_kind, scrub_document-Keeps, scrub_str-Keeps, gate_document-Keeps, at_values-Keeps,
  texts-Keeps,
}
use priv_ai_te.Gateway.Responses.{
  opaque_types, data_fields, binary_part_types, ends_with, on_type, scrub_data_value,
  scrub_data_values, scrub_content_part, scrub_responses_content, unless_empty,
  scrub_generic_content, scrub_generic_item, scrub_output_item, scrub_data_item,
  scrub_custom_tool_call, scrub_typed_item, scrub_kind, scrub_responses_item, scrub_input,
  scrub_prompt, scrub_responses_request,
}

module _ (P : PiiMapping → Type 0) where
  on_number-Keeps : (b : Bool) (act : Action Json) → Keeps P act → Keeps P (choose b act crash)
  on_number-Keeps b act k = Keeps-choose P b act crash k (λ m p. tt)

  Keeps-on_type :
      (o : Option Json) (f : Text → Action Json)
      → ((s : Text) → Keeps P (f s))
      → Keeps P (on_type o f)
  Keeps-on_type none f k = k []
  Keeps-on_type (some (str s)) f k = k s
  Keeps-on_type (some Json.null) f k = k []
  Keeps-on_type (some (boolean true)) f k = λ m p. tt
  Keeps-on_type (some (boolean false)) f k = k []
  Keeps-on_type (some (number n)) f k = on_number-Keeps (is_zero n) (f []) (k [])
  Keeps-on_type (some (arr nil)) f k = k []
  Keeps-on_type (some (arr (item j items))) f k = λ m p. tt
  Keeps-on_type (some (obj end)) f k = k []
  Keeps-on_type (some (obj (field n j fields))) f k = λ m p. tt

module _ {S : Type 0} (g : PiiEngine S) (json : JsonText) (P : PiiMapping → Type 0)
    (i : IsInvariant g.generate g.anonymization P) where
  str-Keeps : (s : Text) → Keeps P (scrub_str g s)
  str-Keeps = scrub_str-Keeps g P i

  mutual
    unfolding scrub_data_value

    data_value-Keeps : (j : Json) → Keeps P (scrub_data_value g json j)
    data_value-Keeps (arr parts) = Keeps-bind P _ _ (data_values-Keeps parts) (λ new m p. p)
    data_value-Keeps (obj value) =
        let kind = get_field (codes "type") value in
        Keeps-by_kind g P i kind _ (
          Keeps-choose P (text_in kind binary_part_types) _ _ (λ m p. p)
            (scrub_document-Keeps g P i (obj value)))
    data_value-Keeps (str s) = scrub_document-Keeps g P i (str s)
    data_value-Keeps (number n) = scrub_document-Keeps g P i (number n)
    data_value-Keeps (boolean b) = scrub_document-Keeps g P i (boolean b)
    data_value-Keeps Json.null = scrub_document-Keeps g P i Json.null

    data_values-Keeps : (parts : Items) → Keeps P (scrub_data_values g json parts)
    data_values-Keeps nil = λ m p. p
    data_values-Keeps (item part parts) =
        Keeps-bind P _ _ (data_value-Keeps part)
          (λ new. Keeps-bind P _ _ (data_values-Keeps parts) (λ rest m p. p))

  content_part-Keeps : (j : Json) → Keeps P (scrub_content_part g json j)
  unfolding scrub_content_part
  content_part-Keeps (str part) = str-Keeps part
  content_part-Keeps (obj part) =
      Keeps-bind P _ _ (texts-Keeps g P i (codes "text" ∷ codes "refusal" ∷ []) part part)
        (λ new m p. p)
  content_part-Keeps (arr items) = λ m p. p
  content_part-Keeps (number n) = λ m p. p
  content_part-Keeps (boolean b) = λ m p. p
  content_part-Keeps Json.null = λ m p. p

  responses_content-Keeps : (j : Json) → Keeps P (scrub_responses_content g json j)
  unfolding scrub_responses_content
  responses_content-Keeps (str s) = str-Keeps s
  responses_content-Keeps (arr parts) =
      Keeps-bind P _ _ (Keeps-each_item P (scrub_content_part g json) parts content_part-Keeps)
        (λ new m p. p)
  responses_content-Keeps (obj fields) = λ m p. p
  responses_content-Keeps (number n) = λ m p. p
  responses_content-Keeps (boolean b) = λ m p. p
  responses_content-Keeps Json.null = λ m p. p

  arguments-Keeps : (s : Text) → Keeps P (anonymize_arguments g json s)
  arguments-Keeps = anonymize_arguments-Keeps g P i json

  unless_empty-Keeps : (s : Text) → Keeps P (unless_empty g json (anonymize_arguments g json) s)
  unless_empty-Keeps [] = λ m p. p
  unless_empty-Keeps (c ∷ s) = arguments-Keeps (c ∷ s)

  generic_content-Keeps :
      (o : Option Json) (new : Fields) → Keeps P (scrub_generic_content g json o new)
  unfolding scrub_generic_content
  generic_content-Keeps (some (str s)) new =
      Keeps-bind P _ _ (responses_content-Keeps (str s)) (λ c m p. p)
  generic_content-Keeps (some (arr parts)) new =
      Keeps-bind P _ _ (responses_content-Keeps (arr parts)) (λ c m p. p)
  generic_content-Keeps none new = λ m p. p
  generic_content-Keeps (some (obj fields)) new = λ m p. p
  generic_content-Keeps (some (number n)) new = λ m p. p
  generic_content-Keeps (some (boolean b)) new = λ m p. p
  generic_content-Keeps (some Json.null) new = λ m p. p

  generic_item-Keeps : (fields : Fields) → Keeps P (scrub_generic_item g json fields)
  unfolding scrub_generic_item
  generic_item-Keeps fields =
      Keeps-bind P _ _ (Keeps-at_text P (codes "output") (scrub_str g) fields fields str-Keeps)
        (λ n1.
          Keeps-bind P _ _
            (Keeps-at_text P (codes "arguments") (unless_empty g json (anonymize_arguments g json))
              fields n1 unless_empty-Keeps)
            (λ n2.
              Keeps-bind P _ _
                (texts-Keeps g P i (codes "input" ∷ codes "text" ∷ codes "reason" ∷ []) fields n2)
                (λ n3.
                  Keeps-bind P _ _ (generic_content-Keeps (get_field (codes "content") fields) n3)
                    (λ n4 m p. p))))

  output_item-Keeps :
      (kind : Text) (fields : Fields) → Keeps P (scrub_output_item g json kind fields)
  unfolding scrub_output_item
  output_item-Keeps kind fields =
      Keeps-choose P (ends_with (codes "_output") kind) _ _
        (Keeps-on_value P (get_field (codes "output") fields) _ _
          (λ output. Keeps-bind P _ _ (data_value-Keeps output) (λ new m p. p))
          (generic_item-Keeps fields))
        (generic_item-Keeps fields)

  data_item-Keeps : (kind : Text) (fields : Fields) → Keeps P (scrub_data_item g json kind fields)
  unfolding scrub_data_item
  data_item-Keeps kind fields = at_names (lookup kind data_fields)
    where
      at_names :
          (o : Option (List Text))
          → Keeps P (elim o [
            | none ↦ scrub_output_item g json kind fields
            | some names ↦
                at_values g names (scrub_data_value g json) fields fields >>= λ new. pure (obj new)
          ])
      at_names none = output_item-Keeps kind fields
      at_names (some names) =
          Keeps-bind P _ _
            (at_values-Keeps g P i names (scrub_data_value g json) fields fields data_value-Keeps)
            (λ new m p. p)

  custom_tool_call-Keeps :
      (kind : Text) (fields : Fields) → Keeps P (scrub_custom_tool_call g json kind fields)
  unfolding scrub_custom_tool_call
  custom_tool_call-Keeps kind fields =
      Keeps-choose P (text_eq kind (codes "custom_tool_call")) _ _
        (Keeps-on_text P (get_field (codes "input") fields) _ _
          (λ s. Keeps-bind P _ _ (str-Keeps s) (λ new m p. p)) (data_item-Keeps kind fields))
        (data_item-Keeps kind fields)

  typed_item-Keeps : (kind : Text) (fields : Fields) → Keeps P (scrub_typed_item g json kind fields)
  unfolding scrub_typed_item
  typed_item-Keeps kind fields =
      Keeps-choose P (text_eq kind (codes "function_call")) _ _
        (Keeps-on_text P (get_field (codes "arguments") fields) _ _
          (λ s. Keeps-bind P _ _ (arguments-Keeps s) (λ new m p. p))
          (custom_tool_call-Keeps kind fields))
        (custom_tool_call-Keeps kind fields)

  kind-Keeps : (kind : Text) (fields : Fields) → Keeps P (scrub_kind g json kind fields)
  unfolding scrub_kind
  kind-Keeps kind fields =
      Keeps-choose P (text_in (some (str kind)) opaque_types) _ _ (λ m p. p)
        (typed_item-Keeps kind fields)

  item-Keeps : (j : Json) → Keeps P (scrub_responses_item g json j)
  unfolding scrub_responses_item
  item-Keeps (str s) = str-Keeps s
  item-Keeps (obj fields) =
      let typed =
        Keeps-on_type P (get_field (codes "type") fields) (λ kind. scrub_kind g json kind fields)
          (λ kind. kind-Keeps kind fields) in
      Keeps-choose P (has_field (codes "role") fields) _ _
        (Keeps-on_value P (get_field (codes "content") fields) _ _
          (λ content. Keeps-bind P _ _ (responses_content-Keeps content) (λ new m p. p)) typed)
        typed
  item-Keeps (arr items) = λ m p. p
  item-Keeps (number n) = λ m p. p
  item-Keeps (boolean b) = λ m p. p
  item-Keeps Json.null = λ m p. p

  input-Keeps : (body : Fields) (o : Option Json) → Keeps P (scrub_input g json body o)
  unfolding scrub_input
  input-Keeps body none = λ m p. p
  input-Keeps body (some (str [])) = λ m p. p
  input-Keeps body (some (str (c ∷ s))) = Keeps-bind P _ _ (str-Keeps (c ∷ s)) (λ new m p. p)
  input-Keeps body (some (arr items)) =
      Keeps-bind P _ _ (Keeps-each_item P (scrub_responses_item g json) items item-Keeps)
        (λ new m p. p)
  input-Keeps body (some (obj fields)) = λ m p. p
  input-Keeps body (some (number n)) = λ m p. p
  input-Keeps body (some (boolean b)) = λ m p. p
  input-Keeps body (some Json.null) = λ m p. p

  prompt-Keeps : (o : Option Json) (new : Fields) → Keeps P (scrub_prompt g json o new)
  unfolding scrub_prompt
  prompt-Keeps o new =
      Keeps-on_fields P o _ _
        (λ p.
          Keeps-on_fields P (get_field (codes "variables") p) _ _
            (λ variables.
              Keeps-bind P _ _
                (Keeps-each_field P (scrub_data_value g json) variables data_value-Keeps)
                (λ fs m q. q))
            (λ m q. q))
        (λ m q. q)

  pub scrub_responses_request-Keeps :
      (body : Fields)
      → P (reserve g.decimals (obj body) empty)
      → After P (scrub_responses_request g json body)
  unfolding scrub_responses_request
  scrub_responses_request-Keeps body =
      Keeps-bind P _ _ (input-Keeps body (get_field (codes "input") body))
        (λ b1. Keeps-bind P _ _ (prompt-Keeps (get_field (codes "prompt") body) b1) (λ b2.
          Keeps-bind P _ _ (gate_document-Keeps g P i (get_field (codes "instructions") body))
            (λ u m p. p)))
        (reserve g.decimals (obj body) empty)
