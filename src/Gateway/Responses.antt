-- ===== src/Gateway/Responses.antt =====
-- privaite/gateway/scrub.py, `scrub_responses_request`.
pub mod Keeps
pub mod Derived
pub mod Whole
use priv_ai_te.Prelude.{
  ℕ, Bool, true, false, not, ◌&&◌, ◌||◌, Option, none, some, List, [], ◌∷◌, ◌++◌, if◌then◌else◌,
  Text, codes, text_eq, null,
}
use priv_ai_te.Prelude.Dicts.{Dict, lookup}
use priv_ai_te.Json.{
  Json, Items, Fields, boolean, number, str, arr, obj, nil, item, end, field, get_field, set_field,
  has_field, text_in, is_zero,
}
use priv_ai_te.Mapping.{PiiMapping, empty, reserve}
use priv_ai_te.Engine.{Result, PiiEngine}
use priv_ai_te.Action.{
  Action, pure, crash, ◌>>=◌, on_text, on_fields, on_value, choose, each_item, each_field, at_text,
  at_texts,
}
use priv_ai_te.Messages.{JsonText, anonymize_arguments}
use priv_ai_te.Gateway.{by_kind, scrub_document, scrub_str, gate_document, at_values}

abbrev pub opaque_types : List Text
opaque_types =
    codes "reasoning"
    ∷ codes "compaction"
    ∷ codes "compaction_trigger"
    ∷ codes "computer_call_output"
    ∷ codes "image_generation_call"
    ∷ codes "item_reference"
    ∷ codes "mcp_list_tools"
    ∷ codes "tool_search_call"
    ∷ codes "tool_search_output"
    ∷ codes "additional_tools"
    ∷ []

abbrev pub data_fields : Dict (List Text)
data_fields =
    (codes "computer_call", codes "action" ∷ codes "actions" ∷ [])
    ∷ (codes "local_shell_call", codes "action" ∷ [])
    ∷ (codes "shell_call", codes "action" ∷ [])
    ∷ (codes "web_search_call", codes "action" ∷ [])
    ∷ (codes "apply_patch_call", codes "operation" ∷ [])
    ∷ (codes "file_search_call", codes "queries" ∷ codes "results" ∷ [])
    ∷ (codes "code_interpreter_call", codes "code" ∷ codes "outputs" ∷ [])
    ∷ (codes "program", codes "code" ∷ [])
    ∷ (codes "program_output", codes "result" ∷ [])
    ∷ []

abbrev pub binary_part_types : List Text
binary_part_types =
    codes "input_image"
    ∷ codes "input_file"
    ∷ codes "input_audio"
    ∷ codes "image"
    ∷ codes "output_image"
    ∷ codes "computer_screenshot"
    ∷ []

-- `name.endswith(suffix)`.
abbrev pub ends_with : Text → Text → Bool
ends_with suffix [] = null suffix
ends_with suffix (c ∷ name) = text_eq (c ∷ name) suffix || ends_with suffix name

-- `item.get("type") or ""`: a type that is no string has no `endswith`.
abbrev pub on_type : Option Json → (Text → Action Json) → Action Json
on_type none f = f []
on_type (some (str s)) f = f s
on_type (some Json.null) f = f []
on_type (some (boolean false)) f = f []
on_type (some (number n)) f = choose (is_zero n) (f []) crash
on_type (some (arr nil)) f = f []
on_type (some (obj end)) f = f []
on_type _ f = crash

module _ {S : Type 0} (g : PiiEngine S) (json : JsonText) where
  -- Binary parts are relayed whole.
  unfoldable mutual
    unfolding scrub_document get_field

    pub scrub_data_value : Json → Action Json
    scrub_data_value (arr parts) = scrub_data_values parts >>= λ new. pure (arr new)
    scrub_data_value (obj value) =
        let kind = get_field (codes "type") value in
        by_kind kind (
          choose (text_in kind binary_part_types) (pure (obj value)) (scrub_document g (obj value)))
    scrub_data_value value = scrub_document g value

    pub scrub_data_values : Items → Action Items
    scrub_data_values nil = pure nil
    scrub_data_values (item part parts) =
        scrub_data_value part >>= λ new. (scrub_data_values parts >>= λ rest. pure (item new rest))

  unfoldable pub scrub_content_part : Json → Action Json
  unfolding scrub_str at_texts
  scrub_content_part (str part) = scrub_str g part
  scrub_content_part (obj part) =
      at_texts (codes "text" ∷ codes "refusal" ∷ []) (scrub_str g) part part >>= λ new.
      pure (obj new)
  scrub_content_part part = pure part

  unfoldable pub scrub_responses_content : Json → Action Json
  unfolding scrub_str scrub_content_part each_item
  scrub_responses_content (str content) = scrub_str g content
  scrub_responses_content (arr parts) = each_item scrub_content_part parts >>= λ new. pure (arr new)
  scrub_responses_content content = pure content

  -- A string that is empty is left alone.
  abbrev pub unless_empty : (Text → Action Json) → Text → Action Json
  unless_empty f [] = pure (str [])
  unless_empty f (c ∷ s) = f (c ∷ s)

  unfoldable pub scrub_generic_content : Option Json → Fields → Action Fields
  unfolding scrub_responses_content set_field
  scrub_generic_content (some (str s)) new =
      scrub_responses_content (str s) >>= λ c. pure (set_field (codes "content") c new)
  scrub_generic_content (some (arr parts)) new =
      scrub_responses_content (arr parts) >>= λ c. pure (set_field (codes "content") c new)
  scrub_generic_content _ new = pure new

  -- Every field that bears text, in the order of the source.
  unfoldable pub scrub_generic_item : Fields → Action Json
  unfolding scrub_str anonymize_arguments at_text at_texts scrub_generic_content get_field
  scrub_generic_item fields = at_text (codes "output") (scrub_str g) fields fields >>= λ n1.
      at_text (codes "arguments") (unless_empty (anonymize_arguments g json)) fields n1 >>= λ n2.
      at_texts (codes "input" ∷ codes "text" ∷ codes "reason" ∷ []) (scrub_str g) fields n2
      >>= λ n3.
          scrub_generic_content (get_field (codes "content") fields) n3 >>= λ n4. pure (obj n4)

  -- The output of a tool, and what is left to the generic scan.
  unfoldable pub scrub_output_item : Text → Fields → Action Json
  unfolding scrub_data_value scrub_generic_item get_field set_field
  scrub_output_item kind fields =
      choose (ends_with (codes "_output") kind)
        (on_value (get_field (codes "output") fields)
          (λ output.
            scrub_data_value output >>= λ new. pure (obj (set_field (codes "output") new fields)))
          (scrub_generic_item fields))
        (scrub_generic_item fields)

  unfoldable pub scrub_data_item : Text → Fields → Action Json
  unfolding scrub_output_item scrub_data_value at_values
  scrub_data_item kind fields = elim (lookup kind data_fields) [
    | none ↦ scrub_output_item kind fields
    | some names ↦ at_values g names scrub_data_value fields fields >>= λ new. pure (obj new)
  ]

  unfoldable pub scrub_custom_tool_call : Text → Fields → Action Json
  unfolding scrub_data_item scrub_str get_field set_field
  scrub_custom_tool_call kind fields =
      choose (text_eq kind (codes "custom_tool_call"))
        (on_text (get_field (codes "input") fields)
          (λ s. scrub_str g s >>= λ new. pure (obj (set_field (codes "input") new fields)))
          (scrub_data_item kind fields))
        (scrub_data_item kind fields)

  -- `_scrub_typed_item`, then the generic scan where it has nothing to say.
  unfoldable pub scrub_typed_item : Text → Fields → Action Json
  unfolding scrub_custom_tool_call anonymize_arguments get_field set_field
  scrub_typed_item kind fields =
      choose (text_eq kind (codes "function_call"))
        (on_text (get_field (codes "arguments") fields)
          (λ s. anonymize_arguments g json s >>= λ new.
            pure (obj (set_field (codes "arguments") new fields)))
          (scrub_custom_tool_call kind fields))
        (scrub_custom_tool_call kind fields)

  unfoldable pub scrub_kind : Text → Fields → Action Json
  unfolding scrub_typed_item
  scrub_kind kind fields =
      choose (text_in (some (str kind)) opaque_types) (pure (obj fields))
        (scrub_typed_item kind fields)

  unfoldable pub scrub_responses_item : Json → Action Json
  unfolding scrub_str scrub_responses_content scrub_kind get_field set_field
  scrub_responses_item (str s) = scrub_str g s
  scrub_responses_item (obj fields) =
      choose (has_field (codes "role") fields)
        (on_value (get_field (codes "content") fields)
          (λ content. scrub_responses_content content >>= λ new.
            pure (obj (set_field (codes "content") new fields)))
          (on_type (get_field (codes "type") fields) (λ kind. scrub_kind kind fields)))
        (on_type (get_field (codes "type") fields) (λ kind. scrub_kind kind fields))
  scrub_responses_item value = pure value

  unfoldable pub scrub_input : Fields → Option Json → Action Fields
  unfolding scrub_str scrub_responses_item each_item set_field
  scrub_input body (some (str [])) = pure body
  scrub_input body (some (str (c ∷ s))) =
      scrub_str g (c ∷ s) >>= λ new. pure (set_field (codes "input") new body)
  scrub_input body (some (arr items)) = each_item scrub_responses_item items >>= λ new.
      pure (set_field (codes "input") (arr new) body)
  scrub_input body _ = pure body

  unfoldable pub scrub_prompt : Option Json → Fields → Action Fields
  unfolding scrub_data_value each_field get_field set_field
  scrub_prompt prompt new_body =
      on_fields prompt
        (λ p.
          on_fields (get_field (codes "variables") p)
            (λ variables. each_field scrub_data_value variables >>= λ new. pure (
              set_field (codes "prompt") (obj (set_field (codes "variables") (obj new) p))
                new_body))
            (pure new_body))
        (pure new_body)

  unfoldable pub scrub_responses_request : Fields → Result (Fields × PiiMapping)
  unfolding scrub_input scrub_prompt gate_document get_field reserve
  scrub_responses_request body =
      (scrub_input body (get_field (codes "input") body) >>= λ b1.
      (scrub_prompt (get_field (codes "prompt") body) b1 >>= λ b2.
      (gate_document g (get_field (codes "instructions") body) >>= λ gated. pure b2)))
        (reserve g.decimals (obj body) empty)
