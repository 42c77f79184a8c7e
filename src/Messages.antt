-- ===== src/Messages.antt =====
-- privaite/pii/engine.py, `process_request`: the messages of a chat request. What `json.loads` and
-- `json.dumps` do is a parameter.
pub mod Keeps
pub mod Derived
pub mod Whole
pub mod Restore
pub mod Strict
mod Tests
use priv_ai_te.Prelude.{
  ℕ, Bool, true, false, not, ◌&&◌, ◌||◌, Option, none, some, List, [], ◌∷◌, if◌then◌else◌, Text,
  codes, any, text_eq,
}
use priv_ai_te.Json.{
  Json, Items, Fields, boolean, number, str, arr, obj, nil, item, end, field, get_field, set_field,
  has_field, text_in, is_hashable, is_truthy_json,
}
use priv_ai_te.Mapping.{PiiMapping, empty, reserve}
use priv_ai_te.Engine.{
  Result, passed, blocked, unsupported, failed, PiiEngine, anonymize_text, walk_anonymize,
}
use priv_ai_te.Action.{
  Action, pure, reject, crash, ◌>>=◌, on_text, on_fields, on_value, choose, each_item, at_text,
  at_texts,
}

-- `loads` is none where `json.loads` raises ValueError, which is what the code catches; an error of another
-- kind (the reader's recursion limit), which fails the request, is outside the model.
pub record JsonText : Type 0 where
  pub loads : Text → Option Json
  pub dumps : Json → Text

pub record Options : Type 0 where
  pub strict : Bool
  pub system_messages : Bool
  pub tool_calls : Bool

abbrev pub known_media_part_types : List Text
known_media_part_types =
    codes "image_url"
    ∷ codes "image"
    ∷ codes "input_audio"
    ∷ codes "audio"
    ∷ codes "video"
    ∷ codes "file"
    ∷ codes "document"
    ∷ codes "refusal"
    ∷ []

abbrev pub is_known_media_part : Json → Bool
is_known_media_part (obj part) = text_in (get_field (codes "type") part) known_media_part_types
is_known_media_part _ = false

module _ {S : Type 0} (g : PiiEngine S) where
  -- A string in a place where the code puts the anonymized string back.
  unfoldable pub anonymize_str : Text → Action Json
  unfolding anonymize_text
  anonymize_str s = anonymize_text g s >>= λ t. pure (str t)

  module _ (json : JsonText) where
    unfoldable pub anonymize_arguments : Text → Action Json
    unfolding anonymize_str walk_anonymize
    anonymize_arguments arguments =
        on_value (json.loads arguments)
          (λ parsed. walk_anonymize g parsed >>= λ walked. pure (str (json.dumps walked)))
          (anonymize_str arguments)

    unfoldable pub anonymize_function : Fields → Action Fields
    unfolding anonymize_arguments at_text
    anonymize_function function = at_text (codes "arguments") anonymize_arguments function function

    -- One call of the list, and the older `function_call`.
    unfoldable pub anonymize_call : Json → Action Json
    unfolding anonymize_function get_field set_field
    anonymize_call (obj call) =
        on_fields (get_field (codes "function") call)
          (λ function. anonymize_function function >>= λ new.
            pure (obj (set_field (codes "function") (obj new) call)))
          (pure (obj call))
    anonymize_call call = pure call

    unfoldable pub anonymize_tool_calls : Json → Action Json
    unfolding anonymize_call each_item
    anonymize_tool_calls (arr calls) = each_item anonymize_call calls >>= λ new. pure (arr new)
    anonymize_tool_calls tool_calls = pure tool_calls

    unfoldable pub anonymize_function_call : Json → Action Json
    unfolding anonymize_function
    anonymize_function_call (obj call) = anonymize_function call >>= λ new. pure (obj new)
    anonymize_function_call call = pure call

  module _ (options : Options) where
    abbrev pub reject_if_strict : Json → Action Json
    reject_if_strict value = choose options.strict reject (pure value)

    unfoldable pub anonymize_part : Json → Action Json
    unfolding anonymize_str get_field set_field
    anonymize_part (str part) = anonymize_str part
    anonymize_part (obj part) =
        on_text (get_field (codes "text") part)
          (λ s. anonymize_str s >>= λ new. pure (obj (set_field (codes "text") new part)))
          (choose (is_hashable (get_field (codes "type") part))
            (choose (is_known_media_part (obj part)) (pure (obj part))
              (reject_if_strict (obj part)))
            crash)
    anonymize_part part = reject_if_strict part

    unfoldable pub anonymize_content : Json → Action Json
    unfolding anonymize_str anonymize_part each_item
    anonymize_content (str content) = anonymize_str content
    anonymize_content Json.null = pure Json.null
    anonymize_content (arr parts) = each_item anonymize_part parts >>= λ new. pure (arr new)
    anonymize_content content = reject_if_strict content

    module _ (json : JsonText) where
      abbrev pub reply_fields : List Text
      reply_fields = codes "reasoning_content" ∷ codes "reasoning" ∷ codes "refusal" ∷ []

      -- `if condition(message.get(k)): new[k] = await f(message[k])`.
      unfoldable pub at_key :
          Text → (Json → Bool) → (Json → Action Json) → Fields → Fields → Action Fields
      unfolding get_field set_field
      at_key k condition f message new =
          on_value (get_field k message)
            (λ j. choose (condition j) (f j >>= λ j'. pure (set_field k j' new)) (pure new))
            (pure new)

      unfoldable pub anonymize_audio : Fields → Fields → Action Fields
      unfolding at_text anonymize_str get_field set_field
      anonymize_audio message new =
          on_fields (get_field (codes "audio") message)
            (λ audio.
              on_text (get_field (codes "transcript") audio)
                (λ s. anonymize_str s >>= λ t.
                  pure
                    (set_field (codes "audio") (obj (set_field (codes "transcript") t audio)) new))
                (pure new))
            (pure new)

      abbrev pub scans_call : Json → Bool
      scans_call j = not options.tool_calls && is_truthy_json j

      unfoldable pub anonymize_message : Fields → Action Fields
      unfolding at_key at_texts anonymize_audio anonymize_content anonymize_tool_calls
          anonymize_function_call
      anonymize_message message =
          at_key (codes "content") (λ j. true) anonymize_content message message >>= λ m1.
          at_texts reply_fields anonymize_str message m1 >>= λ m2.
          anonymize_audio message m2 >>= λ m3.
          at_key (codes "tool_calls") scans_call (anonymize_tool_calls json) message m3 >>= λ m4.
          at_key (codes "function_call") scans_call (anonymize_function_call json) message m4

      abbrev pub is_passed_on : Fields → Bool
      is_passed_on message =
          options.system_messages
          && text_in (get_field (codes "role") message) (codes "system" ∷ [])

      -- The loop body; a message that is no object has no `get`.
      unfoldable pub process_message : Json → Action Json
      unfolding anonymize_message get_field
      process_message (obj message) =
          choose (is_passed_on message) (pure (obj message))
            (anonymize_message message >>= λ new. pure (obj new))
      process_message message = crash

      unfoldable pub process_request : Items → Json → Result (Items × PiiMapping)
      unfolding process_message each_item reserve
      process_request messages other_fields =
          each_item process_message messages
            (reserve g.decimals other_fields (reserve g.decimals (arr messages) empty))
