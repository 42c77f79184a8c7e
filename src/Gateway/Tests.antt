-- ===== src/Gateway/Tests.antt =====
-- Runs of privaite/gateway/scrub.py, and its theorems at concrete inputs.
use priv_ai_te.Prelude.{◌≡◌, refl, true, none, [], Text, codes}
use priv_ai_te.Json.{Json, Fields, str, arr, obj, nil, item, end, field, get_field, set_field}
use priv_ai_te.Mapping.{PiiMapping, empty, add, reserve, get_original}
use priv_ai_te.Mapping.Reserved.{holds}
use priv_ai_te.Anonymizer.{method_for}
use priv_ai_te.Anonymizer.Coherent.{IsCoherent}
use priv_ai_te.Anonymizer.Shielded.{NoFakes}
use priv_ai_te.Engine.{passed}
use priv_ai_te.Engine.Fixture.{ascii, engine, program}
use priv_ai_te.Action.{at_text, at_texts, each_item, each_field}
use priv_ai_te.Action.Derived.{FieldsAreDerived}
use priv_ai_te.Messages.{JsonText, anonymize_arguments}
use priv_ai_te.Gateway.{scrub_document, scrub_str, discard, gate_document, at_values}
use priv_ai_te.Gateway.Anthropic.Derived.{no_text}
use priv_ai_te.Gateway.Anthropic.{
  scrub_tool_use_block, scrub_text_source, scrub_unknown_block, scrub_fields, scrub_block,
  scrub_blocks, scrub_message_content, scrub_message, scrub_messages, scrub_anthropic_request,
}
use priv_ai_te.Gateway.Responses.{
  scrub_data_value, scrub_content_part, scrub_responses_content, scrub_generic_content,
  scrub_generic_item, scrub_output_item, scrub_data_item, scrub_custom_tool_call, scrub_typed_item,
  scrub_kind, scrub_responses_item, scrub_input, scrub_prompt, scrub_responses_request,
}
use priv_ai_te.Gateway.Requests

run : Unit {0}
unfolding program holds get_field set_field reserve at_text at_texts each_item each_field
    anonymize_arguments scrub_document scrub_str discard gate_document at_values
    scrub_tool_use_block scrub_text_source scrub_unknown_block scrub_fields scrub_block scrub_blocks
    scrub_message_content scrub_message scrub_messages scrub_anthropic_request scrub_data_value
    scrub_content_part scrub_responses_content scrub_generic_content scrub_generic_item
    scrub_output_item scrub_data_item scrub_custom_tool_call scrub_typed_item scrub_kind
    scrub_responses_item scrub_input scrub_prompt scrub_responses_request
run = tt

engine-NoFakes : NoFakes engine.anonymization
unfolding method_for
engine-NoFakes t = refl

abbrev literal : Text
literal = codes "<PERSON_1>"

-- The prompt of the agent has a literal in the shape of a placeholder.
abbrev prompt : Json
prompt = str (codes "Use <PERSON_1>")

abbrev issued : PiiMapping
issued = add (codes "Ann") (codes "<PERSON_2>") (codes "PERSON") (reserve ascii prompt empty)

-- A tool result within a message, and the prompt under `system`.
abbrev anthropic_body : Text → Fields
anthropic_body s =
    field (codes "messages")
      (arr (
        item
          (obj (
            field (codes "content")
              (arr (
                item
                  (obj (
                    field (codes "type") (str (codes "tool_result"))
                      (field (codes "content") (str s) end)))
                  nil))
              end))
          nil))
      (field (codes "system") prompt end)

anthropic_run :
    scrub_anthropic_request engine (anthropic_body (codes "Ann is"))
    ≡ passed (anthropic_body (codes "<PERSON_2> is"), issued)
unfolding run
anthropic_run = refl

scrub_anthropic_request-AreDerived_example :
    IsCoherent issued
    × FieldsAreDerived engine no_text.loads no_text.dumps issued
        (anthropic_body (codes "Ann is"))
        (anthropic_body (codes "<PERSON_2> is"))
scrub_anthropic_request-AreDerived_example =
    priv_ai_te.Gateway.Anthropic.Whole.scrub_anthropic_request-AreDerived engine
      (anthropic_body (codes "Ann is")) (anthropic_body (codes "<PERSON_2> is")) issued
      anthropic_run

literal_in_system : holds ascii literal (obj (anthropic_body (codes "Ann is"))) ≡ true
unfolding run
literal_in_system = refl

scrub_anthropic_request-get_original_example : get_original issued literal ≡ none
scrub_anthropic_request-get_original_example =
    Requests.scrub_anthropic_request-get_original engine literal (anthropic_body (codes "Ann is"))
      (anthropic_body (codes "<PERSON_2> is")) issued engine-NoFakes literal_in_system anthropic_run

abbrev json_text : JsonText
json_text = record { loads = λ s. none; dumps = λ j. [] }

-- An output of a tool, and the prompt under `instructions`.
abbrev responses_body : Text → Fields
responses_body s =
    field (codes "input")
      (arr (
        item
          (obj (
            field (codes "type") (str (codes "function_call_output"))
              (field (codes "output") (str s) end)))
          nil))
      (field (codes "instructions") prompt end)

responses_run :
    scrub_responses_request engine json_text (responses_body (codes "Ann is"))
    ≡ passed (responses_body (codes "<PERSON_2> is"), issued)
unfolding run
responses_run = refl

scrub_responses_request-AreDerived_example :
    IsCoherent issued
    × FieldsAreDerived engine json_text.loads json_text.dumps issued
        (responses_body (codes "Ann is"))
        (responses_body (codes "<PERSON_2> is"))
scrub_responses_request-AreDerived_example =
    priv_ai_te.Gateway.Responses.Whole.scrub_responses_request-AreDerived engine json_text
      (responses_body (codes "Ann is")) (responses_body (codes "<PERSON_2> is")) issued
      responses_run

-- A message whose content is a list with a bare string, which is not scanned.
abbrev bare_body : Fields
bare_body =
    field (codes "messages")
      (arr (item (obj (field (codes "content") (arr (item (str (codes "Ann is")) nil)) end)) nil))
      end

bare_string : scrub_anthropic_request engine bare_body ≡ passed (bare_body, empty)
unfolding run
bare_string = refl
