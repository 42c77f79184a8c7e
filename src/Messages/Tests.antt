-- ===== src/Messages/Tests.antt =====
-- Runs of `process_request` of privaite/pii/engine.py, and its theorems at concrete inputs.
use priv_ai_te.Prelude.{◌≡◌, refl, true, false, ◌||◌, none, [], Text, codes}
use priv_ai_te.Json.{Items, str, arr, obj, nil, item, end, field, get_field, set_field}
use priv_ai_te.Mapping.{PiiMapping, empty, add, reserve, get_original}
use priv_ai_te.Mapping.Reserved.{holds}
use priv_ai_te.Anonymizer.{method_for}
use priv_ai_te.Anonymizer.Coherent.{IsCoherent}
use priv_ai_te.Anonymizer.Shielded.{NoFakes}
use priv_ai_te.Engine.{passed}
use priv_ai_te.Engine.Fixture.{ascii, engine, program}
use priv_ai_te.Action.{at_text, at_texts, each_item}
use priv_ai_te.Action.Derived.{ItemsAreDerived}
use priv_ai_te.Messages.{
  JsonText, Options, anonymize_str, anonymize_part, anonymize_content, at_key, anonymize_audio,
  anonymize_message, process_message, process_request,
}
use priv_ai_te.Messages.Keeps
use priv_ai_te.Messages.Strict
use priv_ai_te.Messages.Whole

run : Unit {0}
unfolding program holds get_field set_field reserve at_text at_texts each_item anonymize_str
    anonymize_part anonymize_content at_key anonymize_audio anonymize_message process_message
    process_request
run = tt

abbrev json_text : JsonText
json_text = record { loads = λ s. none; dumps = λ j. [] }

abbrev options : Options
options = record { strict = true; system_messages = false; tool_calls = false }

-- One user message with the given text.
abbrev message : Text → Items
message s =
    item (obj (field (codes "role") (str (codes "user")) (field (codes "content") (str s) end))) nil

abbrev result : PiiMapping
result =
    add (codes "Ann") (codes "<PERSON_2>") (codes "PERSON")
      (reserve ascii (str (codes "<PERSON_1>")) empty)

-- A literal in another field of the request keeps its number to itself.
processed :
    process_request engine options json_text (message (codes "Ann is")) (str (codes "<PERSON_1>"))
    ≡ passed (message (codes "<PERSON_2> is"), result)
unfolding run
processed = refl

process_request-AreDerived_example :
    IsCoherent result
    × ItemsAreDerived engine json_text.loads json_text.dumps result
        (message (codes "Ann is"))
        (message (codes "<PERSON_2> is"))
process_request-AreDerived_example =
    Whole.process_request-AreDerived engine json_text options (message (codes "Ann is"))
      (message (codes "<PERSON_2> is")) (str (codes "<PERSON_1>")) result processed

engine-NoFakes : NoFakes engine.anonymization
unfolding method_for
engine-NoFakes t = refl

literal_held :
    (holds ascii (codes "<PERSON_1>") (arr (message (codes "Ann is")))
      || holds ascii (codes "<PERSON_1>") (str (codes "<PERSON_1>")))
    ≡ true
unfolding run
literal_held = refl

process_request-get_original_example : get_original result (codes "<PERSON_1>") ≡ none
process_request-get_original_example =
    Keeps.process_request-get_original engine options json_text (codes "<PERSON_1>")
      (message (codes "Ann is")) (message (codes "<PERSON_2> is")) (str (codes "<PERSON_1>")) result
      engine-NoFakes literal_held processed

process_request-Every_example :
    Strict.Every
      (Strict.MessageIsInspected engine options refl json_text)
      (message (codes "Ann is"))
process_request-Every_example =
    Strict.process_request-Every engine options refl json_text (message (codes "Ann is"))
      (message (codes "<PERSON_2> is")) (str (codes "<PERSON_1>")) result processed
