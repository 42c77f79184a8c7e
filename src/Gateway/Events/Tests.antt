-- ===== src/Gateway/Events/Tests.antt =====
-- Runs of privaite/gateway/restore.py and privaite/gateway/protocols.py, and their theorems at concrete
-- inputs.
use priv_ai_te.Prelude.{
  ◌≤◌, ◌<◌, ◌≡◌, refl, true, false, Option, none, some, List, [], ◌∷◌, Text, codes, arith, length,
  leb,
}
use priv_ai_te.Prelude.Dicts.{Distinct, insert}
use priv_ai_te.Json.{Json, str, number, obj, end, field, get_field, set_field}
use priv_ai_te.Mapping.{PiiMapping, empty, add}
use priv_ai_te.Restore.{non_empty, alternatives, match_at, substitute, deanonymize_exact}
use priv_ai_te.Restore.Markers.{AllMarkers}
use priv_ai_te.Engine.{walk_deanonymize}
use priv_ai_te.Messages.{JsonText}
use priv_ai_te.Messages.Restore.{restore_document}
use priv_ai_te.Stream.{
  get_child, update_child, insert_trie, lookup_loop, trie_lookup, has_prefix, insert_all, init,
  feed_loop, feed, flush,
}
use priv_ai_te.Gateway.Restore.{restore_leaves, restore_json_arguments, restore_tree}
use priv_ai_te.Gateway.Restore.Depth
use priv_ai_te.Gateway.Restore.Depth.{longest}
use priv_ai_te.Gateway.Protocols.{
  Channel, anthropic_classify, anthropic_flush_event, responses_classify, responses_flush_event,
}
use priv_ai_te.Gateway.Protocols.Laws
use priv_ai_te.Gateway.Events.{
  Host, escape_all, json_escaped_mapping, get_buffer, set_buffer, buffer_for, feed_channel,
  flush_keys, flush_channels, fakes_for,
}
use priv_ai_te.Gateway.Events.Lines.{
  data_lines, replace_data, feed_delta, rewrite_payload, follow_plan, process_event, restore_events,
  cut_events, restore_sse_stream,
}
use priv_ai_te.Gateway.Events.Framing
use priv_ai_te.Gateway.Events.Channels.{on_channel}
use priv_ai_te.Gateway.Events.Streams
use priv_ai_te.Gateway.Events.Streams.{Call, feeds, flushes, run_calls, pieces, IsSteady}

run : Unit {0}
unfolding insert add non_empty alternatives match_at substitute deanonymize_exact walk_deanonymize
    restore_document get_child update_child insert_trie lookup_loop trie_lookup has_prefix
    insert_all init feed_loop feed flush restore_leaves restore_json_arguments restore_tree
    get_field set_field anthropic_classify responses_classify escape_all json_escaped_mapping
    get_buffer set_buffer buffer_for feed_channel flush_keys flush_channels replace_data feed_delta
    rewrite_payload follow_plan process_event restore_events cut_events restore_sse_stream run_calls
    pieces longest
run = tt

-- A reader that takes a text after its first character, and what it prints.
abbrev reads : Text → Option Json
reads [] = none
reads (c ∷ s) = some (str s)

abbrev prints : Json → Text
prints (str s) = b'"' ∷ s
prints j = []

abbrev json_text : JsonText
json_text = record { loads = reads; dumps = prints }

abbrev key : Json → Text
key (number n) = n
key (str s) = s
key j = []

abbrev host : Host
host = record { json = json_text; key = key; is_space = λ c. leb c 32 }

abbrev issued : PiiMapping
issued = add (codes "Ann") (codes "<PERSON_1>") (codes "PERSON") empty

abbrev text_channel : Channel
text_channel = record { kind = codes "text"; id = number (codes "0") }

abbrev json_channel : Channel
json_channel = record { kind = codes "json"; id = number (codes "0") }

-- A placeholder in three parts, with another channel in between, and the beginning of one.
abbrev calls : List Call
calls =
    feeds text_channel (codes "Hi <PER") false
    ∷ feeds json_channel (codes "<PERSON") true
    ∷ feeds text_channel (codes "SON_1> <P") false
    ∷ flushes (text_channel ∷ []) false
    ∷ feeds text_channel (codes "<PERSON_1>") false
    ∷ []

emitted : on_channel host text_channel (run_calls host issued calls []) ≡ codes "Hi Ann <PAnn"
unfolding run
emitted = refl

issued-Distinct : Distinct issued.fake_to_original
unfolding run
issued-Distinct = (refl, tt)

issued-AllMarkers : AllMarkers issued.fake_to_original
unfolding run
issued-AllMarkers = (refl, tt)

steady : IsSteady host issued text_channel false calls
steady = ((λ h. refl), ((λ h. cc), ((λ h. refl), ((λ h. refl), tt))))

run_calls-pieces_example :
    on_channel host text_channel (run_calls host issued calls [])
    ≡ pieces host issued text_channel (fakes_for host issued false) [] calls
run_calls-pieces_example =
    Streams.run_calls-pieces host issued text_channel false calls issued-Distinct issued-AllMarkers
      steady

abbrev event_lines : List Text
event_lines = codes "event: x" ∷ codes "data: {" ∷ codes "data: }" ∷ codes ": note" ∷ []

replace_data-data_lines_example :
    (data_lines (replace_data event_lines (codes "{}") false) ≡ codes "{}" ∷ [])
    × (Framing.other_lines (replace_data event_lines (codes "{}") false)
        ≡ Framing.other_lines event_lines)
replace_data-data_lines_example = Framing.replace_data-data_lines (codes "{}") event_lines refl

-- The source is a quotation mark and a text.
abbrev document : Json
document = obj (field (codes "arguments") (str (codes "\"<PERSON_1>")) end)

abbrev restored_document : Json
restored_document = obj (field (codes "arguments") (str (codes "\"Ann")) end)

restored : restore_tree json_text true issued 11 [] document ≡ restored_document
unfolding run
restored = refl

shrinks : (s : Text) (j : Json) → reads s ≡ some j → longest j < length s
unfolding longest
shrinks [] j h = cc
shrinks (c ∷ s) j h = let q : str s ≡ j = cc in rw (← q) (omega arith)

fits : longest document ≤ 11
unfolding longest
fits = omega arith

restore_tree-longest_example :
    restore_tree json_text true issued 11 [] document
    ≡ restore_tree json_text true issued 40 [] document
restore_tree-longest_example =
    Depth.restore_tree-longest json_text true issued shrinks 11 40 [] document fits (omega arith)

anthropic_classify-anthropic_flush_event_example :
    Laws.IsFragment
      (anthropic_classify (anthropic_flush_event json_channel (codes "<P")).1)
      (anthropic_flush_event json_channel (codes "<P")).1
      json_channel
      (codes "<P")
      true
anthropic_classify-anthropic_flush_event_example =
    Laws.anthropic_classify-anthropic_flush_event (number (codes "0")) (codes "<P") true

abbrev refusal_channel : Channel
refusal_channel = record { kind = codes "response.refusal.delta"; id = str (codes "item") }

responses_classify-responses_flush_event_example :
    Laws.IsFragment
      (responses_classify (responses_flush_event refusal_channel (codes "<P")).1)
      (responses_flush_event refusal_channel (codes "<P")).1
      refusal_channel
      (codes "<P")
      false
responses_classify-responses_flush_event_example =
    Laws.responses_classify-responses_flush_event refusal_channel (codes "<P") refl
