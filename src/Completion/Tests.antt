-- ===== src/Completion/Tests.antt =====
-- Runs of `stream_text_response` of privaite/streaming/handler.py, and its theorem at a concrete input.
use priv_ai_te.Prelude.{
  ℕ, ◌≡◌, refl, true, false, Option, null, none, some, List, [], ◌∷◌, ◌++◌, Text, codes,
}
use priv_ai_te.Prelude.Dicts.{Distinct, insert}
use priv_ai_te.Json.{Json}
use priv_ai_te.Mapping.{PiiMapping, empty, add}
use priv_ai_te.Restore.{non_empty, alternatives, match_at, substitute, deanonymize_exact}
use priv_ai_te.Restore.Markers.{AllMarkers}
use priv_ai_te.Stream.{
  get_child, update_child, insert_trie, lookup_loop, trie_lookup, has_prefix, insert_all, init,
  feed_loop, feed, flush,
}
use priv_ai_te.Completion.{
  Entry, dict, Chunk, buffer_of, put_buffer, restore_entry, restore_entries, restore_chunks, drain,
  stream_text_response,
}
use priv_ai_te.Completion.Buffers.{text_of_chunks, text_of_rest}
use priv_ai_te.Completion.Whole
use priv_ai_te.Completion.Whole.{IsClosed, all_entries}

run : Unit {0}
unfolding insert add non_empty alternatives match_at substitute deanonymize_exact get_child
    update_child insert_trie lookup_loop trie_lookup has_prefix insert_all init feed_loop feed flush
    buffer_of put_buffer restore_entry restore_entries restore_chunks drain stream_text_response
run = tt

abbrev issued : PiiMapping
issued = add (codes "Ann") (codes "<PERSON_1>") (codes "PERSON") empty

abbrev says : ℕ → Text → Option Text → Entry
says i text finish_reason =
    dict
      (record { index = some i; text = some text; finish_reason = finish_reason; rest = Json.null })

abbrev chunk : List Entry → Chunk
chunk choices = record { choices = choices; rest = Json.null }

-- Two choices, the first with a finish chunk and the second without.
abbrev chunks : List Chunk
chunks =
    chunk (says 0 (codes "Hi <PER") none ∷ says 1 (codes "<PERSON_1> <") none ∷ [])
    ∷ chunk (says 0 (codes "SON_1> <P") (some (codes "stop")) ∷ [])
    ∷ []

first : text_of_chunks 0 (stream_text_response true issued chunks).0 ≡ codes "Hi Ann <P"
unfolding run
first = refl

after : (stream_text_response true issued chunks).1 ≡ (1, codes "<") ∷ []
unfolding run
after = refl

issued-Distinct : Distinct issued.fake_to_original
unfolding run
issued-Distinct = (refl, tt)

issued-AllMarkers : AllMarkers issued.fake_to_original
unfolding run
issued-AllMarkers = (refl, tt)

some_issued : null issued.original_to_fake ≡ false
unfolding run
some_issued = refl

chunks-IsClosed : IsClosed 0 false (all_entries chunks)
chunks-IsClosed = ((λ h. cc), ((λ h. cc), ((λ h. cc), tt)))

stream_text_response-deanonymize_exact_example :
    text_of_chunks 0 (stream_text_response true issued chunks).0
      ++ text_of_rest 0 (stream_text_response true issued chunks).1
    ≡ deanonymize_exact issued.fake_to_original (text_of_chunks 0 chunks)
stream_text_response-deanonymize_exact_example =
    Whole.stream_text_response-deanonymize_exact 0 issued issued-Distinct issued-AllMarkers chunks
      some_issued chunks-IsClosed
