-- ===== src/Completion.antt =====
-- privaite/streaming/handler.py, `stream_text_response`: a streamed text completion, restored choice
-- by choice.
pub mod Buffers
pub mod Steps
pub mod Whole
mod Tests
use priv_ai_te.Prelude.{
  ℕ, Bool, true, false, not, ◌&&◌, ◌||◌, Option, none, some, List, [], ◌∷◌, ◌++◌, ◌==◌, map,
  if◌then◌else◌, Text, any, null,
}
use priv_ai_te.Prelude.Dicts.{Dict}
use priv_ai_te.Json.{Json}
use priv_ai_te.Mapping.{PiiMapping}
use priv_ai_te.Stream.{StreamingDeAnonymizer, init, feed, flush}

-- What the code reads of a choice, and the fields that it passes on.
pub record Choice : Type 0 where
  pub index : Option ℕ
  pub text : Option Text
  pub finish_reason : Option Text
  pub rest : Json

pub data Entry : Type 0 where
  dict : Choice → Entry
  other : Json → Entry

pub record Chunk : Type 0 where
  pub choices : List Entry
  pub rest : Json

-- `choice.get("index", 0) or 0`, `choice.get("text") or ""`, and a test of a text.
abbrev pub index_of : Choice → ℕ
index_of choice = elim choice.index [ none ↦ 0 | some n ↦ n ]

abbrev pub text_or_empty : Choice → Text
text_or_empty choice = elim choice.text [ none ↦ [] | some s ↦ s ]

abbrev pub is_finished : Choice → Bool
is_finished choice = elim choice.finish_reason [ none ↦ false | some s ↦ not (null s) ]

abbrev pub ChoiceBuffers : Type 0
ChoiceBuffers = List (ℕ × StreamingDeAnonymizer)

unfoldable pub buffer_of : ℕ → ChoiceBuffers → Option StreamingDeAnonymizer
buffer_of i [] = none
buffer_of i ((n, s) ∷ buffers) = if n == i then some s else buffer_of i buffers

unfoldable pub put_buffer : ℕ → StreamingDeAnonymizer → ChoiceBuffers → ChoiceBuffers
put_buffer i s [] = (i, s) ∷ []
put_buffer i s ((n, t) ∷ buffers) =
    let rest = put_buffer i s buffers in if n == i then (n, s) ∷ buffers else (n, t) ∷ rest

pub record TextStream : Type 0 where
  pub buffers : ChoiceBuffers
  pub flushed : List ℕ

abbrev pub is_flushed : ℕ → TextStream → Bool
is_flushed i st = any (λ n. n == i) st.flushed

-- The buffer of a choice, made when it is first met.
abbrev pub made : PiiMapping → Option StreamingDeAnonymizer → StreamingDeAnonymizer
made m none = init m.fake_to_original
made m (some s) = s

-- The text, where there is some, through the buffer.
abbrev pub feed_text : StreamingDeAnonymizer → Choice → StreamingDeAnonymizer × Choice
feed_text s choice =
    let (s', output) = feed s (text_or_empty choice) in
    if null (text_or_empty choice) then (s, choice) else (s', record choice { text = some output })

-- What is still held goes to the end of the text; nothing is written where nothing is held.
abbrev pub finish_text : StreamingDeAnonymizer → Choice → StreamingDeAnonymizer × Choice
finish_text s choice =
    let (s', remaining) = flush s in
    (
      s',
      if null remaining
          then choice
          else record choice { text = some (text_or_empty choice ++ remaining) },
    )

-- The body of the loop over the choices of a chunk.
unfoldable pub restore_entry : PiiMapping → Entry → TextStream → TextStream × Entry
restore_entry m (other j) st = (st, other j)
restore_entry m (dict choice) st =
    let i = index_of choice in
    let (s1, fed) = feed_text (made m (buffer_of i st.buffers)) choice in
    let (s2, done) = finish_text s1 fed in
    if is_finished choice
    then (record { buffers = put_buffer i s2 st.buffers; flushed = i ∷ st.flushed }, dict done)
    else (record st { buffers = put_buffer i s1 st.buffers }, dict fed)

unfoldable pub restore_entries : PiiMapping → List Entry → TextStream → TextStream × List Entry
restore_entries m [] st = (st, [])
restore_entries m (e ∷ entries) st =
    let (st1, e') = restore_entry m e st in
    let (st2, rest) = restore_entries m entries st1 in (st2, e' ∷ rest)

unfoldable pub restore_chunks : PiiMapping → List Chunk → TextStream → TextStream × List Chunk
restore_chunks m [] st = (st, [])
restore_chunks m (chunk ∷ chunks) st =
    let (st1, entries) = restore_entries m chunk.choices st in
    let (st2, rest) = restore_chunks m chunks st1 in
    (st2, record chunk { choices = entries } ∷ rest)

-- `_drain`: what the buffers of the choices without a finish chunk still hold.
unfoldable pub drain : List ℕ → ChoiceBuffers → List (ℕ × Text)
drain finished [] = []
drain finished ((i, s) ∷ buffers) =
    let rest = drain finished buffers in
    if any (λ n. n == i) finished || null s.buffer then rest else (i, s.buffer) ∷ rest

-- The chunks that are sent on, and the texts that are sent after them, each for its choice; without a
-- mapping to restore from, the chunks go as they came.
unfoldable pub stream_text_response : Bool → PiiMapping → List Chunk → List Chunk × List (ℕ × Text)
stream_text_response enabled m chunks =
    let (st, sent) = restore_chunks m chunks (record { buffers = []; flushed = [] }) in
    if enabled && not (null m.original_to_fake)
    then (sent, drain st.flushed st.buffers)
    else (chunks, [])
