-- ===== src/Gateway/Events/Lines.antt =====
-- privaite/gateway/restore.py: one event of the stream, from the lines of the upstream reply to the
-- blocks for the client.
use priv_ai_te.Prelude.{
  ℕ, Bool, true, false, not, Option, none, some, List, [], ◌∷◌, ◌++◌, map, if◌then◌else◌, Text,
  codes, any, text_eq, null, drop,
}
use priv_ai_te.Prelude.Prefixes.{is_prefix}
use priv_ai_te.Json.{Json, Fields, str, obj, get_field, set_field, is_hashable}
use priv_ai_te.Mapping.{PiiMapping}
use priv_ai_te.Gateway.Restore.{restore_tree}
use priv_ai_te.Gateway.Protocols.{
  Channel, PlanKind, verbatim, delta, restore, EventPlan, ProtocolSpec,
}
use priv_ai_te.Gateway.Events.{
  Host, Buffers, Block, held, relayed, rewritten, feed_channel, flush_channels,
}

abbrev pub is_data_line : Text → Bool
is_data_line = is_prefix (codes "data:")

-- `removeprefix(" ")` after the first five characters.
abbrev pub data_of : Text → Text
data_of line = if is_prefix (codes " ") (drop 5 line) then drop 6 line else drop 5 line

abbrev pub join_lines : List Text → Text
join_lines [] = []
join_lines (line ∷ []) = line
join_lines (line ∷ next ∷ lines) = line ++ codes "\n" ++ join_lines (next ∷ lines)

abbrev pub data_lines : List Text → List Text
data_lines [] = []
data_lines (line ∷ lines) =
    let rest = data_lines lines in if is_data_line line then data_of line ∷ rest else rest

abbrev pub strip_left : (ℕ → Bool) → Text → Text
strip_left is_space [] = []
strip_left is_space (c ∷ s) = let rest = strip_left is_space s in if is_space c then rest else c ∷ s

abbrev pub strip_right : (ℕ → Bool) → Text → Text
strip_right is_space [] = []
strip_right is_space (c ∷ s) =
    let rest = strip_right is_space s in
    if null rest then (if is_space c then [] else c ∷ []) else c ∷ rest

-- The new payload takes the place of the first data line; the other data lines go.
unfoldable pub replace_data : List Text → Text → Bool → List Text
replace_data [] new_payload emitted = []
replace_data (line ∷ lines) new_payload emitted =
    let here = replace_data lines new_payload true in
    let kept = replace_data lines new_payload emitted in
    if is_data_line line
    then if emitted then here else (codes "data: " ++ new_payload) ∷ here
    else line ∷ kept

module _ (host : Host) (m : PiiMapping) where
  -- The text through the buffer of the channel. A channel that is missing or not hashable raises there.
  unfoldable pub feed_leaf : Option Channel → Bool → Text → Buffers → Option (Buffers × Text)
  feed_leaf none json_fragment fragment buffers = none
  feed_leaf (some c) json_fragment fragment buffers =
      let fed = feed_channel host m c fragment json_fragment buffers in
      if is_hashable (some c.id) then some fed else none

  -- The walk down the path, to a text that is fed to the buffer of the channel.
  unfoldable pub feed_delta :
      Option Channel → Bool → List Text → Fields → Buffers → Option (Buffers × Fields)
  unfolding feed_leaf get_field set_field
  feed_delta c json_fragment [] event buffers = some (buffers, event)
  feed_delta c json_fragment (k ∷ []) event buffers = elim (get_field k event) [
    | some (str s) ↦ elim (feed_leaf c json_fragment s buffers) [
      | none ↦ none
      | some (after, output) ↦ some (after, set_field k (str output) event)
    ]
    | _ ↦ some (buffers, event)
  ]
  feed_delta c json_fragment (k ∷ l ∷ path) event buffers = elim (get_field k event) [
    | some (obj inner) ↦ elim (feed_delta c json_fragment (l ∷ path) inner buffers) [
      | none ↦ none
      | some (after, new) ↦ some (after, set_field k (obj new) event)
    ]
    | _ ↦ some (buffers, event)
  ]

  module _ (spec : ProtocolSpec) (enabled : Bool) (fuel : ℕ) where
    abbrev pub held_blocks : List (Channel × Text) → List Block
    held_blocks = map (λ e. let (name, event) = spec.flush_event e.0 e.1 in held name event)

    -- `_rewrite_payload`.
    unfoldable pub rewrite_payload : EventPlan → Fields → Buffers → Option (Buffers × Json)
    rewrite_payload plan event buffers =
        let whole = restore_tree host.json enabled m fuel spec.skip_restore_types (obj event) in
        elim plan.kind [
          | delta ↦ elim (feed_delta plan.channel plan.json_fragment plan.path event buffers) [
            | none ↦ none
            | some (after, new) ↦ some (after, obj new)
          ]
          | restore ↦ some (buffers, whole)
          | verbatim ↦ some (buffers, whole)
        ]

    abbrev pub is_verbatim : PlanKind → Bool
    is_verbatim verbatim = true
    is_verbatim delta = false
    is_verbatim restore = false

    -- `process_event` on a payload that is an object, after its plan.
    unfoldable pub follow_plan :
        EventPlan → List Text → Fields → Buffers → Option (Buffers × List Block)
    follow_plan plan lines event buffers =
        if any (λ c. not (is_hashable (some c.id))) plan.flush
        then none
        else let (flushed, outputs) = flush_channels host plan.flush plan.flush_all buffers in
          if is_verbatim plan.kind
          then some (flushed, held_blocks outputs ++ relayed lines ∷ [])
          else elim (rewrite_payload plan event flushed) [
            | none ↦ none
            | some (after, new) ↦ some (after, held_blocks outputs ++ rewritten lines new ∷ [])
          ]

    abbrev pub on_payload : Option Json → List Text → Buffers → Option (Buffers × List Block)
    on_payload (some (obj event)) lines buffers = elim (spec.classify_event event) [
      | none ↦ none
      | some plan ↦ follow_plan plan lines event buffers
    ]
    on_payload _ lines buffers = some (buffers, relayed lines ∷ [])

    unfoldable pub process_event : List Text → Buffers → Option (Buffers × List Block)
    process_event lines buffers =
        let payload = join_lines (data_lines lines) in
        let (flushed, outputs) = flush_channels host [] true buffers in
        if any is_data_line lines
        then if text_eq (strip_right host.is_space (strip_left host.is_space payload))
            (codes "[DONE]")
          then some (flushed, held_blocks outputs ++ relayed lines ∷ [])
          else on_payload (host.json.loads payload) lines buffers
        else some (buffers, relayed lines ∷ [])

    -- The events of the stream, and the flush of every channel at its end.
    unfoldable pub restore_events : List (List Text) → Buffers → Option (List Block)
    unfolding process_event
    restore_events [] buffers = some (held_blocks (flush_channels host [] true buffers).1)
    restore_events (lines ∷ events) buffers = elim (process_event lines buffers) [
      | none ↦ none
      | some (after, blocks) ↦ elim (restore_events events after) [
        | none ↦ none
        | some rest ↦ some (blocks ++ rest)
      ]
    ]

    -- The lines of the upstream, cut into events at the empty ones.
    unfoldable pub cut_events : List Text → List Text → List (List Text)
    cut_events [] pending = if null pending then [] else pending ∷ []
    cut_events ([] ∷ lines) pending =
        let rest = cut_events lines [] in if null pending then rest else pending ∷ rest
    cut_events ((c ∷ line) ∷ lines) pending = cut_events lines (pending ++ (c ∷ line) ∷ [])

    unfoldable pub restore_sse_stream : List Text → Option (List Block)
    unfolding cut_events restore_events
    restore_sse_stream lines = restore_events (cut_events lines []) []

-- The text of a block.
unfoldable pub render : Host → Block → Text
unfolding replace_data
render host (held name event) =
    codes "event: " ++ name ++ codes "\ndata: " ++ host.json.dumps (obj event) ++ codes "\n\n"
render host (relayed lines) = join_lines lines ++ codes "\n\n"
render host (rewritten lines new) =
    join_lines (replace_data lines (host.json.dumps new) false) ++ codes "\n\n"
