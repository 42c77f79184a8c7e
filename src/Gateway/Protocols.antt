-- ===== src/Gateway/Protocols.antt =====
-- privaite/gateway/protocols.py: what to do with each event of a streamed reply, and the event that
-- carries the text that was held back.
pub mod Laws
use priv_ai_te.Prelude.{
  ℕ, ◌-◌, Bool, true, false, ◌||◌, Option, none, some, List, [], ◌∷◌, ◌++◌, map, if◌then◌else◌,
  Text, codes, text_eq, length, take,
}
use priv_ai_te.Prelude.Prefixes.{is_prefix}
use priv_ai_te.Json.{
  Json, Items, Fields, boolean, number, str, arr, obj, nil, item, end, field, get_field, text_in,
  is_zero,
}

-- A text stream within one reply.
pub record Channel : Type 0 where
  pub kind : Text
  pub id : Json

pub data PlanKind : Type 0 where
  verbatim delta restore : PlanKind

pub record EventPlan : Type 0 where
  pub kind : PlanKind
  pub channel : Option Channel
  pub path : List Text
  pub flush : List Channel
  pub flush_all : Bool
  pub json_fragment : Bool

abbrev pub plain_plan : PlanKind → EventPlan
plain_plan kind = record {
  kind = kind;
  channel = none;
  path = [];
  flush = [];
  flush_all = false;
  json_fragment = false;
}

abbrev pub delta_plan : Channel → List Text → Bool → EventPlan
delta_plan channel path json_fragment = record {
  kind = delta;
  channel = some channel;
  path = path;
  flush = [];
  flush_all = false;
  json_fragment = json_fragment;
}

abbrev pub flush_plan : List Channel → Bool → EventPlan
flush_plan channels flush_all = record {
  kind = restore;
  channel = none;
  path = [];
  flush = channels;
  flush_all = flush_all;
  json_fragment = false;
}

-- `event.get(k, 0)`.
abbrev pub get_or_zero : Text → Fields → Json
get_or_zero k event = elim (get_field k event) [ none ↦ number (codes "0") | some j ↦ j ]

abbrev pub delta_type : Option Json → Option Json
delta_type (some (obj fields)) = get_field (codes "type") fields
delta_type _ = none

abbrev pub classify_delta : Option Json → Json → EventPlan
classify_delta dtype index =
    if text_in dtype (codes "text_delta" ∷ [])
    then delta_plan (record { kind = codes "text"; id = index }) (codes "delta" ∷ codes "text" ∷ [])
        false
    else if text_in dtype (codes "input_json_delta" ∷ [])
    then delta_plan (record { kind = codes "json"; id = index })
        (codes "delta" ∷ codes "partial_json" ∷ []) true
    else if text_in dtype (codes "thinking_delta" ∷ codes "signature_delta" ∷ [])
    then plain_plan verbatim
    else plain_plan restore

unfoldable pub anthropic_classify : Fields → Option EventPlan
unfolding get_field
anthropic_classify event =
    let etype = get_field (codes "type") event in
    let index = get_or_zero (codes "index") event in
    if text_in etype (codes "content_block_delta" ∷ [])
    then some (classify_delta (delta_type (get_field (codes "delta") event)) index)
    else if text_in etype (codes "content_block_stop" ∷ [])
    then some (
        flush_plan
          (record { kind = codes "text"; id = index }
            ∷ record { kind = codes "json"; id = index }
            ∷ [])
          false)
    else if text_in etype (codes "message_stop" ∷ [])
    then some (flush_plan [] true)
    else some (plain_plan restore)

-- The name of the event and its event.
abbrev pub anthropic_flush_event : Channel → Text → Text × Fields
anthropic_flush_event channel remaining =
    let delta =
      if text_eq channel.kind (codes "json")
      then field (codes "type") (str (codes "input_json_delta"))
          (field (codes "partial_json") (str remaining) end)
      else field (codes "type") (str (codes "text_delta"))
          (field (codes "text") (str remaining) end) in
    (
      codes "content_block_delta",
      field (codes "type") (str (codes "content_block_delta"))
          (field (codes "index") channel.id (field (codes "delta") (obj delta) end)),
    )

abbrev pub responses_delta_events : List Text
responses_delta_events =
    codes "response.output_text.delta"
    ∷ codes "response.function_call_arguments.delta"
    ∷ codes "response.custom_tool_call_input.delta"
    ∷ codes "response.mcp_call_arguments.delta"
    ∷ codes "response.refusal.delta"
    ∷ codes "response.audio.transcript.delta"
    ∷ codes "response.code_interpreter_call_code.delta"
    ∷ []

abbrev pub responses_done_events : List Text
responses_done_events = map (λ t. take (length t - 5) t ++ codes "done") responses_delta_events

abbrev pub responses_json_fragment_events : List Text
responses_json_fragment_events =
    codes "response.function_call_arguments.delta" ∷ codes "response.mcp_call_arguments.delta" ∷ []

abbrev pub responses_verbatim_events : List Text
responses_verbatim_events =
    codes "response.audio.delta"
    ∷ codes "response.audio.done"
    ∷ codes "response.image_generation_call.partial_image"
    ∷ []

abbrev pub responses_channel_id : Fields → Json
responses_channel_id event = elim (get_field (codes "item_id") event) [
  | none ↦ get_or_zero (codes "output_index") event
  | some Json.null ↦ get_or_zero (codes "output_index") event
  | some j ↦ j
]

-- `event.get("type") or ""`; what is no text has no `startswith`.
abbrev pub event_type : Option Json → Option Text
event_type none = some []
event_type (some (str s)) = some s
event_type (some Json.null) = some []
event_type (some (boolean b)) = if b then none else some []
event_type (some (number n)) = if is_zero n then some [] else none
event_type (some (arr nil)) = some []
event_type (some (obj end)) = some []
event_type _ = none

abbrev pub classify_type : Text → Json → EventPlan
classify_type etype id =
    let among = text_in (some (str etype)) in
    if among responses_delta_events
    then delta_plan (record { kind = etype; id = id }) (codes "delta" ∷ [])
        (among responses_json_fragment_events)
    else if is_prefix (codes "response.reasoning") etype || among responses_verbatim_events
    then plain_plan verbatim
    else if among responses_done_events
    then flush_plan (record { kind = take (length etype - 4) etype ++ codes "delta"; id = id } ∷ [])
        false
    else if text_eq etype (codes "response.completed")
    then flush_plan [] true
    else plain_plan restore

unfoldable pub responses_classify : Fields → Option EventPlan
unfolding get_field
responses_classify event = elim (event_type (get_field (codes "type") event)) [
  | none ↦ none
  | some etype ↦ some (classify_type etype (responses_channel_id event))
]

abbrev pub id_field : Json → Fields
id_field (str s) = field (codes "item_id") (str s) end
id_field j = field (codes "output_index") j end

abbrev pub responses_flush_event : Channel → Text → Text × Fields
responses_flush_event channel remaining = (
  channel.kind,
  field (codes "type") (str channel.kind)
      (field (codes "delta") (str remaining) (id_field channel.id)),
)

pub record ProtocolSpec : Type 0 where
  pub skip_restore_types : List Text
  pub classify_event : Fields → Option EventPlan
  pub flush_event : Channel → Text → Text × Fields

abbrev pub anthropic_messages : ProtocolSpec
anthropic_messages = record {
  skip_restore_types = codes "thinking" ∷ codes "redacted_thinking" ∷ [];
  classify_event = anthropic_classify;
  flush_event = anthropic_flush_event;
}

abbrev pub openai_responses : ProtocolSpec
openai_responses = record {
  skip_restore_types = codes "reasoning" ∷ codes "compaction" ∷ [];
  classify_event = responses_classify;
  flush_event = responses_flush_event;
}
