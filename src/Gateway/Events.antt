-- ===== src/Gateway/Events.antt =====
-- privaite/gateway/restore.py: the restorer of a streamed reply, event by event, with a buffer for each
-- text stream in it.
pub mod Channels
mod Tests
pub mod Framing
pub mod Lines
pub mod Escaped
pub mod Streams
use priv_ai_te.Prelude.{
  ℕ, Bool, true, false, ◌&&◌, Option, none, some, List, [], ◌∷◌, ◌++◌, map, if◌then◌else◌, Text,
  codes, any, text_eq, null, length, take, drop, ◌-◌,
}
use priv_ai_te.Prelude.Dicts.{Dict, lookup_or}
use priv_ai_te.Prelude.Prefixes.{is_prefix}
use priv_ai_te.Json.{Json, Fields, str, obj, end, field, get_field, set_field, is_hashable}
use priv_ai_te.Mapping.{PiiMapping, empty, add}
use priv_ai_te.Messages.{JsonText}
use priv_ai_te.Stream.{StreamingDeAnonymizer, init, feed, flush}
use priv_ai_te.Gateway.Restore.{restore_tree}
use priv_ai_te.Gateway.Protocols.{
  Channel, PlanKind, verbatim, delta, restore, EventPlan, ProtocolSpec,
}

-- `key` is the same for values that Python takes as equal keys; `is_space` is what `strip` takes off.
pub record Host : Type 0 where
  pub json : JsonText
  pub key : Json → Text
  pub is_space : ℕ → Bool

-- `dumps(value)[1:-1]`.
abbrev pub json_escape : JsonText → Text → Text
json_escape json value =
    let quoted = drop 1 (json.dumps (str value)) in take (length quoted - 1) quoted

-- The loop of `json_escaped_mapping`.
unfoldable pub escape_all : JsonText → PiiMapping → Dict Text → PiiMapping → PiiMapping
unfolding add
escape_all json m [] escaped = escaped
escape_all json m ((fake, original) ∷ d) escaped =
    escape_all json m d
      (add (json_escape json original) fake (lookup_or [] original m.entity_types) escaped)

unfoldable pub json_escaped_mapping : JsonText → PiiMapping → PiiMapping
unfolding escape_all
json_escaped_mapping json m = escape_all json m m.fake_to_original empty

abbrev pub Buffers : Type 0
Buffers = List (Channel × StreamingDeAnonymizer)

-- One block of the restored stream.
pub data Block : Type 0 where
  held : Text → Fields → Block
  relayed : List Text → Block
  rewritten : List Text → Json → Block

module _ (host : Host) where
  abbrev pub same : Channel → Channel → Bool
  same a b = text_eq a.kind b.kind && text_eq (host.key a.id) (host.key b.id)

  unfoldable pub get_buffer : Channel → Buffers → Option StreamingDeAnonymizer
  get_buffer c [] = none
  get_buffer c ((d, s) ∷ buffers) = if same d c then some s else get_buffer c buffers

  unfoldable pub set_buffer : Channel → StreamingDeAnonymizer → Buffers → Buffers
  set_buffer c s [] = (c, s) ∷ []
  set_buffer c s ((d, t) ∷ buffers) =
      let rest = set_buffer c s buffers in if same d c then (d, s) ∷ buffers else (d, t) ∷ rest

  -- What a buffer is made from.
  abbrev pub fakes_for : PiiMapping → Bool → Dict Text
  fakes_for m json_fragment =
      if json_fragment
      then (json_escaped_mapping host.json m).fake_to_original
      else m.fake_to_original

  unfoldable pub buffer_for : PiiMapping → Channel → Bool → Buffers → StreamingDeAnonymizer
  unfolding get_buffer init
  buffer_for m c json_fragment buffers = elim (get_buffer c buffers) [
    | none ↦ init (fakes_for m json_fragment)
    | some s ↦ s
  ]

  -- `_feed`.
  unfoldable pub feed_channel : PiiMapping → Channel → Text → Bool → Buffers → Buffers × Text
  unfolding buffer_for set_buffer feed
  feed_channel m c fragment json_fragment buffers =
      let (s, output) = feed (buffer_for m c json_fragment buffers) fragment in
      (set_buffer c s buffers, output)

  -- The loop of `flush` over its keys, those without a buffer left out.
  unfoldable pub flush_keys : List Channel → Buffers → Buffers × List (Channel × Text)
  unfolding get_buffer set_buffer flush
  flush_keys [] buffers = (buffers, [])
  flush_keys (c ∷ channels) buffers = elim (get_buffer c buffers) [
    | none ↦ flush_keys channels buffers
    | some s ↦
        let (s', remaining) = flush s in
        let (after, events) = flush_keys channels (set_buffer c s' buffers) in
        (after, if null remaining then events else (c, remaining) ∷ events)
  ]

  unfoldable pub flush_channels : List Channel → Bool → Buffers → Buffers × List (Channel × Text)
  unfolding flush_keys
  flush_channels channels flush_all buffers =
      flush_keys (if flush_all then map (λ b. b.0) buffers else channels) buffers
