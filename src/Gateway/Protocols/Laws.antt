-- ===== src/Gateway/Protocols/Laws.antt =====
-- privaite/gateway/protocols.py: the event that carries text held back on a channel is itself a fragment
-- of that channel.
use priv_ai_te.Prelude.{
  ◌≡◌, refl, Bool, true, false, Option, none, some, List, [], ◌∷◌, Text, codes, if◌then◌else◌,
}
use priv_ai_te.Json.{Json, Fields, boolean, number, str, arr, obj, get_field, text_in}
use priv_ai_te.Gateway.Protocols.{
  Channel, EventPlan, delta, anthropic_classify, anthropic_flush_event, responses_delta_events,
  responses_json_fragment_events, responses_classify, responses_flush_event,
}

-- The text at a path.
abbrev pub text_at : List Text → Fields → Option Text
text_at [] event = none
text_at (k ∷ []) event = elim (get_field k event) [ some (str s) ↦ some s | _ ↦ none ]
text_at (k ∷ l ∷ path) event = elim (get_field k event) [
  | some (obj inner) ↦ text_at (l ∷ path) inner
  | _ ↦ none
]

-- The plan is to feed a fragment of the channel, which is that text of the event, JSON source or not.
abbrev pub IsFragment : Option EventPlan → Fields → Channel → Text → Bool → Type 0
IsFragment none event c t j = ⊥
IsFragment (some plan) event c t j =
    (plan.kind ≡ delta)
    × (plan.channel ≡ some c)
    × (text_at plan.path event ≡ some t)
    × (plan.json_fragment ≡ j)

-- The flush event of a channel of the Messages protocol is classified as a fragment of that channel,
-- which carries the text that was held back.
pub anthropic_classify-anthropic_flush_event :
    (index : Json) (remaining : Text) (j : Bool)
    → let c : Channel = record { kind = if j then codes "json" else codes "text"; id = index } in
      let event = (anthropic_flush_event c remaining).1 in
      IsFragment (anthropic_classify event) event c remaining j
unfolding anthropic_classify get_field
anthropic_classify-anthropic_flush_event index remaining true = (refl, refl, refl, refl)
anthropic_classify-anthropic_flush_event index remaining false = (refl, refl, refl, refl)

-- The flush event of a channel of the Responses protocol is classified as a fragment of that channel,
-- which carries the text that was held back.
pub responses_classify-responses_flush_event :
    (c : Channel) (remaining : Text)
    → text_in (some (str c.kind)) responses_delta_events ≡ true
    → IsFragment
        (responses_classify (responses_flush_event c remaining).1)
        (responses_flush_event c remaining).1
        c
        remaining
        (text_in (some (str c.kind)) responses_json_fragment_events)
unfolding responses_classify get_field
responses_classify-responses_flush_event c remaining h = by_id c.id
  where
    by_id :
        (id : Json)
        → let d : Channel = record { kind = c.kind; id = id } in
          IsFragment
            (responses_classify (responses_flush_event d remaining).1)
            (responses_flush_event d remaining).1
            d
            remaining
            (text_in (some (str c.kind)) responses_json_fragment_events)
    by_id (str s) = rw h (refl, refl, refl, refl)
    by_id Json.null = rw h (refl, refl, refl, refl)
    by_id (boolean b) = rw h (refl, refl, refl, refl)
    by_id (number n) = rw h (refl, refl, refl, refl)
    by_id (arr items) = rw h (refl, refl, refl, refl)
    by_id (obj fields) = rw h (refl, refl, refl, refl)
