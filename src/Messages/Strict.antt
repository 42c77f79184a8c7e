-- ===== src/Messages/Strict.antt =====
-- Strict mode of privaite/pii/engine.py: a request that passes has no content that was not inspected.
use priv_ai_te.Prelude.{
  ◌≡◌, ◌⊎◌, refl, Bool, true, false, ◌||◌, Option, none, some, arith, Text, codes, Bool-cases, inl,
  inr,
}
use priv_ai_te.Json.{
  Json, Items, Fields, boolean, number, str, arr, obj, nil, item, get_field, set_field, is_hashable,
}
use priv_ai_te.Mapping.{PiiMapping, empty, reserve}
use priv_ai_te.Engine.{Result, passed, blocked, unsupported, failed, PiiEngine}
use priv_ai_te.Action.{Action, pure, crash, ◌>>=◌, on_text, on_value, choose, each_item}
use priv_ai_te.Messages.{
  JsonText, Options, is_known_media_part, reject_if_strict, anonymize_part, anonymize_content,
  at_key, anonymize_message, is_passed_on, process_message, process_request,
}

abbrev Passes : {A : Type 0} → Result (A × PiiMapping) → Type 0
Passes (passed r) = Unit
Passes (blocked ts) = ⊥
Passes unsupported = ⊥
Passes failed = ⊥

Passes-then :
    {A B : Type 0} (r : Result (A × PiiMapping)) (f : A → Action B)
    → Passes (elim r [
      | passed x ↦ f x.0 x.1
      | blocked ts ↦ blocked ts
      | unsupported ↦ unsupported
      | failed ↦ failed
    ])
    → (a : A) × (m : PiiMapping) × Passes r × Passes (f a m)
Passes-then (passed (a, m)) f h = (a, m, tt, h)
Passes-then (blocked ts) f h = absurd h
Passes-then unsupported f h = absurd h
Passes-then failed f h = absurd h

module _ (Q : Json → Type 0) where
  abbrev pub Every : Items → Type 0
  Every nil = Unit
  Every (item j items) = Q j × Every items

  each_item-Every :
      (f : Json → Action Json) (items : Items) (m : PiiMapping)
      → ((j : Json) (n : PiiMapping) → Passes (f j n) → Q j)
      → Passes (each_item f items m)
      → Every items
  unfolding each_item
  each_item-Every f nil m k h = tt
  each_item-Every f (item j items) m k h =
      let (j', m1, here, later) = Passes-then (f j m) _ h in
      let (rest, m2, there, _) = Passes-then (each_item f items m1) _ later in
      (k j m here, each_item-Every f items m1 k there)

-- A part that is text, has text, or is of a kind that carries none.
abbrev pub has_text : Fields → Bool
has_text part = elim (get_field (codes "text") part) [ some (str s) ↦ true | _ ↦ false ]

abbrev pub is_readable : Json → Bool
is_readable (str s) = true
is_readable (obj part) = has_text part || is_known_media_part (obj part)
is_readable _ = false

-- Content that is text, nothing, or a list of readable parts.
abbrev pub IsInspected : Json → Type 0
IsInspected (str s) = Unit
IsInspected Json.null = Unit
IsInspected (arr parts) = Every (λ part. is_readable part ≡ true) parts
IsInspected _ = ⊥

module _ {S : Type 0} (g : PiiEngine S) (options : Options) (strict : options.strict ≡ true) where
  rejected : (j : Json) (m : PiiMapping) → Passes (reject_if_strict g options j m) → ⊥
  rejected j m h = rw strict at h

  media :
      (hashable known : Bool) (part : Fields) (m : PiiMapping)
      → Passes (
          choose hashable
            (choose known (pure (obj part)) (reject_if_strict g options (obj part)))
            crash
            m)
      → known ≡ true
  media true true part m h = refl
  media true false part m h = absurd (rejected (obj part) m h)
  media false known part m h = absurd h

  readable_part :
      (part : Fields) (o : Option Json) (hashable : Bool) (m : PiiMapping) (f : Text → Action Json)
      → get_field (codes "text") part ≡ o
      → Passes (
          on_text o f
            (choose hashable
              (choose
                (is_known_media_part (obj part))
                (pure (obj part))
                (reject_if_strict g options (obj part)))
              crash)
            m)
      → is_readable (obj part) ≡ true
  readable_part part (some (str s)) hashable m f e h = ground arith
  readable_part part none hashable m f e h =
      ground (arith, media hashable (is_known_media_part (obj part)) part m h)
  readable_part part (some Json.null) hashable m f e h =
      ground (arith, media hashable (is_known_media_part (obj part)) part m h)
  readable_part part (some (boolean b)) hashable m f e h =
      ground (arith, media hashable (is_known_media_part (obj part)) part m h)
  readable_part part (some (number n)) hashable m f e h =
      ground (arith, media hashable (is_known_media_part (obj part)) part m h)
  readable_part part (some (arr items)) hashable m f e h =
      ground (arith, media hashable (is_known_media_part (obj part)) part m h)
  readable_part part (some (obj fields)) hashable m f e h =
      ground (arith, media hashable (is_known_media_part (obj part)) part m h)

  anonymize_part-is_readable :
      (part : Json) (m : PiiMapping)
      → Passes (anonymize_part g options part m)
      → is_readable part ≡ true
  unfolding anonymize_part
  anonymize_part-is_readable (str s) m h = refl
  anonymize_part-is_readable (obj part) m h =
      readable_part part (get_field (codes "text") part)
        (is_hashable (get_field (codes "type") part)) m _ refl h
  anonymize_part-is_readable (arr items) m h = absurd (rejected (arr items) m h)
  anonymize_part-is_readable (number n) m h = absurd (rejected (number n) m h)
  anonymize_part-is_readable (boolean b) m h = absurd (rejected (boolean b) m h)
  anonymize_part-is_readable Json.null m h = absurd (rejected Json.null m h)

  anonymize_content-IsInspected :
      (content : Json) (m : PiiMapping)
      → Passes (anonymize_content g options content m)
      → IsInspected content
  unfolding anonymize_content
  anonymize_content-IsInspected (str s) m h = tt
  anonymize_content-IsInspected Json.null m h = tt
  anonymize_content-IsInspected (arr parts) m h =
      let (_, m1, here, _) = Passes-then (each_item (anonymize_part g options) parts m) _ h in
      each_item-Every (λ part. is_readable part ≡ true) (anonymize_part g options) parts m
        anonymize_part-is_readable here
  anonymize_content-IsInspected (obj fields) m h = rejected (obj fields) m h
  anonymize_content-IsInspected (number n) m h = rejected (number n) m h
  anonymize_content-IsInspected (boolean b) m h = rejected (boolean b) m h

  -- The content of a message that is not passed on as it is was inspected.
  abbrev pub ContentIsInspected : Option Json → Type 0
  ContentIsInspected none = Unit
  ContentIsInspected (some j) = IsInspected j

  module _ (json : JsonText) where
    abbrev pub MessageIsInspected : Json → Type 0
    MessageIsInspected (obj message) =
        (is_passed_on g options json message ≡ true)
        ⊎ ContentIsInspected (get_field (codes "content") message)
    MessageIsInspected _ = ⊥

    content-Passes :
        (o : Option Json) (new : Fields) (m : PiiMapping)
        → Passes (
            on_value o
              (λ j.
                choose true
                  (anonymize_content g options j >>= λ j'.
                    pure (set_field (codes "content") j' new))
                  (pure new))
              (pure new)
              m)
        → ContentIsInspected o
    content-Passes none new m h = tt
    content-Passes (some j) new m h =
        let (_, _, here, _) = Passes-then (anonymize_content g options j m) _ h in
        anonymize_content-IsInspected j m here

    message-Passes :
        (message : Fields) (m : PiiMapping)
        → Passes (anonymize_message g options json message m)
        → ContentIsInspected (get_field (codes "content") message)
    unfolding anonymize_message at_key
    message-Passes message m h =
        let (_, _, here, _) = Passes-then _ _ h in
        content-Passes (get_field (codes "content") message) message m here

    process_message-IsInspected :
        (message : Json) (m : PiiMapping)
        → Passes (process_message g options json message m)
        → MessageIsInspected message
    unfolding process_message
    process_message-IsInspected (obj message) m h =
        elim (Bool-cases (is_passed_on g options json message)) [
          | inl e ↦ inl e
          | inr e ↦
              let (_, _, here, _) =
                Passes-then (anonymize_message g options json message m) _ (rw e at h) in
              inr (message-Passes message m here)
        ]
    process_message-IsInspected (arr items) m h = h
    process_message-IsInspected (str s) m h = h
    process_message-IsInspected (number n) m h = h
    process_message-IsInspected (boolean b) m h = h
    process_message-IsInspected Json.null m h = h

    -- In strict mode, if a request passes, each message is an object, and its content, unless the message
    -- is a system message that the configuration passes on, is text, null, or a list of parts that are
    -- text, have text, or are media of a known type.
    pub process_request-Every :
        (messages out : Items) (other : Json) (m' : PiiMapping)
        → process_request g options json messages other ≡ passed (out, m')
        → Every MessageIsInspected messages
    unfolding process_request
    process_request-Every messages out other m' h =
        let start = reserve g.decimals other (reserve g.decimals (arr messages) empty) in
        let passes : Passes (each_item (process_message g options json) messages start) = rw h tt in
        each_item-Every MessageIsInspected (process_message g options json) messages start
          process_message-IsInspected passes
