-- ===== src/Gateway/Anthropic/Whole.antt =====
-- `scrub_anthropic_request` of privaite/gateway/scrub.py: the body that it makes, beside the one that it was given,
-- and the mapping at its end.
use priv_ai_te.Prelude.{◌≡◌, refl, Option, none, some, codes}
use priv_ai_te.Json.{Json, Fields, boolean, number, str, arr, obj, get_field, set_field}
use priv_ai_te.Mapping.{PiiMapping, empty, reserve}
use priv_ai_te.Anonymizer.Coherent.{IsCoherent}
use priv_ai_te.Engine.{PiiEngine, passed}
use priv_ai_te.Engine.Traced.{Post-passed}
use priv_ai_te.Action.{each_item}
use priv_ai_te.Action.Makes.{Grows, Makes, Makes-pure, Makes-bind}
use priv_ai_te.Action.Derived.{
  list, object, FieldsAreDerived, FromItems, items_derived_on, fields_derived_on, same_fields,
  set_field-derived, Makes-set_items, Makes-same, Makes-unchanged, Makes-each_item,
}
use priv_ai_te.Messages.Keeps.{reserved-IsCoherent, empty-IsCoherent}
use priv_ai_te.Messages.Derived.{ScrubsEach, FromObj, Made, Makes-put}
use priv_ai_te.Gateway.{scrub_str, gate_document}
use priv_ai_te.Gateway.Derived.{Gated, gate_document-Makes, scrub_str-Makes}
use priv_ai_te.Gateway.Anthropic.{
  scrub_blocks, scrub_message_content, scrub_message, scrub_messages, scrub_anthropic_request,
}
use priv_ai_te.Gateway.Anthropic.Derived.{no_text}
use priv_ai_te.Gateway.Anthropic.Blocks.{blocks-Makes}

module _ {S : Type 0} (g : PiiEngine S) where
  message_content-Makes :
      (message : Fields) (o : Option Json) (m0 : PiiMapping)
      → get_field (codes "content") message ≡ o
      → Makes m0 (FromObj g no_text message) (scrub_message_content g message o)
  unfolding scrub_message_content
  message_content-Makes message (some (str s)) m0 h =
      Makes-put g no_text (codes "content") message (str s) m0 (scrub_str g s) h
        (scrub_str-Makes g no_text.loads no_text.dumps s m0)
  message_content-Makes message (some (arr blocks)) m0 h =
      Makes-bind m0 (FromItems g no_text.loads no_text.dumps blocks) (FromObj g no_text message)
        (scrub_blocks g blocks) _ (blocks-Makes g blocks m0)
        (λ new m1 x ds.
          Makes-pure m1 (FromObj g no_text message)
            (obj (set_field (codes "content") (arr new) message))
            (λ m y. object message (set_field (codes "content") (arr new) message) (
              set_field-derived g no_text.loads no_text.dumps m (codes "content") message message
                (arr blocks) (arr new) (same_fields g no_text.loads no_text.dumps m message) h
                (list blocks new
                  (items_derived_on g no_text.loads no_text.dumps m1 m y blocks new ds)))))
  message_content-Makes message none m0 h =
      Makes-same g no_text.loads no_text.dumps (obj message) m0
  message_content-Makes message (some (obj fields)) m0 h =
      Makes-same g no_text.loads no_text.dumps (obj message) m0
  message_content-Makes message (some (number n)) m0 h =
      Makes-same g no_text.loads no_text.dumps (obj message) m0
  message_content-Makes message (some (boolean b)) m0 h =
      Makes-same g no_text.loads no_text.dumps (obj message) m0
  message_content-Makes message (some Json.null) m0 h =
      Makes-same g no_text.loads no_text.dumps (obj message) m0

  message-Makes : ScrubsEach g no_text (scrub_message g)
  unfolding scrub_message
  message-Makes (obj message) m0 =
      message_content-Makes message (get_field (codes "content") message) m0 refl
  message-Makes (str s) m0 = Makes-same g no_text.loads no_text.dumps (str s) m0
  message-Makes (arr items) m0 = Makes-same g no_text.loads no_text.dumps (arr items) m0
  message-Makes (number n) m0 = Makes-same g no_text.loads no_text.dumps (number n) m0
  message-Makes (boolean b) m0 = Makes-same g no_text.loads no_text.dumps (boolean b) m0
  message-Makes Json.null m0 = Makes-same g no_text.loads no_text.dumps Json.null m0

  messages-Makes :
      (body : Fields) (o : Option Json) (m0 : PiiMapping)
      → get_field (codes "messages") body ≡ o
      → Makes m0 (Made g no_text body) (scrub_messages g body o)
  unfolding scrub_messages
  messages-Makes body (some (arr messages)) m0 h =
      Makes-set_items g no_text.loads no_text.dumps (codes "messages") body messages m0
        (each_item (scrub_message g) messages) h
        (Makes-each_item g no_text.loads no_text.dumps (scrub_message g) message-Makes messages m0)
  messages-Makes body none m0 h =
      Makes-unchanged g no_text.loads no_text.dumps body body m0
        (same_fields g no_text.loads no_text.dumps m0 body)
  messages-Makes body (some (str s)) m0 h =
      Makes-unchanged g no_text.loads no_text.dumps body body m0
        (same_fields g no_text.loads no_text.dumps m0 body)
  messages-Makes body (some (obj fields)) m0 h =
      Makes-unchanged g no_text.loads no_text.dumps body body m0
        (same_fields g no_text.loads no_text.dumps m0 body)
  messages-Makes body (some (number n)) m0 h =
      Makes-unchanged g no_text.loads no_text.dumps body body m0
        (same_fields g no_text.loads no_text.dumps m0 body)
  messages-Makes body (some (boolean b)) m0 h =
      Makes-unchanged g no_text.loads no_text.dumps body body m0
        (same_fields g no_text.loads no_text.dumps m0 body)
  messages-Makes body (some Json.null) m0 h =
      Makes-unchanged g no_text.loads no_text.dumps body body m0
        (same_fields g no_text.loads no_text.dumps m0 body)

  -- If a Messages request passes, its mapping is coherent, and the new body has the shape and the keys of the
  -- old one, but that an object without `content` may have a null there: each part is the same, or
  -- was made by the walk; and every pair that the mapping of one of the results of
  -- `anonymize_text` in it notes is restored by the mapping at the end.
  pub scrub_anthropic_request-AreDerived :
      (body out : Fields) (m' : PiiMapping)
      → scrub_anthropic_request g body ≡ passed (out, m')
      → IsCoherent m' × FieldsAreDerived g no_text.loads no_text.dumps m' body out
  unfolding scrub_anthropic_request
  scrub_anthropic_request-AreDerived body out m' h =
      let start = reserve g.decimals (obj body) empty in
      let (c, _, d) =
        Post-passed (Grows start (Made g no_text body)) _ out m'
          (Makes-bind start (Made g no_text body) (Made g no_text body)
            (scrub_messages g body (get_field (codes "messages") body)) _
            (messages-Makes body (get_field (codes "messages") body) start refl)
            (λ b1 m1 _ d1.
              Makes-bind m1 (Gated g) (Made g no_text body)
                (gate_document g (get_field (codes "system") body)) _
                (gate_document-Makes g (get_field (codes "system") body) m1)
                (λ u m2 x _.
                  Makes-unchanged g no_text.loads no_text.dumps body b1 m2
                    (fields_derived_on g no_text.loads no_text.dumps m1 m2 x body b1 d1)))
            start (λ f o q. q) (reserved-IsCoherent g.decimals (obj body) empty empty-IsCoherent))
          h in
      (c, d)
