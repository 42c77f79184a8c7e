-- ===== src/Messages/Whole.antt =====
-- `process_request` of privaite/pii/engine.py: the messages that it makes, beside those that it was given, and the
-- mapping at its end.
use priv_ai_te.Prelude.{◌≡◌, Bool, true, Text, codes}
use priv_ai_te.Json.{
  Json, Items, Fields, boolean, number, str, arr, obj, get_field, set_field, is_hashable,
}
use priv_ai_te.Mapping.{PiiMapping, empty, reserve}
use priv_ai_te.Anonymizer.Coherent.{IsCoherent}
use priv_ai_te.Engine.{passed, PiiEngine}
use priv_ai_te.Engine.Traced.{Post-passed}
use priv_ai_te.Action.{Action, each_item}
use priv_ai_te.Action.Makes.{
  Makes, Makes-pure, Makes-bind, Makes-reject, Makes-crash, Makes-choose, Makes-on_text,
  Makes-on_fields, Makes-on_value,
}
use priv_ai_te.Action.Derived.{
  object, ItemsAreDerived, FieldsAreDerived, From, derived_on, fields_derived_on, same_fields,
  set_field-derived, Makes-set, Makes-obj, Makes-arr, Makes-same, Makes-unchanged, Makes-each_item,
  Makes-at_texts,
}
use priv_ai_te.Messages.{
  JsonText, Options, is_known_media_part, anonymize_str, reject_if_strict, anonymize_part,
  anonymize_content, reply_fields, at_key, anonymize_audio, anonymize_message, is_passed_on,
  scans_call, process_message, process_request,
}
use priv_ai_te.Messages.Keeps.{reserved-IsCoherent, empty-IsCoherent}
use priv_ai_te.Messages.Derived.{
  ScrubsEach, FromObj, Made, Makes-put, anonymize_str-Makes, anonymize_function_call-Makes,
  anonymize_tool_calls-Makes,
}

module _ {S : Type 0} (g : PiiEngine S) (json : JsonText) where
  module _ (options : Options) where
    reject_if_strict-Makes : ScrubsEach g json (reject_if_strict g options)
    reject_if_strict-Makes j m0 =
        Makes-choose m0 (From g json.loads json.dumps j) options.strict _ _
          (Makes-reject m0 (From g json.loads json.dumps j))
          (Makes-same g json.loads json.dumps j m0)

    anonymize_part-Makes : ScrubsEach g json (anonymize_part g options)
    unfolding anonymize_part
    anonymize_part-Makes (str s) m0 = anonymize_str-Makes g json s m0
    anonymize_part-Makes (obj part) m0 =
        Makes-on_text m0 (FromObj g json part) (get_field (codes "text") part) _ _
          (λ s here.
            Makes-put g json (codes "text") part (str s) m0 (anonymize_str g s) here
              (anonymize_str-Makes g json s m0))
          (Makes-choose m0 (FromObj g json part) (is_hashable (get_field (codes "type") part)) _ _
            (Makes-choose m0 (FromObj g json part) (is_known_media_part (obj part)) _ _
              (Makes-same g json.loads json.dumps (obj part) m0)
              (reject_if_strict-Makes (obj part) m0))
            (Makes-crash m0 (FromObj g json part)))
    anonymize_part-Makes (arr items) m0 = reject_if_strict-Makes (arr items) m0
    anonymize_part-Makes (number n) m0 = reject_if_strict-Makes (number n) m0
    anonymize_part-Makes (boolean b) m0 = reject_if_strict-Makes (boolean b) m0
    anonymize_part-Makes Json.null m0 = reject_if_strict-Makes Json.null m0

    anonymize_content-Makes : ScrubsEach g json (anonymize_content g options)
    unfolding anonymize_content
    anonymize_content-Makes (str s) m0 = anonymize_str-Makes g json s m0
    anonymize_content-Makes (arr parts) m0 =
        Makes-arr g json.loads json.dumps parts m0 (each_item (anonymize_part g options) parts)
          (Makes-each_item g json.loads json.dumps _ anonymize_part-Makes parts m0)
    anonymize_content-Makes (obj fields) m0 = reject_if_strict-Makes (obj fields) m0
    anonymize_content-Makes (number n) m0 = reject_if_strict-Makes (number n) m0
    anonymize_content-Makes (boolean b) m0 = reject_if_strict-Makes (boolean b) m0
    anonymize_content-Makes Json.null m0 = Makes-same g json.loads json.dumps Json.null m0

    at_key-Makes :
        (k : Text) (condition : Json → Bool) (f : Json → Action Json) (message new : Fields)
        (m0 : PiiMapping)
        → ScrubsEach g json f
        → FieldsAreDerived g json.loads json.dumps m0 message new
        → Makes m0 (Made g json message) (at_key g options json k condition f message new)
    unfolding at_key
    at_key-Makes k condition f message new m0 kf d =
        Makes-on_value m0 _ (get_field k message) _ _
          (λ j here.
            Makes-choose m0 (Made g json message) (condition j) _ _
              (Makes-set g json.loads json.dumps k message new j m0 (f j) d here (kf j m0))
              (Makes-unchanged g json.loads json.dumps message new m0 d))
          (Makes-unchanged g json.loads json.dumps message new m0 d)

    anonymize_audio-Makes :
        (message new : Fields) (m0 : PiiMapping)
        → FieldsAreDerived g json.loads json.dumps m0 message new
        → Makes m0 (Made g json message) (anonymize_audio g options json message new)
    unfolding anonymize_audio
    anonymize_audio-Makes message new m0 d =
        Makes-on_fields m0 _ (get_field (codes "audio") message) _ _
          (λ audio here.
            Makes-on_text m0 _ (get_field (codes "transcript") audio) _ _
              (λ s spoken.
                Makes-bind m0 _ _ (anonymize_str g s) _ (anonymize_str-Makes g json s m0)
                  (λ t m1 x h.
                    Makes-pure m1 (Made g json message)
                      (set_field (codes "audio") (obj (set_field (codes "transcript") t audio)) new)
                      (λ m y.
                        set_field-derived g json.loads json.dumps m (codes "audio") message new
                          (obj audio) (obj (set_field (codes "transcript") t audio))
                          (fields_derived_on g json.loads json.dumps m0 m (λ f o q. y f o (x f o q))
                            message new d)
                          here
                          (object audio (set_field (codes "transcript") t audio) (
                            set_field-derived g json.loads json.dumps m (codes "transcript") audio
                              audio (str s) t (same_fields g json.loads json.dumps m audio) spoken
                              (derived_on g json.loads json.dumps m1 m y (str s) t h))))))
              (Makes-unchanged g json.loads json.dumps message new m0 d))
          (Makes-unchanged g json.loads json.dumps message new m0 d)

    anonymize_message-Makes :
        (message : Fields) (m0 : PiiMapping)
        → Makes m0 (Made g json message) (anonymize_message g options json message)
    unfolding anonymize_message
    anonymize_message-Makes message m0 =
        Makes-bind m0 (Made g json message) _ _ _
          (at_key-Makes (codes "content") (λ j. true) _ message message m0 anonymize_content-Makes
            (same_fields g json.loads json.dumps m0 message))
          (λ n1 m1 _ d1.
            Makes-bind m1 (Made g json message) _ _ _
              (Makes-at_texts g json.loads json.dumps (reply_fields g options json) _ message n1 m1
                (anonymize_str-Makes g json) d1)
              (λ n2 m2 _ d2.
                Makes-bind m2 (Made g json message) _ _ _ (anonymize_audio-Makes message n2 m2 d2)
                  (λ n3 m3 _ d3.
                    Makes-bind m3 (Made g json message) _ _ _
                      (at_key-Makes (codes "tool_calls") (scans_call g options json) _ message n3 m3
                        (anonymize_tool_calls-Makes g json) d3)
                      (λ n4 m4 _ d4.
                        at_key-Makes (codes "function_call") (scans_call g options json) _ message
                          n4 m4 (anonymize_function_call-Makes g json) d4))))

    process_message-Makes : ScrubsEach g json (process_message g options json)
    unfolding process_message
    process_message-Makes (obj message) m0 =
        Makes-choose m0 (FromObj g json message) (is_passed_on g options json message) _ _
          (Makes-same g json.loads json.dumps (obj message) m0)
          (Makes-obj g json.loads json.dumps message m0 _ (anonymize_message-Makes message m0))
    process_message-Makes (arr s) m0 = Makes-crash m0 (From g json.loads json.dumps (arr s))
    process_message-Makes (str s) m0 = Makes-crash m0 (From g json.loads json.dumps (str s))
    process_message-Makes (number s) m0 = Makes-crash m0 (From g json.loads json.dumps (number s))
    process_message-Makes (boolean s) m0 = Makes-crash m0 (From g json.loads json.dumps (boolean s))
    process_message-Makes Json.null m0 = Makes-crash m0 (From g json.loads json.dumps Json.null)

    -- If a chat request passes, its mapping is coherent, and its new messages have the shape and the keys of
    -- the old ones, but that an object without `content` may have a null there: each part is the same,
    -- or is a string that `anonymize_text` made of the old one, or the JSON text of what the walk
    -- made of the document that the old string is the JSON text of; and every pair that the mapping
    -- of one of these results of `anonymize_text` notes is restored by the mapping at the end.
    pub process_request-AreDerived :
        (messages out : Items) (other : Json) (m' : PiiMapping)
        → process_request g options json messages other ≡ passed (out, m')
        → IsCoherent m' × ItemsAreDerived g json.loads json.dumps m' messages out
    unfolding process_request
    process_request-AreDerived messages out other m' h =
        let start = reserve g.decimals other (reserve g.decimals (arr messages) empty) in
        let (c, _, d) =
          Post-passed _ _ out m'
            (Makes-each_item g json.loads json.dumps (process_message g options json)
              process_message-Makes messages start start (λ f o q. q)
              (reserved-IsCoherent g.decimals other (reserve g.decimals (arr messages) empty)
                (reserved-IsCoherent g.decimals (arr messages) empty empty-IsCoherent)))
            h in
        (c, d)
