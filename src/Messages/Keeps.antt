-- ===== src/Messages/Keeps.antt =====
-- `process_request` of privaite/pii/engine.py keeps the invariants of the mapping over all messages.
use priv_ai_te.Prelude.{◌≡◌, refl, ◌∙◌, Bool, true, ◌||◌, none, arith, Text, codes}
use priv_ai_te.Json.{Json, Items, Fields, boolean, number, str, arr, obj, get_field, is_hashable}
use priv_ai_te.Literal.{DecimalClass}
use priv_ai_te.Mapping.{PiiMapping, empty, reserve, get_original}
use priv_ai_te.Mapping.Reserved.{holds, reserve-is_reserved, reserve-SameFakes}
use priv_ai_te.Anonymizer.Invariants.{IsInvariant}
use priv_ai_te.Anonymizer.Coherent.{IsCoherent}
use priv_ai_te.Anonymizer.Shielded.{IsShielded, NoFakes, IsShielded-IsInvariant}
use priv_ai_te.Engine.{passed, PiiEngine, anonymize_text, walk_anonymize}
use priv_ai_te.Engine.Documents.{anonymize_text-Keeps, walk_anonymize-Keeps, passed-After}
use priv_ai_te.Action.{Action, each_item}
use priv_ai_te.Action.Keeps.{
  Keeps, Keeps-reject, Keeps-bind, Keeps-on_text, Keeps-on_fields, Keeps-on_value, Keeps-choose,
  Keeps-each_item, Keeps-at_text, Keeps-at_texts,
}
use priv_ai_te.Messages.{
  JsonText, Options, is_known_media_part, anonymize_str, anonymize_arguments, anonymize_function,
  anonymize_call, anonymize_tool_calls, anonymize_function_call, reject_if_strict, anonymize_part,
  anonymize_content, reply_fields, at_key, anonymize_audio, anonymize_message, is_passed_on,
  scans_call, process_message, process_request,
}

pub reserved-IsCoherent :
    (u : DecimalClass) (j : Json) (m : PiiMapping) → IsCoherent m → IsCoherent (reserve u j m)
reserved-IsCoherent u j m c =
    let (a, b) = reserve-SameFakes u j m in
    record { restores = λ o f h. rw b (c.restores o f (rw a at h)); distinct = rw b c.distinct }

pub empty-IsCoherent : IsCoherent empty
empty-IsCoherent = record { restores = λ o f h. ground arith; distinct = tt }

pub reserved_twice :
    (r : Text) (u : DecimalClass) (a b : Json)
    → (holds u r a || holds u r b) ≡ true
    → IsShielded r (reserve u b (reserve u a empty))
reserved_twice r u a b h =
    let (_, f1) = reserve-SameFakes u a empty in
    let (_, f2) = reserve-SameFakes u b (reserve u a empty) in
    (
      reserve-is_reserved u r b (reserve u a empty)
          ∙ ground (arith, reserve-is_reserved u r a empty, h),
      rw (f2, f1) refl,
    )

module _ {S : Type 0} (g : PiiEngine S) (P : PiiMapping → Type 0)
    (i : IsInvariant g.generate g.anonymization P) where
  pub anonymize_str-Keeps : (s : Text) → Keeps P (anonymize_str g s)
  unfolding anonymize_str
  anonymize_str-Keeps s =
      Keeps-bind P (anonymize_text g s) _ (anonymize_text-Keeps g P i s) (λ t. λ m p. p)

  module _ (json : JsonText) where
    pub anonymize_arguments-Keeps : (s : Text) → Keeps P (anonymize_arguments g json s)
    unfolding anonymize_arguments
    anonymize_arguments-Keeps s =
        Keeps-on_value P (json.loads s) _ _
          (λ j. Keeps-bind P (walk_anonymize g j) _ (walk_anonymize-Keeps g P i j) (λ w m p. p))
          (anonymize_str-Keeps s)

    anonymize_function-Keeps : (fs : Fields) → Keeps P (anonymize_function g json fs)
    unfolding anonymize_function
    anonymize_function-Keeps fs =
        Keeps-at_text P (codes "arguments") _ fs fs anonymize_arguments-Keeps

    anonymize_call-Keeps : (j : Json) → Keeps P (anonymize_call g json j)
    unfolding anonymize_call
    anonymize_call-Keeps (obj call) =
        Keeps-on_fields P (get_field (codes "function") call) _ _
          (λ function.
            Keeps-bind P (anonymize_function g json function) _ (anonymize_function-Keeps function)
              (λ new. λ m p. p))
          (λ m p. p)
    anonymize_call-Keeps (str s) = λ m p. p
    anonymize_call-Keeps (arr s) = λ m p. p
    anonymize_call-Keeps (number s) = λ m p. p
    anonymize_call-Keeps (boolean s) = λ m p. p
    anonymize_call-Keeps Json.null = λ m p. p

    anonymize_tool_calls-Keeps : (j : Json) → Keeps P (anonymize_tool_calls g json j)
    unfolding anonymize_tool_calls
    anonymize_tool_calls-Keeps (arr calls) =
        Keeps-bind P (each_item (anonymize_call g json) calls) _
          (Keeps-each_item P _ calls anonymize_call-Keeps) (λ new. λ m p. p)
    anonymize_tool_calls-Keeps (obj s) = λ m p. p
    anonymize_tool_calls-Keeps (str s) = λ m p. p
    anonymize_tool_calls-Keeps (number s) = λ m p. p
    anonymize_tool_calls-Keeps (boolean s) = λ m p. p
    anonymize_tool_calls-Keeps Json.null = λ m p. p

    anonymize_function_call-Keeps : (j : Json) → Keeps P (anonymize_function_call g json j)
    unfolding anonymize_function_call
    anonymize_function_call-Keeps (obj call) =
        Keeps-bind P (anonymize_function g json call) _ (anonymize_function-Keeps call)
          (λ new. λ m p. p)
    anonymize_function_call-Keeps (arr s) = λ m p. p
    anonymize_function_call-Keeps (str s) = λ m p. p
    anonymize_function_call-Keeps (number s) = λ m p. p
    anonymize_function_call-Keeps (boolean s) = λ m p. p
    anonymize_function_call-Keeps Json.null = λ m p. p

  module _ (options : Options) where
    reject_if_strict-Keeps : (j : Json) → Keeps P (reject_if_strict g options j)
    reject_if_strict-Keeps j = Keeps-choose P options.strict _ _ (Keeps-reject P Json) (λ m p. p)

    anonymize_part-Keeps : (j : Json) → Keeps P (anonymize_part g options j)
    unfolding anonymize_part
    anonymize_part-Keeps (str s) = anonymize_str-Keeps s
    anonymize_part-Keeps (obj part) =
        Keeps-on_text P (get_field (codes "text") part) _ _
          (λ s. Keeps-bind P (anonymize_str g s) _ (anonymize_str-Keeps s) (λ new. λ m p. p))
          (Keeps-choose P (is_hashable (get_field (codes "type") part)) _ _
            (Keeps-choose P (is_known_media_part (obj part)) _ _ (λ m p. p)
              (reject_if_strict-Keeps (obj part)))
            (λ m p. tt))
    anonymize_part-Keeps (arr items) = reject_if_strict-Keeps _
    anonymize_part-Keeps (number n) = reject_if_strict-Keeps _
    anonymize_part-Keeps (boolean b) = reject_if_strict-Keeps _
    anonymize_part-Keeps Json.null = reject_if_strict-Keeps _

    anonymize_content-Keeps : (j : Json) → Keeps P (anonymize_content g options j)
    unfolding anonymize_content
    anonymize_content-Keeps (str s) = anonymize_str-Keeps s
    anonymize_content-Keeps (arr parts) =
        Keeps-bind P (each_item (anonymize_part g options) parts) _
          (Keeps-each_item P _ parts anonymize_part-Keeps) (λ new. λ m p. p)
    anonymize_content-Keeps (obj fields) = reject_if_strict-Keeps _
    anonymize_content-Keeps (number n) = reject_if_strict-Keeps _
    anonymize_content-Keeps (boolean b) = reject_if_strict-Keeps _
    anonymize_content-Keeps Json.null = λ m p. p

    module _ (json : JsonText) where
      at_key-Keeps :
          (k : Text) (condition : Json → Bool) (f : Json → Action Json) (message new : Fields)
          → ((j : Json) → Keeps P (f j))
          → Keeps P (at_key g options json k condition f message new)
      unfolding at_key
      at_key-Keeps k condition f message new kf =
          Keeps-on_value P (get_field k message) _ _
            (λ j.
              Keeps-choose P (condition j) _ _ (Keeps-bind P (f j) _ (kf j) (λ j'. λ m p. p))
                (λ m p. p))
            (λ m p. p)

      anonymize_audio-Keeps :
          (message new : Fields) → Keeps P (anonymize_audio g options json message new)
      unfolding anonymize_audio
      anonymize_audio-Keeps message new =
          Keeps-on_fields P (get_field (codes "audio") message) _ _
            (λ audio.
              Keeps-on_text P (get_field (codes "transcript") audio) _ _
                (λ s. Keeps-bind P (anonymize_str g s) _ (anonymize_str-Keeps s) (λ t. λ m p. p))
                (λ m p. p))
            (λ m p. p)

      anonymize_message-Keeps : (m : Fields) → Keeps P (anonymize_message g options json m)
      unfolding anonymize_message
      anonymize_message-Keeps message =
          Keeps-bind P _ _
            (at_key-Keeps (codes "content") (λ j. true) _ message message anonymize_content-Keeps)
            (λ m1.
              Keeps-bind P _ _
                (Keeps-at_texts P (reply_fields g options json) _ message m1 anonymize_str-Keeps)
                (λ m2. Keeps-bind P _ _ (anonymize_audio-Keeps message m2) (λ m3.
                  Keeps-bind P _ _
                    (at_key-Keeps (codes "tool_calls") (scans_call g options json) _ message m3
                      (anonymize_tool_calls-Keeps json))
                    (λ m4.
                      at_key-Keeps (codes "function_call") (scans_call g options json) _ message m4
                        (anonymize_function_call-Keeps json)))))

      process_message-Keeps : (j : Json) → Keeps P (process_message g options json j)
      unfolding process_message
      process_message-Keeps (obj message) =
          Keeps-choose P (is_passed_on g options json message) _ _ (λ m p. p)
            (Keeps-bind P (anonymize_message g options json message) _
              (anonymize_message-Keeps message) (λ new. λ m p. p))
      process_message-Keeps (arr s) = λ m p. tt
      process_message-Keeps (str s) = λ m p. tt
      process_message-Keeps (number s) = λ m p. tt
      process_message-Keeps (boolean s) = λ m p. tt
      process_message-Keeps Json.null = λ m p. tt

      process_request-keeps :
          (messages out : Items) (other : Json) (m' : PiiMapping)
          → P (reserve g.decimals other (reserve g.decimals (arr messages) empty))
          → process_request g options json messages other ≡ passed (out, m')
          → P m'
      unfolding process_request
      process_request-keeps messages out other m' p h =
          passed-After P _ out m'
            (Keeps-each_item P (process_message g options json) messages process_message-Keeps _ p)
            h

module _ {S : Type 0} (g : PiiEngine S) (options : Options) (json : JsonText) where
  -- If a chat request passes and no type is replaced by generated values, then a literal in the shape
  -- of a placeholder that stands anywhere in the messages or the other fields is never issued.
  pub process_request-get_original :
      (r : Text) (messages out : Items) (other : Json) (m' : PiiMapping)
      → NoFakes g.anonymization
      → (holds g.decimals r (arr messages) || holds g.decimals r other) ≡ true
      → process_request g options json messages other ≡ passed (out, m')
      → get_original m' r ≡ none
  process_request-get_original r messages out other m' no_fakes h passed_on =
      (process_request-keeps g (IsShielded r)
        (IsShielded-IsInvariant r g.generate g.anonymization no_fakes) options json messages out
        other m' (reserved_twice r g.decimals (arr messages) other h) passed_on).1
