-- ===== src/Gateway/Requests.antt =====
-- `scrub_anthropic_request` and `scrub_responses_request` of privaite/gateway/scrub.py as a whole.
use priv_ai_te.Prelude.{
  ◌≡◌, refl, ◌∙◌, true, false, Option, none, some, arith, Text, codes, text_eq, text_eq_iff, null,
  Bool-cases, inl, inr,
}
use priv_ai_te.Json.{
  Json, Fields, boolean, number, str, arr, obj, end, field, get_field, set_field, is_truthy_json,
}
use priv_ai_te.Literal.{DecimalClass}
use priv_ai_te.Mapping.{PiiMapping, empty, reserve, get_original}
use priv_ai_te.Mapping.Reserved.{holds, reserve-is_reserved, reserve-SameFakes}
use priv_ai_te.Anonymizer.Shielded.{IsShielded, NoFakes, IsShielded-IsInvariant}
use priv_ai_te.Engine.{Result, passed, blocked, unsupported, failed, PiiEngine, walk_anonymize}
use priv_ai_te.Engine.Documents.{passed-After}
use priv_ai_te.Engine.Traced.{walk_anonymize-IsTraced}
use priv_ai_te.Engine.Quiet.{IsQuiet, IsTraced-IsQuiet}
use priv_ai_te.Action.{pure, each_item}
use priv_ai_te.Action.Passed.{passed-bind}
use priv_ai_te.Messages.{JsonText}
use priv_ai_te.Messages.Keeps.{empty-IsCoherent}
use priv_ai_te.Gateway.{scrub_document, discard, gate_document}
use priv_ai_te.Gateway.Anthropic.{scrub_message, scrub_messages, scrub_anthropic_request}
use priv_ai_te.Gateway.Anthropic.Keeps.{scrub_anthropic_request-Keeps}
use priv_ai_te.Gateway.Responses.{scrub_input, scrub_prompt, scrub_responses_request}
use priv_ai_te.Gateway.Responses.Keeps.{scrub_responses_request-Keeps}

reserved_once :
    (r : Text) (u : DecimalClass) (j : Json) → holds u r j ≡ true → IsShielded r (reserve u j empty)
reserved_once r u j h =
    let (_, f) = reserve-SameFakes u j empty in
    (reserve-is_reserved u r j empty ∙ ground (arith, h), rw f refl)

get_field-set_field :
    (k n : Text) (v : Json) (fields : Fields)
    → text_eq n k ≡ false
    → get_field k (set_field n v fields) ≡ get_field k fields
unfolding get_field set_field
get_field-set_field k n v end h = rw h refl
get_field-set_field k n v (field j w fields) h = elim (Bool-cases (text_eq j n)) [
  | inl e ↦
      let q : j ≡ n = (text_eq_iff j n).0 e in
      let d : text_eq j k ≡ false = rw q h in ground (arith, e, d)
  | inr e ↦ ground (arith, e, get_field-set_field k n v fields h)
]

module _ {S : Type 0} (g : PiiEngine S) where
  discard-passed :
      (r : Result (Json × PiiMapping)) (m m' : PiiMapping) (u : Unit {0})
      → discard g r m ≡ passed (u, m')
      → (clean : Json) × (n : PiiMapping) × (r ≡ passed (clean, n))
  unfolding discard
  discard-passed (passed (clean, n)) m m' u h = (clean, n, refl)
  discard-passed (blocked ts) m m' u h = cc
  discard-passed unsupported m m' u h = cc
  discard-passed failed m m' u h = cc

  gate_document-passed :
      (o : Option Json) (value : Json) (m m' : PiiMapping) (u : Unit {0})
      → null g.block_entities ≡ false
      → o ≡ some value
      → is_truthy_json value ≡ true
      → gate_document g o m ≡ passed (u, m')
      → IsQuiet g value
  unfolding gate_document scrub_document
  gate_document-passed o value m m' u blocks here truthy h =
      let (clean, n, walked) =
        discard-passed (walk_anonymize g value empty) m m' u (rw (here, blocks, truthy) at h) in
      let (_, _, traced) = walk_anonymize-IsTraced g value clean empty n walked empty-IsCoherent in
      IsTraced-IsQuiet g n value clean traced

  messages-get_field :
      (k : Text) (body out : Fields) (o : Option Json) (m m' : PiiMapping)
      → text_eq (codes "messages") k ≡ false
      → scrub_messages g body o m ≡ passed (out, m')
      → get_field k out ≡ get_field k body
  unfolding scrub_messages
  messages-get_field k body out none m m' d h = cc
  messages-get_field k body out (some (arr messages)) m m' d h =
      let (new, m1, _, e) =
        passed-bind (each_item (scrub_message g) messages)
          (λ new. pure (set_field (codes "messages") (arr new) body)) m out m' h in
      let q : set_field (codes "messages") (arr new) body ≡ out = cc in
      rw (← q) (get_field-set_field k (codes "messages") (arr new) body d)
  messages-get_field k body out (some (str s)) m m' d h = cc
  messages-get_field k body out (some (obj fields)) m m' d h = cc
  messages-get_field k body out (some (number n)) m m' d h = cc
  messages-get_field k body out (some (boolean b)) m m' d h = cc
  messages-get_field k body out (some Json.null) m m' d h = cc

  -- If a Messages request passes and no type is replaced by generated values, then a literal in the
  -- shape of a placeholder that stands anywhere in the body, relayed parts included, is never issued.
  pub scrub_anthropic_request-get_original :
      (r : Text) (body out : Fields) (m' : PiiMapping)
      → NoFakes g.anonymization
      → holds g.decimals r (obj body) ≡ true
      → scrub_anthropic_request g body ≡ passed (out, m')
      → get_original m' r ≡ none
  scrub_anthropic_request-get_original r body out m' no_fakes held h =
      (passed-After (IsShielded r) _ out m'
        (scrub_anthropic_request-Keeps g (IsShielded r)
          (IsShielded-IsInvariant r g.generate g.anonymization no_fakes) body
          (reserved_once r g.decimals (obj body) held))
        h).1

  anthropic_steps :
      (body out : Fields) (m' : PiiMapping)
      → scrub_anthropic_request g body ≡ passed (out, m')
      → (m1 : PiiMapping) × (m2 : PiiMapping) × (u : Unit {0}) × (scrub_messages g body
            (get_field (codes "messages") body)
            (reserve g.decimals (obj body) empty)
          ≡ passed (out, m1))
        × (gate_document g (get_field (codes "system") body) m1 ≡ passed (u, m2))
  unfolding scrub_anthropic_request
  anthropic_steps body out m' h =
      let start = reserve g.decimals (obj body) empty in
      let (new, m1, scrubbed, rest) =
        passed-bind (scrub_messages g body (get_field (codes "messages") body)) _ start out m' h in
      let (u, m2, gated, done) =
        passed-bind (gate_document g (get_field (codes "system") body)) (λ u. pure new) m1 out m'
          rest in
      let q : new ≡ out = cc in (m1, m2, u, rw q at scrubbed, gated)

  -- If a Messages request passes, every field but `messages` is relayed verbatim.
  pub scrub_anthropic_request-get_field :
      (k : Text) (body out : Fields) (m' : PiiMapping)
      → text_eq (codes "messages") k ≡ false
      → scrub_anthropic_request g body ≡ passed (out, m')
      → get_field k out ≡ get_field k body
  scrub_anthropic_request-get_field k body out m' d h =
      let (m1, _, _, scrubbed, _) = anthropic_steps body out m' h in
      messages-get_field k body out (get_field (codes "messages") body)
        (reserve g.decimals (obj body) empty) m1 d scrubbed

  module _ (json : JsonText) where
    -- If a Responses request passes and no type is replaced by generated values, then a literal in the
    -- shape of a placeholder that stands anywhere in the body, relayed parts included, is never issued.
    pub scrub_responses_request-get_original :
        (r : Text) (body out : Fields) (m' : PiiMapping)
        → NoFakes g.anonymization
        → holds g.decimals r (obj body) ≡ true
        → scrub_responses_request g json body ≡ passed (out, m')
        → get_original m' r ≡ none
    scrub_responses_request-get_original r body out m' no_fakes held h =
        (passed-After (IsShielded r) _ out m'
          (scrub_responses_request-Keeps g json (IsShielded r)
            (IsShielded-IsInvariant r g.generate g.anonymization no_fakes) body
            (reserved_once r g.decimals (obj body) held))
          h).1

    -- If some types are blocked and a Responses request passes, then on each string value that is not empty of its `instructions`,
    -- where these are not empty, and on each number of at least seven digits in them, no detector fails, and no
    -- detection is of a blocked type, copies of what some mapping knows included. Keys of objects are not looked at.
    pub scrub_responses_request-IsQuiet :
        (value : Json) (body out : Fields) (m' : PiiMapping)
        → null g.block_entities ≡ false
        → get_field (codes "instructions") body ≡ some value
        → is_truthy_json value ≡ true
        → scrub_responses_request g json body ≡ passed (out, m')
        → IsQuiet g value
    unfolding scrub_responses_request
    scrub_responses_request-IsQuiet value body out m' blocks here truthy h =
        let start = reserve g.decimals (obj body) empty in
        let (b1, m1, _, h1) =
          passed-bind (scrub_input g json body (get_field (codes "input") body)) _ start out m' h in
        let (b2, m2, _, h2) =
          passed-bind (scrub_prompt g json (get_field (codes "prompt") body) b1) _ m1 out m' h1 in
        let (u, m3, gated, _) =
          passed-bind (gate_document g (get_field (codes "instructions") body)) (λ u. pure b2) m2
            out m' h2 in
        gate_document-passed (get_field (codes "instructions") body) value m2 m3 u blocks here
          truthy gated
