-- ===== src/Gateway/Anthropic/Keeps.antt =====
-- `scrub_anthropic_request` of privaite/gateway/scrub.py keeps the invariants of the mapping over a
-- whole request.
use priv_ai_te.Prelude.{Option, none, some, [], ◌∷◌, codes, text_eq}
use priv_ai_te.Json.{
  Json, Items, Fields, boolean, number, str, arr, obj, nil, item, end, field, get_field, text_in,
}
use priv_ai_te.Mapping.{PiiMapping, empty, reserve}
use priv_ai_te.Anonymizer.Invariants.{IsInvariant}
use priv_ai_te.Engine.{PiiEngine}
use priv_ai_te.Action.{Action}
use priv_ai_te.Action.Keeps.{
  After, Keeps, Keeps-bind, Keeps-on_text, Keeps-on_value, Keeps-choose, Keeps-each_item,
}
use priv_ai_te.Gateway.{scrub_document}
use priv_ai_te.Gateway.Keeps.{
  Keeps-by_kind, scrub_document-Keeps, scrub_str-Keeps, gate_document-Keeps, at_values-Keeps,
  texts-Keeps,
}
use priv_ai_te.Gateway.Anthropic.{
  thinking_types, tool_use_types, tool_result_types, anthropic_opaque_types, generic_text_fields,
  generic_data_fields, scrub_tool_use_block, scrub_text_source, scrub_unknown_block, scrub_fields,
  scrub_block, content_of, scrub_block_content, scrub_parts, source_of, scrub_source, scrub_blocks,
  scrub_message_content, scrub_message, scrub_messages, scrub_anthropic_request,
}

module _ {S : Type 0} (g : PiiEngine S) (P : PiiMapping → Type 0)
    (i : IsInvariant g.generate g.anonymization P) where
  scrub_tool_use_block-Keeps : (block : Fields) → Keeps P (scrub_tool_use_block g block)
  unfolding scrub_tool_use_block
  scrub_tool_use_block-Keeps block =
      Keeps-on_value P (get_field (codes "input") block) _ _
        (λ j. Keeps-bind P _ _ ((scrub_document-Keeps g P i) j) (λ new m p. p)) (λ m p. p)

  scrub_text_source-Keeps : (source : Fields) → Keeps P (scrub_text_source g source)
  unfolding scrub_text_source
  scrub_text_source-Keeps source =
      Keeps-on_text P (get_field (codes "data") source) _ _
        (λ s. Keeps-bind P _ _ ((scrub_str-Keeps g P i) s) (λ new m p. p)) (λ m p. p)

  module _ (block : Fields) (content source : Action (Option Json)) (kc : Keeps P content)
      (ks : Keeps P source) where
    scrub_unknown_block-Keeps : Keeps P (scrub_unknown_block g block content source)
    unfolding scrub_unknown_block
    scrub_unknown_block-Keeps =
        Keeps-bind P _ _ ((texts-Keeps g P i) generic_text_fields block block) (λ n1.
          Keeps-bind P _ _
            ((at_values-Keeps g P i) generic_data_fields (scrub_document g) block n1
              (scrub_document-Keeps g P i))
            (λ n2. Keeps-bind P _ _ kc (λ c. Keeps-bind P _ _ ks (λ s m p. p))))

    scrub_fields-Keeps : Keeps P (scrub_fields g block content source)
    unfolding scrub_fields
    scrub_fields-Keeps =
        let kind = get_field (codes "type") block in
        (Keeps-by_kind g P i) kind _ (
          Keeps-choose P (text_in kind thinking_types) _ _ (λ m p. p)
            (Keeps-choose P (text_in kind (codes "text" ∷ [])) _ _
              (Keeps-bind P _ _ ((texts-Keeps g P i) (codes "text" ∷ []) block block)
                (λ new m p. p))
              (Keeps-choose P (text_in kind tool_use_types) _ _ (scrub_tool_use_block-Keeps block) (
                Keeps-choose P (text_in kind tool_result_types) _ _
                  (Keeps-bind P _ _ kc (λ c m p. p))
                  (Keeps-choose P (text_in kind (codes "document" ∷ [])) _ _
                    (Keeps-bind P _ _
                      ((texts-Keeps g P i) (codes "title" ∷ codes "context" ∷ []) block block)
                      (λ new. Keeps-bind P _ _ ks (λ s m p. p)))
                    (Keeps-choose P (text_in kind (codes "search_result" ∷ [])) _ _
                      (Keeps-bind P _ _
                        ((texts-Keeps g P i) (codes "title" ∷ codes "source" ∷ []) block block)
                        (λ new. Keeps-bind P _ _ kc (λ c m p. p)))
                      (Keeps-choose P (text_in kind anthropic_opaque_types) _ _ (λ m p. p)
                        scrub_unknown_block-Keeps)))))))

  mutual
    unfolding scrub_block

    block-Keeps : (j : Json) → Keeps P (scrub_block g j)
    block-Keeps (obj block) =
        scrub_fields-Keeps block (content_of g block) (source_of g block) (content_of-Keeps block)
          (source_of-Keeps block)
    block-Keeps (str s) = λ m p. p
    block-Keeps (arr items) = λ m p. p
    block-Keeps (number n) = λ m p. p
    block-Keeps (boolean b) = λ m p. p
    block-Keeps Json.null = λ m p. p

    content_of-Keeps : (fields : Fields) → Keeps P (content_of g fields)
    content_of-Keeps end = λ m p. p
    content_of-Keeps (field k j fields) =
        Keeps-choose P (text_eq k (codes "content")) _ _
          (Keeps-bind P _ _ (block_content-Keeps j) (λ new m p. p)) (content_of-Keeps fields)

    block_content-Keeps : (j : Json) → Keeps P (scrub_block_content g j)
    block_content-Keeps (str s) = (scrub_str-Keeps g P i) s
    block_content-Keeps (arr parts) = Keeps-bind P _ _ (parts-Keeps parts) (λ new m p. p)
    block_content-Keeps (obj block) =
        scrub_fields-Keeps block (content_of g block) (source_of g block) (content_of-Keeps block)
          (source_of-Keeps block)
    block_content-Keeps (number n) = λ m p. p
    block_content-Keeps (boolean b) = λ m p. p
    block_content-Keeps Json.null = λ m p. p

    parts-Keeps : (parts : Items) → Keeps P (scrub_parts g parts)
    parts-Keeps nil = λ m p. p
    parts-Keeps (item (str s) parts) =
        Keeps-bind P _ _ ((scrub_str-Keeps g P i) s)
          (λ new. Keeps-bind P _ _ (parts-Keeps parts) (λ rest m p. p))
    parts-Keeps (item (obj fields) parts) =
        Keeps-bind P _ _ (block-Keeps (obj fields))
          (λ new. Keeps-bind P _ _ (parts-Keeps parts) (λ rest m p. p))
    parts-Keeps (item (arr items) parts) = Keeps-bind P _ _ (parts-Keeps parts) (λ rest m p. p)
    parts-Keeps (item (number n) parts) = Keeps-bind P _ _ (parts-Keeps parts) (λ rest m p. p)
    parts-Keeps (item (boolean b) parts) = Keeps-bind P _ _ (parts-Keeps parts) (λ rest m p. p)
    parts-Keeps (item Json.null parts) = Keeps-bind P _ _ (parts-Keeps parts) (λ rest m p. p)

    source_of-Keeps : (fields : Fields) → Keeps P (source_of g fields)
    source_of-Keeps end = λ m p. p
    source_of-Keeps (field k j fields) =
        Keeps-choose P (text_eq k (codes "source")) _ _ (source-Keeps j) (source_of-Keeps fields)

    source-Keeps : (j : Json) → Keeps P (scrub_source g j)
    source-Keeps (obj source) =
        let kind = get_field (codes "type") source in
        Keeps-choose P (text_in kind (codes "text" ∷ [])) _ _
          (Keeps-bind P _ _ (scrub_text_source-Keeps source) (λ new m p. p))
          (Keeps-choose P (text_in kind (codes "content" ∷ [])) _ _
            (Keeps-bind P _ _ (content_of-Keeps source) (λ c m p. p)) (λ m p. p))
    source-Keeps (str s) = λ m p. p
    source-Keeps (arr items) = λ m p. p
    source-Keeps (number n) = λ m p. p
    source-Keeps (boolean b) = λ m p. p
    source-Keeps Json.null = λ m p. p

  scrub_blocks-Keeps : (blocks : Items) → Keeps P (scrub_blocks g blocks)
  unfolding scrub_blocks
  scrub_blocks-Keeps nil = λ m p. p
  scrub_blocks-Keeps (item block blocks) =
      Keeps-bind P _ _ (block-Keeps block)
        (λ new. Keeps-bind P _ _ (scrub_blocks-Keeps blocks) (λ rest m p. p))

  scrub_message_content-Keeps :
      (message : Fields) (o : Option Json) → Keeps P (scrub_message_content g message o)
  unfolding scrub_message_content
  scrub_message_content-Keeps message none = λ m p. p
  scrub_message_content-Keeps message (some (str s)) =
      Keeps-bind P _ _ ((scrub_str-Keeps g P i) s) (λ new m p. p)
  scrub_message_content-Keeps message (some (arr blocks)) =
      Keeps-bind P _ _ (scrub_blocks-Keeps blocks) (λ new m p. p)
  scrub_message_content-Keeps message (some (obj fields)) = λ m p. p
  scrub_message_content-Keeps message (some (number n)) = λ m p. p
  scrub_message_content-Keeps message (some (boolean b)) = λ m p. p
  scrub_message_content-Keeps message (some Json.null) = λ m p. p

  scrub_message-Keeps : (j : Json) → Keeps P (scrub_message g j)
  unfolding scrub_message
  scrub_message-Keeps (obj message) =
      scrub_message_content-Keeps message (get_field (codes "content") message)
  scrub_message-Keeps (str s) = λ m p. p
  scrub_message-Keeps (arr items) = λ m p. p
  scrub_message-Keeps (number n) = λ m p. p
  scrub_message-Keeps (boolean b) = λ m p. p
  scrub_message-Keeps Json.null = λ m p. p

  scrub_messages-Keeps : (body : Fields) (o : Option Json) → Keeps P (scrub_messages g body o)
  unfolding scrub_messages
  scrub_messages-Keeps body none = λ m p. p
  scrub_messages-Keeps body (some (arr messages)) =
      Keeps-bind P _ _ (Keeps-each_item P (scrub_message g) messages scrub_message-Keeps)
        (λ new m p. p)
  scrub_messages-Keeps body (some (str s)) = λ m p. p
  scrub_messages-Keeps body (some (obj fields)) = λ m p. p
  scrub_messages-Keeps body (some (number n)) = λ m p. p
  scrub_messages-Keeps body (some (boolean b)) = λ m p. p
  scrub_messages-Keeps body (some Json.null) = λ m p. p

  pub scrub_anthropic_request-Keeps :
      (body : Fields)
      → P (reserve g.decimals (obj body) empty)
      → After P (scrub_anthropic_request g body)
  unfolding scrub_anthropic_request
  scrub_anthropic_request-Keeps body =
      Keeps-bind P _ _ (scrub_messages-Keeps body (get_field (codes "messages") body))
        (λ new.
          Keeps-bind P _ _ ((gate_document-Keeps g P i) (get_field (codes "system") body))
            (λ u m p. p))
        (reserve g.decimals (obj body) empty)
