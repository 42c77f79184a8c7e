-- ===== src/Gateway/Anthropic.antt =====
-- privaite/gateway/scrub.py, `scrub_anthropic_request`.
pub mod Keeps
pub mod Derived
pub mod Blocks
pub mod Whole
use priv_ai_te.Prelude.{Bool, true, false, Option, none, some, List, [], ◌∷◌, Text, codes, text_eq}
use priv_ai_te.Json.{
  Json, Items, Fields, boolean, number, str, arr, obj, nil, item, end, field, get_field, set_field,
  text_in,
}
use priv_ai_te.Mapping.{PiiMapping, empty, reserve}
use priv_ai_te.Engine.{Result, PiiEngine}
use priv_ai_te.Action.{Action, pure, crash, ◌>>=◌, on_text, on_value, choose, each_item, at_texts}
use priv_ai_te.Gateway.{set_present, by_kind, scrub_document, scrub_str, gate_document, at_values}

abbrev pub thinking_types : List Text
thinking_types = codes "thinking" ∷ codes "redacted_thinking" ∷ []

abbrev pub tool_use_types : List Text
tool_use_types = codes "tool_use" ∷ codes "server_tool_use" ∷ codes "mcp_tool_use" ∷ []

abbrev pub tool_result_types : List Text
tool_result_types = codes "tool_result" ∷ codes "mcp_tool_result" ∷ []

abbrev pub anthropic_opaque_types : List Text
anthropic_opaque_types = codes "image" ∷ codes "container_upload" ∷ []

abbrev pub generic_text_fields : List Text
generic_text_fields =
    codes "text"
    ∷ codes "title"
    ∷ codes "context"
    ∷ codes "source"
    ∷ codes "url"
    ∷ codes "reason"
    ∷ codes "stdout"
    ∷ codes "stderr"
    ∷ []

abbrev pub generic_data_fields : List Text
generic_data_fields = codes "input" ∷ codes "output" ∷ []

module _ {S : Type 0} (g : PiiEngine S) where
  unfoldable pub scrub_tool_use_block : Fields → Action Json
  unfolding scrub_document get_field set_field
  scrub_tool_use_block block =
      on_value (get_field (codes "input") block)
        (λ input.
          scrub_document g input >>= λ new. pure (obj (set_field (codes "input") new block)))
        (pure (obj block))

  -- A source of type "text" carries its text under `data`.
  unfoldable pub scrub_text_source : Fields → Action Json
  unfolding scrub_str get_field set_field
  scrub_text_source source =
      on_text (get_field (codes "data") source)
        (λ s. scrub_str g s >>= λ new. pure (obj (set_field (codes "data") new source)))
        (pure (obj source))

  unfoldable pub scrub_unknown_block :
      Fields → Action (Option Json) → Action (Option Json) → Action Json
  unfolding scrub_str scrub_document at_texts at_values set_field
  scrub_unknown_block block content source =
      at_texts generic_text_fields (scrub_str g) block block >>= λ n1.
      (at_values g generic_data_fields (scrub_document g) block n1 >>= λ n2.
      (content >>= λ c.
      (source >>= λ s.
      pure (obj (set_present (codes "source") s (set_present (codes "content") c n2))))))

  -- `_scrub_anthropic_block`, with the scrub of the content and of the source of the block.
  unfoldable pub scrub_fields : Fields → Action (Option Json) → Action (Option Json) → Action Json
  unfolding scrub_str scrub_tool_use_block scrub_unknown_block at_texts get_field set_field
  scrub_fields block content source =
      let kind = get_field (codes "type") block in
      by_kind kind (
        choose (text_in kind thinking_types) (pure (obj block)) (
          choose (text_in kind (codes "text" ∷ []))
            (at_texts (codes "text" ∷ []) (scrub_str g) block block >>= λ new. pure (obj new))
            (choose (text_in kind tool_use_types) (scrub_tool_use_block block) (
              choose (text_in kind tool_result_types)
                (content >>= λ c. pure (obj (set_present (codes "content") c block)))
                (choose (text_in kind (codes "document" ∷ []))
                  (at_texts (codes "title" ∷ codes "context" ∷ []) (scrub_str g) block block
                    >>= λ new. (source >>= λ s. pure (obj (set_present (codes "source") s new))))
                  (choose (text_in kind (codes "search_result" ∷ []))
                    (at_texts (codes "title" ∷ codes "source" ∷ []) (scrub_str g) block block
                      >>= λ new.
                          (content >>= λ c. pure (obj (set_present (codes "content") c new))))
                    (choose (text_in kind anthropic_opaque_types) (pure (obj block))
                      (scrub_unknown_block block content source))))))))

  -- `content_of` and `source_of` scrub what a block has under that key, the first being the only one.
  unfoldable mutual
    unfolding scrub_str scrub_fields scrub_text_source get_field set_field

    pub scrub_block : Json → Action Json
    scrub_block (obj block) = scrub_fields block (content_of block) (source_of block)
    scrub_block block = pure block

    pub content_of : Fields → Action (Option Json)
    content_of end = pure none
    content_of (field k j fields) =
        choose (text_eq k (codes "content")) (scrub_block_content j >>= λ new. pure (some new))
          (content_of fields)

    pub scrub_block_content : Json → Action Json
    scrub_block_content (str s) = scrub_str g s
    scrub_block_content (arr parts) = scrub_parts parts >>= λ new. pure (arr new)
    scrub_block_content (obj block) = scrub_fields block (content_of block) (source_of block)
    scrub_block_content inner = pure inner

    -- A bare string in the list is scanned too.
    pub scrub_parts : Items → Action Items
    scrub_parts nil = pure nil
    scrub_parts (item (str s) parts) =
        scrub_str g s >>= λ new. (scrub_parts parts >>= λ rest. pure (item new rest))
    scrub_parts (item part parts) =
        scrub_block part >>= λ new. (scrub_parts parts >>= λ rest. pure (item new rest))

    pub source_of : Fields → Action (Option Json)
    source_of end = pure none
    source_of (field k j fields) =
        choose (text_eq k (codes "source")) (scrub_source j) (source_of fields)

    pub scrub_source : Json → Action (Option Json)
    scrub_source (obj source) =
        let kind = get_field (codes "type") source in
        choose (text_in kind (codes "text" ∷ []))
          (scrub_text_source source >>= λ new. pure (some new))
          (choose (text_in kind (codes "content" ∷ []))
            (content_of source >>= λ c. pure (
              some (
                obj
                  (set_field (codes "content") (elim c [ none ↦ Json.null | some j ↦ j ]) source))))
            (pure (some (obj source))))
    scrub_source source = pure none

  unfoldable pub scrub_blocks : Items → Action Items
  unfolding scrub_block
  scrub_blocks nil = pure nil
  scrub_blocks (item block blocks) =
      scrub_block block >>= λ new. (scrub_blocks blocks >>= λ rest. pure (item new rest))

  -- The content of a message is scanned block by block; its bare strings are not.
  unfoldable pub scrub_message_content : Fields → Option Json → Action Json
  unfolding scrub_str scrub_blocks set_field
  scrub_message_content message (some (str s)) =
      scrub_str g s >>= λ new. pure (obj (set_field (codes "content") new message))
  scrub_message_content message (some (arr blocks)) =
      scrub_blocks blocks >>= λ new. pure (obj (set_field (codes "content") (arr new) message))
  scrub_message_content message _ = pure (obj message)

  unfoldable pub scrub_message : Json → Action Json
  unfolding scrub_message_content get_field
  scrub_message (obj message) = scrub_message_content message (get_field (codes "content") message)
  scrub_message message = pure message

  unfoldable pub scrub_messages : Fields → Option Json → Action Fields
  unfolding scrub_message each_item set_field
  scrub_messages body (some (arr messages)) =
      each_item scrub_message messages >>= λ new. pure (set_field (codes "messages") (arr new) body)
  scrub_messages body _ = pure body

  unfoldable pub scrub_anthropic_request : Fields → Result (Fields × PiiMapping)
  unfolding scrub_messages gate_document get_field reserve
  scrub_anthropic_request body =
      (scrub_messages body (get_field (codes "messages") body) >>= λ new_body.
      (gate_document g (get_field (codes "system") body) >>= λ gated. pure new_body))
        (reserve g.decimals (obj body) empty)
