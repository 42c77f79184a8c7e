-- ===== src/Gateway/Anthropic/Blocks.antt =====
-- What `scrub_anthropic_request` of privaite/gateway/scrub.py makes of blocks within blocks.
use priv_ai_te.Prelude.{◌≡◌, refl, Option, none, some, [], ◌∷◌, codes, text_eq}
use priv_ai_te.Json.{
  Json, Items, Fields, boolean, number, str, arr, obj, nil, item, end, field, get_field, set_field,
  text_in,
}
use priv_ai_te.Mapping.{PiiMapping}
use priv_ai_te.Anonymizer.Extends.{Extends}
use priv_ai_te.Engine.{PiiEngine}
use priv_ai_te.Action.{Action, pure, ◌>>=◌}
use priv_ai_te.Action.Makes.{
  Makes, Makes-pure, Makes-bind, Makes-implied, Makes-choose, Makes-choose_case,
}
use priv_ai_te.Action.Derived.{
  IsDerived, no_content, object, no_items, one_item, From, FromItems, derived_on, items_derived_on,
  same_fields, set_field-derived, Makes-arr, Makes-same,
}
use priv_ai_te.Messages.Derived.{ScrubsEach}
use priv_ai_te.Gateway.{scrub_str}
use priv_ai_te.Gateway.Derived.{scrub_str-Makes}
use priv_ai_te.Gateway.Anthropic.{
  scrub_text_source, scrub_block, content_of, scrub_block_content, scrub_parts, source_of,
  scrub_source, scrub_blocks,
}
use priv_ai_te.Gateway.Anthropic.Derived.{
  no_text, FromPart, FromContent, FromValue, content_part, later_content, first_content,
  later_source, first_source, text_source-Makes, fields-Makes,
}

module _ {S : Type 0} (g : PiiEngine S) where
  one_more :
      (j : Json) (parts : Items) (m0 : PiiMapping) (act : Action Json) (rest : Action Items)
      → Makes m0 (From g no_text.loads no_text.dumps j) act
      → ((m1 : PiiMapping) → Makes m1 (FromItems g no_text.loads no_text.dumps parts) rest)
      → Makes m0
          (FromItems g no_text.loads no_text.dumps (item j parts))
          (act >>= λ new. (rest >>= λ more. pure (item new more)))
  one_more j parts m0 act rest h hs =
      Makes-bind m0 (From g no_text.loads no_text.dumps j)
        (FromItems g no_text.loads no_text.dumps (item j parts)) act _ h
        (λ out m1 x d.
          Makes-bind m1 (FromItems g no_text.loads no_text.dumps parts)
            (FromItems g no_text.loads no_text.dumps (item j parts)) rest _ (hs m1)
            (λ new m2 y ds.
              Makes-pure m2 (FromItems g no_text.loads no_text.dumps (item j parts)) (item out new)
                (λ m z.
                  one_item j out parts new
                    (derived_on g no_text.loads no_text.dumps m1 m (λ f o q. z f o (y f o q)) j out
                      d)
                    (items_derived_on g no_text.loads no_text.dumps m2 m z parts new ds))))

  -- A source whose content is scrubbed.
  abbrev with_content : Fields → Option Json → Fields
  with_content source c =
      set_field (codes "content") (elim c [ none ↦ Json.null | some j ↦ j ]) source

  source_content :
      (source : Fields) (a b : PiiMapping) (c : Option Json)
      → Extends a b
      → FromContent g source a c
      → IsDerived g no_text.loads no_text.dumps b (obj source) (obj (with_content source c))
  source_content source a b none x h = no_content source h
  source_content source a b (some v) x (j, here, h) =
      object source (set_field (codes "content") v source) (
        set_field-derived g no_text.loads no_text.dumps b (codes "content") source source j v
          (same_fields g no_text.loads no_text.dumps b source) here
          (derived_on g no_text.loads no_text.dumps a b x j v h))

  found :
      (j : Json) (m0 : PiiMapping) (act : Action Json)
      → Makes m0 (From g no_text.loads no_text.dumps j) act
      → Makes m0 (FromValue g j) (act >>= λ new. pure (some new))
  found j m0 act h =
      Makes-bind m0 (From g no_text.loads no_text.dumps j) (FromValue g j) act _ h (λ v m1 x d.
        Makes-pure m1 (FromValue g j) (some v)
          (λ m y. derived_on g no_text.loads no_text.dumps m1 m y j v d))

  end_content : get_field (codes "content") end ≡ none
  unfolding get_field
  end_content = refl

  mutual
    unfolding scrub_block

    block-Makes : ScrubsEach g no_text (scrub_block g)
    block-Makes (obj block) m0 =
        fields-Makes g block (content_of g block) (source_of g block)
          (λ m.
            Makes-implied m (FromContent g block) (FromPart g (codes "content") block)
              (content_of g block) (content_part g block) (content_of-Makes block m))
          (source_of-Makes block) m0
    block-Makes (str s) m0 = Makes-same g no_text.loads no_text.dumps (str s) m0
    block-Makes (arr items) m0 = Makes-same g no_text.loads no_text.dumps (arr items) m0
    block-Makes (number n) m0 = Makes-same g no_text.loads no_text.dumps (number n) m0
    block-Makes (boolean b) m0 = Makes-same g no_text.loads no_text.dumps (boolean b) m0
    block-Makes Json.null m0 = Makes-same g no_text.loads no_text.dumps Json.null m0

    content_of-Makes :
        (fields : Fields) (m0 : PiiMapping) → Makes m0 (FromContent g fields) (content_of g fields)
    content_of-Makes end m0 = Makes-pure m0 (FromContent g end) none (λ m y. end_content)
    content_of-Makes (field k j fields) m0 =
        Makes-choose_case m0 (FromContent g (field k j fields)) (text_eq k (codes "content")) _ _
          (λ e.
            Makes-bind m0 (From g no_text.loads no_text.dumps j) (FromContent g (field k j fields))
              _ _ (block_content-Makes j m0)
              (λ v m1 x d. Makes-pure m1 (FromContent g (field k j fields)) (some v) (λ m y.
                first_content g k j v fields m e
                  (derived_on g no_text.loads no_text.dumps m1 m y j v d))))
          (λ e.
            Makes-implied m0 (FromContent g fields) (FromContent g (field k j fields))
              (content_of g fields) (λ n o h. later_content g k j fields n o e h)
              (content_of-Makes fields m0))

    block_content-Makes : ScrubsEach g no_text (scrub_block_content g)
    block_content-Makes (str s) m0 = scrub_str-Makes g no_text.loads no_text.dumps s m0
    block_content-Makes (arr parts) m0 =
        Makes-arr g no_text.loads no_text.dumps parts m0 (scrub_parts g parts)
          (parts-Makes parts m0)
    block_content-Makes (obj block) m0 =
        fields-Makes g block (content_of g block) (source_of g block)
          (λ m.
            Makes-implied m (FromContent g block) (FromPart g (codes "content") block)
              (content_of g block) (content_part g block) (content_of-Makes block m))
          (source_of-Makes block) m0
    block_content-Makes (number n) m0 = Makes-same g no_text.loads no_text.dumps (number n) m0
    block_content-Makes (boolean b) m0 = Makes-same g no_text.loads no_text.dumps (boolean b) m0
    block_content-Makes Json.null m0 = Makes-same g no_text.loads no_text.dumps Json.null m0

    parts-Makes :
        (parts : Items) (m0 : PiiMapping)
        → Makes m0 (FromItems g no_text.loads no_text.dumps parts) (scrub_parts g parts)
    parts-Makes nil m0 =
        Makes-pure m0 (FromItems g no_text.loads no_text.dumps nil) nil (λ m y. no_items)
    parts-Makes (item (str s) parts) m0 =
        one_more (str s) parts m0 (scrub_str g s) (scrub_parts g parts)
          (scrub_str-Makes g no_text.loads no_text.dumps s m0) (parts-Makes parts)
    parts-Makes (item (obj fields) parts) m0 =
        one_more (obj fields) parts m0 (scrub_block g (obj fields)) (scrub_parts g parts)
          (block-Makes (obj fields) m0) (parts-Makes parts)
    parts-Makes (item (arr items) parts) m0 =
        one_more (arr items) parts m0 (scrub_block g (arr items)) (scrub_parts g parts)
          (block-Makes (arr items) m0) (parts-Makes parts)
    parts-Makes (item (number n) parts) m0 =
        one_more (number n) parts m0 (scrub_block g (number n)) (scrub_parts g parts)
          (block-Makes (number n) m0) (parts-Makes parts)
    parts-Makes (item (boolean b) parts) m0 =
        one_more (boolean b) parts m0 (scrub_block g (boolean b)) (scrub_parts g parts)
          (block-Makes (boolean b) m0) (parts-Makes parts)
    parts-Makes (item Json.null parts) m0 =
        one_more Json.null parts m0 (scrub_block g Json.null) (scrub_parts g parts)
          (block-Makes Json.null m0) (parts-Makes parts)

    source_of-Makes :
        (fields : Fields) (m0 : PiiMapping)
        → Makes m0 (FromPart g (codes "source") fields) (source_of g fields)
    source_of-Makes end m0 = Makes-pure m0 (FromPart g (codes "source") end) none (λ m y. tt)
    source_of-Makes (field k j fields) m0 =
        Makes-choose_case m0 (FromPart g (codes "source") (field k j fields))
          (text_eq k (codes "source")) _ _
          (λ e.
            Makes-implied m0 (FromValue g j) (FromPart g (codes "source") (field k j fields))
              (scrub_source g j) (λ n o h. first_source g k j fields n o e h) (source-Makes j m0))
          (λ e.
            Makes-implied m0 (FromPart g (codes "source") fields)
              (FromPart g (codes "source") (field k j fields)) (source_of g fields)
              (λ n o h. later_source g k j fields n o e h) (source_of-Makes fields m0))

    source-Makes : (j : Json) (m0 : PiiMapping) → Makes m0 (FromValue g j) (scrub_source g j)
    source-Makes (obj source) m0 =
        let kind = get_field (codes "type") source in
        Makes-choose m0 (FromValue g (obj source)) (text_in kind (codes "text" ∷ [])) _ _
          (found (obj source) m0 (scrub_text_source g source) (text_source-Makes g source m0))
          (Makes-choose m0 (FromValue g (obj source)) (text_in kind (codes "content" ∷ [])) _ _
            (Makes-bind m0 (FromContent g source) (FromValue g (obj source)) (content_of g source) _
              (content_of-Makes source m0)
              (λ c m1 x h.
                Makes-pure m1 (FromValue g (obj source)) (some (obj (with_content source c)))
                  (λ m y. source_content source m1 m c y h)))
            (found (obj source) m0 (pure (obj source))
              (Makes-same g no_text.loads no_text.dumps (obj source) m0)))
    source-Makes (str s) m0 = Makes-pure m0 (FromValue g (str s)) none (λ m y. tt)
    source-Makes (arr items) m0 = Makes-pure m0 (FromValue g (arr items)) none (λ m y. tt)
    source-Makes (number n) m0 = Makes-pure m0 (FromValue g (number n)) none (λ m y. tt)
    source-Makes (boolean b) m0 = Makes-pure m0 (FromValue g (boolean b)) none (λ m y. tt)
    source-Makes Json.null m0 = Makes-pure m0 (FromValue g Json.null) none (λ m y. tt)

  pub blocks-Makes :
      (blocks : Items) (m0 : PiiMapping)
      → Makes m0 (FromItems g no_text.loads no_text.dumps blocks) (scrub_blocks g blocks)
  unfolding scrub_blocks
  blocks-Makes nil m0 =
      Makes-pure m0 (FromItems g no_text.loads no_text.dumps nil) nil (λ m y. no_items)
  blocks-Makes (item block blocks) m0 =
      one_more block blocks m0 (scrub_block g block) (scrub_blocks g blocks) (block-Makes block m0)
        (blocks-Makes blocks)
