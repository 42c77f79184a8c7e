-- ===== src/Gateway/Responses/Derived.antt =====
-- What `scrub_responses_request` of privaite/gateway/scrub.py makes of the items of an input.
use priv_ai_te.Prelude.{◌≡◌, Option, none, some, [], ◌∷◌, codes, refl}
use priv_ai_te.Json.{
  Json, Items, Fields, boolean, number, str, arr, obj, nil, item, get_field, text_in,
}
use priv_ai_te.Mapping.{PiiMapping}
use priv_ai_te.Engine.{PiiEngine}
use priv_ai_te.Action.{each_item}
use priv_ai_te.Action.Makes.{Makes, Makes-pure, Makes-bind, Makes-choose}
use priv_ai_te.Action.Derived.{
  no_items, one_item, FieldsAreDerived, From, FromItems, derived_on, items_derived_on, same_fields,
  ScrubsText, Makes-set, Makes-obj, Makes-arr, Makes-same, Makes-unchanged, Makes-each_item,
  Makes-at_text,
}
use priv_ai_te.Messages.{JsonText, anonymize_arguments}
use priv_ai_te.Messages.Derived.{ScrubsEach, FromObj, Made, anonymize_arguments-Makes}
use priv_ai_te.Gateway.{scrub_document, scrub_str}
use priv_ai_te.Gateway.Derived.{Makes-by_kind, scrub_document-Makes, scrub_str-Makes, texts-Makes}
use priv_ai_te.Gateway.Responses.{
  binary_part_types, scrub_data_value, scrub_data_values, scrub_content_part,
  scrub_responses_content, unless_empty, scrub_generic_content, scrub_generic_item,
}

module _ {S : Type 0} (g : PiiEngine S) (json : JsonText) where
  str-Makes : ScrubsText g json.loads json.dumps (scrub_str g)
  str-Makes = scrub_str-Makes g json.loads json.dumps

  document-Makes :
      (j : Json) (m0 : PiiMapping) → Makes m0 (From g json.loads json.dumps j) (scrub_document g j)
  document-Makes = scrub_document-Makes g json.loads json.dumps

  mutual
    unfolding scrub_data_value

    pub data_value-Makes : ScrubsEach g json (scrub_data_value g json)
    data_value-Makes (arr parts) m0 =
        Makes-arr g json.loads json.dumps parts m0 (scrub_data_values g json parts)
          (data_values-Makes parts m0)
    data_value-Makes (obj value) m0 =
        let kind = get_field (codes "type") value in
        Makes-by_kind m0 (FromObj g json value) kind _ (
          Makes-choose m0 (FromObj g json value) (text_in kind binary_part_types) _ _
            (Makes-same g json.loads json.dumps (obj value) m0) (document-Makes (obj value) m0))
    data_value-Makes (str s) m0 = document-Makes (str s) m0
    data_value-Makes (number n) m0 = document-Makes (number n) m0
    data_value-Makes (boolean b) m0 = document-Makes (boolean b) m0
    data_value-Makes Json.null m0 = document-Makes Json.null m0

    data_values-Makes :
        (parts : Items) (m0 : PiiMapping)
        → Makes m0 (FromItems g json.loads json.dumps parts) (scrub_data_values g json parts)
    data_values-Makes nil m0 =
        Makes-pure m0 (FromItems g json.loads json.dumps nil) nil (λ m y. no_items)
    data_values-Makes (item part parts) m0 =
        Makes-bind m0 _ _ (scrub_data_value g json part) _ (data_value-Makes part m0) (λ out m1 x d.
          Makes-bind m1 _ _ (scrub_data_values g json parts) _ (data_values-Makes parts m1)
            (λ new m2 y ds.
              Makes-pure m2 (FromItems g json.loads json.dumps (item part parts)) (item out new)
                (λ m z.
                  one_item part out parts new
                    (derived_on g json.loads json.dumps m1 m (λ f o q. z f o (y f o q)) part out d)
                    (items_derived_on g json.loads json.dumps m2 m z parts new ds))))

  content_part-Makes : ScrubsEach g json (scrub_content_part g json)
  unfolding scrub_content_part
  content_part-Makes (str part) m0 = str-Makes part m0
  content_part-Makes (obj part) m0 = Makes-obj g json.loads json.dumps part m0 _ (
      texts-Makes g json.loads json.dumps (codes "text" ∷ codes "refusal" ∷ []) part part m0
        (same_fields g json.loads json.dumps m0 part))
  content_part-Makes (arr items) m0 = Makes-same g json.loads json.dumps (arr items) m0
  content_part-Makes (number n) m0 = Makes-same g json.loads json.dumps (number n) m0
  content_part-Makes (boolean b) m0 = Makes-same g json.loads json.dumps (boolean b) m0
  content_part-Makes Json.null m0 = Makes-same g json.loads json.dumps Json.null m0

  pub responses_content-Makes : ScrubsEach g json (scrub_responses_content g json)
  unfolding scrub_responses_content
  responses_content-Makes (str s) m0 = str-Makes s m0
  responses_content-Makes (arr parts) m0 =
      Makes-arr g json.loads json.dumps parts m0 (each_item (scrub_content_part g json) parts)
        (Makes-each_item g json.loads json.dumps _ content_part-Makes parts m0)
  responses_content-Makes (obj fields) m0 = Makes-same g json.loads json.dumps (obj fields) m0
  responses_content-Makes (number n) m0 = Makes-same g json.loads json.dumps (number n) m0
  responses_content-Makes (boolean b) m0 = Makes-same g json.loads json.dumps (boolean b) m0
  responses_content-Makes Json.null m0 = Makes-same g json.loads json.dumps Json.null m0

  unless_empty-Makes :
      ScrubsText g json.loads json.dumps (unless_empty g json (anonymize_arguments g json))
  unless_empty-Makes [] m0 = Makes-same g json.loads json.dumps (str []) m0
  unless_empty-Makes (c ∷ s) m0 = anonymize_arguments-Makes g json (c ∷ s) m0

  generic_content-Makes :
      (fields new : Fields) (o : Option Json) (m0 : PiiMapping)
      → get_field (codes "content") fields ≡ o
      → FieldsAreDerived g json.loads json.dumps m0 fields new
      → Makes m0 (Made g json fields) (scrub_generic_content g json o new)
  unfolding scrub_generic_content
  generic_content-Makes fields new (some (str s)) m0 h d =
      Makes-set g json.loads json.dumps (codes "content") fields new (str s) m0 _ d h
        (responses_content-Makes (str s) m0)
  generic_content-Makes fields new (some (arr parts)) m0 h d =
      Makes-set g json.loads json.dumps (codes "content") fields new (arr parts) m0 _ d h
        (responses_content-Makes (arr parts) m0)
  generic_content-Makes fields new none m0 h d =
      Makes-unchanged g json.loads json.dumps fields new m0 d
  generic_content-Makes fields new (some (obj fs)) m0 h d =
      Makes-unchanged g json.loads json.dumps fields new m0 d
  generic_content-Makes fields new (some (number n)) m0 h d =
      Makes-unchanged g json.loads json.dumps fields new m0 d
  generic_content-Makes fields new (some (boolean b)) m0 h d =
      Makes-unchanged g json.loads json.dumps fields new m0 d
  generic_content-Makes fields new (some Json.null) m0 h d =
      Makes-unchanged g json.loads json.dumps fields new m0 d

  pub generic_item-Makes :
      (fields : Fields) (m0 : PiiMapping)
      → Makes m0 (FromObj g json fields) (scrub_generic_item g json fields)
  unfolding scrub_generic_item
  generic_item-Makes fields m0 =
      Makes-bind m0 (Made g json fields) _ _ _
        (Makes-at_text g json.loads json.dumps (codes "output") (scrub_str g) fields fields m0
          str-Makes (same_fields g json.loads json.dumps m0 fields))
        (λ n1 m1 _ d1.
          Makes-bind m1 (Made g json fields) _ _ _
            (Makes-at_text g json.loads json.dumps (codes "arguments")
              (unless_empty g json (anonymize_arguments g json)) fields n1 m1 unless_empty-Makes d1)
            (λ n2 m2 _ d2.
              Makes-bind m2 (Made g json fields) _ _ _
                (texts-Makes g json.loads json.dumps
                  (codes "input" ∷ codes "text" ∷ codes "reason" ∷ []) fields n2 m2 d2)
                (λ n3 m3 _ d3. Makes-obj g json.loads json.dumps fields m3 _ (
                  generic_content-Makes fields n3 (get_field (codes "content") fields) m3 refl
                    d3))))
