-- ===== src/Action/Derived.antt =====
-- How the documents that a scrub makes relate to those that it was given.
use priv_ai_te.Prelude.{
  ◌≡◌, Option, none, some, List, [], ◌∷◌, arith, Text, codes, text_eq, Bool-cases, inl, inr,
}
use priv_ai_te.Json.{
  Json, Items, Fields, str, arr, obj, nil, item, end, field, get_field, set_field,
}
use priv_ai_te.Mapping.{PiiMapping}
use priv_ai_te.Anonymizer.Extends.{Extends}
use priv_ai_te.Engine.{PiiEngine, walk_anonymize}
use priv_ai_te.Engine.Traced.{IsTraced, traced_on, walk_anonymize-Traces}
use priv_ai_te.Action.{Action, pure, ◌>>=◌, each_item, each_field, at_text, at_texts}
use priv_ai_te.Action.Makes.{Makes, Makes-pure, Makes-bind, Makes-on_text}

module _ {S : Type 0} (g : PiiEngine S) (loads : Text → Option Json) (dumps : Json → Text) where
  mutual
    -- The second document has the shape and the keys of the first: each part of it is the same, or is
    -- traced to the part of the first by the walk, or is the JSON text of a document traced to the one
    -- that the first has the text of; an object without `content` may get a null there.
    pub data IsDerived (m' : PiiMapping) : Json → Json → Type 0 where
      same : (j : Json) → IsDerived m' j j
      traced : (j out : Json) → IsTraced g m' j out → IsDerived m' j out
      json_text :
          (s : Text) (j out : Json)
          → loads s ≡ some j
          → IsTraced g m' j out
          → IsDerived m' (str s) (str (dumps out))
      list : (items new : Items) → ItemsAreDerived m' items new → IsDerived m' (arr items) (arr new)
      object :
          (fields new : Fields)
          → FieldsAreDerived m' fields new
          → IsDerived m' (obj fields) (obj new)
      no_content :
          (fields : Fields)
          → get_field (codes "content") fields ≡ none
          → IsDerived m' (obj fields) (obj (set_field (codes "content") Json.null fields))

    pub data ItemsAreDerived (m' : PiiMapping) : Items → Items → Type 0 where
      no_items : ItemsAreDerived m' nil nil
      one_item :
          (j out : Json) (items new : Items)
          → IsDerived m' j out
          → ItemsAreDerived m' items new
          → ItemsAreDerived m' (item j items) (item out new)

    pub data FieldsAreDerived (m' : PiiMapping) : Fields → Fields → Type 0 where
      no_fields : FieldsAreDerived m' end end
      one_field :
          (k : Text) (j out : Json) (fields new : Fields)
          → IsDerived m' j out
          → FieldsAreDerived m' fields new
          → FieldsAreDerived m' (field k j fields) (field k out new)

  mutual
    pub derived_on :
        (a b : PiiMapping) → Extends a b → (j out : Json) → IsDerived a j out → IsDerived b j out
    derived_on a b e _ _ (same j) = same j
    derived_on a b e _ _ (traced j out h) = traced j out (traced_on g a b e j out h)
    derived_on a b e _ _ (json_text s j out l h) = json_text s j out l (traced_on g a b e j out h)
    derived_on a b e _ _ (list items new h) = list items new (items_derived_on a b e items new h)
    derived_on a b e _ _ (no_content fields h) = no_content fields h
    derived_on a b e _ _ (object fields new h) =
        object fields new (fields_derived_on a b e fields new h)

    pub items_derived_on :
        (a b : PiiMapping)
        → Extends a b
        → (items new : Items) → ItemsAreDerived a items new
        → ItemsAreDerived b items new
    items_derived_on a b e _ _ no_items = no_items
    items_derived_on a b e _ _ (one_item j out items new h hs) =
        one_item j out items new (derived_on a b e j out h) (items_derived_on a b e items new hs)

    pub fields_derived_on :
        (a b : PiiMapping)
        → Extends a b
        → (fields new : Fields) → FieldsAreDerived a fields new
        → FieldsAreDerived b fields new
    fields_derived_on a b e _ _ no_fields = no_fields
    fields_derived_on a b e _ _ (one_field k j out fields new h hs) =
        one_field k j out fields new (derived_on a b e j out h)
          (fields_derived_on a b e fields new hs)

  pub same_fields : (m : PiiMapping) (fields : Fields) → FieldsAreDerived m fields fields
  same_fields m end = no_fields
  same_fields m (field k j fields) = one_field k j j fields fields (same j) (same_fields m fields)

  -- A derived value in the place of the one that it is derived from.
  pub set_field-derived :
      (m : PiiMapping) (k : Text) (fields new : Fields) (j v : Json)
      → FieldsAreDerived m fields new
      → get_field k fields ≡ some j
      → IsDerived m j v
      → FieldsAreDerived m fields (set_field k v new)
  unfolding get_field set_field
  set_field-derived m k _ _ j v no_fields h d = cc
  set_field-derived m k _ _ j v (one_field n i out fields new hi hs) h d =
      elim (Bool-cases (text_eq n k)) [
        | inl e ↦
            let q : j ≡ i = ground (arith, e, h) in rw e (one_field n i v fields new (rw q at d) hs)
        | inr e ↦
            let q : get_field k fields ≡ some j = ground (arith, e, h) in
            rw e (
              one_field n i out fields (set_field k v new) hi
                (set_field-derived m k fields new j v hs q d))
      ]

  -- What is derived from a document, from its items, from its fields.
  abbrev pub From : Json → PiiMapping → Json → Type 0
  From j m out = IsDerived m j out

  abbrev pub FromItems : Items → PiiMapping → Items → Type 0
  FromItems items m new = ItemsAreDerived m items new

  abbrev pub FromFields : Fields → PiiMapping → Fields → Type 0
  FromFields fields m new = FieldsAreDerived m fields new

  -- Of a document; of the texts that an action may be given.
  abbrev pub Scrubs : (Json → Action Json) → Type 0
  Scrubs f = (j : Json) (m0 : PiiMapping) → Makes m0 (From j) (f j)

  abbrev pub ScrubsText : (Text → Action Json) → Type 0
  ScrubsText f = (s : Text) (m0 : PiiMapping) → Makes m0 (From (str s)) (f s)

  -- The value of a key is scrubbed and put back.
  pub Makes-set :
      (k : Text) (block new : Fields) (j : Json) (m0 : PiiMapping) (act : Action Json)
      → FieldsAreDerived m0 block new
      → get_field k block ≡ some j
      → Makes m0 (From j) act
      → Makes m0 (FromFields block) (act >>= λ v. pure (set_field k v new))
  Makes-set k block new j m0 act d here h = Makes-bind m0 _ _ act _ h (λ v m1 x dv.
      Makes-pure m1 (FromFields block) (set_field k v new) (λ m y.
        set_field-derived m k block new j v
          (fields_derived_on m0 m (λ f o q. y f o (x f o q)) block new d) here
          (derived_on m1 m y j v dv)))

  pub Makes-obj :
      (block : Fields) (m0 : PiiMapping) (act : Action Fields)
      → Makes m0 (FromFields block) act
      → Makes m0 (From (obj block)) (act >>= λ new. pure (obj new))
  Makes-obj block m0 act h = Makes-bind m0 _ _ act _ h (λ new m1 x d.
      Makes-pure m1 (From (obj block)) (obj new)
        (λ m y. object block new (fields_derived_on m1 m y block new d)))

  pub Makes-arr :
      (items : Items) (m0 : PiiMapping) (act : Action Items)
      → Makes m0 (FromItems items) act
      → Makes m0 (From (arr items)) (act >>= λ new. pure (arr new))
  Makes-arr items m0 act h = Makes-bind m0 _ _ act _ h (λ new m1 x d.
      Makes-pure m1 (From (arr items)) (arr new)
        (λ m y. list items new (items_derived_on m1 m y items new d)))

  -- The items of a list under a key are scrubbed and put back.
  pub Makes-set_items :
      (k : Text) (block : Fields) (items : Items) (m0 : PiiMapping) (act : Action Items)
      → get_field k block ≡ some (arr items)
      → Makes m0 (FromItems items) act
      → Makes m0 (FromFields block) (act >>= λ new. pure (set_field k (arr new) block))
  Makes-set_items k block items m0 act here h = Makes-bind m0 _ _ act _ h (λ new m1 x ds.
      Makes-pure m1 (FromFields block) (set_field k (arr new) block) (λ m y.
        set_field-derived m k block block (arr items) (arr new) (same_fields m block) here
          (list items new (items_derived_on m1 m y items new ds))))

  pub Makes-same : (j : Json) (m0 : PiiMapping) → Makes m0 (From j) (pure j)
  Makes-same j m0 = Makes-pure m0 (From j) j (λ m y. same j)

  pub Makes-unchanged :
      (block new : Fields) (m0 : PiiMapping)
      → FieldsAreDerived m0 block new
      → Makes m0 (FromFields block) (pure new)
  Makes-unchanged block new m0 d =
      Makes-pure m0 (FromFields block) new (λ m y. fields_derived_on m0 m y block new d)

  pub Makes-each_item :
      (f : Json → Action Json)
      → Scrubs f
      → (items : Items) (m0 : PiiMapping) → Makes m0 (FromItems items) (each_item f items)
  unfolding each_item
  Makes-each_item f k nil m0 = Makes-pure m0 (FromItems nil) nil (λ m y. no_items)
  Makes-each_item f k (item j items) m0 = Makes-bind m0 _ _ (f j) _ (k j m0) (λ out m1 x d.
      Makes-bind m1 _ _ (each_item f items) _ (Makes-each_item f k items m1) (λ new m2 y ds.
        Makes-pure m2 (FromItems (item j items)) (item out new) (λ m z.
          one_item j out items new (derived_on m1 m (λ f o q. z f o (y f o q)) j out d)
            (items_derived_on m2 m z items new ds))))

  pub Makes-each_field :
      (f : Json → Action Json)
      → Scrubs f
      → (fields : Fields) (m0 : PiiMapping) → Makes m0 (FromFields fields) (each_field f fields)
  unfolding each_field
  Makes-each_field f kf end m0 = Makes-pure m0 (FromFields end) end (λ m y. no_fields)
  Makes-each_field f kf (field k j fields) m0 = Makes-bind m0 _ _ (f j) _ (kf j m0) (λ out m1 x d.
      Makes-bind m1 _ _ (each_field f fields) _ (Makes-each_field f kf fields m1) (λ new m2 y ds.
        Makes-pure m2 (FromFields (field k j fields)) (field k out new) (λ m z.
          one_field k j out fields new (derived_on m1 m (λ f o q. z f o (y f o q)) j out d)
            (fields_derived_on m2 m z fields new ds))))

  pub Makes-at_text :
      (k : Text) (f : Text → Action Json) (block new : Fields) (m0 : PiiMapping)
      → ScrubsText f
      → FieldsAreDerived m0 block new
      → Makes m0 (FromFields block) (at_text k f block new)
  unfolding at_text
  Makes-at_text k f block new m0 kf d =
      Makes-on_text m0 _ (get_field k block) _ _
        (λ s here. Makes-set k block new (str s) m0 (f s) d here (kf s m0))
        (Makes-unchanged block new m0 d)

  pub Makes-at_texts :
      (ks : List Text) (f : Text → Action Json) (block new : Fields) (m0 : PiiMapping)
      → ScrubsText f
      → FieldsAreDerived m0 block new
      → Makes m0 (FromFields block) (at_texts ks f block new)
  unfolding at_texts
  Makes-at_texts [] f block new m0 kf d = Makes-unchanged block new m0 d
  Makes-at_texts (k ∷ ks) f block new m0 kf d =
      Makes-bind m0 _ _ (at_text k f block new) _ (Makes-at_text k f block new m0 kf d)
        (λ next m1 x d1. Makes-at_texts ks f block next m1 kf d1)

  pub walk_anonymize-Makes :
      (j : Json) (m0 : PiiMapping) → Makes m0 (λ m out. IsTraced g m j out) (walk_anonymize g j)
  walk_anonymize-Makes j m0 m x c = walk_anonymize-Traces g j m c
