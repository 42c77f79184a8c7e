-- ===== src/Engine/Quiet.antt =====
-- The gate of privaite/pii/engine.py on every string of a document.
use priv_ai_te.Prelude.{◌≡◌, ◌⊎◌, true, false, ltb, Text, null, Bool-cases, inl, inr}
use priv_ai_te.Json.{Json, Items, Fields, boolean, number, str, arr, obj, nil, item, end, field}
use priv_ai_te.Mapping.{PiiMapping}
use priv_ai_te.Engine.{PiiEngine, digit_count}
use priv_ai_te.Engine.Laws.{some_fails, some_blocked, anonymize_text-passed}
use priv_ai_te.Engine.Traced.{
  IsScrubbed, IsTraced, text, few_digits, digits, list, object, truth, nothing, ItemsAreTraced,
  no_items, one_item, FieldsAreTraced, no_fields, one_field,
}

module _ {S : Type 0} (g : PiiEngine S) where
  -- The text is empty, or no detector fails on it and no detection is of a blocked type, copies of what some
  -- mapping knows included.
  abbrev pub IsClean : Text → Type 0
  IsClean s =
      (null s ≡ true)
      ⊎ ((some_fails g s ≡ false) × ((m : PiiMapping) × (some_blocked g s m ≡ false)))

  -- Each string of the document is clean, and each number of at least seven digits; keys are not
  -- looked at.
  unfoldable mutual
    pub IsQuiet : Json → Type 0
    IsQuiet (str s) = IsClean s
    IsQuiet (number n) = (ltb (digit_count g n) 7 ≡ true) ⊎ IsClean n
    IsQuiet (arr items) = ItemsAreQuiet items
    IsQuiet (obj fields) = FieldsAreQuiet fields
    IsQuiet (boolean b) = Unit
    IsQuiet Json.null = Unit

    pub ItemsAreQuiet : Items → Type 0
    ItemsAreQuiet nil = Unit
    ItemsAreQuiet (item j items) = IsQuiet j × ItemsAreQuiet items

    pub FieldsAreQuiet : Fields → Type 0
    FieldsAreQuiet end = Unit
    FieldsAreQuiet (field k j fields) = IsQuiet j × FieldsAreQuiet fields

  IsScrubbed-IsClean : (m' : PiiMapping) (s t : Text) → IsScrubbed g m' s t → IsClean s
  IsScrubbed-IsClean m' s t (m0, m1, h, r) = elim (Bool-cases (null s)) [
    | inl e ↦ inl e
    | inr e ↦
        let (working, quiet, _) = (anonymize_text-passed g s t m0 m1 e).0 h in
        inr (working, (m0, quiet))
  ]

  mutual
    unfolding IsQuiet

    -- A document that the walk let pass is quiet.
    pub IsTraced-IsQuiet : (m' : PiiMapping) (j out : Json) → IsTraced g m' j out → IsQuiet j
    IsTraced-IsQuiet m' _ _ (text s t h) = IsScrubbed-IsClean m' s t h
    IsTraced-IsQuiet m' _ _ (few_digits n h) = inl h
    IsTraced-IsQuiet m' _ _ (digits n t h) = inr (IsScrubbed-IsClean m' n t h)
    IsTraced-IsQuiet m' _ _ (list items new h) = items_traced m' items new h
    IsTraced-IsQuiet m' _ _ (object fields new h) = fields_traced m' fields new h
    IsTraced-IsQuiet m' _ _ (truth b) = tt
    IsTraced-IsQuiet m' _ _ nothing = tt

    items_traced :
        (m' : PiiMapping) (items new : Items) → ItemsAreTraced g m' items new → ItemsAreQuiet items
    items_traced m' _ _ no_items = tt
    items_traced m' _ _ (one_item j out items new h hs) =
        (IsTraced-IsQuiet m' j out h, items_traced m' items new hs)

    fields_traced :
        (m' : PiiMapping) (fields new : Fields)
        → FieldsAreTraced g m' fields new
        → FieldsAreQuiet fields
    fields_traced m' _ _ no_fields = tt
    fields_traced m' _ _ (one_field k j out fields new h hs) =
        (IsTraced-IsQuiet m' j out h, fields_traced m' fields new hs)
