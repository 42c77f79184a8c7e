-- ===== src/Mapping/Reserved.antt =====
-- `reserve` of privaite/pii/mapping.py: every literal of a document in the shape of a placeholder is
-- taken, and nothing is issued.
use priv_ai_te.Prelude.{
  ◌≡◌, refl, ◌∙◌, Bool, false, ◌||◌, List, [], ◌∷◌, map, arith, Text, text_eq, any, any-append,
}
use priv_ai_te.Json.{Json, Items, Fields, boolean, number, str, arr, obj, nil, item, end, field}
use priv_ai_te.Literal.{DecimalClass, LiteralMatch, find_literals}
use priv_ai_te.Mapping.{PiiMapping, reserve, reserve_items, reserve_fields, reserve_text}

module _ (u : DecimalClass) (r : Text) where
  abbrev text_holds : Text → Bool
  text_holds s = any (λ x. text_eq x.literal r) (find_literals u s)

  -- A string or a key of the document has the literal.
  unfoldable mutual
    pub holds : Json → Bool
    holds (str s) = text_holds s
    holds (obj fields) = holds_fields fields
    holds (arr items) = holds_items items
    holds (number n) = false
    holds (boolean b) = false
    holds Json.null = false

    pub holds_items : Items → Bool
    holds_items nil = false
    holds_items (item j items) = holds j || holds_items items

    pub holds_fields : Fields → Bool
    holds_fields end = false
    holds_fields (field k j fields) = text_holds k || (holds j || holds_fields fields)

  abbrev pub is_reserved : PiiMapping → Bool
  is_reserved m = any (λ s. text_eq s r) m.reserved

  any-literals :
      (xs : List LiteralMatch)
      → any (λ s. text_eq s r) (map (λ x. x.literal) xs) ≡ any (λ x. text_eq x.literal r) xs
  any-literals [] = refl
  any-literals (x ∷ xs) = ground (arith, any-literals xs)

  reserve_text-is_reserved :
      (s : Text) (m : PiiMapping)
      → is_reserved (reserve_text u s m) ≡ (text_holds s || is_reserved m)
  unfolding reserve_text
  reserve_text-is_reserved s m =
      any-append (λ x. text_eq x r) (map (λ x. x.literal) (find_literals u s)) m.reserved
      ∙ ground (arith, any-literals (find_literals u s))

  mutual
    unfolding reserve holds

    reserve_lem :
        (j : Json) (m : PiiMapping) → is_reserved (reserve u j m) ≡ (holds j || is_reserved m)
    reserve_lem (str s) m = reserve_text-is_reserved s m
    reserve_lem (obj fields) m = reserve_fields_lem fields m
    reserve_lem (arr items) m = reserve_items_lem items m
    reserve_lem (number n) m = refl
    reserve_lem (boolean b) m = refl
    reserve_lem Json.null m = refl

    reserve_items_lem :
        (items : Items) (m : PiiMapping)
        → is_reserved (reserve_items u items m) ≡ (holds_items items || is_reserved m)
    reserve_items_lem nil m = refl
    reserve_items_lem (item j items) m =
        reserve_items_lem items (reserve u j m) ∙ ground (arith, reserve_lem j m)

    reserve_fields_lem :
        (fields : Fields) (m : PiiMapping)
        → is_reserved (reserve_fields u fields m) ≡ (holds_fields fields || is_reserved m)
    reserve_fields_lem end m = refl
    reserve_fields_lem (field k j fields) m =
        reserve_fields_lem fields (reserve u j (reserve_text u k m))
        ∙ ground (arith, reserve_lem j (reserve_text u k m), reserve_text-is_reserved k m)

  -- After a document is reserved, a literal is taken exactly if it was, or the document has it.
  pub reserve-is_reserved :
      (j : Json) (m : PiiMapping) → is_reserved (reserve u j m) ≡ (holds j || is_reserved m)
  reserve-is_reserved = reserve_lem

-- The other tables stay.
abbrev SameFakes : PiiMapping → PiiMapping → Type 0
SameFakes m m' =
    (m'.original_to_fake ≡ m.original_to_fake) × (m'.fake_to_original ≡ m.fake_to_original)

module _ (u : DecimalClass) where
  mutual
    unfolding reserve reserve_text

    reserve_same : (j : Json) (m : PiiMapping) → SameFakes m (reserve u j m)
    reserve_same (str s) m = (refl, refl)
    reserve_same (obj fields) m = reserve_fields_same fields m
    reserve_same (arr items) m = reserve_items_same items m
    reserve_same (number n) m = (refl, refl)
    reserve_same (boolean b) m = (refl, refl)
    reserve_same Json.null m = (refl, refl)

    reserve_items_same : (items : Items) (m : PiiMapping) → SameFakes m (reserve_items u items m)
    reserve_items_same nil m = (refl, refl)
    reserve_items_same (item j items) m =
        let (a, b) = reserve_same j m in
        let (c, d) = reserve_items_same items (reserve u j m) in (c ∙ a, d ∙ b)

    reserve_fields_same :
        (fields : Fields) (m : PiiMapping) → SameFakes m (reserve_fields u fields m)
    reserve_fields_same end m = (refl, refl)
    reserve_fields_same (field k j fields) m =
        let (a, b) = reserve_same j (reserve_text u k m) in
        let (c, d) = reserve_fields_same fields (reserve u j (reserve_text u k m)) in (c ∙ a, d ∙ b)

  pub reserve-SameFakes : (j : Json) (m : PiiMapping) → SameFakes m (reserve u j m)
  reserve-SameFakes = reserve_same
