-- ===== src/Anonymizer/Invariants.antt =====
-- Invariants of the mapping through privaite/pii/anonymizer.py: what each of its few writes keeps,
-- `anonymize` keeps.
use priv_ai_te.Prelude.{
  ℕ, ◌≡◌, sym, ◌∙◌, Bool, true, false, not, ◌||◌, ◌&&◌, List, [], ◌∷◌, ◌++◌, map, null, ltb, leb,
  if◌then◌else◌, Text, slice, any, Bool-cases, Option-cases, inl, inr,
}
use priv_ai_te.Entity.{PiiEntity, sorted}
use priv_ai_te.Literal.{DecimalClass, LiteralMatch, find_literals}
use priv_ai_te.Mapping.{
  PiiMapping, add, note, add_literal, get_fake, get_original, reserve_text, remember,
}
use priv_ai_te.Anonymizer.{
  AnonymizationConfig, ok, Span, entity_span, is_irreversible_method, method_for,
  numbered_placeholder, make_placeholder, is_some, replace_entity, literal_fake, reserve_untaken,
  swap_issued, shield_literals, replace_spans, anonymize,
}
use priv_ai_te.Anonymizer.Steps.{Outcome-cases, spliced, replace_spans_step, replace_entity_cases}

module _ (generate : Text → Text → ℕ → Text) (config : AnonymizationConfig) where
  -- Each write to the mapping keeps the predicate.
  pub record IsInvariant (P : PiiMapping → Type 0) : Type 0 where
    pub noted : (o t : Text) (m : PiiMapping) → P m → P (note o t m)
    pub added :
        (o f t : Text) (m : PiiMapping)
        → is_irreversible_method (method_for config t) ≡ false
        → make_placeholder generate config t o m ≡ ok f
        → P m
        → P (add o f t m)
    pub swapped :
        (x : LiteralMatch) (m : PiiMapping)
        → P m
        → P (add_literal x.literal (numbered_placeholder x.group m) m)
    pub reserved : (u : DecimalClass) (s : Text) (m : PiiMapping) → P m → P (reserve_text u s m)
    pub remembered : (s t : Text) (m : PiiMapping) → P m → P (remember s t m)

  module _ (P : PiiMapping → Type 0) (i : IsInvariant P) where
    replace_entity-keeps :
        (t o f : Text) (m m' : PiiMapping)
        → replace_entity generate config t o m ≡ ok (f, m')
        → P m
        → P m'
    replace_entity-keeps t o f m m' h p = elim (replace_entity_cases generate config t o f m m' h) [
      | inl e ↦ rw e p
      | inr (inl e) ↦ rw e (i.noted o t m p)
      | inr (inr (e, kept, made)) ↦ rw e (i.added o f t m kept made p)
    ]

    replace_spans-keeps :
        (spans : List Span) (text out : Text) (m m' : PiiMapping)
        → replace_spans generate config spans text m ≡ ok (out, m')
        → P m
        → P m'
    replace_spans-keeps [] text out m m' h p = let e : m' ≡ m = unfold replace_spans in cc in rw e p
    replace_spans-keeps (s ∷ spans) text out m m' h p =
        elim (replace_spans_step generate config s spans text m) [
          | inl (f, e) ↦ replace_spans-keeps spans (spliced s text f) out m m' (sym e ∙ h) p
          | inr (t, e) ↦
              elim (Outcome-cases (replace_entity generate config t (slice text s.start s.end) m)) [
                | inr (x, failed) ↦ cc (rw failed at e)
                | inl ((f, m1), r) ↦
                    replace_spans-keeps spans (spliced s text f) out m1 m' (sym (rw r at e) ∙ h)
                      (replace_entity-keeps t (slice text s.start s.end) f m m1 r p)
              ]
        ]

    reserve_untaken-keeps :
        (u : DecimalClass) (xs : List LiteralMatch) (m : PiiMapping)
        → P m
        → P (reserve_untaken u xs m)
    unfolding reserve_untaken
    reserve_untaken-keeps u [] m p = p
    reserve_untaken-keeps u (x ∷ xs) m p = elim (Bool-cases (is_some (get_original m x.literal))) [
      | inl e ↦ rw e (reserve_untaken-keeps u xs m p)
      | inr e ↦
          rw e
            (reserve_untaken-keeps u xs (reserve_text u x.literal m) (i.reserved u x.literal m p))
    ]

    literal_fake-keeps : (x : LiteralMatch) (m : PiiMapping) → P m → P (literal_fake x m).1
    unfolding literal_fake
    literal_fake-keeps x m p = elim (Option-cases (get_fake m x.literal)) [
      | inl e ↦ rw (e, literal_fake) (i.swapped x m p)
      | inr (f, e) ↦ rw (e, literal_fake) p
    ]

    swap_issued-keeps :
        {S : Type 0} (entities : List (PiiEntity S)) (xs : List LiteralMatch) (m : PiiMapping)
        → P m
        → P (swap_issued entities xs m).1
    unfolding swap_issued
    swap_issued-keeps entities [] m p = p
    swap_issued-keeps {S = S} entities (x ∷ xs) m p =
        elim (Bool-cases (
          not (is_some (get_original m x.literal))
          || any (λ (e : PiiEntity S). ltb e.start x.end && ltb x.start e.end) entities)) [
            | inl e ↦ rw e (swap_issued-keeps entities xs m p)
            | inr e ↦
                rw e (swap_issued-keeps entities xs (literal_fake x m).1 (literal_fake-keeps x m p))
          ]

    finish-keeps :
        (quiet : Bool) (spans : List Span) (text out : Text) (m m' : PiiMapping)
        → (if quiet then ok (text, m) else replace_spans generate config spans text m)
          ≡ ok (out, m')
        → P m
        → P m'
    finish-keeps true spans text out m m' h p = let e : m' ≡ m = cc in rw e p
    finish-keeps false spans text out m m' h p = replace_spans-keeps spans text out m m' h p

    pub anonymize-keeps :
        {S : Type 0} (u : DecimalClass) (text out : Text) (entities : List (PiiEntity S))
        (m m' : PiiMapping)
        → anonymize generate config u text entities m ≡ ok (out, m')
        → P m
        → P m'
    unfolding anonymize shield_literals
    anonymize-keeps u text out entities m m' h p =
        let matches = find_literals u text in
        let m1 = reserve_untaken u matches m in
        let (swaps, m2) = swap_issued entities matches m1 in
        finish-keeps (null entities && null swaps)
          (sorted (λ a b. leb b.start a.start) (map entity_span entities ++ swaps)) text out m2 m' h
          (swap_issued-keeps entities matches m1 (reserve_untaken-keeps u matches m p))
