-- ===== src/Known/Laws.antt =====
-- What `_with_known_values` of privaite/pii/engine.py adds: every copy that stands alone is covered, and
-- nothing that a detector found is lost.
use priv_ai_te.Prelude.{
  ℕ, ◌+◌, ◌≤◌, ◌<◌, ◌≡◌, refl, ◌∙◌, Bool, true, ◌&&◌, ◌||◌, Option, none, some, List, [], ◌∷◌, ◌++◌,
  leb, arith, Text, codes, text_eq, any, any-append, length, Bool-cases, text_eq_iff, inl, inr,
}
use priv_ai_te.Prelude.Dicts.{Dict, lookup}
use priv_ai_te.Entity.{PiiEntity}
use priv_ai_te.Entity.Coverage.{covers, covered}
use priv_ai_te.Entity.Merge.{covered-merge_entities}
use priv_ai_te.Known.{
  Alphabet, SecretMatch, stands_alone, occurrences, copies_at, known_copies, remember_matches,
  type_priorities, with_copies, with_known_values,
}
use priv_ai_te.Mapping.{PiiMapping}

-- The start is among those of the search.
abbrev pub is_found : ℕ → List ℕ → Bool
is_found start = any (λ s. leb s start && leb start s)

module _ {S : Type 0} (u : Alphabet) (certain : S) where
  covered_by_entity :
      (x start end : ℕ) (t : Text) (entities : List (PiiEntity S))
      → start ≤ x
      → x < end
      → any
          (λ (e : PiiEntity S). text_eq e.entity_type t && (leb e.start start && leb end e.end))
          entities
        ≡ true
      → covered x entities ≡ true
  covered_by_entity x start end t [] a b h = absurd (ground arith)
  covered_by_entity x start end t (e ∷ entities) a b h =
      ground (arith, covered_by_entity x start end t entities a b)

  -- A start that the search gives, at which the value stands alone: covered already, or by its copy.
  copies_at-covered :
      (text value t : Text) (entities : List (PiiEntity S)) (starts : List ℕ) (x start : ℕ)
      → start ≤ x
      → x < start + length value
      → any (λ s. leb s start && leb start s) starts ≡ true
      → stands_alone u text start (start + length value) ≡ true
      → (covered x entities || covered x (copies_at u certain text entities value t starts)) ≡ true
  unfolding copies_at
  copies_at-covered text value t entities [] x start a b h alone = absurd (ground arith)
  copies_at-covered text value t entities (s ∷ starts) x start a b h alone =
      elim (Bool-cases (leb s start && leb start s)) [
        | inr e ↦
            ground (
              arith,
              copies_at-covered text value t entities starts x start a b (ground arith) alone,
            )
        | inl e ↦
            let q : s ≡ start = ground arith in
            rw q (
              ground
                (arith, alone, covered_by_entity x start (start + length value) t entities a b))
      ]

  known_copies-covered :
      (text value t : Text) (entities : List (PiiEntity S)) (known : Dict Text) (x start : ℕ)
      → lookup value known ≡ some t
      → start ≤ x
      → x < start + length value
      → is_found start (occurrences value 0 0 text) ≡ true
      → stands_alone u text start (start + length value) ≡ true
      → (covered x entities || covered x (known_copies u certain text entities known)) ≡ true
  unfolding known_copies
  known_copies-covered text value t entities [] x start k a b h alone = absurd (ground arith)
  known_copies-covered text value t entities ((v, t') ∷ known) x start k a b h alone =
      elim (Bool-cases (text_eq v value)) [
        | inl e ↦
            let q : v ≡ value = (text_eq_iff v value).0 e in
            let one =
              copies_at-covered text v t' entities (occurrences v 0 0 text) x start a (rw q b)
                (rw q h) (rw q alone) in
            ground (
              arith,
              one,
              any-append (covers x)
                  (copies_at u certain text entities v t' (occurrences v 0 0 text))
                  (known_copies u certain text entities known),
            )
        | inr e ↦
            let rest =
              known_copies-covered text value t entities known x start (ground arith) a b h alone in
            ground (
              arith,
              rest,
              any-append (covers x)
                  (copies_at u certain text entities v t' (occurrences v 0 0 text))
                  (known_copies u certain text entities known),
            )
      ]

  module _ (ge : S → S → Bool) (is_blocked is_lossy : Text → Bool) (resolution : Text) where
    covered-with_copies :
        (x : ℕ) (text : Text) (entities copies : List (PiiEntity S))
        → covered x (with_copies u certain ge is_blocked is_lossy resolution text entities copies)
          ≡ (covered x entities || covered x copies)
    unfolding with_copies
    covered-with_copies x text entities [] = ground arith
    covered-with_copies x text entities (c ∷ copies) =
        covered-merge_entities ge x (entities ++ (c ∷ copies)) (codes "union") resolution
          (some text)
          (some (type_priorities u certain is_blocked is_lossy (entities ++ (c ∷ copies)) [])) refl
        ∙ any-append (covers x) entities (c ∷ copies)

    -- A position that the given detections cover stays covered.
    pub with_known_values-covered :
        (rules : Option (Text → List SecretMatch)) (x : ℕ) (text : Text)
        (entities : List (PiiEntity S)) (m : PiiMapping)
        → covered x entities ≡ true
        → covered x
            (with_known_values u certain ge is_blocked is_lossy resolution rules text entities m).0
          ≡ true
    unfolding with_known_values
    with_known_values-covered none x text entities m h = h
    with_known_values-covered (some analyze) x text entities m h =
        let m' = remember_matches u certain text entities (analyze text) m in
        covered-with_copies x text entities (known_copies u certain text entities m'.known)
        ∙ ground arith

    -- If the rules are on, each position of a copy of a remembered credential that the search finds in
    -- the text, and that stands alone there, is covered.
    pub with_known_values-stands_alone :
        (analyze : Text → List SecretMatch) (text value t : Text) (entities : List (PiiEntity S))
        (m : PiiMapping) (x start : ℕ)
        → lookup value (remember_matches u certain text entities (analyze text) m).known ≡ some t
        → start ≤ x
        → x < start + length value
        → is_found start (occurrences value 0 0 text) ≡ true
        → stands_alone u text start (start + length value) ≡ true
        → covered x
            (with_known_values u certain ge is_blocked is_lossy resolution
              (some analyze)
              text
              entities
              m).0
          ≡ true
    unfolding with_known_values
    with_known_values-stands_alone analyze text value t entities m x start k a b h alone =
        let m' = remember_matches u certain text entities (analyze text) m in
        covered-with_copies x text entities (known_copies u certain text entities m'.known)
        ∙ known_copies-covered text value t entities m'.known x start k a b h alone
