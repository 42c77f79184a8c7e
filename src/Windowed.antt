-- ===== src/Windowed.antt =====
-- privaite/pii/detector_base.py, `windowed_ner_detect`: the loop that the model detectors share. The
-- model and the parser of its results are parameters.
pub mod Laws
mod Tests
use priv_ai_te.Prelude.{
  ℕ, ◌+◌, Bool, true, false, ◌&&◌, ◌==◌, Option, none, some, List, [], ◌∷◌, ◌++◌, any,
  if◌then◌else◌, Text, text_eq,
}
use priv_ai_te.Prelude.Dicts.{Dict, lookup}
use priv_ai_te.Entity.{PiiEntity}
use priv_ai_te.Chunk.{chunk_text}

-- One result that `extract` did not skip; its positions are relative to the window.
pub record NerResult (S : Type 0) : Type 0 where
  pub label : Text
  pub score : S
  pub start : ℕ
  pub end : ℕ
  pub span_text : Text

-- The key that duplicates share: start, end and type.
pub record Key : Type 0 where
  pub start : ℕ
  pub end : ℕ
  pub entity_type : Text

abbrev pub same_key : Key → Key → Bool
same_key a b = (a.start == b.start) && ((a.end == b.end) && text_eq a.entity_type b.entity_type)

pub record Found (S : Type 0) : Type 0 where
  pub entities : List (PiiEntity S)
  pub seen : List Key

module _ {S : Type 0} (below : S → Bool) (label_mapping : Dict Text) (source : Text) where
  -- The type that a result is kept under: its score reaches the threshold and its label has a type.
  unfoldable pub mapped_type : NerResult S → Option Text
  mapped_type r = if below r.score then none else elim (lookup r.label label_mapping) [
    | none ↦ none
    | some [] ↦ none
    | some (c ∷ t) ↦ some (c ∷ t)
  ]

  -- One round of the inner loop.
  unfoldable pub add_result : ℕ → NerResult S → Found S → Found S
  unfolding mapped_type
  add_result offset r f = elim (mapped_type r) [
    | none ↦ f
    | some t ↦
        let key : Key = record {
          start = r.start + offset;
          end = r.end + offset;
          entity_type = t;
        } in
        if any (same_key key) f.seen then f else record {
          entities =
              f.entities
              ++ (record {
                entity_type = t;
                text = r.span_text;
                start = r.start + offset;
                end = r.end + offset;
                score = r.score;
                source = source;
              }
                  ∷ []);
          seen = key ∷ f.seen;
        }
  ]

  unfoldable pub add_results :
      {R : Type 0} → (R → Option (NerResult S)) → ℕ → List R → Found S → Found S
  unfolding add_result
  add_results extract offset [] f = f
  add_results extract offset (x ∷ results) f = elim (extract x) [
    | none ↦ add_results extract offset results f
    | some r ↦ add_results extract offset results (add_result offset r f)
  ]

  unfoldable pub over_windows :
      {R : Type 0}
      → (Text → List R)
      → (R → Text → Option (NerResult S))
      → List (ℕ × Text)
      → Found S
      → Found S
  unfolding add_results
  over_windows predict extract [] f = f
  over_windows predict extract ((offset, chunk) ∷ chunks) f =
      over_windows predict extract chunks
        (add_results (λ x. extract x chunk) offset (predict chunk) f)

  unfoldable pub windowed_ner_detect :
      {R : Type 0}
      → ℕ
      → (Text → List R)
      → (R → Text → Option (NerResult S))
      → Text
      → List (PiiEntity S)
  unfolding over_windows chunk_text
  windowed_ner_detect max_chars predict extract text =
      (over_windows predict extract (chunk_text text max_chars 200)
        (record { entities = []; seen = [] })).entities
