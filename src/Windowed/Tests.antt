-- ===== src/Windowed/Tests.antt =====
-- A run of `windowed_ner_detect` of privaite/pii/detector_base.py, and its theorem at that input.
use priv_ai_te.Prelude.{ℕ, ◌≡◌, refl, Option, some, List, [], ◌∷◌, if◌then◌else◌, ltb, Text, codes}
use priv_ai_te.Prelude.Prefixes.{is_prefix}
use priv_ai_te.Chunk.{chunk_text, chunk_bounds, windows, window_end, rfind_space}
use priv_ai_te.Windowed.{
  NerResult, Key, mapped_type, add_result, add_results, over_windows, windowed_ner_detect,
}
use priv_ai_te.Windowed.Laws.{count, any_window}
use priv_ai_te.Windowed.Laws

program : Unit {0}
unfolding mapped_type add_result add_results over_windows windowed_ner_detect chunk_text
    chunk_bounds windows window_end rfind_space
program = tt

-- A model that reports the name at the start of a text twice.
abbrev predict : Text → List (NerResult ℕ)
predict chunk =
    let name : NerResult ℕ = record {
      label = codes "PER";
      score = 90;
      start = 0;
      end = 3;
      span_text = codes "Ann";
    } in
    if is_prefix (codes "Ann") chunk then name ∷ name ∷ [] else []

abbrev extract : NerResult ℕ → Text → Option (NerResult ℕ)
extract r chunk = some r

abbrev key : Key
key = record { start = 0; end = 3; entity_type = codes "PERSON" }

reported_once :
    count key (
      windowed_ner_detect
        (λ s. ltb s 50)
        ((codes "PER", codes "PERSON") ∷ [])
        (codes "minilm")
        1500
        predict
        extract
        (codes "Ann is in"))
    ≡ 1
unfolding program
reported_once = refl

windowed_ner_detect-count_example :
    count key (
      windowed_ner_detect
        (λ s. ltb s 50)
        ((codes "PER", codes "PERSON") ∷ [])
        (codes "minilm")
        1500
        predict
        extract
        (codes "Ann is in"))
    ≡ (if any_window
          (λ s. ltb s 50)
          ((codes "PER", codes "PERSON") ∷ [])
          (codes "minilm")
          key
          predict
          extract
          (chunk_text (codes "Ann is in") 1500 200)
        then 1
        else 0)
windowed_ner_detect-count_example =
    Laws.windowed_ner_detect-count (λ s. ltb s 50) ((codes "PER", codes "PERSON") ∷ [])
      (codes "minilm") key 1500 predict extract (codes "Ann is in")
