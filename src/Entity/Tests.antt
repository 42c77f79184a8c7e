-- ===== src/Entity/Tests.antt =====
-- Runs of the merge of privaite/pii/entity.py, and its theorems at concrete inputs.
use priv_ai_te.Prelude.{
  ℕ, ◌≡◌, refl, Bool, true, none, some, List, [], ◌∷◌, leb, Text, codes, any, All, slice,
}
use priv_ai_te.Entity.{
  PiiEntity, Priorities, merge_entities, merge_union, merge_intersection, union_loop, merge_pair,
  merged_text, winner_of, outer_loop, inner_loop, confirm_pair, note_once,
}
use priv_ai_te.Entity.Coverage.{covered, covers}
use priv_ai_te.Entity.Confirmed.{confirmed_by}
use priv_ai_te.Entity.Labels.{outranks, IsFaithful}
use priv_ai_te.Entity.Merge

program : Unit {0}
unfolding merge_entities merge_union merge_intersection union_loop merge_pair merged_text winner_of
    outer_loop inner_loop confirm_pair note_once
program = tt

-- Scores are percentages here.
abbrev score_ge : ℕ → ℕ → Bool
score_ge a b = leb b a

abbrev source_text : Text
source_text = codes "mail bob@x.io key=abc"

abbrev entity : Text → ℕ → ℕ → ℕ → Text → PiiEntity ℕ
entity t start end score source = record {
  entity_type = t;
  text = slice source_text start end;
  start = start;
  end = end;
  score = score;
  source = source;
}

abbrev found : List (PiiEntity ℕ)
found =
    entity (codes "SECRET") 14 21 60 (codes "onnx")
    ∷ entity (codes "EMAIL_ADDRESS") 5 13 90 (codes "presidio")
    ∷ entity (codes "EMAIL_ADDRESS") 9 18 95 (codes "minilm")
    ∷ []

abbrev priorities : Priorities
priorities = some ((codes "SECRET", 1) ∷ (codes "EMAIL_ADDRESS", 0) ∷ [])

-- The three chain into one span, under the type of the higher priority.
merged_chain :
    merge_entities score_ge found
      (codes "union")
      (codes "highest_score")
      (some source_text)
      priorities
    ≡ entity (codes "SECRET") 5 21 60 (codes "onnx") ∷ []
unfolding program
merged_chain = refl

covered-merge_entities_example :
    covered 20 (
      merge_entities score_ge found
        (codes "union")
        (codes "highest_score")
        (some source_text)
        priorities)
    ≡ covered 20 found
covered-merge_entities_example =
    Merge.covered-merge_entities score_ge 20 found (codes "union") (codes "highest_score")
      (some source_text) priorities refl

covered-merge_entities_intersection_example :
    covered 20
      (merge_entities score_ge found (codes "intersection") (codes "highest_score") none priorities)
    ≡ confirmed_by (covers 20) found
covered-merge_entities_intersection_example =
    Merge.covered-merge_entities_intersection score_ge 20 found (codes "highest_score") none
      priorities

merge_entities-outranks_example :
    All
      (λ e.
        any
          (outranks priorities e)
          (merge_entities score_ge found (codes "union") (codes "longest_span") none priorities)
        ≡ true)
      found
merge_entities-outranks_example =
    Merge.merge_entities-outranks score_ge found (codes "union") (codes "longest_span") none
      priorities refl

merge_entities-IsFaithful_example : All (IsFaithful source_text) (
    merge_entities score_ge found
      (codes "union")
      (codes "longest_span")
      (some source_text)
      priorities)
merge_entities-IsFaithful_example =
    Merge.merge_entities-IsFaithful score_ge found (codes "union") (codes "longest_span")
      source_text priorities refl (refl, (refl, (refl, tt)))
