-- ===== src/Entity.antt =====
-- privaite/pii/entity.py: detected spans and their merge. Offsets are natural numbers with
-- start <= end, so that Python's `end - start` is never negative. The detectors' scores are floats:
-- their type `S` and the test `>=` on it, `score_ge`, are parameters.
pub mod Coverage
pub mod Confirmed
pub mod Labels
pub mod Merge
mod Tests
use priv_ai_te.Prelude.{
  ℕ, suc, ◌-◌, max, Bool, true, false, not, ◌&&◌, Option, none, some, List, [], ◌∷◌, ◌++◌, ltb, leb,
  ◌==◌, if◌then◌else◌, Text, codes, text_eq, slice, length, any, null,
}
use priv_ai_te.Prelude.Dicts.{Dict, lookup_or}

pub record PiiEntity (S : Type 0) : Type 0 where
  pub entity_type : Text
  pub text : Text
  pub start : ℕ
  pub end : ℕ
  pub score : S
  pub source : Text

-- The property `length`.
abbrev pub span_length : {S : Type 0} → PiiEntity S → ℕ
span_length e = e.end - e.start

-- `key=lambda e: (e.start, -e.length)`: the order of two keys.
abbrev pub key_le : {S : Type 0} → PiiEntity S → PiiEntity S → Bool
key_le a b = if a.start == b.start then leb (span_length b) (span_length a) else leb a.start b.start

-- `sorted` is stable: an element goes before those that are not smaller.
abbrev pub insert_sorted {ℓ} : {A : Type ℓ} → (A → A → Bool) → A → List A → List A
insert_sorted le x [] = x ∷ []
insert_sorted le x (y ∷ ys) = if le x y then x ∷ y ∷ ys else y ∷ insert_sorted le x ys

abbrev pub sorted {ℓ} : {A : Type ℓ} → (A → A → Bool) → List A → List A
sorted le [] = []
sorted le (x ∷ xs) = insert_sorted le x (sorted le xs)

-- `type_priorities`, where `None` and the empty dict are the same to the code.
abbrev pub Priorities : Type 0
Priorities = Option (Dict ℕ)

abbrev pub priority : Priorities → Text → ℕ
priority none t = 0
priority (some d) t = lookup_or 0 t d

abbrev pub is_truthy : Priorities → Bool
is_truthy none = false
is_truthy (some []) = false
is_truthy (some (x ∷ d)) = true

-- `e1.start < e2.end and e2.start < e1.end`.
abbrev pub overlaps : {S : Type 0} → PiiEntity S → PiiEntity S → Bool
overlaps a b = ltb a.start b.end && ltb b.start a.end

-- The sources differ and the spans overlap: the two detections confirm each other.
abbrev pub partner : {S : Type 0} → PiiEntity S → PiiEntity S → Bool
partner a b = not (text_eq a.source b.source) && overlaps a b

-- `seen` and `confirmed` of `_merge_intersection`.
pub record Confirmation (S : Type 0) : Type 0 where
  pub seen : List ℕ
  pub confirmed : List (PiiEntity S)

module _ {S : Type 0} where
  unfoldable pub note_once : ℕ → PiiEntity S → Confirmation S → Confirmation S
  note_once i e c =
      if any (λ k. k == i) c.seen
      then c
      else record { seen = i ∷ c.seen; confirmed = c.confirmed ++ e ∷ [] }

  -- The body of the inner loop.
  unfoldable pub confirm_pair : ℕ → PiiEntity S → ℕ → PiiEntity S → Confirmation S → Confirmation S
  confirm_pair i e1 j e2 c =
      if text_eq e1.source e2.source
      then c
      else if overlaps e1 e2
      then note_once j e2 (note_once i e1 c)
      else c

  -- `for j in range(i + 1, len(entities))`.
  unfoldable pub inner_loop :
      ℕ → PiiEntity S → ℕ → List (PiiEntity S) → Confirmation S → Confirmation S
  inner_loop i e1 j [] c = c
  inner_loop i e1 j (e2 ∷ rest) c = inner_loop i e1 (suc j) rest (confirm_pair i e1 j e2 c)

  -- `for i, e1 in enumerate(entities)`.
  unfoldable pub outer_loop : ℕ → List (PiiEntity S) → Confirmation S → Confirmation S
  outer_loop i [] c = c
  outer_loop i (e1 ∷ rest) c = outer_loop (suc i) rest (inner_loop i e1 (suc i) rest c)

module _ {S : Type 0} (score_ge : S → S → Bool) where
  by_score : PiiEntity S → PiiEntity S → PiiEntity S
  by_score a b = if score_ge a.score b.score then a else b

  by_resolution : PiiEntity S → PiiEntity S → Text → PiiEntity S
  unfolding by_score
  by_resolution a b resolution =
      let a_presidio = text_eq a.source (codes "presidio") in
      let b_presidio = text_eq b.source (codes "presidio") in
      if text_eq resolution (codes "longest_span")
      then (if leb (span_length b) (span_length a) then a else b)
      else if text_eq resolution (codes "presidio_priority")
      then (if a_presidio
          then (if b_presidio then by_score a b else a)
          else if b_presidio
          then b
          else by_score a b)
      else by_score a b

  unfoldable pub resolve_overlap : PiiEntity S → PiiEntity S → Text → Priorities → PiiEntity S
  unfolding by_resolution
  resolve_overlap a b resolution priorities =
      let a_priority = priority priorities a.entity_type in
      let b_priority = priority priorities b.entity_type in
      if is_truthy priorities && not (a_priority == b_priority)
      then (if ltb b_priority a_priority then a else b)
      else by_resolution a b resolution

  -- Which of two overlapping detections names the merged span.
  unfoldable pub winner_of : Text → Priorities → PiiEntity S → PiiEntity S → PiiEntity S
  unfolding resolve_overlap
  winner_of resolution priorities last entity =
      if text_eq entity.entity_type last.entity_type
      then by_score last entity
      else resolve_overlap last entity resolution priorities

  unfoldable pub merged_text : Option Text → PiiEntity S → PiiEntity S → PiiEntity S → ℕ → ℕ → Text
  merged_text source_text winner last entity new_start new_end =
      if (new_start == winner.start) && (new_end == winner.end)
      then winner.text
      else elim source_text [
        | some t ↦ slice t new_start new_end
        | none ↦ if leb (span_length entity) (span_length last) then last.text else entity.text
      ]

  module _ (resolution : Text) (source_text : Option Text) (priorities : Priorities) where
    -- What replaces `merged[-1]` when `entity` overlaps it.
    unfoldable pub merge_pair : PiiEntity S → PiiEntity S → PiiEntity S
    merge_pair last entity =
        let winner = winner_of resolution priorities last entity in
        let new_end = max last.end entity.end in
        record {
          entity_type = winner.entity_type;
          text = merged_text source_text winner last entity last.start new_end;
          start = last.start;
          end = new_end;
          score = winner.score;
          source = winner.source;
        }

    -- The loop of `_merge_union`; `last` is `merged[-1]`, and what precedes it is final.
    unfoldable pub union_loop : PiiEntity S → List (PiiEntity S) → List (PiiEntity S)
    union_loop last [] = last ∷ []
    union_loop last (entity ∷ rest) = elim (leb last.end entity.start) [
      | true ↦ last ∷ union_loop entity rest
      | false ↦ union_loop (merge_pair last entity) rest
    ]

    unfoldable pub merge_union : List (PiiEntity S) → List (PiiEntity S)
    unfolding union_loop
    merge_union [] = []
    merge_union (entity ∷ rest) = union_loop entity rest

  unfoldable pub merge_intersection :
      Option Text → Priorities → List (PiiEntity S) → List (PiiEntity S)
  merge_intersection source_text priorities entities =
      let confirmed = (outer_loop 0 entities (record { seen = []; confirmed = [] })).confirmed in
      if ltb (length entities) 2
      then []
      else if null confirmed
      then []
      else merge_union (codes "highest_score") source_text priorities (sorted key_le confirmed)

  unfoldable pub merge_entities :
      List (PiiEntity S) → Text → Text → Option Text → Priorities → List (PiiEntity S)
  merge_entities entities strategy resolution source_text priorities =
      let sorted_entities = sorted key_le entities in
      if null entities
      then []
      else if text_eq strategy (codes "intersection")
      then merge_intersection source_text priorities sorted_entities
      else merge_union resolution source_text priorities sorted_entities
