-- ===== src/Known.antt =====
-- privaite/pii/engine.py, `_with_known_values`: the copies of a credential that was identified before.
-- Unicode's tables for `isalnum` and `isdigit` are parameters.
pub mod Laws
mod Tests
use priv_ai_te.Prelude.{
  ℕ, zero, suc, ◌+◌, ◌-◌, Bool, true, false, not, ◌&&◌, ◌||◌, ◌==◌, Option, none, some, List, [],
  ◌∷◌, ◌++◌, map, ltb, leb, if◌then◌else◌, Text, codes, text_eq, any, all, null, length, slice,
}
use priv_ai_te.Prelude.Prefixes.{is_prefix}
use priv_ai_te.Prelude.Dicts.{Dict, insert}
use priv_ai_te.Entity.{PiiEntity, Priorities, merge_entities}
use priv_ai_te.Mapping.{PiiMapping, remember}

pub record Alphabet : Type 0 where
  pub is_alnum : ℕ → Bool
  pub is_digit : ℕ → Bool

-- A match of the rules for structured secrets.
pub record SecretMatch : Type 0 where
  pub start : ℕ
  pub end : ℕ
  pub entity_type : Text

module _ (u : Alphabet) where
  unfoldable pub token_shaped : Text → Bool
  token_shaped value = leb 8 (length value) && (any u.is_digit value && not (all u.is_digit value))

  -- `text[i].isalnum()`, where an index out of range stands for the empty text.
  abbrev pub alnum_at : Text → ℕ → Bool
  alnum_at [] i = false
  alnum_at (c ∷ text) zero = u.is_alnum c
  alnum_at (c ∷ text) (suc i) = alnum_at text i

  abbrev pub alnum_before : Text → ℕ → Bool
  alnum_before text zero = false
  alnum_before text (suc i) = alnum_at text i

  unfoldable pub stands_alone : Text → ℕ → ℕ → Bool
  stands_alone text start end =
      not (alnum_at text start && alnum_before text start)
      && not (alnum_before text end && alnum_at text end)

-- The starts of the matches of a value that is not empty, which do not overlap: `text.find(value)`,
-- then `text.find(value, end)` until there is none. `skip` is what is left of the last match.
unfoldable pub occurrences : Text → ℕ → ℕ → Text → List ℕ
occurrences value position skip [] = []
occurrences value position (suc skip) (c ∷ text) = occurrences value (suc position) skip text
occurrences value position zero (c ∷ text) =
    if is_prefix value (c ∷ text)
    then position ∷ occurrences value (suc position) (length value - 1) text
    else occurrences value (suc position) zero text

module _ {S : Type 0} (u : Alphabet) (certain : S) where
  abbrev pub spans_over : ℕ → ℕ → List (PiiEntity S) → Bool
  spans_over start end = any (λ (e : PiiEntity S). leb e.start start && leb end e.end)

  -- The first loop: a match of token shape that a detection covers is remembered.
  unfoldable pub remember_matches :
      Text → List (PiiEntity S) → List SecretMatch → PiiMapping → PiiMapping
  unfolding token_shaped remember
  remember_matches text entities [] m = m
  remember_matches text entities (x ∷ matches) m =
      let value = slice text x.start x.end in
      let next =
        if token_shaped u value && spans_over x.start x.end entities
        then remember value x.entity_type m
        else m in
      remember_matches text entities matches next

  -- The copies of one value that are to be added.
  unfoldable pub copies_at : Text → List (PiiEntity S) → Text → Text → List ℕ → List (PiiEntity S)
  unfolding stands_alone
  copies_at text entities value entity_type [] = []
  copies_at text entities value entity_type (start ∷ starts) =
      let end = start + length value in
      let rest = copies_at text entities value entity_type starts in
      let is_covered =
        any
          (λ (e : PiiEntity S).
            text_eq e.entity_type entity_type && (leb e.start start && leb end e.end))
          entities in
      if not is_covered && stands_alone u text start end
      then record {
        entity_type = entity_type;
        text = value;
        start = start;
        end = end;
        score = certain;
        source = codes "known";
      }
        ∷ rest
      else rest

  unfoldable pub known_copies : Text → List (PiiEntity S) → Dict Text → List (PiiEntity S)
  unfolding copies_at occurrences
  known_copies text entities [] = []
  known_copies text entities ((value, entity_type) ∷ known) =
      copies_at text entities value entity_type (occurrences value 0 0 text)
      ++ known_copies text entities known

  -- `_type_priorities`: 2 for a blocked type, 1 for an irreversible one.
  unfoldable pub type_priorities :
      (Text → Bool) → (Text → Bool) → List (PiiEntity S) → Dict ℕ → Dict ℕ
  unfolding insert
  type_priorities is_blocked is_lossy [] d = d
  type_priorities is_blocked is_lossy (e ∷ entities) d =
      let value = if is_blocked e.entity_type then 2 else if is_lossy e.entity_type then 1 else 0 in
      type_priorities is_blocked is_lossy entities (insert e.entity_type value d)

  module _ (ge : S → S → Bool) (is_blocked is_lossy : Text → Bool) (resolution : Text) where
    unfoldable pub with_copies : Text → List (PiiEntity S) → List (PiiEntity S) → List (PiiEntity S)
    unfolding type_priorities merge_entities
    with_copies text entities copies =
        let merged = entities ++ copies in
        if null copies
        then entities
        else merge_entities ge merged (codes "union") resolution (some text)
            (some (type_priorities is_blocked is_lossy merged []))

    -- The rules are off, or a function that finds their matches in a text.
    unfoldable pub with_known_values :
        Option (Text → List SecretMatch)
        → Text
        → List (PiiEntity S)
        → PiiMapping
        → List (PiiEntity S) × PiiMapping
    unfolding remember_matches known_copies with_copies
    with_known_values none text entities m = (entities, m)
    with_known_values (some analyze) text entities m =
        let m' = remember_matches text entities (analyze text) m in
        (with_copies text entities (known_copies text entities m'.known), m')
