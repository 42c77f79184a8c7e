-- ===== src/Literal.antt =====
-- privaite/pii/mapping.py, PLACEHOLDER_LITERAL: `<([^<>]{1,100}?)_(\d+)>`, the shape of a numbered
-- placeholder. Which characters `\d` matches is Unicode's table, a parameter.
use priv_ai_te.Prelude.{
  ℕ, zero, suc, ◌+◌, ◌-◌, ◌<◌, ◌≡◌, Bool, true, false, ◌||◌, Option, none, some, List, [], ◌∷◌,
  ◌==◌, if◌then◌else◌, Text, length, take,
}

pub record DecimalClass : Type 0 where
  pub decimal : ℕ → Bool
  pub decimal_digit : (n : ℕ) → n < 10 → decimal (48 + n) ≡ true
  pub decimal_underscore : decimal b'_' ≡ false
  pub decimal_close : decimal b'>' ≡ false

pub record LiteralMatch : Type 0 where
  pub start : ℕ
  pub end : ℕ
  -- `match.group(0)` and `match.group(1)`.
  pub literal : Text
  pub group : Text

abbrev pub is_bracket : ℕ → Bool
is_bracket c = c == b'<' || c == b'>'

abbrev pub map_length : (ℕ → ℕ) → Option ℕ → Option ℕ
map_length f none = none
map_length f (some n) = some (f n)

abbrev pub cons_group : ℕ → Option (Text × ℕ) → Option (Text × ℕ)
cons_group c none = none
cons_group c (some (g, n)) = some (c ∷ g, n)

module _ (u : DecimalClass) where
  -- `\d*>`, and how many characters it matches. A digit is no bracket, so that the greedy run of
  -- digits is never cut short.
  unfoldable pub digits_close : Text → Option ℕ
  digits_close [] = none
  digits_close (c ∷ t) =
      let rest = digits_close t in
      if c == b'>' then some 1 else if u.decimal c then map_length suc rest else none

  -- `_\d+>`.
  unfoldable pub number_suffix : Text → Option ℕ
  unfolding digits_close
  number_suffix [] = none
  number_suffix (c ∷ []) = none
  number_suffix (c ∷ d ∷ t) =
      if c == b'_'
      then (if u.decimal d then map_length (λ n. suc (suc n)) (digits_close t) else none)
      else none

  -- `([^<>]{1,100}?)_\d+>`, with the characters left to the group: its text, and the length of what
  -- follows it. The group is lazy: it ends as soon as the rest matches.
  unfoldable pub lazy_group : ℕ → Text → Option (Text × ℕ)
  unfolding number_suffix
  lazy_group zero s = none
  lazy_group (suc budget) [] = none
  lazy_group (suc budget) (c ∷ t) =
      let longer = lazy_group budget t in
      if is_bracket c
      then none
      else elim (number_suffix t) [ some n ↦ some (c ∷ [], n) | none ↦ cons_group c longer ]

  -- The group and the whole length of a match at the front.
  unfoldable pub match_literal : Text → Option (Text × ℕ)
  unfolding lazy_group
  match_literal [] = none
  match_literal (c ∷ t) =
      if c == b'<'
      then elim (lazy_group 100 t) [ none ↦ none | some (g, n) ↦ some (g, suc (length g) + n) ]
      else none

  -- `PLACEHOLDER_LITERAL.finditer` from position `i`; `skip` is what is left of the last match.
  unfoldable pub find_from : ℕ → ℕ → Text → List LiteralMatch
  unfolding match_literal
  find_from i skip [] = []
  find_from i (suc skip) (c ∷ t) = find_from (suc i) skip t
  find_from i zero (c ∷ t) = elim (match_literal (c ∷ t)) [
    | none ↦ find_from (suc i) zero t
    | some (g, n) ↦
        record { start = i; end = i + n; literal = take n (c ∷ t); group = g }
        ∷ find_from (suc i) (n - 1) t
  ]

  unfoldable pub find_literals : Text → List LiteralMatch
  unfolding find_from
  find_literals = find_from 0 0
