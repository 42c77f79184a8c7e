-- ===== src/AllowList.antt =====
-- privaite/pii/allow_list.py: the values that an operator exempts. What a rule matches (an exact value,
-- or a regular expression in full) is a function of the rule.
pub mod Laws
pub mod Touched
mod Tests
use priv_ai_te.Prelude.{
  ℕ, zero, suc, ◌+◌, Bool, true, false, not, ◌&&◌, ◌||◌, Option, none, some, List, [], ◌∷◌, ◌++◌,
  map, ltb, leb, if◌then◌else◌, Text, codes, text_eq, any, null, length, slice,
}
use priv_ai_te.Entity.{PiiEntity, overlaps}

pub record AllowRule : Type 0 where
  pub matches : Text → Bool
  pub entity_types : Option (List Text)

abbrev pub max_allowed_length : ℕ
max_allowed_length = 1024

abbrev is_in : Text → List Text → Bool
is_in t = any (λ u. text_eq u t)

unfoldable pub allows : List Text → AllowRule → Text → Text → Bool
allows protected rule entity_type value =
    let fits = leb (length value) max_allowed_length && rule.matches value in
    elim rule.entity_types [
      | none ↦ if is_in entity_type protected then false else fits
      | some types ↦ if is_in entity_type types then fits else false
    ]

-- `verdict[i] = ok if previous is None else (previous and ok)`.
abbrev pub conjoin : Option Bool → Bool → Option Bool
conjoin none ok = some ok
conjoin (some previous) ok = some (previous && ok)

-- `bisect_right` and `bisect_left` of a sorted list: how many of its elements, all in front, are at
-- most `x`, or less than it.
abbrev pub bisect_right : List ℕ → ℕ → ℕ
bisect_right [] x = 0
bisect_right (y ∷ ys) x = if leb y x then suc (bisect_right ys x) else 0

abbrev pub bisect_left : List ℕ → ℕ → ℕ
bisect_left [] x = 0
bisect_left (y ∷ ys) x = if ltb y x then suc (bisect_left ys x) else 0

-- One merged span with its cells of `verdict` and `allowed_under`.
pub record Cell (S : Type 0) : Type 0 where
  pub span : PiiEntity S
  pub verdict : Option Bool
  pub allowed_under : Bool

pub record AllowListVerdict (S : Type 0) : Type 0 where
  pub redacted : List (PiiEntity S)
  pub allowed : List (PiiEntity S)
  pub not_allowed : List (PiiEntity S)

module _ {S : Type 0} where
  abbrev pub open_cells : List (PiiEntity S) → List (Cell S)
  open_cells = map (λ e. record { span = e; verdict = none; allowed_under = false })

  -- Each span ends where the next one starts or before, and starts no later.
  unfoldable pub sorted_and_disjoint : List (PiiEntity S) → Bool
  sorted_and_disjoint [] = true
  sorted_and_disjoint (a ∷ []) = true
  sorted_and_disjoint (a ∷ b ∷ spans) =
      (leb a.end b.start && leb a.start b.start) && sorted_and_disjoint (b ∷ spans)

  abbrev pub in_range : ℕ → ℕ → ℕ → List (PiiEntity S) → List Bool
  in_range lo hi i [] = []
  in_range lo hi i (e ∷ spans) = (leb lo i && ltb i hi) ∷ in_range lo hi (suc i) spans

  -- Which of the spans a detection touches: by bisection where they are sorted and disjoint.
  unfoldable pub touched : Bool → List (PiiEntity S) → PiiEntity S → List Bool
  touched fast spans detection =
      if fast
      then in_range (bisect_right (map (λ (e : PiiEntity S). e.end) spans) detection.start)
          (bisect_left (map (λ (e : PiiEntity S). e.start) spans) detection.end) 0 spans
      else map (λ span. overlaps span detection) spans

  abbrev pub mark_cell : Bool → Bool → Cell S → Cell S
  mark_cell ok hit cell =
      if hit
      then record cell {
        verdict = conjoin cell.verdict ok;
        allowed_under = cell.allowed_under || ok;
      }
      else cell

  abbrev pub mark_cells : Bool → List Bool → List (Cell S) → List (Cell S)
  mark_cells ok [] cells = cells
  mark_cells ok (hit ∷ hits) [] = []
  mark_cells ok (hit ∷ hits) (cell ∷ cells) = mark_cell ok hit cell ∷ mark_cells ok hits cells

  abbrev pub any_under : List Bool → List (Cell S) → Bool
  any_under [] cells = false
  any_under (hit ∷ hits) [] = false
  any_under (hit ∷ hits) (cell ∷ cells) = (hit && cell.allowed_under) || any_under hits cells

  module _ (text : Text) (rules : List AllowRule) (protected : List Text) where
    unfoldable pub is_allowed : PiiEntity S → Bool
    unfolding allows
    is_allowed detection =
        any
          (λ rule.
            allows protected rule detection.entity_type (slice text detection.start detection.end))
          rules

    -- The loop over the raw detections. One that touches no span changes nothing.
    unfoldable pub mark :
        Bool → List (PiiEntity S) → List (PiiEntity S) → List (Cell S) → List (Cell S)
    unfolding is_allowed touched
    mark fast spans [] cells = cells
    mark fast spans (detection ∷ raw) cells =
        mark fast spans raw (mark_cells (is_allowed detection) (touched fast spans detection) cells)

    -- The refused detections that touch a span which an entry covered.
    unfoldable pub refused_over :
        Bool → List (PiiEntity S) → List (Cell S) → List (PiiEntity S) → List (PiiEntity S)
    unfolding is_allowed touched
    refused_over fast spans cells [] = []
    refused_over fast spans cells (detection ∷ raw) =
        let rest = refused_over fast spans cells raw in
        if not (is_allowed detection) && any_under (touched fast spans detection) cells
        then detection ∷ rest
        else rest

  abbrev pub lets_through : Cell S → Bool
  lets_through cell = elim cell.verdict [ none ↦ false | some ok ↦ ok ]

  -- The spans of the cells that pass a test.
  abbrev pub spans_where : (Cell S → Bool) → List (Cell S) → List (PiiEntity S)
  spans_where p [] = []
  spans_where p (cell ∷ cells) =
      if p cell then cell.span ∷ spans_where p cells else spans_where p cells

  unfoldable pub apply_allow_list :
      Text
      → List (PiiEntity S)
      → List (PiiEntity S)
      → List AllowRule
      → List Text
      → AllowListVerdict S
  unfolding mark refused_over sorted_and_disjoint
  apply_allow_list text merged raw rules protected =
      let fast = sorted_and_disjoint merged in
      let cells = mark text rules protected fast merged raw (open_cells merged) in
      if null rules || null merged
      then record { redacted = merged; allowed = []; not_allowed = [] }
      else record {
        redacted = spans_where (λ cell. not (lets_through cell)) cells;
        allowed = spans_where lets_through cells;
        not_allowed = refused_over text rules protected fast merged cells raw;
      }
