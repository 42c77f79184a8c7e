-- ===== src/AllowList/Laws.antt =====
-- What privaite/pii/allow_list.py lets through.
use priv_ai_te.Prelude.{
  ◌≡◌, refl, sym, ◌∙◌, ap, Bool, true, false, not, ◌&&◌, ◌||◌, Option, none, some, List, [], ◌∷◌,
  map, if◌then◌else◌, arith, Text, any, all, null, All, Bool-cases, inl, inr,
}
use priv_ai_te.Entity.{PiiEntity, overlaps}
use priv_ai_te.AllowList.{
  AllowRule, Cell, open_cells, sorted_and_disjoint, touched, mark_cell, mark_cells, is_allowed,
  mark, lets_through, spans_where, apply_allow_list,
}
use priv_ai_te.AllowList.Touched.{IsForward, touched_lem}

abbrev pub filter : {A : Type 0} → (A → Bool) → List A → List A
filter p [] = []
filter p (x ∷ xs) = if p x then x ∷ filter p xs else filter p xs

module _ {S : Type 0} (text : Text) (rules : List AllowRule) (protected : List Text) where
  -- Some detection touches the span, and an entry covers every one that does.
  abbrev pub is_exempt : List (PiiEntity S) → PiiEntity S → Bool
  is_exempt raw span =
      any (λ d. overlaps span d) raw
      && all (λ d. not (overlaps span d) || is_allowed text rules protected d) raw

  -- The loop over the raw detections, seen from one span.
  abbrev mark_one : List (PiiEntity S) → Cell S → Cell S
  mark_one [] c = c
  mark_one (d ∷ raw) c =
      mark_one raw (mark_cell (is_allowed text rules protected d) (overlaps c.span d) c)

  abbrev spans_of : List (Cell S) → List (PiiEntity S)
  spans_of = map (λ c. c.span)

  mark_cells-map :
      (d : PiiEntity S) (ok : Bool) (cells : List (Cell S))
      → mark_cells ok (map (λ span. overlaps span d) (spans_of cells)) cells
        ≡ map (λ c. mark_cell ok (overlaps c.span d) c) cells
  mark_cells-map d ok [] = refl
  mark_cells-map d ok (c ∷ cells) =
      ap (mark_cell ok (overlaps c.span d) c ∷◌) (mark_cells-map d ok cells)

  mark_cell-span : (ok hit : Bool) (c : Cell S) → (mark_cell ok hit c).span ≡ c.span
  mark_cell-span ok true c = refl
  mark_cell-span ok false c = refl

  spans_of_marked :
      (d : PiiEntity S) (ok : Bool) (cells : List (Cell S))
      → spans_of (map (λ c. mark_cell ok (overlaps c.span d) c) cells) ≡ spans_of cells
  spans_of_marked d ok [] = refl
  spans_of_marked d ok (c ∷ cells) =
      ground (arith, mark_cell-span ok (overlaps c.span d) c, spans_of_marked d ok cells)

  map_same : (cells : List (Cell S)) → map (λ c. c) cells ≡ cells
  map_same [] = refl
  map_same (c ∷ cells) = ap (c ∷◌) (map_same cells)

  map_twice :
      (f h : Cell S → Cell S) (cells : List (Cell S))
      → map f (map h cells) ≡ map (λ c. f (h c)) cells
  map_twice f h [] = refl
  map_twice f h (c ∷ cells) = ap (f (h c) ∷◌) (map_twice f h cells)

  mark-map :
      (fast : Bool) (spans : List (PiiEntity S))
      → ((d : PiiEntity S) → touched fast spans d ≡ map (λ span. overlaps span d) spans)
      → (raw : List (PiiEntity S)) (cells : List (Cell S)) → spans_of cells ≡ spans
      → mark text rules protected fast spans raw cells ≡ map (mark_one raw) cells
  unfolding mark
  mark-map fast spans t [] cells e = sym (map_same cells)
  mark-map fast spans t (d ∷ raw) cells e =
      let ok = is_allowed text rules protected d in
      let step : mark_cells ok (touched fast spans d) cells
          ≡ map (λ c. mark_cell ok (overlaps c.span d) c) cells =
        ap (λ h. mark_cells ok h cells) (t d ∙ ap (map (λ span. overlaps span d)) (sym e))
        ∙ mark_cells-map d ok cells in
      ap (mark text rules protected fast spans raw) step
      ∙ (mark-map fast spans t raw (map (λ c. mark_cell ok (overlaps c.span d) c) cells)
            (spans_of_marked d ok cells ∙ e)
          ∙ map_twice (mark_one raw) (λ c. mark_cell ok (overlaps c.span d) c) cells)

  abbrev all_covered : List (PiiEntity S) → PiiEntity S → Bool
  all_covered raw span = all (λ d. not (overlaps span d) || is_allowed text rules protected d) raw

  marked_verdict :
      (raw : List (PiiEntity S)) (span : PiiEntity S) (v : Option Bool) (u : Bool)
      → lets_through (mark_one raw (record { span = span; verdict = v; allowed_under = u }))
        ≡ elim v [ none ↦ is_exempt raw span | some ok ↦ ok && all_covered raw span ]
  marked_verdict [] span none u = refl
  marked_verdict [] span (some ok) u = ground arith
  marked_verdict (d ∷ raw) span none u = elim (Bool-cases (overlaps span d)) [
    | inl e ↦ rw e (
        marked_verdict raw span (some (is_allowed text rules protected d))
          (u || is_allowed text rules protected d)
        ∙ ground arith)
    | inr e ↦ rw e (marked_verdict raw span none u)
  ]
  marked_verdict (d ∷ raw) span (some ok) u = elim (Bool-cases (overlaps span d)) [
    | inl e ↦ rw e (
        marked_verdict raw span (some (ok && is_allowed text rules protected d))
          (u || is_allowed text rules protected d)
        ∙ ground arith)
    | inr e ↦ rw e (marked_verdict raw span (some ok) u)
  ]

  mark_one-span : (raw : List (PiiEntity S)) (c : Cell S) → (mark_one raw c).span ≡ c.span
  mark_one-span [] c = refl
  mark_one-span (d ∷ raw) c =
      mark_one-span raw (mark_cell (is_allowed text rules protected d) (overlaps c.span d) c)
      ∙ mark_cell-span (is_allowed text rules protected d) (overlaps c.span d) c

  spans_where-filter :
      (raw spans : List (PiiEntity S))
      → spans_where lets_through (map (mark_one raw) (open_cells spans))
        ≡ filter (is_exempt raw) spans
  spans_where-filter raw [] = refl
  spans_where-filter raw (e ∷ spans) = ground (
    arith,
    marked_verdict raw e none false,
    mark_one-span raw (record { span = e; verdict = none; allowed_under = false }),
    spans_where-filter raw spans,
  )

  spans_where-filter-not :
      (raw spans : List (PiiEntity S))
      → spans_where (λ c. not (lets_through c)) (map (mark_one raw) (open_cells spans))
        ≡ filter (λ e. not (is_exempt raw e)) spans
  spans_where-filter-not raw [] = refl
  spans_where-filter-not raw (e ∷ spans) = ground (
    arith,
    marked_verdict raw e none false,
    mark_one-span raw (record { span = e; verdict = none; allowed_under = false }),
    spans_where-filter-not raw spans,
  )

  spans_of_open : (spans : List (PiiEntity S)) → spans_of (open_cells spans) ≡ spans
  spans_of_open [] = refl
  spans_of_open (e ∷ spans) = ap (e ∷◌) (spans_of_open spans)

  touched-map :
      (merged : List (PiiEntity S)) (d : PiiEntity S)
      → All IsForward merged
      → touched (sorted_and_disjoint merged) merged d ≡ map (λ span. overlaps span d) merged
  unfolding touched
  touched-map merged d v = elim (Bool-cases (sorted_and_disjoint merged)) [
    | inl s ↦ rw s (touched_lem merged d s v)
    | inr s ↦ rw s refl
  ]

  -- With at least one rule, and merged spans that do not run backwards, a merged span is let through exactly if some raw detection overlaps it and
  -- every raw detection that does is allowed by a rule on its own type and text; all others are redacted.
  pub apply_allow_list_lem :
      (merged raw : List (PiiEntity S))
      → null rules ≡ false
      → All IsForward merged
      → ((apply_allow_list text merged raw rules protected).redacted
          ≡ filter (λ e. not (is_exempt raw e)) merged)
        × ((apply_allow_list text merged raw rules protected).allowed
            ≡ filter (is_exempt raw) merged)
  unfolding apply_allow_list
  apply_allow_list_lem [] raw r v = ground arith
  apply_allow_list_lem (e ∷ merged) raw r v =
      let spans = e ∷ merged in
      let q =
        mark-map (sorted_and_disjoint spans) spans (λ d. touched-map spans d v) raw
          (open_cells spans) (spans_of_open spans) in
      (
        rw r (ap (spans_where (λ c. not (lets_through c))) q ∙ spans_where-filter-not raw spans),
        rw r (ap (spans_where lets_through) q ∙ spans_where-filter raw spans),
      )
