-- ===== src/AllowList/Touched.antt =====
-- The bisection of privaite/pii/allow_list.py finds the spans that a scan over all of them finds.
use priv_ai_te.Prelude.{
  ℕ, suc, ◌+◌, ◌≤◌, ◌<◌, ◌≡◌, refl, true, false, List, [], ◌∷◌, map, ltb, leb, arith, Bool-cases,
  All, inl, inr,
}
use priv_ai_te.Entity.{PiiEntity, overlaps}
use priv_ai_te.AllowList.{bisect_left, bisect_right, in_range, sorted_and_disjoint, touched}

module _ {S : Type 0} where
  abbrev pub IsForward : PiiEntity S → Type 0
  IsForward e = e.start ≤ e.end

  -- From index `i` on, the spans that end after `x` are those at `lo` or later.
  abbrev AreAfter : ℕ → ℕ → ℕ → List (PiiEntity S) → Type 0
  AreAfter x lo i [] = Unit
  AreAfter x lo i (e ∷ es) = (leb lo i ≡ ltb x e.end) × AreAfter x lo (suc i) es

  -- From index `i` on, the spans that start before `y` are those before `hi`.
  abbrev AreBefore : ℕ → ℕ → ℕ → List (PiiEntity S) → Type 0
  AreBefore y hi i [] = Unit
  AreBefore y hi i (e ∷ es) = (ltb i hi ≡ ltb e.start y) × AreBefore y hi (suc i) es

  late_ends :
      (x lo i : ℕ) (e : PiiEntity S) (es : List (PiiEntity S))
      → lo ≤ i
      → x < e.end
      → sorted_and_disjoint (e ∷ es) ≡ true
      → All IsForward es
      → AreAfter x lo i es
  unfolding sorted_and_disjoint
  late_ends x lo i e [] le lt s v = tt
  late_ends x lo i e (f ∷ es) le lt s (vf, v) =
      (ground arith, late_ends x lo (suc i) f es (omega arith) (ground arith) (ground arith) v)

  late_starts :
      (y hi i : ℕ) (e : PiiEntity S) (es : List (PiiEntity S))
      → hi ≤ i
      → y ≤ e.start
      → sorted_and_disjoint (e ∷ es) ≡ true
      → AreBefore y hi i es
  unfolding sorted_and_disjoint
  late_starts y hi i e [] le ge s = tt
  late_starts y hi i e (f ∷ es) le ge s =
      (ground arith, late_starts y hi (suc i) f es (omega arith) (ground arith) (ground arith))

  tail_sorted :
      (e : PiiEntity S) (es : List (PiiEntity S))
      → sorted_and_disjoint (e ∷ es) ≡ true
      → sorted_and_disjoint es ≡ true
  unfolding sorted_and_disjoint
  tail_sorted e [] s = refl
  tail_sorted e (f ∷ es) s = ground arith

  bisect_right-AreAfter :
      (x lo i : ℕ) (es : List (PiiEntity S))
      → lo ≡ i + bisect_right (map (λ (e : PiiEntity S). e.end) es) x
      → sorted_and_disjoint es ≡ true
      → All IsForward es
      → AreAfter x lo i es
  bisect_right-AreAfter x lo i [] q s v = tt
  bisect_right-AreAfter x lo i (e ∷ es) q s (ve, v) = elim (Bool-cases (leb e.end x)) [
    | inl b ↦
        (ground arith, bisect_right-AreAfter x lo (suc i) es (ground arith) (tail_sorted e es s) v)
    | inr b ↦ (ground arith, late_ends x lo (suc i) e es (ground arith) (ground arith) s v)
  ]

  bisect_left-AreBefore :
      (y hi i : ℕ) (es : List (PiiEntity S))
      → hi ≡ i + bisect_left (map (λ (e : PiiEntity S). e.start) es) y
      → sorted_and_disjoint es ≡ true
      → AreBefore y hi i es
  bisect_left-AreBefore y hi i [] q s = tt
  bisect_left-AreBefore y hi i (e ∷ es) q s = elim (Bool-cases (ltb e.start y)) [
    | inl b ↦
        (ground arith, bisect_left-AreBefore y hi (suc i) es (ground arith) (tail_sorted e es s))
    | inr b ↦ (ground arith, late_starts y hi (suc i) e es (ground arith) (ground arith) s)
  ]

  in_range_lem :
      (d : PiiEntity S) (lo hi i : ℕ) (es : List (PiiEntity S))
      → AreAfter d.start lo i es
      → AreBefore d.end hi i es
      → in_range lo hi i es ≡ map (λ span. overlaps span d) es
  in_range_lem d lo hi i [] a b = refl
  in_range_lem d lo hi i (e ∷ es) (a, after) (b, before) =
      ground (arith, in_range_lem d lo hi (suc i) es after before)

  -- On sorted disjoint spans that do not run backwards, the index range of the bisection is the set of
  -- the spans that overlap the detection.
  pub touched_lem :
      (spans : List (PiiEntity S)) (d : PiiEntity S)
      → sorted_and_disjoint spans ≡ true
      → All IsForward spans
      → touched true spans d ≡ touched false spans d
  unfolding touched
  touched_lem spans d s v =
      let lo = bisect_right (map (λ (e : PiiEntity S). e.end) spans) d.start in
      let hi = bisect_left (map (λ (e : PiiEntity S). e.start) spans) d.end in
      in_range_lem d lo hi 0 spans (bisect_right-AreAfter d.start lo 0 spans (omega arith) s v)
        (bisect_left-AreBefore d.end hi 0 spans (omega arith) s)
