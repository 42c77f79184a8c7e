-- ===== src/Chunk/Laws.antt =====
-- What the windows of privaite/pii/detector_base.py promise to a detector.
use priv_ai_te.Prelude.{
  ℕ, zero, suc, ◌+◌, ◌-◌, ◌*◌, max, min, ◌≤◌, ◌<◌, ◌≡◌, ◌⊎◌, Bool, true, ◌&&◌, some, [], ◌∷◌, ltb,
  leb, arith, Text, length, any, All, Bool-cases, Option-cases, inl, inr,
}
use priv_ai_te.Chunk.{rfind_space, window_end, windows, chunk_bounds}

rfind_space_bounds :
    (lo hi position cut : ℕ) (text : Text)
    → rfind_space lo hi position text ≡ some cut
    → (lo ≤ cut) × (cut < hi)
unfolding rfind_space
rfind_space_bounds lo hi position cut [] h = absurd (ground arith)
rfind_space_bounds lo hi position cut (c ∷ text) h =
    elim (Option-cases (rfind_space lo hi (suc position) text)) [
      | inl e ↦ ground arith
      | inr (i, e) ↦ ground (arith, rfind_space_bounds lo hi (suc position) cut text)
    ]

-- The span from `a` to `b` is inside a window.
abbrev pub is_inside : ℕ → ℕ → ℕ × ℕ → Bool
is_inside a b w = leb w.0 a && leb b w.1

module _ (text : Text) (max_chars overlap : ℕ) (small : 2 * overlap ≤ max_chars) where
  window_end_bounds :
      (start : ℕ)
      → start < length text
      → (window_end text max_chars overlap start ≤ length text)
        × (window_end text max_chars overlap start ≤ start + max_chars)
        × ((length text ≤ window_end text max_chars overlap start)
            ⊎ (start + overlap ≤ window_end text max_chars overlap start))
  unfolding window_end
  window_end_bounds start lt =
      elim (Option-cases (
        rfind_space (start + max_chars - overlap) (min (start + max_chars) (length text)) 0 text)) [
          | inl e ↦ ground arith
          | inr (cut, e) ↦ ground (
            arith,
            rfind_space_bounds (start + max_chars - overlap) (min (start + max_chars) (length text))
                0 cut text e,
          )
        ]

  windows-is_inside :
      (fuel start a b : ℕ)
      → length text ≤ start + fuel
      → start ≤ a
      → a < b
      → b ≤ length text
      → b ≤ a + overlap
      → any (is_inside a b) (windows text max_chars overlap fuel start) ≡ true
  unfolding windows
  windows-is_inside zero start a b enough le lt fits short = absurd (omega arith)
  windows-is_inside (suc fuel) start a b enough le lt fits short =
      let next = max (window_end text max_chars overlap start - overlap) (start + 1) in
      let bounds = window_end_bounds start (omega arith) in
      elim (Bool-cases (leb b (window_end text max_chars overlap start))) [
        | inl e ↦ ground arith
        | inr e ↦ ground (
          arith,
          bounds,
          windows-is_inside fuel next a b (omega (arith, enough)) (ground (arith, bounds)) lt fits
              short,
        )
      ]

  -- If the overlap is at most half of a window, each span of the text that is no longer than the overlap
  -- lies whole in one window.
  pub chunk_bounds-is_inside :
      (a b : ℕ)
      → a < b
      → b ≤ length text
      → b ≤ a + overlap
      → any (is_inside a b) (chunk_bounds text max_chars overlap) ≡ true
  unfolding chunk_bounds
  chunk_bounds-is_inside a b lt fits short =
      ground
        (arith, windows-is_inside (length text) 0 a b (omega arith) (omega arith) lt fits short)

  windows-All :
      (fuel start : ℕ)
      → All (λ w. (w.0 ≤ w.1) × (w.1 ≤ w.0 + max_chars)) (windows text max_chars overlap fuel start)
  unfolding windows
  windows-All zero start = tt
  windows-All (suc fuel) start =
      let next = max (window_end text max_chars overlap start - overlap) (start + 1) in
      elim (Bool-cases (ltb start (length text))) [
        | inr e ↦ rw e tt
        | inl e ↦
            let bounds = window_end_bounds start (ground arith) in
            elim (Bool-cases (leb (length text) (window_end text max_chars overlap start))) [
              | inl f ↦ rw (e, f) ((ground (arith, bounds), bounds.1), tt)
              | inr f ↦ rw (e, f) ((ground (arith, bounds), bounds.1), windows-All fuel next)
            ]
      ]

  -- If the overlap is at most half of a window, no window runs backwards or is longer than `max_chars`.
  pub chunk_bounds-All :
      All (λ w. (w.0 ≤ w.1) × (w.1 ≤ w.0 + max_chars)) (chunk_bounds text max_chars overlap)
  unfolding chunk_bounds
  chunk_bounds-All = elim (Bool-cases (leb (length text) max_chars)) [
    | inl e ↦ rw e ((omega arith, ground arith), tt)
    | inr e ↦ rw e (windows-All (length text) 0)
  ]
