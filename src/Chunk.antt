-- ===== src/Chunk.antt =====
-- privaite/pii/detector_base.py, `chunk_text`: a long text is cut into windows that overlap.
pub mod Laws
mod Tests
use priv_ai_te.Prelude.{
  ℕ, zero, suc, ◌+◌, ◌-◌, max, min, Bool, true, false, ◌&&◌, ◌==◌, Option, none, some, List, [],
  ◌∷◌, map, ltb, leb, if◌then◌else◌, Text, length, slice,
}

-- The last one of two finds.
abbrev pub later_of : Option ℕ → Option ℕ → Option ℕ
later_of none o = o
later_of (some i) o = some i

-- `text.rfind(" ", lo, hi)`, with the position of the first character.
unfoldable pub rfind_space : ℕ → ℕ → ℕ → Text → Option ℕ
rfind_space lo hi position [] = none
rfind_space lo hi position (c ∷ text) =
    later_of (rfind_space lo hi (suc position) text)
      (if (c == b' ') && (leb lo position && ltb position hi) then some position else none)

module _ (text : Text) (max_chars overlap : ℕ) where
  -- The end of the window that begins at `start`.
  unfoldable pub window_end : ℕ → ℕ
  unfolding rfind_space
  window_end start =
      let end = min (start + max_chars) (length text) in
      if ltb end (length text)
      then elim (rfind_space (start + max_chars - overlap) end 0 text) [
        | none ↦ end
        | some cut ↦ if ltb start cut then cut else end
      ]
      else end

  -- The loop, on fuel, with the bounds of the windows. `end - overlap` below 0 is not above `start + 1`.
  unfoldable pub windows : ℕ → ℕ → List (ℕ × ℕ)
  unfolding window_end
  windows zero start = []
  windows (suc fuel) start =
      let end = window_end start in
      let rest = windows fuel (max (end - overlap) (start + 1)) in
      if ltb start (length text)
      then (start, end) ∷ (if leb (length text) end then [] else rest)
      else []

  -- As many rounds as the text has characters are enough.
  unfoldable pub chunk_bounds : List (ℕ × ℕ)
  unfolding windows
  chunk_bounds =
      if leb (length text) max_chars then (0, length text) ∷ [] else windows (length text) 0

  unfoldable pub chunk_text : List (ℕ × Text)
  unfolding chunk_bounds
  chunk_text = map (λ w. (w.0, slice text w.0 w.1)) chunk_bounds
