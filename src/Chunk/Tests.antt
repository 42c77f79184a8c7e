-- ===== src/Chunk/Tests.antt =====
-- Runs of `chunk_text` of privaite/pii/detector_base.py, and its theorems at concrete inputs.
use priv_ai_te.Prelude.{◌+◌, ◌≤◌, ◌≡◌, refl, true, [], ◌∷◌, Text, codes, any, All, arith}
use priv_ai_te.Chunk.{rfind_space, window_end, windows, chunk_bounds, chunk_text}
use priv_ai_te.Chunk.Laws.{is_inside}
use priv_ai_te.Chunk.Laws

program : Unit {0}
unfolding rfind_space window_end windows chunk_bounds chunk_text
program = tt

abbrev source_text : Text
source_text = codes "abcde fg hijk lmn"

-- The first two windows end at a space in their last part, the third one has none there.
chunked :
    chunk_text source_text 8 3
    ≡ (0, codes "abcde") ∷ (2, codes "cde fg") ∷ (5, codes " fg hijk") ∷ (10, codes "ijk lmn") ∷ []
unfolding program
chunked = refl

chunk_bounds-is_inside_example : any (is_inside 6 8) (chunk_bounds source_text 8 3) ≡ true
chunk_bounds-is_inside_example =
    Laws.chunk_bounds-is_inside source_text 8 3 (omega arith) 6 8 (omega arith) (omega arith)
      (omega arith)

chunk_bounds-All_example : All (λ w. (w.0 ≤ w.1) × (w.1 ≤ w.0 + 8)) (chunk_bounds source_text 8 3)
chunk_bounds-All_example = Laws.chunk_bounds-All source_text 8 3 (omega arith)
