-- ===== src/WindowCache/Tests.antt =====
-- The theorems on privaite/pii/window_cache.py at concrete inputs.
use priv_ai_te.Prelude.{ℕ, refl, false, List, [], ◌∷◌, codes, arith}
use priv_ai_te.WindowCache.{WindowCache, Action, read, write, finish, run}
use priv_ai_te.WindowCache.Laws.{IsBounded}
use priv_ai_te.WindowCache.Laws

abbrev fresh : WindowCache ℕ
fresh = record { max_windows = 1; entries = []; closed = false }

abbrev actions : List (Action ℕ)
actions =
    write (codes "a") 1 ∷ write (codes "b") 2 ∷ read (codes "b") ∷ finish ∷ write (codes "a") 1 ∷ []

run-IsBounded_example : IsBounded (run actions fresh)
run-IsBounded_example = Laws.run-IsBounded actions fresh (omega arith, λ e. refl)
