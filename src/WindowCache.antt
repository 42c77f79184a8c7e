-- ===== src/WindowCache.antt =====
-- privaite/pii/window_cache.py: the predictions of one scrub operation, dropped when it ends. A key
-- is the digest that the source computes with BLAKE2b.
pub mod Laws
mod Tests
use priv_ai_te.Prelude.{ℕ, Bool, true, false, Option, List, [], ◌∷◌, if◌then◌else◌, Text}
use priv_ai_te.Prelude.Dicts.{Dict, lookup}
use priv_ai_te.Ordered.{move_to_end, store}

-- `P` is the type of `TokenPredictions`.
pub record WindowCache (P : Type 0) : Type 0 where
  pub max_windows : ℕ
  pub entries : Dict P
  pub closed : Bool

-- What a scrub operation and the workers that outlive it do with the cache.
pub data Action (P : Type 0) : Type 0 where
  read : Text → Action P
  write : Text → P → Action P
  finish : Action P

module _ {P : Type 0} where
  unfoldable pub get : Text → WindowCache P → Option P × WindowCache P
  unfolding move_to_end
  get key c = (lookup key c.entries, record c { entries = move_to_end key c.entries })

  unfoldable pub put : Text → P → WindowCache P → WindowCache P
  unfolding store
  put key predictions c =
      if c.closed then c else record c { entries = store c.max_windows key predictions c.entries }

  unfoldable pub close : WindowCache P → WindowCache P
  close c = record c { entries = []; closed = true }

  unfoldable pub run : List (Action P) → WindowCache P → WindowCache P
  unfolding get put close
  run [] c = c
  run (read key ∷ actions) c = run actions ((get key c).1)
  run (write key p ∷ actions) c = run actions (put key p c)
  run (finish ∷ actions) c = run actions (close c)
