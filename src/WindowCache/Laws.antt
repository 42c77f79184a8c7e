-- ===== src/WindowCache/Laws.antt =====
-- What privaite/pii/window_cache.py promises: a bound on the size, and nothing left once it is closed.
use priv_ai_te.Prelude.{
  ◌≤◌, ◌≡◌, refl, true, List, [], ◌∷◌, arith, Text, length, Bool-cases, inl, inr,
}
use priv_ai_te.Ordered.{store-length, move_to_end, move_to_end-length}
use priv_ai_te.WindowCache.{WindowCache, Action, read, write, finish, get, put, close, run}

module _ {P : Type 0} where
  -- At most `max_windows` entries, and none in a closed cache.
  abbrev pub IsBounded : WindowCache P → Type 0
  IsBounded c = (length c.entries ≤ c.max_windows) × (c.closed ≡ true → c.entries ≡ [])

  get-IsBounded : (key : Text) (c : WindowCache P) → IsBounded c → IsBounded (get key c).1
  unfolding get move_to_end
  get-IsBounded key c (h, k) = (omega (arith, move_to_end-length key c.entries), λ e. rw (k e) refl)

  put-IsBounded : (key : Text) (p : P) (c : WindowCache P) → IsBounded c → IsBounded (put key p c)
  unfolding put
  put-IsBounded key p c (h, k) = elim (Bool-cases c.closed) [
    | inl e ↦ rw e (h, λ _. k e)
    | inr e ↦ rw e (store-length c.max_windows key p c.entries, λ f. absurd cc)
  ]

  -- From any cache in bounds, any sequence of reads, writes and closes stays in bounds.
  pub run-IsBounded :
      (actions : List (Action P)) (c : WindowCache P) → IsBounded c → IsBounded (run actions c)
  unfolding run close
  run-IsBounded [] c h = h
  run-IsBounded (read key ∷ actions) c h =
      run-IsBounded actions (get key c).1 (get-IsBounded key c h)
  run-IsBounded (write key p ∷ actions) c h =
      run-IsBounded actions (put key p c) (put-IsBounded key p c h)
  run-IsBounded (finish ∷ actions) c h = run-IsBounded actions (close c) (omega arith, λ e. refl)

  stays_closed :
      (actions : List (Action P)) (c : WindowCache P)
      → c.closed ≡ true
      → c.entries ≡ []
      → (run actions c).entries ≡ []
  unfolding run get put close move_to_end
  stays_closed [] c h e = e
  stays_closed (read key ∷ actions) c h e = stays_closed actions (get key c).1 h (rw e refl)
  stays_closed (write key p ∷ actions) c h e =
      stays_closed actions (put key p c) (rw h refl) (rw h e)
  stays_closed (finish ∷ actions) c h e = stays_closed actions (close c) refl refl

  -- After `close`, a late worker cannot put anything back, whatever it does.
  pub run-close :
      (actions : List (Action P)) (c : WindowCache P) → (run actions (close c)).entries ≡ []
  unfolding close
  run-close actions c = stays_closed actions (close c) refl refl
