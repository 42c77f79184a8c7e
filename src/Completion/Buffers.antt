-- ===== src/Completion/Buffers.antt =====
-- privaite/streaming/handler.py, `stream_text_response`: the buffers of the choices, and what is said on each.
use priv_ai_te.Prelude.{
  ℕ, ◌≡◌, refl, inl, inr, Bool, true, false, ◌||◌, Option, none, some, List, [], ◌∷◌, ◌++◌, ◌==◌,
  append-nil, if◌then◌else◌, arith, Text, any, null, Bool-cases,
}
use priv_ai_te.Stream.{StreamingDeAnonymizer}
use priv_ai_te.Completion.{
  Entry, dict, other, Chunk, index_of, text_or_empty, ChoiceBuffers, buffer_of, put_buffer, drain,
}

module _ (i : ℕ) where
  -- What is said on the choice.
  abbrev pub text_of_entry : Entry → Text
  text_of_entry (dict choice) = if index_of choice == i then text_or_empty choice else []
  text_of_entry (other j) = []

  abbrev pub text_of_entries : List Entry → Text
  text_of_entries [] = []
  text_of_entries (e ∷ entries) = text_of_entry e ++ text_of_entries entries

  abbrev pub text_of_chunks : List Chunk → Text
  text_of_chunks [] = []
  text_of_chunks (chunk ∷ chunks) = text_of_entries chunk.choices ++ text_of_chunks chunks

  abbrev pub text_of_rest : List (ℕ × Text) → Text
  text_of_rest [] = []
  text_of_rest ((n, t) ∷ rest) = let more = text_of_rest rest in if n == i then t ++ more else more

  abbrev pub held_by : Option StreamingDeAnonymizer → Text
  held_by none = []
  held_by (some s) = s.buffer

  abbrev pub Unique : ChoiceBuffers → Type 0
  Unique [] = Unit
  Unique ((n, s) ∷ buffers) = (buffer_of n buffers ≡ none) × Unique buffers

  pub buffer_of-put_buffer :
      (k n : ℕ) (s : StreamingDeAnonymizer) (buffers : ChoiceBuffers)
      → buffer_of k (put_buffer n s buffers) ≡ (if n == k then some s else buffer_of k buffers)
  unfolding buffer_of put_buffer
  buffer_of-put_buffer k n s [] = refl
  buffer_of-put_buffer k n s ((o, t) ∷ buffers) = ground (arith, buffer_of-put_buffer k n s buffers)

  pub put_buffer-Unique :
      (n : ℕ) (s : StreamingDeAnonymizer) (buffers : ChoiceBuffers)
      → Unique buffers
      → Unique (put_buffer n s buffers)
  unfolding buffer_of put_buffer
  put_buffer-Unique n s [] u = (refl, tt)
  put_buffer-Unique n s ((o, t) ∷ buffers) u =
      ground (arith, put_buffer-Unique n s buffers u.1, buffer_of-put_buffer o n s buffers)

  drain_step :
      (n : ℕ) (t held : Text) (rest : List (ℕ × Text)) (fin : List ℕ)
      → (n ≡ i → held ≡ [])
      → text_of_rest rest ≡ (if any (λ k. k == i) fin then [] else held)
      → text_of_rest (if any (λ k. k == n) fin || null t then rest else (n, t) ∷ rest)
        ≡ (if any (λ k. k == i) fin then [] else if n == i then t else held)
  drain_step n t held rest fin gone before = elim (Bool-cases (n == i)) [
    | inr e ↦ ground (arith, before, e)
    | inl e ↦
        let q : n ≡ i = ground (arith, e) in
        let z = gone q in rw e (rw q (here t (any (λ k. k == i) fin) (rw z at before)))
  ]
    where
      here :
          (t : Text) (b : Bool)
          → text_of_rest rest ≡ (if b then [] else [])
          → text_of_rest (if b || null t then rest else (i, t) ∷ rest) ≡ (if b then [] else t)
      here [] b h = ground (arith, h)
      here (c ∷ t) b h = ground (arith, h, append-nil (c ∷ t))

  held_by-if :
      (b : Bool) (s : StreamingDeAnonymizer) (o : Option StreamingDeAnonymizer)
      → held_by (if b then some s else o) ≡ (if b then s.buffer else held_by o)
  held_by-if true s o = refl
  held_by-if false s o = refl

  pub text_of_rest-drain :
      (finished : List ℕ) (buffers : ChoiceBuffers)
      → Unique buffers
      → text_of_rest (drain finished buffers)
        ≡ (if any (λ n. n == i) finished then [] else held_by (buffer_of i buffers))
  unfolding drain buffer_of
  text_of_rest-drain finished [] u = ground arith
  text_of_rest-drain finished ((n, s) ∷ buffers) u =
      rw (held_by-if (n == i) s (buffer_of i buffers)) (
        drain_step n s.buffer (held_by (buffer_of i buffers)) (drain finished buffers) finished
          (λ q. rw (← q) (rw (u.0) refl)) (text_of_rest-drain finished buffers u.1))
