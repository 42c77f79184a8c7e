-- ===== src/Ordered.antt =====
-- Python's `OrderedDict` as the two caches use it: `move_to_end`, and `popitem(last=False)` until the
-- size fits. The entries are listed from the oldest access to the latest.
use priv_ai_te.Prelude.{
  ℕ, suc, ◌≤◌, ◌≡◌, none, some, [], ◌∷◌, ◌++◌, ltb, if◌then◌else◌, arith, Text, text_eq,
  text_eq_iff, length, length-append, All, All-append, Bool-cases, Option-cases, inl, inr,
}
use priv_ai_te.Prelude.Dicts.{
  Dict, lookup, insert, delete, lookup-append, lookup-insert, lookup-delete,
}

module _ {V : Type 0} where
  unfoldable pub move_to_end : Text → Dict V → Dict V
  unfolding delete
  move_to_end k d = elim (lookup k d) [ none ↦ d | some v ↦ delete k d ++ ((k, v) ∷ []) ]

  -- `while len(d) > max: d.popitem(last=False)`.
  unfoldable pub evict : ℕ → Dict V → Dict V
  evict size [] = []
  evict size (e ∷ d) = let rest = evict size d in if ltb size (suc (length d)) then rest else e ∷ d

  -- `d[k] = v`, `d.move_to_end(k)` and the loop.
  unfoldable pub store : ℕ → Text → V → Dict V → Dict V
  unfolding insert move_to_end evict
  store size k v d = evict size (move_to_end k (insert k v d))

  pub evict-length : (size : ℕ) (d : Dict V) → length (evict size d) ≤ size
  unfolding evict
  evict-length size [] = omega arith
  evict-length size (e ∷ d) = ground (arith, evict-length size d)

  -- The entry that was written last stays, if there is room for one.
  pub evict-last :
      (size : ℕ) (d : Dict V) (k : Text) (v : V)
      → 1 ≤ size
      → lookup k d ≡ none
      → lookup k (evict size (d ++ ((k, v) ∷ []))) ≡ some v
  unfolding evict
  evict-last size [] k v h e = ground (arith, text_eq_iff k k)
  evict-last size ((j, w) ∷ d) k v h e =
      ground (arith, evict-last size d k v h, lookup-append k d ((k, v) ∷ []), text_eq_iff k k)

  move_to_end-found :
      (k : Text) (v : V) (d : Dict V)
      → lookup k d ≡ some v
      → move_to_end k d ≡ delete k d ++ ((k, v) ∷ [])
  unfolding move_to_end
  move_to_end-found k v d h = ground arith

  pub store-length : (size : ℕ) (k : Text) (v : V) (d : Dict V) → length (store size k v d) ≤ size
  unfolding store
  store-length size k v d = evict-length size (move_to_end k (insert k v d))

  -- What was written is read back.
  pub lookup-store :
      (size : ℕ) (k : Text) (v : V) (d : Dict V) → 1 ≤ size → lookup k (store size k v d) ≡ some v
  unfolding store move_to_end
  lookup-store size k v d h =
      let looked : lookup k (insert k v d) ≡ some v =
        ground (arith, lookup-insert k k v d, text_eq_iff k k) in
      rw (move_to_end-found k v (insert k v d) looked) (
        evict-last size (delete k (insert k v d)) k v h
          (ground (arith, lookup-delete k k (insert k v d), text_eq_iff k k)))

  delete_le : (k : Text) (d : Dict V) → length (delete k d) ≤ length d
  unfolding delete
  delete_le k [] = omega arith
  delete_le k ((j, w) ∷ d) = ground (arith, delete_le k d)

  delete-length :
      (k : Text) (v : V) (d : Dict V) → lookup k d ≡ some v → suc (length (delete k d)) ≤ length d
  unfolding delete
  delete-length k v [] h = absurd (ground arith)
  delete-length k v ((j, w) ∷ d) h = ground (arith, delete-length k v d, delete_le k d)

  pub move_to_end-length : (k : Text) (d : Dict V) → length (move_to_end k d) ≤ length d
  unfolding move_to_end
  move_to_end-length k d = elim (Option-cases (lookup k d)) [
    | inl e ↦ let q : move_to_end k d ≡ d = ground arith in rw q (omega arith)
    | inr (v, e) ↦
        rw (move_to_end-found k v d e)
          (omega (arith, delete-length k v d e, length-append (delete k d) ((k, v) ∷ [])))
  ]

module _ {V : Type 0} (P : V → Type 0) where
  -- A predicate on the values of all entries.
  abbrev pub Each : Dict V → Type 0
  Each = All (λ e. P e.1)

  pub evict-Each : (size : ℕ) (d : Dict V) → Each d → Each (evict size d)
  unfolding evict
  evict-Each size [] h = tt
  evict-Each size (e ∷ d) (h, hs) = elim (Bool-cases (ltb size (suc (length d)))) [
    | inl b ↦ rw b (evict-Each size d hs)
    | inr b ↦ rw b (h, hs)
  ]

  pub delete-Each : (k : Text) (d : Dict V) → Each d → Each (delete k d)
  unfolding delete
  delete-Each k [] h = tt
  delete-Each k ((j, w) ∷ d) (h, hs) = elim (Bool-cases (text_eq j k)) [
    | inl b ↦ rw b (delete-Each k d hs)
    | inr b ↦ rw b (h, delete-Each k d hs)
  ]

  insert-Each : (k : Text) (v : V) (d : Dict V) → P v → Each d → Each (insert k v d)
  unfolding insert
  insert-Each k v [] p h = (p, tt)
  insert-Each k v ((j, w) ∷ d) p (h, hs) = elim (Bool-cases (text_eq j k)) [
    | inl b ↦ rw b (p, hs)
    | inr b ↦ rw b (h, insert-Each k v d p hs)
  ]

  -- A predicate that the written value has, and all entries had, holds of all entries after the write.
  pub store-Each :
      (size : ℕ) (k : Text) (v : V) (d : Dict V) → P v → Each d → Each (store size k v d)
  unfolding store
  store-Each size k v d p h =
      let looked : lookup k (insert k v d) ≡ some v =
        ground (arith, lookup-insert k k v d, text_eq_iff k k) in
      let moved : Each (move_to_end k (insert k v d)) =
        rw (move_to_end-found k v (insert k v d) looked) (
          All-append (λ (e : Text × V). P e.1) (delete k (insert k v d)) ((k, v) ∷ [])
            (delete-Each k (insert k v d) (insert-Each k v d p h)) (p, tt)) in
      evict-Each size (move_to_end k (insert k v d)) moved
