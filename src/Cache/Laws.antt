-- ===== src/Cache/Laws.antt =====
-- The bounds that privaite/pii/cache.py promises: entries, age, and what a hit returns.
use mathlib.Core.Path.{subst}
use priv_ai_te.Prelude.{
  ℕ, ◌+◌, ◌≤◌, ◌≡◌, ◌↔◌, ◌⊎◌, refl, sym, Bool, true, false, some, List, [], ◌∷◌, arith, Text,
  text_eq, text_eq_iff, any, length, All, Bool-cases, Option-cases, inl, inr,
}
use priv_ai_te.Prelude.Dicts.{Dict, lookup, delete}
use priv_ai_te.Entity.{PiiEntity}
use priv_ai_te.Entity.Labels.{IsFaithful}
use priv_ai_te.Ordered.{Each, store-length, store-Each, lookup-store}
use priv_ai_te.Cache.{
  DetectionCache, is_expired, get, put, purge_expired, expired_keys, delete_keys,
  spans_from_entities, entities_from_spans,
}

abbrev listed : Text → List Text → Bool
listed k ks = any (λ j. text_eq j k) ks

module _ {D : Type 0} where
  -- Whatever was there, the size bound holds after a write.
  pub put-length :
      (now : ℕ) (key : Text) (x : D) (c : DetectionCache D)
      → length ((put now key x c).entries) ≤ c.max_entries
  unfolding put purge_expired
  put-length now key x c =
      store-length c.max_entries key (now, x)
        (delete_keys (expired_keys c.ttl now c.entries) c.entries)

  -- An entry is to be deleted, or is fresh.
  abbrev IsSwept : ℕ → ℕ → List Text → Text × (ℕ × D) → Type 0
  IsSwept ttl now ks e = (listed e.0 ks ≡ true) ⊎ (is_expired ttl now e.1 ≡ false)

  delete-IsSwept :
      (ttl now : ℕ) (k : Text) (ks : List Text) (d : Dict (ℕ × D))
      → All (IsSwept ttl now (k ∷ ks)) d
      → All (IsSwept ttl now ks) (delete k d)
  unfolding delete
  delete-IsSwept ttl now k ks [] h = tt
  delete-IsSwept ttl now k ks ((j, w) ∷ d) (h, hs) = elim (Bool-cases (text_eq j k)) [
    | inl b ↦ rw b (delete-IsSwept ttl now k ks d hs)
    | inr b ↦
        rw b (ground (arith, text_eq_iff j k, text_eq_iff k j), delete-IsSwept ttl now k ks d hs)
  ]

  delete_keys-Each :
      (ttl now : ℕ) (ks : List Text) (d : Dict (ℕ × D))
      → All (IsSwept ttl now ks) d
      → Each (λ e. is_expired ttl now e ≡ false) (delete_keys ks d)
  unfolding delete_keys
  delete_keys-Each ttl now [] [] h = tt
  delete_keys-Each ttl now [] (e ∷ d) (h, hs) = (ground arith, delete_keys-Each ttl now [] d hs)
  delete_keys-Each ttl now (k ∷ ks) d h =
      delete_keys-Each ttl now ks (delete k d) (delete-IsSwept ttl now k ks d h)

  weaken :
      (ttl now : ℕ) (k : Text) (ks : List Text) (d : Dict (ℕ × D))
      → All (IsSwept ttl now ks) d
      → All (IsSwept ttl now (k ∷ ks)) d
  weaken ttl now k ks [] h = tt
  weaken ttl now k ks (e ∷ d) (h, hs) = (ground arith, weaken ttl now k ks d hs)

  expired_keys-IsSwept :
      (ttl now : ℕ) (d : Dict (ℕ × D)) → All (IsSwept ttl now (expired_keys ttl now d)) d
  unfolding expired_keys
  expired_keys-IsSwept ttl now [] = tt
  expired_keys-IsSwept ttl now ((k, e) ∷ d) = elim (Bool-cases (is_expired ttl now e)) [
    | inl b ↦
        let q : expired_keys ttl now ((k, e) ∷ d) ≡ k ∷ expired_keys ttl now d = ground arith in
        subst (λ ks. All (IsSwept ttl now ks) ((k, e) ∷ d)) (sym q)
          (
            inl (ground (arith, text_eq_iff k k)),
            weaken ttl now k (expired_keys ttl now d) d (expired_keys-IsSwept ttl now d),
          )
    | inr b ↦
        let q : expired_keys ttl now ((k, e) ∷ d) ≡ expired_keys ttl now d = ground arith in
        subst (λ ks. All (IsSwept ttl now ks) ((k, e) ∷ d)) (sym q)
          (inr b, expired_keys-IsSwept ttl now d)
  ]

  -- After a write, no entry of the cache is older than the time to live: the whole map is swept.
  pub put-Each :
      (now : ℕ) (key : Text) (x : D) (c : DetectionCache D)
      → Each (λ e. is_expired c.ttl now e ≡ false) ((put now key x c).entries)
  unfolding put purge_expired
  put-Each now key x c =
      store-Each (λ e. is_expired c.ttl now e ≡ false) c.max_entries key (now, x)
        (delete_keys (expired_keys c.ttl now c.entries) c.entries) (ground arith)
        (delete_keys-Each c.ttl now (expired_keys c.ttl now c.entries) c.entries
          (expired_keys-IsSwept c.ttl now c.entries))

  -- A hit returns the detection that is stored under the key, and its age is within the time to live;
  -- such an entry is a hit.
  pub get_iff :
      (now : ℕ) (key : Text) (x : D) (c : DetectionCache D)
      → ((get now key c).0 ≡ some x) ↔ (
          (stored_at : ℕ) × (lookup key c.entries ≡ some (stored_at, x))
          × (now ≤ stored_at + c.ttl))
  unfolding get
  get_iff now key x c = elim (Option-cases (lookup key c.entries)) [
    | inl e ↦ (λ h. absurd (ground arith), λ (t, h, le). absurd (ground arith))
    | inr ((t, y), e) ↦ (λ h. (t, ground arith, ground arith), λ (t', h, le). ground arith)
  ]

  -- If the cache may hold an entry at all, what was just written is a hit until its time to live has
  -- passed.
  pub get-put :
      (now later : ℕ) (key : Text) (x : D) (c : DetectionCache D)
      → 1 ≤ c.max_entries
      → later ≤ now + c.ttl
      → (get later key (put now key x c)).0 ≡ some x
  unfolding put purge_expired
  get-put now later key x c room fresh = (get_iff later key x (put now key x c)).1 (
    now,
    lookup-store c.max_entries key (now, x)
        (delete_keys (expired_keys c.ttl now c.entries) c.entries) room,
    fresh,
  )

-- The cached spans rebuild the entities on their text, if each has the text between its offsets.
pub entities_from_spans-spans_from_entities :
    {S : Type 0} (text : Text) (entities : List (PiiEntity S))
    → All (IsFaithful text) entities
    → entities_from_spans (spans_from_entities entities) text ≡ entities
entities_from_spans-spans_from_entities text [] h = refl
entities_from_spans-spans_from_entities text (e ∷ entities) (h, hs) =
    ground (arith, entities_from_spans-spans_from_entities text entities hs)
