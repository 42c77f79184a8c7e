-- ===== src/Anonymizer/Fresh.antt =====
-- `_numbered_placeholder` of privaite/pii/anonymizer.py skips what is taken, and comes to an end.
use priv_ai_te.Prelude.{
  ℕ, zero, suc, ◌≤◌, ◌<◌, ◌≡◌, ◌≢◌, refl, ap, Bool, true, false, List, [], ◌∷◌, ◌++◌, map,
  if◌then◌else◌, arith, Text, text_eq, text_eq_iff, length, length-append, any, any-append,
  Bool-cases, inl, inr,
}
use priv_ai_te.Prelude.Decimals.{decimal, decimal-injective}
use priv_ai_te.Prelude.Dicts.{Dict, has_key}
use priv_ai_te.Mapping.{PiiMapping, is_taken, next_index}
use priv_ai_te.Anonymizer.{placeholder, free_index, taken_count, numbered_placeholder}

abbrev pub member : Text → List Text → Bool
member x = any (λ y. text_eq y x)

remove : Text → List Text → List Text
remove x [] = []
remove x (y ∷ ys) = if text_eq y x then ys else y ∷ remove x ys

length-remove :
    (x : Text) (ys : List Text) → member x ys ≡ true → suc (length (remove x ys)) ≡ length ys
unfolding remove
length-remove x [] h = cc
length-remove x (y ∷ ys) h = ground (arith, length-remove x ys)

member-remove :
    (x z : Text) (ys : List Text) → x ≢ z → member z ys ≡ true → member z (remove x ys) ≡ true
unfolding remove
member-remove x z [] ne h = cc
member-remove x z (y ∷ ys) ne h =
    ground (arith, member-remove x z ys, text_eq_iff y x, text_eq_iff y z)

-- Among more numbers than there are taken texts, one is free.
module _ (taken : ℕ → Bool) (c : ℕ → Text) (inj : (i j : ℕ) → c i ≡ c j → i ≡ j) where
  free_index_free :
      (ts : List Text) (fuel idx : ℕ)
      → ((j : ℕ) → idx ≤ j → taken j ≡ true → member (c j) ts ≡ true)
      → length ts < fuel
      → taken (free_index taken fuel idx) ≡ false
  unfolding free_index
  free_index_free ts zero idx h k = absurd (omega arith)
  free_index_free ts (suc fuel) idx h k = elim (Bool-cases (taken idx)) [
    | inr e ↦ rw e e
    | inl e ↦
        let here = h idx (omega arith) e in
        let len = length-remove (c idx) ts here in
        rw e (
          free_index_free (remove (c idx) ts) fuel (suc idx)
            (λ j le t.
              member-remove (c idx) (c j) ts (λ same. absurd (omega (arith, inj idx j same)))
                (h j (omega arith) t))
            (omega arith))
  ]

++-cancel : (s t u : Text) → s ++ t ≡ s ++ u → t ≡ u
++-cancel [] t u e = e
++-cancel (x ∷ s) t u e = ++-cancel s t u (cc)

++-cancel_last : (s t : Text) (c : ℕ) → s ++ c ∷ [] ≡ t ++ c ∷ [] → s ≡ t
++-cancel_last [] [] c e = refl
++-cancel_last [] (y ∷ []) c e = cc
++-cancel_last [] (y ∷ z ∷ t) c e = cc
++-cancel_last (x ∷ []) [] c e = cc
++-cancel_last (x ∷ z ∷ s) [] c e = cc
++-cancel_last (x ∷ s) (y ∷ t) c e = cc (++-cancel_last s t c (cc))

pub placeholder-injective : (t : Text) (i j : ℕ) → placeholder t i ≡ placeholder t j → i ≡ j
placeholder-injective t i j e =
    decimal-injective i j
      (++-cancel_last (decimal i) (decimal j) b'>' (tails (++-cancel t _ _ (tails e))))
  where
    tails : {a b : ℕ} {s u : Text} → a ∷ s ≡ b ∷ u → s ≡ u
    tails e = cc

abbrev keys : {V : Type 0} → Dict V → List Text
keys = map (λ e. e.0)

has_key-keys : {V : Type 0} (k : Text) (d : Dict V) → has_key k d ≡ member k (keys d)
has_key-keys k [] = refl
has_key-keys k ((j, v) ∷ d) = ground (arith, has_key-keys k d)

length-keys : {V : Type 0} (d : Dict V) → length (keys d) ≡ length d
length-keys [] = refl
length-keys (e ∷ d) = ap suc (length-keys d)

-- The numbered placeholder is never one that is reserved or already issued.
pub numbered_placeholder-is_taken :
    (t : Text) (m : PiiMapping) → is_taken m (numbered_placeholder t m) ≡ false
unfolding numbered_placeholder
numbered_placeholder-is_taken t m =
    let ts = m.reserved ++ keys m.fake_to_original in
    free_index_free (λ idx. is_taken m (placeholder t idx)) (placeholder t)
      (placeholder-injective t) ts (suc (taken_count m)) (next_index m t)
      (λ j le h.
        let split =
          any-append (λ y. text_eq y (placeholder t j)) m.reserved (keys m.fake_to_original) in
        ground (arith, split, has_key-keys (placeholder t j) m.fake_to_original))
      (omega
        (arith, length-append m.reserved (keys m.fake_to_original), length-keys m.fake_to_original))
