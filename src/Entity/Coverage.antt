-- ===== src/Entity/Coverage.antt =====
-- What the merge of privaite/pii/entity.py covers.
use priv_ai_te.Prelude.{
  ℕ, ◌≤◌, ◌<◌, ◌≡◌, refl, Bool, ◌&&◌, ◌||◌, Option, List, [], ◌∷◌, ltb, leb, arith, Text, any,
}
use priv_ai_te.Entity.{
  PiiEntity, Priorities, insert_sorted, sorted, key_le, merge_pair, union_loop, merge_union,
}

-- A position lies in a span.
abbrev pub covers : {S : Type 0} → ℕ → PiiEntity S → Bool
covers x e = leb e.start x && ltb x e.end

abbrev pub covered : {S : Type 0} → ℕ → List (PiiEntity S) → Bool
covered x es = any (covers x) es

-- The starts do not decrease, from `n` on.
abbrev pub StartsFrom : {S : Type 0} → ℕ → List (PiiEntity S) → Type 0
StartsFrom n [] = Unit
StartsFrom n (e ∷ es) = (n ≤ e.start) × StartsFrom e.start es

-- Each span starts at the end of the one before it or later, the first at `n` or later.
abbrev pub EndsFrom : {S : Type 0} → ℕ → List (PiiEntity S) → Type 0
EndsFrom n [] = Unit
EndsFrom n (e ∷ es) = (n ≤ e.start) × EndsFrom e.end es

module _ {ℓ} {A : Type ℓ} (le : A → A → Bool) (p : A → Bool) where
  any-insert_sorted : (x : A) (xs : List A) → any p (insert_sorted le x xs) ≡ (p x || any p xs)
  any-insert_sorted x [] = refl
  any-insert_sorted x (y ∷ ys) = ground (arith, any-insert_sorted x ys)

  pub any-sorted : (xs : List A) → any p (sorted le xs) ≡ any p xs
  any-sorted [] = refl
  any-sorted (x ∷ xs) = ground (arith, any-insert_sorted x (sorted le xs), any-sorted xs)

module _ {S : Type 0} where
  insert_sorted-StartsFrom :
      (n : ℕ) (x : PiiEntity S) (xs : List (PiiEntity S))
      → n ≤ x.start
      → StartsFrom n xs
      → StartsFrom n (insert_sorted key_le x xs)
  insert_sorted-StartsFrom n x [] h k = (h, tt)
  insert_sorted-StartsFrom n x (y ∷ ys) h k = ground (arith, insert_sorted-StartsFrom y.start x ys)

  pub sorted-StartsFrom : (xs : List (PiiEntity S)) → StartsFrom 0 (sorted key_le xs)
  sorted-StartsFrom [] = tt
  sorted-StartsFrom (x ∷ xs) =
      insert_sorted-StartsFrom 0 x (sorted key_le xs) (omega arith) (sorted-StartsFrom xs)

module _ {S : Type 0} (score_ge : S → S → Bool) (resolution : Text) (source_text : Option Text)
    (priorities : Priorities) where
  covers-merge_pair :
      (x : ℕ) (a b : PiiEntity S)
      → a.start ≤ b.start
      → b.start < a.end
      → covers x (merge_pair score_ge resolution source_text priorities a b)
        ≡ (covers x a || covers x b)
  unfolding merge_pair
  covers-merge_pair x a b h k = ground arith

  abbrev merge : PiiEntity S → PiiEntity S → PiiEntity S
  merge = merge_pair score_ge resolution source_text priorities

  start-merge_pair : (a b : PiiEntity S) → (merge a b).start ≡ a.start
  unfolding merge_pair
  start-merge_pair a b = refl

  StartsFrom-le :
      {n : ℕ} (e : PiiEntity S) (es : List (PiiEntity S))
      → n ≤ e.start
      → StartsFrom e.start es
      → StartsFrom n es
  StartsFrom-le e [] h k = tt
  StartsFrom-le e (f ∷ es) h k = (omega arith, k.1)

  covered-union_loop :
      (x : ℕ) (last : PiiEntity S) (es : List (PiiEntity S))
      → StartsFrom last.start es
      → covered x (union_loop score_ge resolution source_text priorities last es)
        ≡ (covers x last || covered x es)
  unfolding union_loop
  covered-union_loop x last [] h = refl
  covered-union_loop x last (e ∷ es) h = ground (
    arith,
    covered-union_loop x e es,
    covered-union_loop x (merge last e) es,
    covers-merge_pair x last e,
    start-merge_pair last e,
    StartsFrom-le e es h.0 h.1,
  )

  pub covered-merge_union :
      (x : ℕ) (es : List (PiiEntity S))
      → StartsFrom 0 es
      → covered x (merge_union score_ge resolution source_text priorities es) ≡ covered x es
  unfolding merge_union
  covered-merge_union x [] h = refl
  covered-merge_union x (e ∷ es) h = covered-union_loop x e es h.1

  -- Every span that the loop emits starts where `last` does or later.
  union_loop-IsDisjoint :
      (n : ℕ) (last : PiiEntity S) (es : List (PiiEntity S))
      → n ≤ last.start
      → EndsFrom n (union_loop score_ge resolution source_text priorities last es)
  unfolding union_loop
  union_loop-IsDisjoint n last [] h = (h, tt)
  union_loop-IsDisjoint n last (e ∷ es) h = ground (
    arith,
    union_loop-IsDisjoint last.end e es,
    union_loop-IsDisjoint n (merge last e) es,
    start-merge_pair last e,
  )

  pub merge_union-IsDisjoint :
      (es : List (PiiEntity S))
      → EndsFrom 0 (merge_union score_ge resolution source_text priorities es)
  unfolding merge_union
  merge_union-IsDisjoint [] = tt
  merge_union-IsDisjoint (e ∷ es) = union_loop-IsDisjoint 0 e es (omega arith)
