-- ===== src/Entity/Merge.antt =====
-- What `merge_entities` of privaite/pii/entity.py guarantees.
use mathlib.Core.Path.{fun_ext}
use priv_ai_te.Prelude.{
  ℕ, ◌≡◌, refl, ap, ◌∙◌, Bool, if◌then◌else◌, true, false, ◌&&◌, Option, some, List, [], ◌∷◌, arith,
  Text, codes, text_eq, any, null, All, Bool-cases, inl, inr,
}
use priv_ai_te.Entity.{
  PiiEntity, Priorities, partner, key_le, insert_sorted, sorted, outer_loop, merge_union,
  merge_intersection, merge_entities,
}
use priv_ai_te.Entity.Coverage.{
  covers, covered, EndsFrom, any-sorted, sorted-StartsFrom, covered-merge_union,
  merge_union-IsDisjoint,
}
use priv_ai_te.Entity.Confirmed.{confirmed_by, partner_self, any-outer_loop}
use priv_ai_te.Entity.Labels.{outranks, IsFaithful, merge_union-outranks, merge_union-IsFaithful}

module _ {ℓ κ} {A : Type ℓ} (le : A → A → Bool) (P : A → Type κ) where
  All-insert_sorted : (x : A) (xs : List A) → P x → All P xs → All P (insert_sorted le x xs)
  All-insert_sorted x [] h k = (h, tt)
  All-insert_sorted x (y ∷ ys) h k = elim (Bool-cases (le x y)) [
    | inl e ↦ rw e (h, k)
    | inr e ↦ rw e (k.0, All-insert_sorted x ys h k.1)
  ]

  All-sorted : (xs : List A) → All P xs → All P (sorted le xs)
  All-sorted [] h = tt
  All-sorted (x ∷ xs) h = All-insert_sorted x (sorted le xs) h.0 (All-sorted xs h.1)

module _ {ℓ} {A : Type ℓ} (r : A → A → Bool) (self : (x : A) → r x x ≡ true) where
  All-any :
      (xs ys : List A)
      → ((x : A) → any (r x) xs ≡ true → any (r x) ys ≡ true)
      → All (λ x. any (r x) ys ≡ true) xs
  All-any [] ys h = tt
  All-any (x ∷ xs) ys h = (h x (ground (arith, self x)), All-any xs ys (λ y k. h y (ground arith)))

module _ {S : Type 0} (ge : S → S → Bool) where
  -- A loop that confirms nothing adds nothing to the merge.
  covered_unless_null :
      (x : ℕ) (res : Text) (t : Option Text) (pr : Priorities) (xs : List (PiiEntity S))
      → covered x (if null xs then [] else merge_union ge res t pr (sorted key_le xs))
        ≡ covered x xs
  covered_unless_null x res t pr [] = refl
  covered_unless_null x res t pr (e ∷ es) =
      covered-merge_union ge res t pr x (sorted key_le (e ∷ es)) (sorted-StartsFrom (e ∷ es))
      ∙ any-sorted key_le (covers x) (e ∷ es)

  covered-merge_intersection :
      (x : ℕ) (t : Option Text) (pr : Priorities) (es : List (PiiEntity S))
      → covered x (merge_intersection ge t pr es) ≡ confirmed_by (covers x) es
  unfolding merge_intersection
  covered-merge_intersection x t pr [] = refl
  covered-merge_intersection x t pr (e ∷ []) = ground (arith, partner_self (covers x) e)
  covered-merge_intersection x t pr (e ∷ f ∷ es) =
      let c = (outer_loop 0 (e ∷ f ∷ es) (record { seen = []; confirmed = [] })).confirmed in
      ground (
        arith,
        covered_unless_null x (codes "highest_score") t pr c,
        any-outer_loop (covers x) (e ∷ f ∷ es),
      )

  confirmed_by-sorted :
      (p : PiiEntity S → Bool) (es : List (PiiEntity S))
      → confirmed_by p (sorted key_le es) ≡ confirmed_by p es
  confirmed_by-sorted p es =
      any-sorted key_le (λ e. p e && any (partner e) (sorted key_le es)) es
      ∙ ap (λ (q : PiiEntity S → Bool). any (λ e. p e && q e) es)
          (fun_ext (λ e. any-sorted key_le (partner e) es))

  merge_intersection-EndsFrom :
      (t : Option Text) (pr : Priorities) (es : List (PiiEntity S))
      → EndsFrom 0 (merge_intersection ge t pr es)
  unfolding merge_intersection
  merge_intersection-EndsFrom t pr es =
      let c = (outer_loop 0 es (record { seen = []; confirmed = [] })).confirmed in
      ground (arith, merge_union-IsDisjoint ge (codes "highest_score") t pr (sorted key_le c))

  -- Under any strategy but "intersection" (so under "union"), the merged spans cover exactly the
  -- positions that the detections cover.
  pub covered-merge_entities :
      (x : ℕ) (es : List (PiiEntity S)) (strategy res : Text) (t : Option Text) (pr : Priorities)
      → text_eq strategy (codes "intersection") ≡ false
      → covered x (merge_entities ge es strategy res t pr) ≡ covered x es
  unfolding merge_entities
  covered-merge_entities x [] strategy res t pr h = refl
  covered-merge_entities x (e ∷ es) strategy res t pr h = rw h (
      covered-merge_union ge res t pr x (sorted key_le (e ∷ es)) (sorted-StartsFrom (e ∷ es))
      ∙ any-sorted key_le (covers x) (e ∷ es))

  -- Under "intersection", the merged spans cover exactly the positions of the detections that
  -- overlap one from another source.
  pub covered-merge_entities_intersection :
      (x : ℕ) (es : List (PiiEntity S)) (res : Text) (t : Option Text) (pr : Priorities)
      → covered x (merge_entities ge es (codes "intersection") res t pr)
        ≡ confirmed_by (covers x) es
  unfolding merge_entities
  covered-merge_entities_intersection x [] res t pr = refl
  covered-merge_entities_intersection x (e ∷ es) res t pr =
      covered-merge_intersection x t pr (sorted key_le (e ∷ es))
      ∙ confirmed_by-sorted (covers x) (e ∷ es)

  -- Whatever the strategy, each merged span ends before the next one starts.
  pub merge_entities-EndsFrom :
      (es : List (PiiEntity S)) (strategy res : Text) (t : Option Text) (pr : Priorities)
      → EndsFrom 0 (merge_entities ge es strategy res t pr)
  unfolding merge_entities
  merge_entities-EndsFrom es strategy res t pr = ground (
    arith,
    merge_intersection-EndsFrom t pr (sorted key_le es),
    merge_union-IsDisjoint ge res t pr (sorted key_le es),
  )

  -- Under any strategy but "intersection", each detection lies whole in a merged span whose type
  -- has the same priority or a higher one.
  pub merge_entities-outranks :
      (es : List (PiiEntity S)) (strategy res : Text) (t : Option Text) (pr : Priorities)
      → text_eq strategy (codes "intersection") ≡ false
      → All (λ e. any (outranks pr e) (merge_entities ge es strategy res t pr) ≡ true) es
  unfolding merge_entities
  merge_entities-outranks [] strategy res t pr h = tt
  merge_entities-outranks (e ∷ es) strategy res t pr h =
      All-any (outranks pr) (λ x. ground arith) (e ∷ es) _
        λ x k. rw h (
          merge_union-outranks ge res t pr x (sorted key_le (e ∷ es)) (sorted-StartsFrom (e ∷ es))
            (any-sorted key_le (outranks pr x) (e ∷ es) ∙ k))

  -- With the source text given, and each detection's text being what stands at its offsets, the
  -- merged spans have the text at theirs. Holds under any strategy but "intersection".
  pub merge_entities-IsFaithful :
      (es : List (PiiEntity S)) (strategy res t : Text) (pr : Priorities)
      → text_eq strategy (codes "intersection") ≡ false
      → All (IsFaithful t) es
      → All (IsFaithful t) (merge_entities ge es strategy res (some t) pr)
  unfolding merge_entities
  merge_entities-IsFaithful [] strategy res t pr h k = tt
  merge_entities-IsFaithful (e ∷ es) strategy res t pr h k = rw h (
      merge_union-IsFaithful ge res t pr (sorted key_le (e ∷ es))
        (All-sorted key_le (IsFaithful t) (e ∷ es) k))
