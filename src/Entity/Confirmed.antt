-- ===== src/Entity/Confirmed.antt =====
-- What `_merge_intersection` of privaite/pii/entity.py confirms.
use priv_ai_te.Prelude.{
  ℕ, zero, suc, ◌≡◌, refl, ◌∙◌, Bool, true, false, ◌&&◌, ◌||◌, Option, none, some, List, [], ◌∷◌,
  ◌==◌, arith, text_eq_iff, any, any-append, drop, Bool-cases, inl, inr,
}
use priv_ai_te.Entity.{
  PiiEntity, Confirmation, partner, note_once, confirm_pair, inner_loop, outer_loop,
}

module _ {ℓ} {A : Type ℓ} where
  abbrev get_elem? : List A → ℕ → Option A
  get_elem? [] i = none
  get_elem? (x ∷ xs) zero = some x
  get_elem? (x ∷ xs) (suc i) = get_elem? xs i

  get_elem?-drop :
      (j : ℕ) (xs : List A) {x : A} {r : List A} → drop j xs ≡ x ∷ r → get_elem? xs j ≡ some x
  get_elem?-drop zero [] h = cc
  get_elem?-drop zero (y ∷ xs) h = cc
  get_elem?-drop (suc j) [] h = cc
  get_elem?-drop (suc j) (y ∷ xs) h = get_elem?-drop j xs h

  drop-suc : (j : ℕ) (xs : List A) {x : A} {r : List A} → drop j xs ≡ x ∷ r → drop (suc j) xs ≡ r
  drop-suc zero [] h = cc
  drop-suc zero (y ∷ xs) h = cc
  drop-suc (suc j) [] h = cc
  drop-suc (suc j) (y ∷ xs) h = drop-suc j xs h

module _ {S : Type 0} (entities : List (PiiEntity S)) (p : PiiEntity S → Bool) where
  -- A seen index stands for a confirmed detection.
  record SeenOk (c : Confirmation S) : Type 0 where
    at :
        (k : ℕ) (e : PiiEntity S)
        → get_elem? entities k ≡ some e
        → any (λ j. j == k) c.seen ≡ true
        → p e ≡ true
        → any p c.confirmed ≡ true

  note_once-SeenOk :
      (i : ℕ) (e : PiiEntity S) (c : Confirmation S)
      → get_elem? entities i ≡ some e
      → SeenOk c
      → SeenOk (note_once i e c)
  unfolding note_once
  note_once-SeenOk i e c h s = record {
    at = λ k f g m q. elim (Bool-cases (any (λ j. j == i) c.seen)) [
      | inl old ↦ ground (arith, s.at k f g)
      | inr new ↦ ground (arith, s.at k f g, any-append p c.confirmed (e ∷ []))
    ];
  }

  any-note_once :
      (i : ℕ) (e : PiiEntity S) (c : Confirmation S)
      → get_elem? entities i ≡ some e
      → SeenOk c
      → any p (note_once i e c).confirmed ≡ (any p c.confirmed || p e)
  unfolding note_once
  any-note_once i e c h s = ground (arith, s.at i e h, any-append p c.confirmed (e ∷ []))

  confirm_pair-SeenOk :
      (i j : ℕ) (a b : PiiEntity S) (c : Confirmation S)
      → get_elem? entities i ≡ some a
      → get_elem? entities j ≡ some b
      → SeenOk c
      → SeenOk (confirm_pair i a j b c)
  unfolding confirm_pair
  confirm_pair-SeenOk i j a b c ha hb s = record {
    at = λ k f g m q.
        let s' = note_once-SeenOk j b (note_once i a c) hb (note_once-SeenOk i a c ha s) in
        ground (arith, s.at k f g, s'.at k f g);
  }

  any-confirm_pair :
      (i j : ℕ) (a b : PiiEntity S) (c : Confirmation S)
      → get_elem? entities i ≡ some a
      → get_elem? entities j ≡ some b
      → SeenOk c
      → any p (confirm_pair i a j b c).confirmed
        ≡ (any p c.confirmed || (partner a b && (p a || p b)))
  unfolding confirm_pair
  any-confirm_pair i j a b c ha hb s = ground (
    arith,
    any-note_once i a c ha s,
    any-note_once j b (note_once i a c) hb (note_once-SeenOk i a c ha s),
  )

  -- What the rest of the inner loop adds.
  abbrev pairs_with : PiiEntity S → List (PiiEntity S) → Bool
  pairs_with a rest = any (λ b. partner a b && (p a || p b)) rest

  inner_loop_lem :
      (i : ℕ) (a : PiiEntity S) (j : ℕ) (rest : List (PiiEntity S)) (c : Confirmation S)
      → get_elem? entities i ≡ some a
      → drop j entities ≡ rest
      → SeenOk c
      → SeenOk (inner_loop i a j rest c)
        × (any p (inner_loop i a j rest c).confirmed ≡ (any p c.confirmed || pairs_with a rest))
  unfolding inner_loop
  inner_loop_lem i a j [] c ha hj s = (s, ground arith)
  inner_loop_lem i a j (b ∷ rest) c ha hj s =
      let hb = get_elem?-drop j entities hj in
      let (s', e) =
        inner_loop_lem i a (suc j) rest (confirm_pair i a j b c) ha (drop-suc j entities hj)
          (confirm_pair-SeenOk i j a b c ha hb s) in
      (s', ground (arith, e, any-confirm_pair i j a b c ha hb s))

  abbrev pairs : List (PiiEntity S) → Bool
  pairs [] = false
  pairs (a ∷ rest) = pairs_with a rest || pairs rest

  outer_loop_lem :
      (i : ℕ) (rest : List (PiiEntity S)) (c : Confirmation S)
      → drop i entities ≡ rest
      → SeenOk c
      → any p (outer_loop i rest c).confirmed ≡ (any p c.confirmed || pairs rest)
  unfolding outer_loop
  outer_loop_lem i [] c h s = ground arith
  outer_loop_lem i (a ∷ rest) c h s =
      let ha = get_elem?-drop i entities h in
      let hr = drop-suc i entities h in
      let (s', e) = inner_loop_lem i a (suc i) rest c ha hr s in
      ground (arith, e, outer_loop_lem (suc i) rest (inner_loop i a (suc i) rest c) hr s')

-- The detections that satisfy `p` and overlap one from another source.
abbrev pub confirmed_by : {S : Type 0} → (PiiEntity S → Bool) → List (PiiEntity S) → Bool
confirmed_by p es = any (λ e. p e && any (partner e) es) es

module _ {S : Type 0} (p : PiiEntity S → Bool) where
  pub partner_self : (a : PiiEntity S) → partner a a ≡ false
  partner_self a = ground (arith, text_eq_iff a.source a.source)

  partner_comm : (a b : PiiEntity S) → partner a b ≡ partner b a
  partner_comm a b = ground (arith, text_eq_iff a.source b.source, text_eq_iff b.source a.source)

  -- One more detection `a` confirms those of `xs` that are its partners.
  any-more :
      (a : PiiEntity S) (es xs : List (PiiEntity S))
      → any (λ e. p e && (partner e a || any (partner e) es)) xs
        ≡ (any (λ e. partner a e && p e) xs || any (λ e. p e && any (partner e) es) xs)
  any-more a es [] = refl
  any-more a es (x ∷ xs) = ground (arith, partner_comm a x, any-more a es xs)

  pairs_with_split :
      (es : List (PiiEntity S)) (a : PiiEntity S) (xs : List (PiiEntity S))
      → pairs_with es p a xs ≡ ((p a && any (partner a) xs) || any (λ e. partner a e && p e) xs)
  pairs_with_split es a [] = ground arith
  pairs_with_split es a (x ∷ xs) = ground (arith, pairs_with_split es a xs)

  pairs-confirmed_by : (all es : List (PiiEntity S)) → pairs all p es ≡ confirmed_by p es
  pairs-confirmed_by all [] = refl
  pairs-confirmed_by all (a ∷ es) = ground (
    arith,
    partner_self a,
    pairs_with_split all a es,
    any-more a es es,
    pairs-confirmed_by all es,
  )

  pub any-outer_loop :
      (es : List (PiiEntity S))
      → any p (outer_loop 0 es (record { seen = []; confirmed = [] })).confirmed ≡ confirmed_by p es
  any-outer_loop es =
      outer_loop_lem es p 0 es _ refl (record { at = λ k e g m q. cc }) ∙ pairs-confirmed_by es es
