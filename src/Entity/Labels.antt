-- ===== src/Entity/Labels.antt =====
-- Which label and text a merged span of privaite/pii/entity.py gets.
use priv_ai_te.Prelude.{
  ℕ, ◌≤◌, ◌≡◌, refl, Bool, true, ◌&&◌, ◌||◌, Option, none, some, List, [], ◌∷◌, leb, arith, Text,
  text_eq_iff, any, max, slice, All,
}
use priv_ai_te.Entity.{
  PiiEntity, Priorities, priority, by_score, by_resolution, resolve_overlap, winner_of, merged_text,
  merge_pair, union_loop, merge_union,
}
use priv_ai_te.Entity.Coverage.{StartsFrom}

-- `o` spans all of `e`, under a type of the same priority or a higher one.
abbrev pub outranks : {S : Type 0} → Priorities → PiiEntity S → PiiEntity S → Bool
outranks pr e o =
    leb o.start e.start
    && leb e.end o.end
    && leb (priority pr e.entity_type) (priority pr o.entity_type)

module _ {S : Type 0} (ge : S → S → Bool) (res : Text) where
  by_score-either :
      (q : PiiEntity S → Bool) (a b : PiiEntity S)
      → (q a && q b) ≡ true
      → q (by_score ge a b) ≡ true
  unfolding by_score
  by_score-either q a b h = ground arith

  by_resolution-either :
      (q : PiiEntity S → Bool) (a b : PiiEntity S)
      → (q a && q b) ≡ true
      → q (by_resolution ge a b res) ≡ true
  unfolding by_resolution
  by_resolution-either q a b h = ground arith

  resolve_overlap-priority :
      (pr : Priorities) (a b : PiiEntity S)
      → (priority pr a.entity_type ≤ priority pr (resolve_overlap ge a b res pr).entity_type)
        × (priority pr b.entity_type ≤ priority pr (resolve_overlap ge a b res pr).entity_type)
  unfolding resolve_overlap
  resolve_overlap-priority none a b = (omega arith, omega arith)
  resolve_overlap-priority (some []) a b = (omega arith, omega arith)
  resolve_overlap-priority (some (x ∷ d)) a b =
      let rank = λ (e : PiiEntity S). priority (some (x ∷ d)) e.entity_type in
      ground (arith, by_resolution-either (λ e. leb (rank a) (rank e) && leb (rank b) (rank e)) a b)

  winner_of-priority :
      (pr : Priorities) (a b : PiiEntity S)
      → (priority pr a.entity_type ≤ priority pr (winner_of ge res pr a b).entity_type)
        × (priority pr b.entity_type ≤ priority pr (winner_of ge res pr a b).entity_type)
  unfolding winner_of by_score
  winner_of-priority pr a b =
      ground (arith, text_eq_iff b.entity_type a.entity_type, resolve_overlap-priority pr a b)

module _ {S : Type 0} (ge : S → S → Bool) (res : Text) (source_text : Option Text)
    (pr : Priorities) where
  abbrev merge : PiiEntity S → PiiEntity S → PiiEntity S
  merge = merge_pair ge res source_text pr

  outranks-merge :
      (e a b : PiiEntity S)
      → a.start ≤ b.start
      → (outranks pr e a || outranks pr e b) ≡ true
      → outranks pr e (merge a b) ≡ true
  unfolding merge_pair
  outranks-merge e a b h k = ground (arith, winner_of-priority ge res pr a b)

  start-merge : (a b : PiiEntity S) → (merge a b).start ≡ a.start
  unfolding merge_pair
  start-merge a b = refl

  StartsFrom-le :
      {n : ℕ} (e : PiiEntity S) (es : List (PiiEntity S))
      → n ≤ e.start
      → StartsFrom e.start es
      → StartsFrom n es
  StartsFrom-le e [] h k = tt
  StartsFrom-le e (f ∷ es) h k = (omega arith, k.1)

  -- What `last` outranks stays outranked to the end of the loop.
  union_loop-keeps :
      (e last : PiiEntity S) (es : List (PiiEntity S))
      → StartsFrom last.start es
      → outranks pr e last ≡ true
      → any (outranks pr e) (union_loop ge res source_text pr last es) ≡ true
  unfolding union_loop
  union_loop-keeps e last [] s h = ground arith
  union_loop-keeps e last (f ∷ es) s h = ground (
    arith,
    union_loop-keeps e (merge last f) es,
    outranks-merge e last f,
    start-merge last f,
    StartsFrom-le f es s.0 s.1,
  )

  outranks_self : (e : PiiEntity S) → outranks pr e e ≡ true
  outranks_self e = ground arith

  union_loop-outranks :
      (e last : PiiEntity S) (es : List (PiiEntity S))
      → StartsFrom last.start es
      → any (outranks pr e) es ≡ true
      → any (outranks pr e) (union_loop ge res source_text pr last es) ≡ true
  unfolding union_loop
  union_loop-outranks e last [] s h = cc
  union_loop-outranks e last (f ∷ es) s h = ground (
    arith,
    union_loop-outranks e (merge last f) es,
    union_loop-outranks e f es,
    union_loop-keeps e f es s.1,
    union_loop-keeps e (merge last f) es,
    outranks-merge e last f,
    start-merge last f,
    StartsFrom-le f es s.0 s.1,
  )

  pub merge_union-outranks :
      (e : PiiEntity S) (es : List (PiiEntity S))
      → StartsFrom 0 es
      → any (outranks pr e) es ≡ true
      → any (outranks pr e) (merge_union ge res source_text pr es) ≡ true
  unfolding merge_union
  merge_union-outranks e [] s h = cc
  merge_union-outranks e (f ∷ es) s h =
      ground (arith, union_loop-keeps e f es s.1, union_loop-outranks e f es s.1)

-- The detection's text is what stands at its offsets.
abbrev pub IsFaithful : {S : Type 0} → Text → PiiEntity S → Type 0
IsFaithful t e = e.text ≡ slice t e.start e.end

module _ {S : Type 0} (ge : S → S → Bool) (res : Text) (t : Text) (pr : Priorities) where
  merged_text_lem :
      (w a b : PiiEntity S) (i j : ℕ)
      → IsFaithful t w
      → merged_text ge (some t) w a b i j ≡ slice t i j
  unfolding merged_text
  merged_text_lem w a b i j h = ground arith

  winner_of-IsFaithful :
      (a b : PiiEntity S) → IsFaithful t a → IsFaithful t b → IsFaithful t (winner_of ge res pr a b)
  unfolding winner_of by_score resolve_overlap by_resolution
  winner_of-IsFaithful a b ha hb = ground arith

  merge_pair-IsFaithful :
      (a b : PiiEntity S)
      → IsFaithful t a
      → IsFaithful t b
      → IsFaithful t (merge_pair ge res (some t) pr a b)
  unfolding merge_pair
  merge_pair-IsFaithful a b ha hb =
      merged_text_lem (winner_of ge res pr a b) a b a.start (max a.end b.end)
        (winner_of-IsFaithful a b ha hb)

  union_loop-IsFaithful :
      (last : PiiEntity S) (es : List (PiiEntity S))
      → IsFaithful t last
      → All (IsFaithful t) es
      → All (IsFaithful t) (union_loop ge res (some t) pr last es)
  unfolding union_loop
  union_loop-IsFaithful last [] h k = (h, tt)
  union_loop-IsFaithful last (e ∷ es) h k = ground (
    arith,
    union_loop-IsFaithful e es k.0 k.1,
    union_loop-IsFaithful (merge_pair ge res (some t) pr last e) es
        (merge_pair-IsFaithful last e h k.0) k.1,
  )

  pub merge_union-IsFaithful :
      (es : List (PiiEntity S))
      → All (IsFaithful t) es
      → All (IsFaithful t) (merge_union ge res (some t) pr es)
  unfolding merge_union
  merge_union-IsFaithful [] h = tt
  merge_union-IsFaithful (e ∷ es) h = union_loop-IsFaithful e es h.0 h.1
