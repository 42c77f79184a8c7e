-- ===== src/Prelude/Prefixes.antt =====
-- Prefixes of texts.
use Prim.Native.Nat.{ℕ, zero, suc, ◌+◌, ◌≤◌}
use mathlib.Core.Path.{◌≡◌, refl}
use mathlib.Core.Logic.{◌⊎◌, inl, inr}
use mathlib.Core.Bool.{Bool, true, false, ◌&&◌}
use mathlib.Core.List.{[], ◌∷◌, ◌++◌}
use native.Mathlib.Omega.{arith}
use priv_ai_te.Prelude.Tests.{◌==◌}
use priv_ai_te.Prelude.Lists.{length, take, drop}
use priv_ai_te.Prelude.Texts.{Text}

-- `s.startswith(p)`.
abbrev pub is_prefix : Text → Text → Bool
is_prefix [] s = true
is_prefix (c ∷ p) [] = false
is_prefix (c ∷ p) (d ∷ s) = (c == d) && is_prefix p s

pub is_prefix_refl : (p : Text) → is_prefix p p ≡ true
is_prefix_refl [] = refl
is_prefix_refl (c ∷ p) = ground (arith, is_prefix_refl p)

pub is_prefix-append : (p s : Text) → is_prefix p (p ++ s) ≡ true
is_prefix-append [] s = refl
is_prefix-append (c ∷ p) s = ground (arith, is_prefix-append p s)

-- A prefix of `s` is a prefix of what begins with `s`.
pub is_prefix-extend : (p s t : Text) → is_prefix p s ≡ true → is_prefix p (s ++ t) ≡ true
is_prefix-extend [] s t h = refl
is_prefix-extend (c ∷ p) [] t h = cc
is_prefix-extend (c ∷ p) (d ∷ s) t h = ground (arith, is_prefix-extend p s t)

pub is_prefix-drop : (p s : Text) → is_prefix p s ≡ true → p ++ drop (length p) s ≡ s
is_prefix-drop [] s h = refl
is_prefix-drop (c ∷ p) [] h = cc
is_prefix-drop (c ∷ p) (d ∷ s) h = ground (arith, is_prefix-drop p s)

pub is_prefix-length : (p s : Text) → is_prefix p s ≡ true → length p ≤ length s
is_prefix-length [] s h = omega arith
is_prefix-length (c ∷ p) [] h = cc
is_prefix-length (c ∷ p) (d ∷ s) h = ground (arith, is_prefix-length p s)

pub is_prefix-take : (p s : Text) → is_prefix p s ≡ true → take (length p) s ≡ p
is_prefix-take [] s h = refl
is_prefix-take (c ∷ p) [] h = cc
is_prefix-take (c ∷ p) (d ∷ s) h = ground (arith, is_prefix-take p s)

pub take-is_prefix : (n : ℕ) (s : Text) → is_prefix (take n s) s ≡ true
take-is_prefix zero s = refl
take-is_prefix (suc n) [] = refl
take-is_prefix (suc n) (c ∷ s) = ground (arith, take-is_prefix n s)

-- Of two prefixes of one text, one begins with the other.
pub is_prefix-total :
    (p q s : Text)
    → is_prefix p s ≡ true
    → is_prefix q s ≡ true
    → (is_prefix p q ≡ true) ⊎ (is_prefix q p ≡ true)
is_prefix-total [] q s h k = inl refl
is_prefix-total (c ∷ p) [] s h k = inr refl
is_prefix-total (c ∷ p) (d ∷ q) [] h k = inl (cc)
is_prefix-total (c ∷ p) (d ∷ q) (e ∷ s) h k = ground (arith, is_prefix-total p q s)

-- A prefix of a concatenation lies in the first part, or the first part is a prefix of it.
pub is_prefix-split :
    (p s t : Text) → is_prefix p (s ++ t) ≡ true → (is_prefix p s ≡ true) ⊎ (is_prefix s p ≡ true)
is_prefix-split p s t h = is_prefix-total p s (s ++ t) h (is_prefix-append s t)

pub drop-append : (n : ℕ) (s t : Text) → n ≤ length s → drop n (s ++ t) ≡ drop n s ++ t
drop-append zero s t h = refl
drop-append (suc n) [] t h = absurd (omega arith)
drop-append (suc n) (c ∷ s) t h = drop-append n s t (omega arith)

pub length-drop : (n : ℕ) (s : Text) → n ≤ length s → n + length (drop n s) ≡ length s
length-drop zero s h = omega arith
length-drop (suc n) [] h = absurd (omega arith)
length-drop (suc n) (c ∷ s) h = omega (arith, length-drop n s (omega arith))
