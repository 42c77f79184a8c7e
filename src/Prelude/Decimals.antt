-- ===== src/Prelude/Decimals.antt =====
-- Python's `str(n)` of a natural number.
use Prim.Native.Nat.{ℕ, zero, suc, ◌+◌, ◌-◌, ◌*◌, ◌/◌, ◌%◌, ◌<◌}
use mathlib.Core.Path.{◌≡◌, refl, sym, ap, ◌∙◌}
use mathlib.Core.List.{[], ◌∷◌}
use native.Mathlib.Omega.{arith}
use priv_ai_te.Prelude.Tests.{ltb, if◌then◌else◌, Bool-cases}
use mathlib.Core.Logic.{inl, inr}
use priv_ai_te.Prelude.Lists.{All}
use priv_ai_te.Prelude.Texts.{Text}

-- The digits of `n` before `out`. There are no more than `n + 1` of them.
unfoldable pub digits : ℕ → ℕ → Text → Text
digits zero n out = out
digits (suc fuel) n out =
    let rest = digits fuel (n / 10) ((48 + n % 10) ∷ out) in
    if ltb n 10 then (48 + n) ∷ out else rest

unfoldable pub decimal : ℕ → Text
unfolding digits
decimal n = digits (suc n) n []

-- The number that digits spell behind `n`.
abbrev value : ℕ → Text → ℕ
value n [] = n
value n (c ∷ s) = value (n * 10 + (c - 48)) s

value-digits : (fuel n : ℕ) (out : Text) → n < fuel → value 0 (digits fuel n out) ≡ value n out
unfolding digits
value-digits zero n out h = absurd (omega arith)
value-digits (suc fuel) n out h = elim (Bool-cases (ltb n 10)) [
  | inl e ↦ let d : 0 * 10 + (48 + n - 48) ≡ n = omega arith in rw e (ap (λ k. value k out) d)
  | inr e ↦
      let d : n / 10 * 10 + (48 + n % 10 - 48) ≡ n = omega arith in
      rw e
        (value-digits fuel (n / 10) ((48 + n % 10) ∷ out) (ground arith) ∙ ap (λ k. value k out) d)
]

-- Two numbers that are written alike are one.
pub decimal-injective : (m n : ℕ) → decimal m ≡ decimal n → m ≡ n
unfolding decimal
decimal-injective m n e =
    sym (value-digits (suc m) m [] (omega arith))
    ∙ ap (value 0) e
    ∙ value-digits (suc n) n [] (omega arith)

-- Written as `48 + k`, a digit is one for `k < 10`.
abbrev pub IsDigit : ℕ → Type 0
IsDigit c = (k : ℕ) × (c ≡ 48 + k) × (k < 10)

digits-IsDigit : (fuel n : ℕ) (out : Text) → All IsDigit out → All IsDigit (digits fuel n out)
unfolding digits
digits-IsDigit zero n out h = h
digits-IsDigit (suc fuel) n out h = elim (Bool-cases (ltb n 10)) [
  | inl e ↦ rw e ((n, refl, ground arith), h)
  | inr e ↦
      rw e (digits-IsDigit fuel (n / 10) ((48 + n % 10) ∷ out) ((n % 10, refl, omega arith), h))
]

pub decimal-IsDigit : (n : ℕ) → All IsDigit (decimal n)
unfolding decimal
decimal-IsDigit n = digits-IsDigit (suc n) n [] tt

digits-cons : (fuel n c : ℕ) (s : Text) → (d : ℕ) × (t : Text) × (digits fuel n (c ∷ s) ≡ d ∷ t)
unfolding digits
digits-cons zero n c s = (c, s, refl)
digits-cons (suc fuel) n c s = elim (Bool-cases (ltb n 10)) [
  | inl e ↦ (48 + n, c ∷ s, rw e refl)
  | inr e ↦ let (d, t, r) = digits-cons fuel (n / 10) (48 + n % 10) (c ∷ s) in (d, t, rw e r)
]

-- There is a digit.
pub decimal-cons : (n : ℕ) → (c : ℕ) × (s : Text) × (decimal n ≡ c ∷ s)
unfolding decimal digits
decimal-cons n = elim (Bool-cases (ltb n 10)) [
  | inl e ↦ (48 + n, [], rw e refl)
  | inr e ↦ let (d, t, r) = digits-cons n (n / 10) (48 + n % 10) [] in (d, t, rw e r)
]
