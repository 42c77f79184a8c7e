-- ===== src/Restore/Markers.antt =====
-- Placeholders in angle brackets: what the method "placeholder" of privaite/pii/anonymizer.py
-- issues. No such text begins with, or lies inside, another one.
use priv_ai_te.Prelude.{
  ℕ, ◌≡◌, refl, Bool, true, false, ◌&&◌, not, none, some, [], ◌∷◌, ◌==◌, if◌then◌else◌, arith, Text,
  text_eq_iff, any, null, All, Option-cases, inl, inr,
}
use priv_ai_te.Prelude.Dicts.{Dict, Distinct, lookup}
use priv_ai_te.Prelude.Prefixes.{is_prefix}
use priv_ai_te.Restore.{non_empty, alternatives, match_at, substitute}
use priv_ai_te.Restore.Laws.{PrefixFree, match_at-entry}

-- Characters that are no bracket, then a closing bracket at the end.
abbrev pub is_body : Text → Bool
is_body [] = false
is_body (c ∷ t) = if c == b'>' then null t else not (c == b'<') && is_body t

abbrev pub is_marker : Text → Bool
is_marker [] = false
is_marker (c ∷ t) = (c == b'<') && is_body t

abbrev pub AllMarkers : Dict Text → Type 0
AllMarkers = All (λ e. is_marker e.0 ≡ true)

abbrev pub has_open : Text → Bool
has_open = any (λ c. c == b'<')

pub is_marker-lookup :
    (f o : Text) (d : Dict Text) → AllMarkers d → lookup f d ≡ some o → is_marker f ≡ true
is_marker-lookup f o [] m h = cc
is_marker-lookup f o ((g, p) ∷ d) m h = ground (arith, text_eq_iff g f, is_marker-lookup f o d m.1)

is_body-prefix : (s t : Text) → is_body s ≡ true → is_body t ≡ true → is_prefix s t ≡ true → s ≡ t
is_body-prefix [] t hs ht h = cc
is_body-prefix (c ∷ s) [] hs ht h = cc
is_body-prefix (c ∷ []) (d ∷ []) hs ht h = ground arith
is_body-prefix (c ∷ []) (d ∷ e ∷ t) hs ht h = ground arith
is_body-prefix (c ∷ b ∷ s) (d ∷ t) hs ht h = ground (arith, is_body-prefix (b ∷ s) t)

is_marker-prefix :
    (f g : Text) → is_marker f ≡ true → is_marker g ≡ true → is_prefix f g ≡ true → f ≡ g
is_marker-prefix [] g hf hg h = cc
is_marker-prefix (c ∷ f) [] hf hg h = cc
is_marker-prefix (c ∷ f) (d ∷ g) hf hg h = ground (arith, is_body-prefix f g)

pub AllMarkers-PrefixFree : (d : Dict Text) → AllMarkers d → PrefixFree d
AllMarkers-PrefixFree d m = record {
  same = λ f g o p k l e.
      is_marker-prefix f g (is_marker-lookup f o d m k) (is_marker-lookup g p d m l) e;
}

-- A prefix of a body has no opening bracket.
pub has_open-prefix : (s t : Text) → is_body t ≡ true → is_prefix s t ≡ true → has_open s ≡ false
has_open-prefix [] t ht h = refl
has_open-prefix (c ∷ s) [] ht h = cc
has_open-prefix (c ∷ []) (d ∷ t) ht h = ground arith
has_open-prefix (c ∷ e ∷ s) (d ∷ []) ht h = ground arith
has_open-prefix (c ∷ e ∷ s) (d ∷ b ∷ t) ht h = ground (arith, has_open-prefix (e ∷ s) (b ∷ t))

module _ (d : Dict Text) (u : Distinct d) (m : AllMarkers d) where
  -- No placeholder stands where there is no opening bracket.
  match_at-no_open :
      (c : ℕ) (s : Text)
      → (c == b'<') ≡ false
      → match_at (alternatives (non_empty d)) (c ∷ s) ≡ none
  match_at-no_open c s h = elim (Option-cases (match_at (alternatives (non_empty d)) (c ∷ s))) [
    | inl e ↦ e
    | inr ((f, o), e) ↦
        let (stands, _, entry) = match_at-entry d u (c ∷ s) f o e in
        absurd (clash f c s h stands (is_marker-lookup f o d m entry))
  ]
    where
      clash :
          (f : Text) (c : ℕ) (s : Text)
          → (c == b'<') ≡ false
          → is_prefix f (c ∷ s) ≡ true
          → is_marker f ≡ true
          → ⊥
      clash [] c s h k l = cc
      clash (x ∷ f) c s h k l = ground arith

  -- Text with no opening bracket is left as it is.
  pub substitute-no_open :
      (s : Text) → has_open s ≡ false → substitute (alternatives (non_empty d)) 0 s ≡ s
  unfolding substitute
  substitute-no_open [] h = refl
  substitute-no_open (c ∷ s) h = ground (arith, match_at-no_open c s, substitute-no_open s)
