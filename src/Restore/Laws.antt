-- ===== src/Restore/Laws.antt =====
-- The pass of `_deanonymize_exact` in privaite/pii/deanonymizer.py over prefix-free placeholders.
use priv_ai_te.Prelude.{
  ℕ, zero, suc, ◌≡◌, ◌≢◌, refl, sym, ◌∙◌, ap, inl, inr, Bool, true, false, ◌&&◌, not, none, some,
  [], ◌∷◌, leb, arith, Text, text_eq, text_eq_iff, length, drop, any, null, Option-cases,
  Bool-cases,
}
use priv_ai_te.Prelude.Dicts.{Dict, Distinct, lookup}
use priv_ai_te.Prelude.Prefixes.{is_prefix, is_prefix-total}
use priv_ai_te.Entity.Coverage.{any-sorted}
use priv_ai_te.Restore.{non_empty, alternatives, match_at, substitute}

-- No key begins with another one.
pub record PrefixFree (d : Dict Text) : Type 0 where
  pub same :
      (f g o p : Text) → lookup f d ≡ some o → lookup g d ≡ some p → is_prefix f g ≡ true → f ≡ g

abbrev is_entry : Text → Text → Text × Text → Bool
is_entry f o e = text_eq e.0 f && text_eq e.1 o

any-is_entry : (f o : Text) (d : Dict Text) → lookup f d ≡ some o → any (is_entry f o) d ≡ true
any-is_entry f o [] h = cc
any-is_entry f o ((g, p) ∷ d) h = ground (arith, text_eq_iff p o, any-is_entry f o d)

lookup-is_entry :
    (f o : Text) (d : Dict Text) → Distinct d → any (is_entry f o) d ≡ true → lookup f d ≡ some o
lookup-is_entry f o [] u h = cc
lookup-is_entry f o ((g, p) ∷ d) u h =
    ground (arith, text_eq_iff p o, text_eq_iff g f, lookup-is_entry f o d u.1)

any-non_empty :
    (q : Text × Text → Bool) (d : Dict Text)
    → any q (non_empty d) ≡ any (λ e. not (null e.0) && q e) d
unfolding non_empty
any-non_empty q [] = refl
any-non_empty q ((f, o) ∷ d) = ground (arith, any-non_empty q d)

any-alternatives :
    (q : Text × Text → Bool) (d : Dict Text)
    → any q (alternatives (non_empty d)) ≡ any (λ e. not (null e.0) && q e) d
unfolding alternatives
any-alternatives q d =
    any-sorted (λ a b. leb (length b.0) (length a.0)) q (non_empty d) ∙ any-non_empty q d

match_at_sound :
    (d : Dict Text) (s f o : Text)
    → match_at d s ≡ some (f, o)
    → (is_prefix f s ≡ true) × (any (is_entry f o) d ≡ true)
unfolding match_at
match_at_sound [] s f o h = cc
match_at_sound ((g, p) ∷ d) s f o h =
    ground (arith, match_at_sound d s f o, text_eq_iff g f, text_eq_iff p o)

match_at_complete :
    (d : Dict Text) (s : Text) → match_at d s ≡ none → any (λ e. is_prefix e.0 s) d ≡ false
unfolding match_at
match_at_complete [] s h = refl
match_at_complete ((g, p) ∷ d) s h = ground (arith, match_at_complete d s)

pub any_of_lookup :
    (q : Text × Text → Bool) (f o : Text) (d : Dict Text)
    → lookup f d ≡ some o
    → q (f, o) ≡ true
    → any q d ≡ true
any_of_lookup q f o [] h k = cc
any_of_lookup q f o ((g, p) ∷ d) h k = ground (arith, text_eq_iff g f, any_of_lookup q f o d)

any-weaken :
    (a q : Text × Text → Bool) (d : Dict Text) → any (λ e. a e && q e) d ≡ true → any q d ≡ true
any-weaken a q [] h = h
any-weaken a q (e ∷ d) h = ground (arith, any-weaken a q d)

module _ (d : Dict Text) (u : Distinct d) where
  -- What is found at a position is an entry whose placeholder stands there.
  pub match_at-entry :
      (s f o : Text)
      → match_at (alternatives (non_empty d)) s ≡ some (f, o)
      → (is_prefix f s ≡ true) × (f ≢ []) × (lookup f d ≡ some o)
  match_at-entry s f o h =
      let (stands, entry) = match_at_sound (alternatives (non_empty d)) s f o h in
      let entry' = sym (any-alternatives (is_entry f o) d) ∙ entry in
      (
        stands,
        not_null f o d entry',
        lookup-is_entry f o d u (any-weaken (λ e. not (null e.0)) (is_entry f o) d entry'),
      )
    where
      not_null :
          (f o : Text) (d : Dict Text)
          → any (λ e. not (null e.0) && is_entry f o e) d ≡ true
          → f ≢ []
      not_null [] o [] h = cc
      not_null (c ∷ f) o d h = λ e. cc
      not_null [] o (([], p) ∷ d) h = not_null [] o d (ground arith)
      not_null [] o ((c ∷ g, p) ∷ d) h = not_null [] o d (ground arith)

  -- Where nothing is found, no placeholder stands.
  pub match_at-none :
      (s f o : Text)
      → match_at (alternatives (non_empty d)) s ≡ none
      → lookup f d ≡ some o
      → f ≢ []
      → is_prefix f s ≡ false
  match_at-none s f o h k ne = elim (Bool-cases (is_prefix f s)) [
    | inl e ↦ cc (
      match_at_complete (alternatives (non_empty d)) s h,
      any-alternatives (λ e. is_prefix e.0 s) d,
      any_of_lookup (λ e. not (null e.0) && is_prefix e.0 s) f o d k (both f e ne),
    )
    | inr e ↦ e
  ]
    where
      both : (f : Text) → is_prefix f s ≡ true → f ≢ [] → (not (null f) && is_prefix f s) ≡ true
      both [] e ne = absurd (ne refl)
      both (c ∷ f) e ne = e

  module _ (free : PrefixFree d) where
    -- A placeholder that stands at a position is what is found there.
    pub match_at-fake :
        (s f o : Text)
        → lookup f d ≡ some o
        → f ≢ []
        → is_prefix f s ≡ true
        → match_at (alternatives (non_empty d)) s ≡ some (f, o)
    match_at-fake s f o k ne e = elim (Option-cases (match_at (alternatives (non_empty d)) s)) [
      | inl h ↦ cc (match_at-none s f o h k ne)
      | inr ((g, p), h) ↦
          let (stands, _, entry) = match_at-entry s g p h in
          let same : f ≡ g = elim (is_prefix-total f g s e stands) [
            | inl x ↦ free.same f g o p k entry x
            | inr x ↦ sym (free.same g f p o entry k x)
          ] in
          cc (some_eq same)
    ]
      where
        some_eq : {g : Text} → f ≡ g → lookup f d ≡ lookup g d
        some_eq e = ap (λ x. lookup x d) e

-- To pass over `n` characters is to go on behind them.
pub substitute-skip :
    (alts : Dict Text) (n : ℕ) (s : Text) → substitute alts n s ≡ substitute alts 0 (drop n s)
unfolding substitute
substitute-skip alts zero s = refl
substitute-skip alts (suc n) [] = refl
substitute-skip alts (suc n) (c ∷ s) = substitute-skip alts n s
