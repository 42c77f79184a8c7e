-- ===== src/Stream/Trie/Longest.antt =====
-- `_trie_lookup` of privaite/streaming/buffer.py finds the longest key that a text begins with.
use priv_ai_te.Prelude.{
  ℕ, suc, ◌+◌, ◌≤◌, ◌<◌, ◌≡◌, ◌≢◌, refl, sym, ◌∙◌, ◌⊎◌, inl, inr, true, Option, none, some, [], ◌∷◌,
  arith, Text, length, take, Option-cases,
}
use priv_ai_te.Prelude.Prefixes.{is_prefix}
use priv_ai_te.Stream.{TrieNode, value_of, children_of, get_child, lookup_loop, trie_lookup}
use priv_ai_te.Stream.Trie.{trie_get}

abbrev improve : Option Text → ℕ → Option (Text × ℕ) → Option (Text × ℕ)
improve none i best = best
improve (some v) i best = some (v, i)

module _ (t : TrieNode) (c : ℕ) where
  lookup_loop-stop :
      (s : Text) (i : ℕ) (best : Option (Text × ℕ))
      → get_child c (children_of t) ≡ none
      → lookup_loop t (c ∷ s) i best ≡ best
  unfolding lookup_loop
  lookup_loop-stop s i best e = ground arith

  lookup_loop-go :
      (s : Text) (i : ℕ) (best : Option (Text × ℕ)) (u : TrieNode)
      → get_child c (children_of t) ≡ some u
      → lookup_loop t (c ∷ s) i best ≡ lookup_loop u s (suc i) (improve (value_of u) (suc i) best)
  unfolding lookup_loop
  lookup_loop-go s i best u e = ground arith

  trie_get-stop : (k : Text) → get_child c (children_of t) ≡ none → trie_get (c ∷ k) t ≡ none
  unfolding trie_get
  trie_get-stop k e = ground arith

  trie_get-go :
      (k : Text) (u : TrieNode)
      → get_child c (children_of t) ≡ some u
      → trie_get (c ∷ k) t ≡ trie_get k u
  unfolding trie_get
  trie_get-go k u e = ground arith

trie_get-end : (t : TrieNode) → trie_get [] t ≡ value_of t
unfolding trie_get
trie_get-end t = refl

-- A prefix of length `suc n` whose value is `v`.
Hit : TrieNode → Text → ℕ → Text → Type 0
Hit t s n v = (suc n ≤ length s) × (trie_get (take (suc n) s) t ≡ some v)

improve_sound :
    (o : Option Text) (i m : ℕ) (best : Option (Text × ℕ)) (v : Text)
    → improve o i best ≡ some (v, m)
    → (best ≡ some (v, m)) ⊎ ((o ≡ some v) × (m ≡ i))
improve_sound none i m best v h = inl h
improve_sound (some w) i m best v h = inr (cc, cc)

-- What the loop returns is `best`, or the value of a prefix.
lookup_loop_sound :
    (t : TrieNode) (s : Text) (i : ℕ) (best : Option (Text × ℕ)) (v : Text) (m : ℕ)
    → lookup_loop t s i best ≡ some (v, m)
    → (best ≡ some (v, m)) ⊎ ((n : ℕ) × (m ≡ i + suc n) × Hit t s n v)
unfolding Hit
lookup_loop_sound t [] i best v m h = inl (unfold lookup_loop in h)
lookup_loop_sound t (c ∷ s) i best v m h = elim (Option-cases (get_child c (children_of t))) [
  | inl e ↦ inl (sym (lookup_loop-stop t c s i best e) ∙ h)
  | inr (u, e) ↦
      elim (lookup_loop_sound u s (suc i) (improve (value_of u) (suc i) best) v m
        (sym (lookup_loop-go t c s i best u e) ∙ h)) [
          | inl b ↦ elim (improve_sound (value_of u) (suc i) m best v b) [
            | inl old ↦ inl old
            | inr (val, len) ↦
                inr (0, omega arith, (omega arith, trie_get-go t c [] u e ∙ trie_get-end u ∙ val))
          ]
          | inr (n, len, (fits, val)) ↦
              inr (suc n, omega arith, (omega arith, trie_get-go t c (take (suc n) s) u e ∙ val))
        ]
]

heads_eq : (c d : ℕ) (p s : Text) → is_prefix (c ∷ p) (d ∷ s) ≡ true → c ≡ d
heads_eq c d p s h = ground arith

tails_prefix : (c d : ℕ) (p s : Text) → is_prefix (c ∷ p) (d ∷ s) ≡ true → is_prefix p s ≡ true
tails_prefix c d p s h = ground arith

-- A match is only given up for a longer one.
lookup_loop_grows :
    (t : TrieNode) (s : Text) (i : ℕ) (w : Text) (j : ℕ)
    → j ≤ i
    → (v : Text) × (m : ℕ) × (lookup_loop t s i (some (w, j)) ≡ some (v, m)) × (j ≤ m)
lookup_loop_grows t [] i w j h = (w, j, unfold lookup_loop in refl, omega arith)
lookup_loop_grows t (c ∷ s) i w j h = elim (Option-cases (get_child c (children_of t))) [
  | inl e ↦ (w, j, lookup_loop-stop t c s i _ e, omega arith)
  | inr (u, e) ↦ elim (Option-cases (value_of u)) [
    | inl no_value ↦
        let (v, m, r, le) = lookup_loop_grows u s (suc i) w j (omega arith) in
        (v, m, lookup_loop-go t c s i _ u e ∙ rw no_value r, le)
    | inr (x, value) ↦
        let (v, m, r, le) = lookup_loop_grows u s (suc i) x (suc i) (omega arith) in
        (v, m, lookup_loop-go t c s i _ u e ∙ rw value r, omega arith)
  ]
]

-- No prefix with a value is longer than what the loop returns, nor there when it returns nothing.
lookup_loop_longest :
    (t : TrieNode) (s : Text) (i : ℕ) (best : Option (Text × ℕ)) (p : Text) (w : Text)
    → is_prefix p s ≡ true
    → p ≢ []
    → trie_get p t ≡ some w
    → (v : Text) × (m : ℕ) × (lookup_loop t s i best ≡ some (v, m)) × (i + length p ≤ m)
lookup_loop_longest t s i best [] w h ne g = absurd (ne refl)
lookup_loop_longest t [] i best (c ∷ p) w h ne g = cc
lookup_loop_longest t (d ∷ s) i best (c ∷ []) w h ne g =
    elim (Option-cases (get_child d (children_of t))) [
      | inl e ↦ cc (trie_get-stop t d [] e, heads_eq c d [] s h)
      | inr (u, e) ↦
          let val : value_of u ≡ some w =
            cc (trie_get-go t d [] u e, heads_eq c d [] s h, trie_get-end u) in
          let (v, m, r, le) = lookup_loop_grows u s (suc i) w (suc i) (omega arith) in
          (v, m, lookup_loop-go t d s i best u e ∙ rw val r, omega arith)
    ]
lookup_loop_longest t (d ∷ s) i best (c ∷ b ∷ p) w h ne g =
    elim (Option-cases (get_child d (children_of t))) [
      | inl e ↦ cc (trie_get-stop t d (b ∷ p) e, heads_eq c d (b ∷ p) s h)
      | inr (u, e) ↦
          let got : trie_get (b ∷ p) u ≡ some w =
            cc (trie_get-go t d (b ∷ p) u e, heads_eq c d (b ∷ p) s h) in
          let (v, m, r, le) =
            lookup_loop_longest u s (suc i) (improve (value_of u) (suc i) best) (b ∷ p) w
              (tails_prefix c d (b ∷ p) s h) (λ x. cc) got in
          (v, m, lookup_loop-go t d s i best u e ∙ r, omega arith)
    ]

-- What the lookup returns is the value of a prefix that is not empty, and its length.
pub trie_lookup_sound :
    (t : TrieNode) (s v : Text) (m : ℕ)
    → trie_lookup t s ≡ some (v, m)
    → (0 < m) × (m ≤ length s) × (trie_get (take m s) t ≡ some v)
unfolding trie_lookup Hit
trie_lookup_sound t s v m h = elim (lookup_loop_sound t s 0 none v m h) [
  | inl e ↦ cc
  | inr (n, e, (fits, got)) ↦
      let e' : m ≡ suc n = omega arith in (omega arith, omega arith, rw e' got)
]

-- No prefix with a value is longer, nor is there one when the lookup finds nothing.
pub trie_lookup_longest :
    (t : TrieNode) (s p w : Text)
    → is_prefix p s ≡ true
    → p ≢ []
    → trie_get p t ≡ some w
    → (v : Text) × (m : ℕ) × (trie_lookup t s ≡ some (v, m)) × (length p ≤ m)
unfolding trie_lookup
trie_lookup_longest t s p w h ne g =
    let (v, m, r, le) = lookup_loop_longest t s 0 none p w h ne g in (v, m, r, omega arith)
