-- ===== src/Gateway/Restore/Depth.antt =====
-- privaite/gateway/restore.py: the texts under `arguments`, parsed in their turn, come to an end.
use priv_ai_te.Prelude.{
  ℕ, zero, suc, ◌≤◌, ◌<◌, ◌≡◌, refl, sym, ap, max, Bool, true, false, some, List, [], if◌then◌else◌,
  arith, Text, codes, text_eq, text_eq_iff, length, Bool-cases, Option-cases, inl, inr,
}
use priv_ai_te.Json.{
  Json, Items, Fields, boolean, number, str, arr, obj, nil, item, end, field, get_field, text_in,
}
use priv_ai_te.Mapping.{PiiMapping}
use priv_ai_te.Messages.{JsonText}
use priv_ai_te.Gateway.Restore.{
  restored, unless_same, at_arguments, restore_leaves, restore_leaves_items, restore_leaves_fields,
  restore_json_arguments, restore_tree,
}

-- The length of the longest text that is a value in a document.
unfoldable mutual
  pub longest : Json → ℕ
  longest (str s) = length s
  longest (arr items) = longest_items items
  longest (obj fields) = longest_fields fields
  longest (number n) = 0
  longest (boolean b) = 0
  longest Json.null = 0

  pub longest_items : Items → ℕ
  longest_items nil = 0
  longest_items (item j items) = max (longest j) (longest_items items)

  pub longest_fields : Fields → ℕ
  longest_fields end = 0
  longest_fields (field k j fields) = max (longest j) (longest_fields fields)

module _ (json : JsonText) (enabled : Bool) (m : PiiMapping) where
  at_arguments-same :
      (b : Bool) (f g : Text → Json) (n : ℕ) (j walked : Json)
      → ((t : Text) → length t ≤ n → f t ≡ g t)
      → longest j ≤ n
      → at_arguments json enabled m b f j walked ≡ at_arguments json enabled m b g j walked
  unfolding longest
  at_arguments-same false f g n j walked h le = refl
  at_arguments-same true f g n (str s) walked h le = h s le
  at_arguments-same true f g n (arr items) walked h le = refl
  at_arguments-same true f g n (obj fields) walked h le = refl
  at_arguments-same true f g n (number t) walked h le = refl
  at_arguments-same true f g n (boolean b) walked h le = refl
  at_arguments-same true f g n Json.null walked h le = refl

  module _ (f g : Text → Json) (n : ℕ) (h : (t : Text) → length t ≤ n → f t ≡ g t) where
    mutual
      unfolding restore_leaves longest

      leaves-same :
          (skip : List Text) (j : Json)
          → longest j ≤ n
          → restore_leaves json enabled m f skip j ≡ restore_leaves json enabled m g skip j
      leaves-same skip (obj fields) le =
          ap
            (λ (x : Fields).
              if text_in (get_field (codes "type") fields) skip then obj fields else obj x)
            (fields-same skip fields le)
      leaves-same skip (arr items) le = ap arr (items-same skip items le)
      leaves-same skip (str s) le = refl
      leaves-same skip (number t) le = refl
      leaves-same skip (boolean b) le = refl
      leaves-same skip Json.null le = refl

      items-same :
          (skip : List Text) (items : Items)
          → longest_items items ≤ n
          → restore_leaves_items json enabled m f skip items
            ≡ restore_leaves_items json enabled m g skip items
      items-same skip nil le = refl
      items-same skip (item j items) le =
          rw (leaves-same skip j (omega arith), items-same skip items (omega arith)) refl

      fields-same :
          (skip : List Text) (fields : Fields)
          → longest_fields fields ≤ n
          → restore_leaves_fields json enabled m f skip fields
            ≡ restore_leaves_fields json enabled m g skip fields
      fields-same skip end le = refl
      fields-same skip (field k j fields) le =
          rw (leaves-same skip j (omega arith), fields-same skip fields (omega arith))
            (ap (λ (x : Json). field k x (restore_leaves_fields json enabled m g skip fields))
              (at_arguments-same (text_eq k (codes "arguments")) f g n j
                (restore_leaves json enabled m g skip j) h (omega arith)))

  unless_same-itself : (s : Text) (j : Json) → unless_same json enabled m s j j ≡ j
  unless_same-itself s (str t) = elim (Bool-cases (text_eq t s)) [
    | inl e ↦ rw e (ap str (sym ((text_eq_iff t s).0 e)))
    | inr e ↦ rw e refl
  ]
  unless_same-itself s (arr items) = refl
  unless_same-itself s (obj fields) = refl
  unless_same-itself s (number t) = refl
  unless_same-itself s (boolean b) = refl
  unless_same-itself s Json.null = refl

  module _ (shrinks : (s : Text) (j : Json) → json.loads s ≡ some j → longest j < length s) where
    arguments-fuel :
        (n k : ℕ) (s : Text)
        → length s ≤ n
        → n ≤ k
        → restore_json_arguments json enabled m n s ≡ restore_json_arguments json enabled m k s
    unfolding restore_json_arguments
    arguments-fuel zero zero s le more = refl
    arguments-fuel (suc n) zero s le more = absurd (omega arith)
    arguments-fuel zero (suc k) s le more = elim (Option-cases (json.loads s)) [
      | inl e ↦ rw e (sym (unless_same-itself s (restored json enabled m s)))
      | inr (j, e) ↦ let p = shrinks s j e in absurd (omega arith)
    ]
    arguments-fuel (suc n) (suc k) s le more = elim (Option-cases (json.loads s)) [
      | inl e ↦ rw e refl
      | inr (j, e) ↦
          let p = shrinks s j e in
          rw
            (
              e,
              leaves-same (restore_json_arguments json enabled m n)
                  (restore_json_arguments json enabled m k) n
                  (λ t fits. arguments-fuel n k t fits (omega arith)) [] j (omega arith),
            )
            refl
    ]

    -- If every text in what JSON source parses to is shorter than the source, then as much fuel as the
    -- longest text of a document has characters is enough to restore the document: more changes nothing.
    pub restore_tree-longest :
        (n k : ℕ) (skip : List Text) (j : Json)
        → longest j ≤ n
        → n ≤ k
        → restore_tree json enabled m n skip j ≡ restore_tree json enabled m k skip j
    unfolding restore_tree
    restore_tree-longest n k skip j fits more =
        leaves-same (restore_json_arguments json enabled m n)
          (restore_json_arguments json enabled m k) n (λ t le. arguments-fuel n k t le more) skip j
          fits
