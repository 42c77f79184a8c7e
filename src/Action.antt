-- ===== src/Action.antt =====
-- What the scrubbing functions of privaite/pii/engine.py and privaite/gateway/scrub.py share: they
-- change the mapping of the request, and may reject the request.
pub mod Keeps
pub mod Passed
pub mod Makes
pub mod Derived
use priv_ai_te.Prelude.{
  ℕ, Bool, true, false, Option, none, some, List, [], ◌∷◌, if◌then◌else◌, Text,
}
use priv_ai_te.Json.{
  Json, Items, Fields, boolean, number, str, arr, obj, nil, item, end, field, get_field, set_field,
}
use priv_ai_te.Mapping.{PiiMapping}
use priv_ai_te.Engine.{Result, passed, blocked, unsupported, failed}

abbrev pub Action : Type 0 → Type 0
Action A = PiiMapping → Result (A × PiiMapping)

module _ {A : Type 0} where
  abbrev pub pure : A → Action A
  pure a m = passed (a, m)

  -- `raise UnsupportedContentError`.
  abbrev pub reject : Action A
  reject m = unsupported

  -- Any other exception.
  abbrev pub crash : Action A
  crash m = failed

infixl 5 ◌>>=◌
abbrev pub ◌>>=◌ : {A B : Type 0} → Action A → (A → Action B) → Action B
◌>>=◌ act f m = elim (act m) [
  | passed r ↦ f r.0 r.1
  | blocked ts ↦ blocked ts
  | unsupported ↦ unsupported
  | failed ↦ failed
]

module _ {A : Type 0} where
  -- By what a value is: a string, or a list, or an object, or something else or nothing.
  abbrev pub on_text : Option Json → (Text → Action A) → Action A → Action A
  on_text (some (str s)) f otherwise = f s
  on_text _ f otherwise = otherwise

  abbrev pub on_fields : Option Json → (Fields → Action A) → Action A → Action A
  on_fields (some (obj fields)) f otherwise = f fields
  on_fields _ f otherwise = otherwise

  abbrev pub on_value : Option Json → (Json → Action A) → Action A → Action A
  on_value (some j) f otherwise = f j
  on_value none f otherwise = otherwise

  abbrev pub choose : Bool → Action A → Action A → Action A
  choose true a b = a
  choose false a b = b

-- `[await f(x) for x in items]`, where `f` does not call the caller.
unfoldable pub each_item : (Json → Action Json) → Items → Action Items
each_item f nil = pure nil
each_item f (item j items) = f j >>= λ j'. (each_item f items >>= λ items'. pure (item j' items'))

-- `{k: await f(v) for k, v in fields.items()}`.
unfoldable pub each_field : (Json → Action Json) → Fields → Action Fields
each_field f end = pure end
each_field f (field k j fields) =
    f j >>= λ j'. (each_field f fields >>= λ fields'. pure (field k j' fields'))

-- `if isinstance(block.get(k), str): new[k] = await f(block[k])`.
unfoldable pub at_text : Text → (Text → Action Json) → Fields → Fields → Action Fields
unfolding get_field set_field
at_text k f block new =
    on_text (get_field k block) (λ s. f s >>= λ j. pure (set_field k j new)) (pure new)

-- The same for a list of keys, in its order.
unfoldable pub at_texts : List Text → (Text → Action Json) → Fields → Fields → Action Fields
unfolding at_text
at_texts [] f block new = pure new
at_texts (k ∷ ks) f block new = at_text k f block new >>= λ next. at_texts ks f block next
