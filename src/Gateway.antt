-- ===== src/Gateway.antt =====
-- privaite/gateway/scrub.py, what its two protocols share: a scan of a value, the gate, and a rule for
-- each field. (`protocols.py` and `restore.py` are children of this module too.)
pub mod Anthropic
pub mod Responses
pub mod Keeps
pub mod Derived
pub mod Requests
pub mod Events
pub mod Restore
pub mod Protocols
mod Tests
use priv_ai_te.Prelude.{
  Bool, true, false, not, ◌||◌, Option, none, some, List, [], ◌∷◌, null, Text, codes,
}
use priv_ai_te.Json.{
  Json, Items, Fields, boolean, number, str, arr, obj, nil, item, end, field, get_field, set_field,
  is_truthy_json, is_hashable,
}
use priv_ai_te.Mapping.{PiiMapping, empty}
use priv_ai_te.Engine.{Result, passed, blocked, unsupported, failed, PiiEngine, walk_anonymize}
use priv_ai_te.Action.{Action, pure, crash, ◌>>=◌, on_value, choose}

-- `new[k] = v`, if there is a value.
abbrev pub set_present : Text → Option Json → Fields → Fields
set_present k none new = new
set_present k (some v) new = set_field k v new

-- The test `kind in SET`, before what depends on it.
abbrev pub by_kind : {A : Type 0} → Option Json → Action A → Action A
by_kind kind act = choose (is_hashable kind) act crash

module _ {S : Type 0} (g : PiiEngine S) where
  -- `engine.scrub_document(value, mapping)`.
  unfoldable pub scrub_document : Json → Action Json
  unfolding walk_anonymize
  scrub_document = walk_anonymize g

  unfoldable pub scrub_str : Text → Action Json
  unfolding scrub_document
  scrub_str s = scrub_document (str s)

  -- The scrubbed copy and its mapping are thrown away.
  unfoldable pub discard : Result (Json × PiiMapping) → PiiMapping → Result (Unit {0} × PiiMapping)
  discard (passed r) m = passed (tt, m)
  discard (blocked ts) m = blocked ts
  discard unsupported m = unsupported
  discard failed m = failed

  unfoldable pub gate_document : Option Json → Action (Unit {0})
  unfolding scrub_document discard
  gate_document none = pure tt
  gate_document (some value) =
      choose (null g.block_entities || not (is_truthy_json value)) (pure tt)
        (λ m. discard (scrub_document value empty) m)

  -- `if item.get(k) is not None: new[k] = await f(item[k])`, for each key.
  abbrev pub unless_null : (Json → Action Json) → Fields → Text → Json → Action Fields
  unless_null f new k Json.null = pure new
  unless_null f new k j = f j >>= λ j'. pure (set_field k j' new)

  unfoldable pub at_values : List Text → (Json → Action Json) → Fields → Fields → Action Fields
  unfolding get_field set_field
  at_values [] f block new = pure new
  at_values (k ∷ ks) f block new =
      on_value (get_field k block) (unless_null f new k) (pure new) >>= λ next.
      at_values ks f block next
