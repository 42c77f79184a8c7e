-- ===== src/Action/Keeps.antt =====
-- Invariants of the mapping through a chain of actions.
use priv_ai_te.Prelude.{Bool, true, false, Option, none, some, List, [], ◌∷◌, Text}
use priv_ai_te.Json.{
  Json, Items, Fields, boolean, number, str, arr, obj, nil, item, end, field, get_field, set_field,
}
use priv_ai_te.Mapping.{PiiMapping}
use priv_ai_te.Engine.{Result, passed, blocked, unsupported, failed}
use priv_ai_te.Action.{
  Action, pure, reject, crash, ◌>>=◌, on_text, on_fields, on_value, choose, each_item, each_field,
  at_text, at_texts,
}

module _ (P : PiiMapping → Type 0) where
  -- A result that passed leaves a mapping with the predicate.
  abbrev pub After : {A : Type 0} → Result (A × PiiMapping) → Type 0
  After (passed r) = P r.1
  After (blocked ts) = Unit
  After unsupported = Unit
  After failed = Unit

  abbrev pub Keeps : {A : Type 0} → Action A → Type 0
  Keeps act = (m : PiiMapping) → P m → After (act m)

  pub Keeps-pure : {A : Type 0} (a : A) → Keeps (pure a)
  Keeps-pure a m h = h

  pub Keeps-reject : (A : Type 0) → Keeps (reject {A = A})
  Keeps-reject A m h = tt

  pub Keeps-crash : (A : Type 0) → Keeps (crash {A = A})
  Keeps-crash A m h = tt

  After-bind :
      {A B : Type 0} (f : A → Action B) (r : Result (A × PiiMapping))
      → After r
      → ((a : A) → Keeps (f a))
      → After (elim r [
        | passed x ↦ f x.0 x.1
        | blocked ts ↦ blocked ts
        | unsupported ↦ unsupported
        | failed ↦ failed
      ])
  After-bind f (passed (a, m)) h kf = kf a m h
  After-bind f (blocked ts) h kf = tt
  After-bind f unsupported h kf = tt
  After-bind f failed h kf = tt

  pub Keeps-bind :
      {A B : Type 0} (act : Action A) (f : A → Action B)
      → Keeps act
      → ((a : A) → Keeps (f a))
      → Keeps (act >>= f)
  Keeps-bind act f ka kf m h = After-bind f (act m) (ka m h) kf

  pub Keeps-on_text :
      {A : Type 0} (o : Option Json) (f : Text → Action A) (otherwise : Action A)
      → ((s : Text) → Keeps (f s))
      → Keeps otherwise
      → Keeps (on_text o f otherwise)
  Keeps-on_text none f d kf kd = kd
  Keeps-on_text (some (str s)) f d kf kd = kf s
  Keeps-on_text (some Json.null) f d kf kd = kd
  Keeps-on_text (some (boolean b)) f d kf kd = kd
  Keeps-on_text (some (number n)) f d kf kd = kd
  Keeps-on_text (some (arr items)) f d kf kd = kd
  Keeps-on_text (some (obj fields)) f d kf kd = kd

  pub Keeps-on_fields :
      {A : Type 0} (o : Option Json) (f : Fields → Action A) (otherwise : Action A)
      → ((fs : Fields) → Keeps (f fs))
      → Keeps otherwise
      → Keeps (on_fields o f otherwise)
  Keeps-on_fields none f d kf kd = kd
  Keeps-on_fields (some (str s)) f d kf kd = kd
  Keeps-on_fields (some Json.null) f d kf kd = kd
  Keeps-on_fields (some (boolean b)) f d kf kd = kd
  Keeps-on_fields (some (number n)) f d kf kd = kd
  Keeps-on_fields (some (arr items)) f d kf kd = kd
  Keeps-on_fields (some (obj fields)) f d kf kd = kf fields

  pub Keeps-on_value :
      {A : Type 0} (o : Option Json) (f : Json → Action A) (otherwise : Action A)
      → ((j : Json) → Keeps (f j))
      → Keeps otherwise
      → Keeps (on_value o f otherwise)
  Keeps-on_value none f d kf kd = kd
  Keeps-on_value (some j) f d kf kd = kf j

  pub Keeps-choose :
      {A : Type 0} (b : Bool) (x y : Action A) → Keeps x → Keeps y → Keeps (choose b x y)
  Keeps-choose true x y kx ky = kx
  Keeps-choose false x y kx ky = ky

  pub Keeps-each_item :
      (f : Json → Action Json) (items : Items)
      → ((j : Json) → Keeps (f j))
      → Keeps (each_item f items)
  unfolding each_item
  Keeps-each_item f nil k = Keeps-pure nil
  Keeps-each_item f (item j items) k = Keeps-bind (f j) _ (k j) (λ j'.
      Keeps-bind (each_item f items) _ (Keeps-each_item f items k)
        (λ items'. Keeps-pure (item j' items')))

  pub Keeps-each_field :
      (f : Json → Action Json) (fields : Fields)
      → ((j : Json) → Keeps (f j))
      → Keeps (each_field f fields)
  unfolding each_field
  Keeps-each_field f end k = Keeps-pure end
  Keeps-each_field f (field n j fields) k = Keeps-bind (f j) _ (k j) (λ j'.
      Keeps-bind (each_field f fields) _ (Keeps-each_field f fields k)
        (λ fields'. Keeps-pure (field n j' fields')))

  pub Keeps-at_text :
      (k : Text) (f : Text → Action Json) (block new : Fields)
      → ((s : Text) → Keeps (f s))
      → Keeps (at_text k f block new)
  unfolding at_text
  Keeps-at_text k f block new kf =
      Keeps-on_text (get_field k block) _ _
        (λ s. Keeps-bind (f s) _ (kf s) (λ j. Keeps-pure (set_field k j new))) (Keeps-pure new)

  pub Keeps-at_texts :
      (ks : List Text) (f : Text → Action Json) (block new : Fields)
      → ((s : Text) → Keeps (f s))
      → Keeps (at_texts ks f block new)
  unfolding at_texts
  Keeps-at_texts [] f block new kf = Keeps-pure new
  Keeps-at_texts (k ∷ ks) f block new kf =
      Keeps-bind (at_text k f block new) _ (Keeps-at_text k f block new kf)
        (λ next. Keeps-at_texts ks f block next kf)
