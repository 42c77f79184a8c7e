-- ===== src/Action/Passed.antt =====
-- A chain of actions that passes, taken apart.
use priv_ai_te.Prelude.{◌≡◌, refl}
use priv_ai_te.Mapping.{PiiMapping}
use priv_ai_te.Engine.{Result, passed, blocked, unsupported, failed}
use priv_ai_te.Action.{Action, ◌>>=◌}

passed-then :
    {A B : Type 0} (r : Result (A × PiiMapping)) (f : A → Action B) (b : B) (m' : PiiMapping)
    → elim r [
      | passed x ↦ f x.0 x.1
      | blocked ts ↦ blocked ts
      | unsupported ↦ unsupported
      | failed ↦ failed
    ]
      ≡ passed (b, m')
    → (a : A) × (m1 : PiiMapping) × (r ≡ passed (a, m1)) × (f a m1 ≡ passed (b, m'))
passed-then (passed (a, m1)) f b m' h = (a, m1, refl, h)
passed-then (blocked ts) f b m' h = cc
passed-then unsupported f b m' h = cc
passed-then failed f b m' h = cc

pub passed-bind :
    {A B : Type 0} (act : Action A) (f : A → Action B) (m : PiiMapping) (b : B) (m' : PiiMapping)
    → (act >>= f) m ≡ passed (b, m')
    → (a : A) × (m1 : PiiMapping) × (act m ≡ passed (a, m1)) × (f a m1 ≡ passed (b, m'))
passed-bind act f m b m' h = passed-then (act m) f b m' h
