-- ===== src/Action/Makes.antt =====
-- What an action of a scrub makes, in terms of the mapping that it leaves.
use priv_ai_te.Prelude.{◌≡◌, refl, Bool, true, false, Option, none, some, Text}
use priv_ai_te.Json.{Json, Fields, boolean, number, str, arr, obj}
use priv_ai_te.Mapping.{PiiMapping}
use priv_ai_te.Anonymizer.Coherent.{IsCoherent}
use priv_ai_te.Anonymizer.Extends.{Extends}
use priv_ai_te.Engine.{Result, passed, blocked, unsupported, failed}
use priv_ai_te.Engine.Traced.{Post}
use priv_ai_te.Action.{Action, pure, reject, crash, ◌>>=◌, on_text, on_fields, on_value, choose}

module _ {A : Type 0} where
  -- A coherent mapping that restores all that `m` restored, with a result as stated.
  abbrev pub Grows : PiiMapping → (PiiMapping → A → Type 0) → A → PiiMapping → Type 0
  Grows m R a m1 = IsCoherent m1 × Extends m m1 × R m1 a

  -- From each coherent mapping that restores all that `m0` restores, the action grows the mapping.
  abbrev pub Makes : PiiMapping → (PiiMapping → A → Type 0) → Action A → Type 0
  Makes m0 R act = (m : PiiMapping) → Extends m0 m → IsCoherent m → Post (Grows m R) (act m)

  Post-earlier :
      (m m1 : PiiMapping) (R : PiiMapping → A → Type 0) (r : Result (A × PiiMapping))
      → Extends m m1
      → Post (Grows m1 R) r
      → Post (Grows m R) r
  Post-earlier m m1 R (passed (a, n)) x (c, y, h) = (c, λ f o q. y f o (x f o q), h)
  Post-earlier m m1 R (blocked ts) x h = tt
  Post-earlier m m1 R unsupported x h = tt
  Post-earlier m m1 R failed x h = tt

  Post-implied :
      (m : PiiMapping) (R Q : PiiMapping → A → Type 0) (r : Result (A × PiiMapping))
      → ((n : PiiMapping) (a : A) → R n a → Q n a)
      → Post (Grows m R) r
      → Post (Grows m Q) r
  Post-implied m R Q (passed (a, n)) k (c, y, h) = (c, y, k n a h)
  Post-implied m R Q (blocked ts) k h = tt
  Post-implied m R Q unsupported k h = tt
  Post-implied m R Q failed k h = tt

  pub Makes-implied :
      (m0 : PiiMapping) (R Q : PiiMapping → A → Type 0) (act : Action A)
      → ((n : PiiMapping) (a : A) → R n a → Q n a)
      → Makes m0 R act
      → Makes m0 Q act
  Makes-implied m0 R Q act k h m x c = Post-implied m R Q (act m) k (h m x c)

module _ {A : Type 0} (m0 : PiiMapping) (Q : PiiMapping → A → Type 0) where
  pub Makes-pure : (a : A) → ((m : PiiMapping) → Extends m0 m → Q m a) → Makes m0 Q (pure a)
  Makes-pure a h m x c = (c, λ f o q. q, h m x)

  pub Makes-reject : Makes m0 Q reject
  Makes-reject m x c = tt

  pub Makes-crash : Makes m0 Q crash
  Makes-crash m x c = tt

  pub Makes-choose :
      (b : Bool) (x y : Action A) → Makes m0 Q x → Makes m0 Q y → Makes m0 Q (choose b x y)
  Makes-choose true x y kx ky = kx
  Makes-choose false x y kx ky = ky

  pub Makes-choose_case :
      (b : Bool) (x y : Action A)
      → (b ≡ true → Makes m0 Q x)
      → (b ≡ false → Makes m0 Q y)
      → Makes m0 Q (choose b x y)
  Makes-choose_case true x y kx ky = kx refl
  Makes-choose_case false x y kx ky = ky refl

  pub Makes-on_text :
      (o : Option Json) (f : Text → Action A) (otherwise : Action A)
      → ((s : Text) → o ≡ some (str s) → Makes m0 Q (f s))
      → Makes m0 Q otherwise
      → Makes m0 Q (on_text o f otherwise)
  Makes-on_text none f d kf kd = kd
  Makes-on_text (some (str s)) f d kf kd = kf s refl
  Makes-on_text (some Json.null) f d kf kd = kd
  Makes-on_text (some (boolean b)) f d kf kd = kd
  Makes-on_text (some (number n)) f d kf kd = kd
  Makes-on_text (some (arr items)) f d kf kd = kd
  Makes-on_text (some (obj fields)) f d kf kd = kd

  pub Makes-on_fields :
      (o : Option Json) (f : Fields → Action A) (otherwise : Action A)
      → ((fs : Fields) → o ≡ some (obj fs) → Makes m0 Q (f fs))
      → Makes m0 Q otherwise
      → Makes m0 Q (on_fields o f otherwise)
  Makes-on_fields none f d kf kd = kd
  Makes-on_fields (some (str s)) f d kf kd = kd
  Makes-on_fields (some Json.null) f d kf kd = kd
  Makes-on_fields (some (boolean b)) f d kf kd = kd
  Makes-on_fields (some (number n)) f d kf kd = kd
  Makes-on_fields (some (arr items)) f d kf kd = kd
  Makes-on_fields (some (obj fields)) f d kf kd = kf fields refl

  pub Makes-on_value :
      (o : Option Json) (f : Json → Action A) (otherwise : Action A)
      → ((j : Json) → o ≡ some j → Makes m0 Q (f j))
      → Makes m0 Q otherwise
      → Makes m0 Q (on_value o f otherwise)
  Makes-on_value none f d kf kd = kd
  Makes-on_value (some j) f d kf kd = kf j refl

-- Each action of a chain starts in the mapping that the one before it left.
pub Makes-bind :
    {A B : Type 0} (m0 : PiiMapping) (R : PiiMapping → A → Type 0) (Q : PiiMapping → B → Type 0)
    (act : Action A) (f : A → Action B)
    → Makes m0 R act
    → ((a : A) (m1 : PiiMapping) → Extends m0 m1 → R m1 a → Makes m1 Q (f a))
    → Makes m0 Q (act >>= f)
Makes-bind {A = A} m0 R Q act f ka kf m x c = go (act m) (ka m x c)
  where
    go :
        (r : Result (A × PiiMapping))
        → Post (Grows m R) r
        → Post (Grows m Q) (elim r [
          | passed r ↦ f r.0 r.1
          | blocked ts ↦ blocked ts
          | unsupported ↦ unsupported
          | failed ↦ failed
        ])
    go (passed (a, m1)) (c1, y, h) =
        Post-earlier m m1 Q (f a m1) y (kf a m1 (λ g o q. y g o (x g o q)) h m1 (λ g o q. q) c1)
    go (blocked ts) h = tt
    go unsupported h = tt
    go failed h = tt
