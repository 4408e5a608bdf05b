-- ===== src/Hir/Yields.antt =====
-- What a run yields when it returns.
use yarte.Base.{Bool, true, false, if◌then◌else◌, ◌≡◌, refl, sym, subst}
use yarte.Parser.Result.{Result, ok, err, panic, out_of_fuel, LexError, ◌>>=◌}

-- A value with `P`, if there is a value.
pub data Yields {A : Type 0} (P : A → Type 0) : Result A → Type 0 where
  yields : {a : A} → P a → Yields P (ok a)
  raised : {e : LexError} → Yields P (err e)
  panicked : Yields P panic
  starved : Yields P out_of_fuel

module _ {A B : Type 0} {Q : B → Type 0} where
  pub Yields-bind :
      {P : A → Type 0} {r : Result A} {f : A → Result B}
      → Yields P r
      → ((a : A) → P a → Yields Q (f a))
      → Yields Q (r >>= f)
  Yields-bind (yields {a} h) k = k a h
  Yields-bind raised k = raised
  Yields-bind panicked k = panicked
  Yields-bind starved k = starved

  -- A step of which nothing need be known.
  pub Yields-then :
      (r : Result A) {f : A → Result B} → ((a : A) → Yields Q (f a)) → Yields Q (r >>= f)
  Yields-then (ok a) k = k a
  Yields-then (err e) k = raised
  Yields-then panic k = panicked
  Yields-then out_of_fuel k = starved

  -- A step whose value is known by an equation.
  pub Yields-given :
      (r : Result A) {f : A → Result B} → ((a : A) → r ≡ ok a → Yields Q (f a)) → Yields Q (r >>= f)
  Yields-given (ok a) k = k a refl
  Yields-given (err e) k = raised
  Yields-given panic k = panicked
  Yields-given out_of_fuel k = starved

pub Yields-if :
    {A : Type 0} {P : A → Type 0} (b : Bool) {x y : Result A}
    → Yields P x
    → Yields P y
    → Yields P (if b then x else y)
Yields-if true hx hy = hx
Yields-if false hx hy = hy

pub Yields-ok : {A : Type 0} {P : A → Type 0} {r : Result A} {a : A} → Yields P r → r ≡ ok a → P a
Yields-ok {P} (yields h) e = subst P (cc) h
Yields-ok raised e = cc
Yields-ok panicked e = cc
Yields-ok starved e = cc

pub Yields-map :
    {A : Type 0} {P Q : A → Type 0} {r : Result A} → ((a : A) → P a → Q a) → Yields P r → Yields Q r
Yields-map k (yields {a} h) = yields (k a h)
Yields-map k raised = raised
Yields-map k panicked = panicked
Yields-map k starved = starved

-- A run that returns, with a value that has `P`.
pub data Gives {A : Type 0} (P : A → Type 0) : Result A → Type 0 where
  gives : {a : A} → P a → Gives P (ok a)

module _ {A B : Type 0} {Q : B → Type 0} where
  pub Gives-bind :
      {P : A → Type 0} {r : Result A} {f : A → Result B}
      → Gives P r
      → ((a : A) → P a → Gives Q (f a))
      → Gives Q (r >>= f)
  Gives-bind (gives {a} h) k = k a h

  -- A step whose value is known.
  pub Gives-at :
      {r : Result A} {a : A} (f : A → Result B) → r ≡ ok a → Gives Q (f a) → Gives Q (r >>= f)
  Gives-at f e h = subst (λ r. Gives Q (r >>= f)) (sym e) h

pub Gives-ok : {A : Type 0} {P : A → Type 0} {r : Result A} → Gives P r → (a : A) × (r ≡ ok a) × P a
Gives-ok (gives {a} h) = (a, refl, h)

pub Gives-map :
    {A : Type 0} {P Q : A → Type 0} {r : Result A} → ((a : A) → P a → Q a) → Gives P r → Gives Q r
Gives-map k (gives {a} h) = gives (k a h)

pub Gives-else :
    {A : Type 0} {P : A → Type 0} (x y : Result A) (b : Bool)
    → b ≡ false
    → Gives P y
    → Gives P (if b then x else y)
Gives-else x y true e h = cc
Gives-else x y false e h = h
