-- ===== src/Parser/Result.antt =====
-- yarte_parser/src/strnom.rs: `LexError` and `PResult`, with the two ways in which a run can end
-- without a value.
use yarte.Base.{Bool, true, false, ◌≡◌, refl, subst, if◌then◌else◌}

pub data LexError : Type 0 where
  fail next : LexError

-- `panic` is a panic of the program, such as a slice out of bounds. `out_of_fuel` has no
-- counterpart in the program.
pub data Result {ℓ} (A : Type ℓ) : Type ℓ where
  ok : A → Result A
  err : LexError → Result A
  panic out_of_fuel : Result A

infixl 5 ◌>>=◌
abbrev pub ◌>>=◌ {ℓ κ} : {A : Type ℓ} {B : Type κ} → Result A → (A → Result B) → Result B
ok a >>= f = f a
err e >>= f = err e
panic >>= f = panic
out_of_fuel >>= f = out_of_fuel

-- `opt!`: an error is no value, and a panic stays one.
abbrev pub opt {ℓ κ} : {A : Type ℓ} {B : Type κ} → Result A → (A → Result B) → Result B → Result B
opt (ok a) f other = f a
opt (err e) f other = other
opt panic f other = panic
opt out_of_fuel f other = out_of_fuel

-- `map_fail!`.
abbrev pub map_fail {ℓ} : {A : Type ℓ} → Result A → Result A
map_fail (ok a) = ok a
map_fail (err e) = err fail
map_fail panic = panic
map_fail out_of_fuel = out_of_fuel

-- What a run may end in: a value with `P`, any error, and a panic only where `Panics` allows it.
-- It never runs out of fuel.
pub data Ensures {ℓ κ} (Panics : Type 0) {A : Type ℓ} (P : A → Type κ)
    : Result A → Type (ℓ ⊔ κ) where
  holds : {a : A} → P a → Ensures Panics P (ok a)
  raised : {e : LexError} → Ensures Panics P (err e)
  panicked : Panics → Ensures Panics P panic

module _ {ℓ κ} {Panics : Type 0} {A : Type ℓ} {P : A → Type κ} where
  pub Ensures-if :
      (b : Bool) {x y : Result A}
      → (b ≡ true → Ensures Panics P x)
      → (b ≡ false → Ensures Panics P y)
      → Ensures Panics P (if b then x else y)
  Ensures-if true hx hy = hx refl
  Ensures-if false hx hy = hy refl

  pub Ensures-bind {ℓ' κ'} :
      {B : Type ℓ'} {Q : B → Type κ'} {r : Result A} {f : A → Result B}
      → Ensures Panics P r
      → ((a : A) → P a → Ensures Panics Q (f a))
      → Ensures Panics Q (r >>= f)
  Ensures-bind (holds {a} h) k = k a h
  Ensures-bind raised k = raised
  Ensures-bind (panicked p) k = panicked p

  pub Ensures-opt {ℓ' κ'} :
      {B : Type ℓ'} {Q : B → Type κ'} {r : Result A} {f : A → Result B} {other : Result B}
      → Ensures Panics P r
      → ((a : A) → P a → Ensures Panics Q (f a))
      → Ensures Panics Q other
      → Ensures Panics Q (opt r f other)
  Ensures-opt (holds {a} h) k o = k a h
  Ensures-opt raised k o = o
  Ensures-opt (panicked p) k o = panicked p

  pub Ensures-map_fail : {r : Result A} → Ensures Panics P r → Ensures Panics P (map_fail r)
  Ensures-map_fail (holds h) = holds h
  Ensures-map_fail raised = raised
  Ensures-map_fail (panicked p) = panicked p

  pub Ensures-weaken {κ'} :
      {Panics' : Type 0} {Q : A → Type κ'} {r : Result A}
      → (Panics → Panics')
      → ((a : A) → P a → Q a)
      → Ensures Panics P r
      → Ensures Panics' Q r
  Ensures-weaken f g (holds {a} h) = holds (g a h)
  Ensures-weaken f g raised = raised
  Ensures-weaken f g (panicked p) = panicked (f p)

  pub Ensures-ok : {r : Result A} {a : A} → Ensures Panics P r → r ≡ ok a → P a
  Ensures-ok (holds {a = b} h) e = subst P (cc) h
  Ensures-ok raised e = cc
  Ensures-ok (panicked p) e = cc
