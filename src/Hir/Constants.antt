-- ===== src/Hir/Constants.antt =====
-- yarte_hir/src/lib.rs: expressions that are evaluated when the template is compiled.
use yarte.Base.{
  ℕ, suc, Bool, true, false, ◌||◌, List, [], ◌∷◌, Option, none, some, Str, codes, if◌then◌else◌,
}
use yarte.Parser.Result.{Result, ok, ◌>>=◌}
use yarte.Parser.Cursor.{is_empty}
use yarte.Hir.Rust.{Value, Values, int, float, bool, str, vec, range, nil, cons, Rust}
use yarte.Hir.Generator.{Generator, Writable, push_w}

module _ {Expr Local : Type 0} (rust : Rust Expr Local) (text_mode : Bool) where
  -- What `const_eval` writes for a value.
  unfoldable pub const_text : Value → Bool → Option Str
  const_text (int a) safe = some a
  const_text (float a) safe = some a
  const_text (bool true) safe = some (codes "true")
  const_text (bool false) safe = some (codes "false")
  const_text (str a) safe = some (if safe || text_mode then a else rust.escape a)
  const_text _ safe = none

  -- `push_some!`.
  abbrev pub push_some : Generator Expr → Str → Generator Expr
  push_some g s = if is_empty s then g else push_w g (Writable.lit_p s)

  abbrev pub pushed : Generator Expr → Option Str → Option (Generator Expr)
  pushed g none = none
  pushed g (some s) = some (push_some g s)

  abbrev pub text_of : Option Value → Bool → Option Str
  text_of none safe = none
  text_of (some v) safe = const_text v safe

  -- `const_eval`: none where the expression is no constant that has a text.
  unfoldable pub const_eval : Generator Expr → Expr → Bool → Option (Generator Expr)
  unfolding const_text
  const_eval g e safe = pushed g (text_of (rust.eval e) safe)

module _ {Expr Local : Type 0} (rust : Rust Expr Local) where
  abbrev pub bool_of : Option Value → Option Bool
  bool_of (some (bool b)) = some b
  bool_of _ = none

  -- `eval_bool`.
  unfoldable pub eval_bool : Expr → Option Bool
  eval_bool e = bool_of (rust.eval e)

  abbrev pub items : Values → List Value
  items nil = []
  items (cons v vs) = v ∷ items vs

  abbrev pub ints : List Str → List Value
  ints [] = []
  ints (n ∷ ns) = int n ∷ ints ns

  -- The characters of a text, which is ASCII, as values.
  abbrev pub chars : Str → List Value
  chars [] = []
  chars (c ∷ s) = str (c ∷ []) ∷ chars s

  abbrev pub iter_of : Option Value → Option (List Value)
  iter_of (some (vec vs)) = some (items vs)
  iter_of (some (range ns)) = some (ints ns)
  iter_of (some (str s)) = some (chars s)
  iter_of _ = none

  -- `eval_iter`.
  unfoldable pub eval_iter : Expr → Option (List Value)
  eval_iter e = iter_of (rust.eval e)

  -- The scopes of the rounds of `const_iter`, the first of them the `i`-th.
  unfoldable pub rounds : Bool → ℕ → List Value → Result (List (List Expr))
  rounds loop_var i [] = ok []
  rounds loop_var i (v ∷ vs) = do
    e ← rust.parse_value v
    rest ← rounds loop_var (suc i) vs
    ok ((if loop_var then e ∷ rust.parse_index i ∷ [] else e ∷ []) ∷ rest)
