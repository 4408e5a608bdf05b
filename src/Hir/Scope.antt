-- ===== src/Hir/Scope.antt =====
-- yarte_hir/src/scope.rs: the scopes of the helpers, one vector of expressions with the position at
-- which each scope but the first begins. syn's expressions are a type parameter.
pub mod Frames
pub mod Named
mod Tests
use yarte.Base.{
  ℕ, zero, suc, ◌+◌, ◌-◌, ◌/◌, ◌%◌, ltb, Bool, true, false, ◌&&◌, ◌||◌, ◌==◌, str_eq, List, [], ◌∷◌,
  ◌++◌, Option, none, some, leb, if◌then◌else◌, length, take, drop, get_elem?, Str, codes,
}
use yarte.Parser.Result.{Result, ok, panic, ◌>>=◌}

pub record Scope (Expr : Type 0) : Type 0 where
  pub scope : List Expr
  pub level : List ℕ
  pub count : ℕ

-- `Vec::pop`: what is left, and the last.
abbrev pub split_last {ℓ} : {A : Type ℓ} → List A → Option (List A × A)
split_last [] = none
split_last (n ∷ []) = some ([], n)
split_last (n ∷ m ∷ ns) = elim (split_last (m ∷ ns)) [ none ↦ none | some r ↦ some (n ∷ r.0, r.1) ]

-- The last digits of a number in base 16.
abbrev pub hex_digit : ℕ → ℕ
hex_digit n = if ltb n 10 then b'0' + n else b'a' + (n - 10)

abbrev pub hex_digits : ℕ → ℕ → Str
hex_digits zero n = []
hex_digits (suc k) n = hex_digits k (n / 16) ++ hex_digit (n % 16) ∷ []

-- The digits of a number of at most `k` digits, without leading zeros.
abbrev pub significant : ℕ → ℕ → Str
significant zero n = []
significant (suc k) n = if n == 0 then [] else significant k (n / 16) ++ hex_digit (n % 16) ∷ []

-- `format_ident!("{}__{}", ident, format!("{:#010x?}", count))`: eight digits, and in front of them
-- those that a count of 64 bits has beyond.
unfoldable pub numbered : Str → ℕ → Str
numbered ident count =
    ident ++ (codes "__0x" ++ (significant 8 (count / 4294967296) ++ hex_digits 8 count))

-- `u8::is_ascii_hexdigit`.
abbrev pub is_ascii_hexdigit : ℕ → Bool
is_ascii_hexdigit c =
    (leb b'0' c && leb c b'9') || (leb b'a' c && leb c b'f') || (leb b'A' c && leb c b'F')

unfoldable pub all_hex : Str → Bool
all_hex [] = true
all_hex (c ∷ s) = is_ascii_hexdigit c && all_hex s

-- Whether an expression, printed, is the identifier, or one that `push_ident` made of it.
abbrev pub is_numbered : Str → Str → Bool
is_numbered ident e =
    length ident + 12 == length e
    && str_eq ident (take (length ident) e)
    && str_eq (take 4 (drop (length ident) e)) (codes "__0x")
    && all_hex (drop (length ident + 4) e)

module _ {Expr : Type 0} where
  -- `Scope::new`.
  abbrev pub new : Expr → ℕ → Scope Expr
  new root count = record { scope = root ∷ []; level = []; count = count }

  -- `pop!`, with the level that is left and the position of the last scope.
  unfoldable pub drain : Scope Expr → Option (List ℕ × ℕ) → Result (Scope Expr × List Expr)
  drain s none = panic
  drain s (some (level, last)) =
      if leb last (length s.scope)
      then ok (record s { scope = take last s.scope; level = level }, drop last s.scope)
      else panic

  -- `pops`, and `pop`, which drops what is taken out.
  unfoldable pub pops : Scope Expr → Result (Scope Expr × List Expr)
  unfolding drain
  pops s = drain s (split_last s.level)

  -- `extend` and `push_scope`.
  abbrev pub extend : Scope Expr → List Expr → Scope Expr
  extend s t = record s { scope = s.scope ++ t }

  unfoldable pub push_scope : Scope Expr → List Expr → Scope Expr
  push_scope s t = extend (record s { level = s.level ++ length s.scope ∷ [] }) t

  -- `&scope[from..to]`.
  unfoldable pub slice : List Expr → ℕ → ℕ → Result (List Expr)
  slice xs from to =
      if leb from to && leb to (length xs) then ok (take (to - from) (drop from xs)) else panic

  -- `&scope[from..]`.
  unfoldable pub tail_from : List Expr → ℕ → Result (List Expr)
  tail_from xs from = if leb from (length xs) then ok (drop from xs) else panic

  -- `get` of a scope but the first, from the position at which it begins and from that at which the
  -- next one begins, where they are.
  unfoldable pub between : List Expr → Option ℕ → Option ℕ → Result (Option (List Expr))
  unfolding slice tail_from
  between scope none none = ok none
  between scope none (some j) = panic
  between scope (some i) none = do t ← tail_from scope i; ok (some t)
  between scope (some i) (some j) = do t ← slice scope i j; ok (some t)

  -- `get` of the first scope, from the position at which the next one begins.
  unfoldable pub get_first : List Expr → Option ℕ → Result (Option (List Expr))
  unfolding slice
  get_first scope none = ok (some scope)
  get_first scope (some j) = do t ← slice scope 0 j; ok (some t)

  -- `get`.
  unfoldable pub get : Scope Expr → ℕ → Result (Option (List Expr))
  unfolding between get_first
  get s zero = get_first s.scope (get_elem? s.level 0)
  get s (suc n) = between s.scope (get_elem? s.level n) (get_elem? s.level (suc n))

  -- `len`: the number of scopes.
  abbrev pub len : Scope Expr → ℕ
  len s = length s.level + 1

  -- `pop`.
  unfoldable pub pop : Scope Expr → Result (Scope Expr)
  unfolding pops
  pop s = do r ← pops s; ok r.0

  -- `root`.
  unfoldable pub root : Scope Expr → Result Expr
  root s = elim s.scope [ [] ↦ panic | e ∷ _ ↦ ok e ]

  -- `push_ident`; `ident_expr` is the expression of an identifier.
  unfoldable pub push_ident : (Str → Expr) → Scope Expr → Str → Scope Expr × Str
  push_ident ident_expr s ident =
      let name = numbered ident s.count in
      (record s { scope = s.scope ++ ident_expr name ∷ []; count = s.count + 1 }, name)

  -- `Iterator::find` on a reversed vector.
  unfoldable pub find_last : (Expr → Bool) → List Expr → Option Expr
  find_last p [] = none
  find_last p (e ∷ es) = elim (find_last p es) [
    | some last ↦ some last
    | none ↦ if p e then some e else none
  ]

  unfoldable pub is_named : (Expr → Str) → Str → Expr → Bool
  is_named print ident e = str_eq (print e) ident || is_numbered ident (print e)

  -- `get_by`.
  unfoldable pub get_by : (Expr → Str) → Scope Expr → Str → Option Expr
  unfolding find_last is_named
  get_by print s ident = find_last (is_named print ident) s.scope
