-- ===== src/Parser/Cursor.antt =====
-- yarte_parser/src/strnom.rs: the cursor, white space, and the combinators `tag!` and
-- `take_while!`. The cursor's offset is a `u32`: sums wrap around.
use yarte.Base.{
  ℕ, ◌+◌, ◌%◌, Bool, true, false, not, ◌&&◌, ◌||◌, [], ◌∷◌, Option, none, some, leb, ◌==◌,
  if◌then◌else◌, length, take, drop, Str, starts_with, find, position,
}
use yarte.Parser.Result.{Result, ok, err, panic, out_of_fuel, next, ◌>>=◌}

-- `n as u32`, and the wrap-around of a sum.
abbrev pub u32 : ℕ → ℕ
u32 n = n % 4294967296

pub record Cursor : Type 0 where
  pub rest : Str
  pub off : ℕ

-- `&s[n..]` and `&s[..n]`: a bound beyond the end is a panic.
unfoldable pub slice_from : Str → ℕ → Result Str
slice_from s n = if leb n (length s) then ok (drop n s) else panic

unfoldable pub slice_to : Str → ℕ → Result Str
slice_to s n = if leb n (length s) then ok (take n s) else panic

unfoldable pub adv : Cursor → ℕ → Result Cursor
unfolding slice_from
adv c amt = do
  rest ← slice_from c.rest amt
  ok (record { rest = rest; off = u32 (c.off + u32 amt) })

unfoldable pub adv_find : Cursor → ℕ → ℕ → Result (Option ℕ)
unfolding slice_from
adv_find c amt p = do rest ← slice_from c.rest amt; ok (find p rest)

unfoldable pub adv_starts_with : Cursor → ℕ → Str → Result Bool
unfolding slice_from
adv_starts_with c amt s = do rest ← slice_from c.rest amt; ok (starts_with rest s)

abbrev pub is_empty : Str → Bool
is_empty [] = true
is_empty (_ ∷ _) = false

-- `char::is_whitespace`: the characters with the property White_Space.
unfoldable pub is_ws : ℕ → Bool
is_ws c =
    (leb 9 c && leb c 13)
    || c == 32
    || c == 0x85
    || c == 0xA0
    || c == 0x1680
    || (leb 0x2000 c && leb c 0x200A)
    || c == 0x2028
    || c == 0x2029
    || c == 0x202F
    || c == 0x205F
    || c == 0x3000

-- How much `take_while!` takes: up to the first character that fails the test, or all.
abbrev pub taken : (ℕ → Bool) → Str → ℕ
taken f s = elim (position (λ c. not (f c)) s) [ some n ↦ n | none ↦ length s ]

-- `take_while!`.
unfoldable pub take_while : Cursor → (ℕ → Bool) → Result (Cursor × Str)
take_while i f =
    if length i.rest == 0
    then ok (i, [])
    else let n = taken f i.rest in do c ← adv i n; s ← slice_to i.rest n; ok (c, s)

-- `tag!`.
unfoldable pub tag : Cursor → Str → Result (Cursor × Str)
tag i t =
    if starts_with i.rest t
    then (do c ← adv i (length t); s ← slice_to i.rest (length t); ok (c, s))
    else err next

unfoldable pub ws : Cursor → Result (Cursor × Unit {0})
unfolding take_while
ws i = if is_empty i.rest then err next else do (c, _) ← take_while i is_ws; ok (c, tt)

-- The `match` of `skip_ws`.
abbrev pub rest_or : Cursor → Result (Cursor × Unit {0}) → Result Cursor
rest_or i (ok (rest, _)) = ok rest
rest_or i (err _) = ok i
rest_or i panic = panic
rest_or i out_of_fuel = out_of_fuel

unfoldable pub skip_ws : Cursor → Result Cursor
unfolding ws
skip_ws i = rest_or i (ws i)
