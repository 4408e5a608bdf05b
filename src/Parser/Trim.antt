-- ===== src/Parser/Trim.antt =====
-- `trim` of yarte_parser/src/lib.rs: a text as white space, a middle, and white space. The bytes
-- are tested one by one.
pub mod Sound
use yarte.Base.{
  ℕ, suc, ◌-◌, Bool, not, [], ◌∷◌, ◌++◌, Option, none, some, ◌≡◌, ◌≢◌, refl, if◌then◌else◌, length,
  take, drop, Str, position, arith,
}
use mathlib.Core.Option
use yarte.Parser.Result.{Result, ok, panic}
use yarte.Parser.Cursor.{is_ws, is_empty}

-- `Iterator::rposition`: the last position whose byte passes.
abbrev pub rposition : (ℕ → Bool) → Str → Option ℕ
rposition p [] = none
rposition p (c ∷ s) = elim (rposition p s) [
  | some n ↦ some (suc n)
  | none ↦ if p c then some 0 else none
]

abbrev pub is_text : ℕ → Bool
is_text c = not (is_ws c)

-- The positions are those of the first and of the last byte that is no white space.
abbrev pub cut : Str → Option ℕ → Option ℕ → Result (Str × Str × Str)
cut i none _ = ok (i, [], [])
cut i (some ln) none = panic
cut i (some ln) (some rn) = ok (take ln i, take (suc rn - ln) (drop ln i), drop (suc rn) i)

unfoldable pub trim : Str → Result (Str × Str × Str)
trim i = if is_empty i then ok ([], [], []) else cut i (position is_text i) (rposition is_text i)
