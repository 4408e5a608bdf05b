-- ===== src/Hir/Path.antt =====
-- yarte_hir/src/lib.rs: the paths of Rust expressions, `is_super` and `is_tuple_index`.
use yarte.Base.{
  ℕ, ◌+◌, ◌-◌, ◌*◌, Bool, true, false, ◌&&◌, List, [], ◌∷◌, Option, none, some, Str, codes, str_eq,
  leb, ltb, if◌then◌else◌, length,
}
use yarte.Parser.Result.{Result, ok, panic}
use yarte.Hir.Scope.{split_last}

-- `syn::ExprPath`, with what the source reads of it: whether it has a `qself`, attributes and a
-- leading colon, and the identifiers of its segments.
pub record ExprPath : Type 0 where
  pub qself : Bool
  pub attributes : Bool
  pub leading_colon : Bool
  pub segments : List Str

-- `idents.iter().all(|x| x.eq("super"))`.
unfoldable pub all_super : List Str → Bool
all_super [] = true
all_super (s ∷ ss) = str_eq s (codes "super") && all_super ss

abbrev pub super_of : Option (List Str × Str) → Result (Option (ℕ × Str))
super_of none = panic
super_of (some (idents, ident)) =
    ok (if all_super idents then some (length idents, ident) else none)

-- `is_super`.
unfoldable pub is_super : List Str → Result (Option (ℕ × Str))
unfolding all_super
is_super ss = super_of (split_last ss)

-- `u8::is_ascii_digit`.
abbrev pub is_digit : ℕ → Bool
is_digit c = leb b'0' c && leb c b'9'

unfoldable pub all_digits : Str → Bool
all_digits [] = true
all_digits (c ∷ s) = is_digit c && all_digits s

-- `is_tuple_index`.
unfoldable pub is_tuple_index : Str → Bool
unfolding all_digits
is_tuple_index [] = false
is_tuple_index (c ∷ []) = false
is_tuple_index (c ∷ d ∷ s) = str_eq (c ∷ []) (codes "_") && all_digits (d ∷ s)

-- `u32::from_str_radix`, in base 10, on digits, behind those that make `n`.
unfoldable pub from_digits : ℕ → Str → Option ℕ
from_digits n [] = some n
from_digits n (c ∷ s) =
    let rest = from_digits (n * 10 + (c - b'0')) s in
    if ltb (n * 10 + (c - b'0')) 4294967296 then rest else none
