-- ===== src/Parser/SourceMap.antt =====
-- yarte_parser/src/source_map.rs: the files that are read, one behind the other in the space of
-- offsets, and the line and column of an offset. The map is passed along; a path is its text.
pub mod Lines
pub mod Files
mod Tests
use yarte.Base.{
  ℕ, zero, suc, ◌+◌, ◌-◌, Bool, true, false, ◌&&◌, List, [], ◌∷◌, ◌++◌, Option, none, some, leb,
  ltb, ◌==◌, if◌then◌else◌, length, get_elem?, find, Str,
}
use yarte.Parser.Result.{Result, ok, panic, out_of_fuel, ◌>>=◌}
use yarte.Parser.Cursor.{Cursor, u32, slice_from}
use yarte.Parser.Syntax.{Span}

pub record LineColumn : Type 0 where
  pub line : ℕ
  pub column : ℕ

pub record FileInfo : Type 0 where
  pub name : Str
  pub span : Span
  pub lines : List ℕ

-- The loop of `lines_offsets`.
unfoldable pub lines_loop : ℕ → Str → ℕ → List ℕ → Result (List ℕ)
unfolding slice_from
lines_loop zero s prev lines = out_of_fuel
lines_loop (suc f) s prev lines = do
  rest ← slice_from s prev
  elim (find b'\n' rest) [
    | none ↦ ok lines
    | some len ↦ lines_loop f s (prev + (len + 1)) (lines ++ (prev + (len + 1)) ∷ [])
  ]

-- `lines_offsets`.
unfoldable pub lines_offsets : Str → Result (List ℕ)
unfolding lines_loop
lines_offsets s = lines_loop (suc (length s)) s 0 (0 ∷ [])

-- The result of `binary_search`: the index of the value, or the one where it would be inserted.
pub data Search : Type 0 where
  found missing : ℕ → Search

abbrev pub later : Search → Search
later (found n) = found (suc n)
later (missing n) = missing (suc n)

-- `slice::binary_search`, whose result on a sorted list without duplicates is that of a search
-- from the front.
unfoldable pub binary_search : List ℕ → ℕ → Search
binary_search [] t = missing 0
binary_search (x ∷ xs) t =
    let rest = binary_search xs t in
    if x == t then found 0 else if ltb x t then later rest else missing 0

-- The line with the index `i`, which begins at the offset given, if there is one.
abbrev pub line_at : ℕ → ℕ → Option ℕ → Result LineColumn
line_at i offset none = panic
line_at i offset (some init) = ok (record { line = suc i; column = offset - init })

-- The match in `offset_line_column`.
unfoldable pub located : List ℕ → ℕ → Search → Result LineColumn
located lines offset (found i) = ok (record { line = suc i; column = 0 })
located lines offset (missing zero) = panic
located lines offset (missing (suc i)) = line_at i offset (get_elem? lines i)

-- `span_within`.
abbrev pub span_within : FileInfo → Span → Bool
span_within file span = leb file.span.lo span.lo && leb span.hi file.span.hi

-- `offset_line_column`.
unfoldable pub offset_line_column : FileInfo → ℕ → Result LineColumn
unfolding binary_search located
offset_line_column file offset =
    if span_within file (record { lo = u32 offset; hi = u32 offset })
    then (let inside = offset - file.span.lo in
        located file.lines inside (binary_search file.lines inside))
    else panic

-- `get_init_line`.
unfoldable pub get_init_line : FileInfo → LineColumn → Result (Option ℕ)
get_init_line file lc = if lc.line == 0 then panic else ok (get_elem? file.lines (lc.line - 1))

-- `next_start_pos`, on `files`.
unfoldable pub next_start_pos : List FileInfo → ℕ
next_start_pos [] = 0
next_start_pos (file ∷ []) = u32 (file.span.hi + 1)
next_start_pos (_ ∷ file ∷ files) = next_start_pos (file ∷ files)

-- `add_file`: the files and the span.
unfoldable pub add_file : List FileInfo → Str → Str → Result (List FileInfo × Span)
unfolding lines_offsets next_start_pos
add_file files name src = do
  lines ← lines_offsets src
  let lo = next_start_pos files
  let span : Span = record { lo = lo; hi = u32 (lo + u32 (length src)) }
  ok (files ++ record { name = name; span = span; lines = lines } ∷ [], span)

-- `get_cursor`.
unfoldable pub get_cursor : List FileInfo → Str → Str → Result (List FileInfo × Cursor)
unfolding add_file
get_cursor files p rest = do
  (files, span) ← add_file files p rest
  ok (files, record { rest = rest; off = span.lo })

-- `fileinfo`.
unfoldable pub fileinfo : List FileInfo → Span → Result FileInfo
fileinfo [] span = panic
fileinfo (file ∷ files) span =
    let rest = fileinfo files span in if span_within file span then ok file else rest

-- `Span::start` and `Span::end`.
unfoldable pub start : List FileInfo → Span → Result LineColumn
unfolding fileinfo offset_line_column
start files span = do file ← fileinfo files span; offset_line_column file span.lo

unfoldable pub end : List FileInfo → Span → Result LineColumn
unfolding fileinfo offset_line_column
end files span = do file ← fileinfo files span; offset_line_column file span.hi

-- `Span::file_path`.
unfoldable pub file_path : List FileInfo → Span → Result Str
unfolding fileinfo
file_path files span = do file ← fileinfo files span; ok file.name

-- `Span::range_in_line`.
unfoldable pub range_in_line : List FileInfo → Span → Result (ℕ × ℕ)
unfolding fileinfo offset_line_column get_init_line
range_in_line files span = do
  file ← fileinfo files span
  lc ← offset_line_column file span.lo
  init ← get_init_line file lc
  elim init [ none ↦ panic | some n ↦ ok (n, span.hi - file.span.lo) ]

-- `Span::join`: none where `other` is not in the file of `span`.
unfoldable pub join : List FileInfo → Span → Span → Result (Option Span)
unfolding fileinfo
join files span other = do
  file ← fileinfo files span
  let joined : Span = record {
    lo = if leb span.lo other.lo then span.lo else other.lo;
    hi = if leb span.hi other.hi then other.hi else span.hi;
  }
  ok (if span_within file other then some joined else none)
