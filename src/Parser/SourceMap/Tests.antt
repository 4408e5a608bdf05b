-- ===== src/Parser/SourceMap/Tests.antt =====
-- Concrete source maps.
use yarte.Base.{List, [], ◌∷◌, ◌≡◌, refl, codes, ◌+◌, ◌≤◌, arith}
use yarte.Parser.Result.{ok}
use yarte.Parser.Syntax.{Span}
use yarte.Parser.SourceMap.{
  FileInfo, next_start_pos, add_file, fileinfo, start, file_path, range_in_line, lines_offsets,
}
use yarte.Parser.SourceMap.Files.{Laid, placed, add_file-Laid, add_file-start}

-- A map with one file, of five bytes.
abbrev one : List FileInfo
one = placed (codes "a") (codes "a\nb\nc") 0 ∷ []

lines_offsets-text : lines_offsets (codes "a\nb\n\nc") ≡ ok (0 ∷ 2 ∷ 4 ∷ 5 ∷ [])
unfolding lines_offsets
lines_offsets-text = refl

start-one : start one (record { lo = 2; hi = 3 }) ≡ ok (record { line = 2; column = 0 })
unfolding start
start-one = refl

range-one : range_in_line one (record { lo = 3; hi = 3 }) ≡ ok (2, 3)
unfolding range_in_line
range-one = refl

add_file-Laid_example :
    (added : List FileInfo) × (span : Span) × (add_file one (codes "b") (codes "x\ny")
      ≡ ok (added, span))
    × Laid 0 added
    × (span.hi ≡ span.lo + 3)
    × ((s : Span)
        → span.lo ≤ s.lo
        → s.lo ≤ s.hi
        → s.hi ≤ span.hi
        → file_path added s ≡ ok (codes "b"))
    × ((s : Span) (file : FileInfo) → fileinfo one s ≡ ok file → fileinfo added s ≡ ok file)
unfolding next_start_pos
add_file-Laid_example =
    add_file-Laid one (codes "b") (codes "x\ny") (refl, omega arith, omega arith, tt) (omega arith)

add_file-start_example :
    (added : List FileInfo) × (add_file one (codes "b") (codes "x\ny")
      ≡ ok (added, record { lo = next_start_pos one; hi = next_start_pos one + 3 }))
    × (start added (record { lo = next_start_pos one + 3; hi = 9 })
        ≡ ok (record { line = 2; column = 1 }))
unfolding next_start_pos
add_file-start_example =
    add_file-start one (codes "b") (codes "x\ny") 3 9 (omega arith, tt) (omega arith) (omega arith)
      (omega arith)
