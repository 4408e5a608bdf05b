-- ===== src/Parser/SourceMap/Files.antt =====
-- The files of the map lie one behind the other, and each offset is found in its file.
use yarte.Base.{
  ℕ, ◌+◌, ◌-◌, ◌≤◌, ◌<◌, true, false, List, [], ◌∷◌, ◌++◌, length, Str, take, ◌≡◌, refl, ap, sym,
  subst, ◌∙◌, arith,
}
use yarte.Parser.Result.{ok, ◌>>=◌}
use yarte.Parser.Cursor.{u32}
use yarte.Parser.Syntax.{Span}
use yarte.Parser.SourceMap.{
  FileInfo, span_within, offset_line_column, next_start_pos, add_file, fileinfo, start, file_path,
}
use yarte.Parser.SourceMap.Lines.{read_on, offsets, lines_offsets-offsets, locate-read_on}

u32-small : (n : ℕ) → n < 4294967296 → u32 n ≡ n
u32-small n h = omega arith

-- The file with the text `src` at `lo`.
abbrev pub placed : Str → Str → ℕ → FileInfo
placed name src lo = record {
  name = name;
  span = record { lo = lo; hi = lo + length src };
  lines = 0 ∷ offsets 0 src;
}

within :
    (file : FileInfo) (span : Span)
    → file.span.lo ≤ span.lo
    → span.hi ≤ file.span.hi
    → span_within file span ≡ true
within file span h k = ground arith

-- An offset in a file is the line and the column of a reader who is behind the bytes in front.
offset_line_column-read_on :
    (name src : Str) (lo k : ℕ)
    → lo + length src < 4294967296
    → k ≤ length src
    → offset_line_column (placed name src lo) (lo + k)
      ≡ ok (read_on (record { line = 1; column = 0 }) (take k src))
unfolding offset_line_column
offset_line_column-read_on name src lo k room h =
    let u : u32 (lo + k) ≡ lo + k = u32-small (lo + k) (omega arith) in
    let d : (lo + k) - lo ≡ 0 + k = omega arith in
    rw
      (
        u,
        within (placed name src lo) (record { lo = lo + k; hi = lo + k }) (omega arith)
            (omega arith),
        d,
      )
      (locate-read_on k src 0 0 (omega arith) h)

abbrev pub Under : ℕ → List FileInfo → Type 0
Under n [] = Unit
Under n (file ∷ files) = (file.span.hi < n) × Under n files

fileinfo-last :
    (files : List FileInfo) (file : FileInfo) (span : Span) (n : ℕ)
    → Under n files
    → n ≤ span.lo
    → span.lo ≤ span.hi
    → span_within file span ≡ true
    → fileinfo (files ++ file ∷ []) span ≡ ok file
unfolding fileinfo
fileinfo-last [] file span n u h k w = rw w refl
fileinfo-last (f ∷ files) file span n (l, u) h k w =
    let out : span_within f span ≡ false = ground arith in
    rw out (fileinfo-last files file span n u h k w)

-- The span of an earlier file is found as before.
pub fileinfo-append :
    (files : List FileInfo) (file found : FileInfo) (span : Span)
    → fileinfo files span ≡ ok found
    → fileinfo (files ++ file ∷ []) span ≡ ok found
unfolding fileinfo
fileinfo-append [] file found span e = cc
fileinfo-append (f ∷ files) file found span e =
    ground (arith, fileinfo-append files file found span)

-- The new file is placed at the next position.
add_file-placed :
    (files : List FileInfo) (name src : Str)
    → next_start_pos files + length src < 4294967296
    → add_file files name src
      ≡ ok (
        files ++ placed name src (next_start_pos files) ∷ [],
        record { lo = next_start_pos files; hi = next_start_pos files + length src },
      )
unfolding add_file
add_file-placed files name src room =
    let lo = next_start_pos files in
    let a : u32 (lo + u32 (length src)) ≡ lo + length src =
      ap (λ n. u32 (lo + n)) (u32-small (length src) (omega arith))
      ∙ u32-small (lo + length src) room in
    rw (lines_offsets-offsets src, a) refl

-- The files lie one behind the other from the offset `at` on, with one offset between two of them,
-- and each offset is one of 32 bits.
abbrev pub Laid : ℕ → List FileInfo → Type 0
Laid at [] = Unit
Laid at (file ∷ files) =
    (file.span.lo ≡ at)
    × (file.span.lo ≤ file.span.hi)
    × (file.span.hi + 1 < 4294967296)
    × Laid (file.span.hi + 1) files

-- The offset behind the last file, and the one between.
abbrev behind : ℕ → List FileInfo → ℕ
behind at [] = at
behind at (file ∷ files) = behind (file.span.hi + 1) files

next_start_pos-behind :
    (at : ℕ) (file : FileInfo) (files : List FileInfo)
    → Laid at (file ∷ files)
    → next_start_pos (file ∷ files) ≡ behind at (file ∷ files)
unfolding next_start_pos
next_start_pos-behind at file [] (a, l, r, h) = u32-small (file.span.hi + 1) r
next_start_pos-behind at file (f ∷ files) (a, l, r, h) =
    next_start_pos-behind (file.span.hi + 1) f files h

next_start_pos_lem : (files : List FileInfo) → Laid 0 files → next_start_pos files ≡ behind 0 files
unfolding next_start_pos
next_start_pos_lem [] h = refl
next_start_pos_lem (file ∷ files) h = next_start_pos-behind 0 file files h

behind_bound : (at : ℕ) (files : List FileInfo) → Laid at files → at ≤ behind at files
behind_bound at [] h = omega arith
behind_bound at (file ∷ files) (a, l, r, h) =
    let b = behind_bound (file.span.hi + 1) files h in omega arith

Laid-Under : (at : ℕ) (files : List FileInfo) → Laid at files → Under (behind at files) files
Laid-Under at [] h = tt
Laid-Under at (file ∷ files) (a, l, r, h) =
    let b = behind_bound (file.span.hi + 1) files h in
    (omega arith, Laid-Under (file.span.hi + 1) files h)

Laid-append :
    (at : ℕ) (files : List FileInfo) (file : FileInfo)
    → Laid at files
    → file.span.lo ≡ behind at files
    → file.span.lo ≤ file.span.hi
    → file.span.hi + 1 < 4294967296
    → Laid at (files ++ file ∷ [])
Laid-append at [] file h e l r = (e, l, r, tt)
Laid-append at (f ∷ files) file (a, k, m, h) e l r =
    (a, k, m, Laid-append (f.span.hi + 1) files file h e l r)

-- Let the files of the map lie one behind the other from 0 on, with one offset between two of them,
-- and let the new file end in front of the last offset. Then adding it succeeds, the files of the
-- new map lie in that way as well, the new file's span is as long as its text, each span in it is of
-- its path, and each span that is found in a file of the old map is found in the same file.
pub add_file-Laid :
    (files : List FileInfo) (name src : Str)
    → Laid 0 files
    → next_start_pos files + length src + 1 < 4294967296
    → (added : List FileInfo) × (span : Span) × (add_file files name src ≡ ok (added, span))
      × Laid 0 added
      × (span.hi ≡ span.lo + length src)
      × ((s : Span) → span.lo ≤ s.lo → s.lo ≤ s.hi → s.hi ≤ span.hi → file_path added s ≡ ok name)
      × ((s : Span) (file : FileInfo) → fileinfo files s ≡ ok file → fileinfo added s ≡ ok file)
unfolding file_path
add_file-Laid files name src laid room =
    let lo = next_start_pos files in
    let new = placed name src lo in
    let e : lo ≡ behind 0 files = next_start_pos_lem files laid in
    let under : Under lo files = subst (λ n. Under n files) (sym e) (Laid-Under 0 files laid) in
    (
      files ++ new ∷ [],
      record { lo = lo; hi = lo + length src },
      add_file-placed files name src (omega arith),
      Laid-append 0 files new laid e (omega arith) room,
      refl,
      λ s h l k.
          ap (λ r. r >>= λ file. ok file.name)
            (fileinfo-last files new s lo under h l (within new s h k)),
      λ s file e. fileinfo-append files new file s e,
    )

-- Let each file of the map end in front of the next position, and let the new file fit into the
-- space of offsets. Then adding it succeeds, and a span of the new map that begins `k` bytes into
-- the new file, and ends in it, starts at the line and the column of a reader who has read those
-- `k` bytes from line 1 and column 0 on.
pub add_file-start :
    (files : List FileInfo) (name src : Str) (k hi : ℕ)
    → Under (next_start_pos files) files
    → next_start_pos files + length src < 4294967296
    → next_start_pos files + k ≤ hi
    → hi ≤ next_start_pos files + length src
    → (added : List FileInfo) × (add_file files name src
        ≡ ok (added, record { lo = next_start_pos files; hi = next_start_pos files + length src }))
      × (start added (record { lo = next_start_pos files + k; hi = hi })
          ≡ ok (read_on (record { line = 1; column = 0 }) (take k src)))
unfolding start
add_file-start files name src k hi under room h l =
    let lo = next_start_pos files in
    let new = placed name src lo in
    let span : Span = record { lo = lo + k; hi = hi } in
    (
      files ++ new ∷ [],
      add_file-placed files name src room,
      ap (λ r. r >>= λ file. offset_line_column file (lo + k))
            (fileinfo-last files new span lo under (omega arith) h
              (within new span (omega arith) l))
          ∙ offset_line_column-read_on name src lo k room (omega arith),
    )
