-- ===== src/Helpers/Read.antt =====
-- yarte_helpers/src/helpers/read.rs: the files that a template includes, each read once. A call of
-- `_read` takes one unit of fuel.
pub mod Loaded
pub mod Ends
mod Tests
use yarte.Base.{
  ℕ, zero, suc, Bool, true, false, ◌||◌, ◌==◌, List, [], ◌∷◌, Option, none, some, if◌then◌else◌,
  Str, str_eq,
}
use yarte.Parser.Result.{Result, ok, panic, out_of_fuel, ◌>>=◌}
use yarte.Parser.Syntax.{Syn, Partial}
use yarte.Parser.PrePartials.{parse_partials}
use yarte.Config.{Files, Config, get_source, resolve_partial}

-- The map of the sources, each path with its text.
abbrev pub Sources : Type 0
Sources = List (Str × Str)

unfoldable pub lookup : Str → Sources → Option Str
lookup p [] = none
lookup p ((q, src) ∷ visited) = if str_eq p q then some src else lookup p visited

abbrev pub is_some : Option Str → Bool
is_some none = false
is_some (some _) = true

-- `Vec::contains`.
unfoldable pub contains : ℕ → List ℕ → Bool
contains h [] = false
contains h (k ∷ stack) = h == k || contains h stack

-- `calculate_hash`, the collection of paths in a `BTreeSet`, and the names of the partials of a text
-- resolved from a path.
pub record Reader : Type 0 where
  pub calculate_hash : Str → ℕ
  pub collect : List Str → List Str
  pub partials : Str → Str → Result (List Str)
  pub source : Str → Result Str

module _ (reader : Reader) where
  -- The loop over the partials of a file; `deeper` is `_read` on them.
  unfoldable pub read_partials :
      (Str → Str → Sources → List ℕ → Result Sources) → List ℕ → List Str → Sources → Result Sources
  read_partials deeper stack [] visited = ok visited
  read_partials deeper stack (p ∷ ps) visited =
      if is_some (lookup p visited)
      then (if contains (reader.calculate_hash p) stack
          then panic
          else read_partials deeper stack ps visited)
      else (do
        src ← reader.source p
        visited ← deeper p src visited stack
        read_partials deeper stack ps visited)

  -- `_read`.
  unfoldable pub read_from : ℕ → Str → Str → Sources → List ℕ → Result Sources
  unfolding read_partials
  read_from zero path src visited stack = out_of_fuel
  read_from (suc f) path src visited stack = do
    partials ← reader.partials path src
    read_partials (read_from f) (reader.calculate_hash path ∷ stack) (reader.collect partials)
        ((path, src) ∷ visited)

  -- `read`.
  unfoldable pub read : ℕ → Str → Str → Result Sources
  unfolding read_from
  read f path src = read_from f path src [] []

module _ {Expr Local : Type 0} (syn : Syn Expr Local) (files : Files) (config : Config) where
  -- The partials that a text names, resolved.
  unfoldable pub resolved : Str → List (Partial Expr) → Result (List Str)
  unfolding resolve_partial
  resolved path [] = ok []
  resolved path (p ∷ ps) = do
    q ← resolve_partial files config path p.path.t
    qs ← resolved path ps
    ok (q ∷ qs)

  unfoldable pub partials_of : Str → Str → Result (List Str)
  unfolding parse_partials resolved
  partials_of path src = do ps ← parse_partials syn src; resolved path ps

  -- The reader of the program.
  abbrev pub reader_of : (Str → ℕ) → (List Str → List Str) → Reader
  reader_of calculate_hash collect = record {
    calculate_hash = calculate_hash;
    collect = collect;
    partials = partials_of;
    source = get_source files;
  }
