-- ===== src/Helpers/Read/Tests.antt =====
-- Concrete templates that include partials.
use mathlib.Core.List.{Memᴰ}
use mathlib.Core.List.Memᴰ
use yarte.Base.{
  ℕ, true, List, [], ◌∷◌, none, some, if◌then◌else◌, Str, codes, str_eq, ◌≡◌, ◌≢◌, refl, sym, subst,
  inl, inr, arith,
}
use yarte.Parser.Result.{Result, ok, err, panic, out_of_fuel, ◌>>=◌}
use yarte.Parser.Syntax.{Syn, Partial}
use yarte.Parser.PrePartials.{parse_partials}
use yarte.Config.{Files, Config, no_print, resolve_partial}
use yarte.Helpers.Read.{Sources, lookup, Reader, read, resolved, partials_of, reader_of}
use yarte.Helpers.Read.Loaded.{Loaded, read-Loaded}
use yarte.Helpers.Read.Ends.{read-ne-out_of_fuel}

-- A template `t` with the partials `p` and `q`, and `p` with `q`.
abbrev includes : Str → List Str
includes path =
    if str_eq path (codes "t")
    then codes "p" ∷ codes "q" ∷ []
    else if str_eq path (codes "p")
    then codes "q" ∷ []
    else []

abbrev first : Str → ℕ
first [] = 0
first (c ∷ s) = c

abbrev reader : Reader
reader = record {
  calculate_hash = first;
  collect = λ ps. ps;
  partials = λ path src. ok (includes path);
  source = λ path. ok path;
}

abbrev all_read : Sources
all_read = (codes "q", codes "q") ∷ (codes "p", codes "p") ∷ (codes "t", codes "x") ∷ []

read-Loaded_example :
    (lookup (codes "t") all_read ≡ some (codes "x"))
    × ((p text : Str) → lookup p all_read ≡ some text → Loaded reader all_read p)
unfolding read lookup yarte.Helpers.Read.contains
read-Loaded_example = read-Loaded reader (λ ps q m. m) 3 (codes "t") (codes "x") all_read refl

-- Where all partials are at one path.
abbrev files : Files
files = record {
  extension = λ _. none;
  with_extension = λ p _. p;
  parent = λ p. p;
  join = λ p q. q;
  exists = λ _. true;
  canonicalize = λ _. some (codes "p");
  read_to_string = λ p. some p;
}

abbrev config : Config
config = record { dir = codes "d"; alias = []; print_override = no_print }

abbrev syn : Syn Str Str
syn = record {
  parse_expr = λ s. some s;
  parse_local = λ s. some s;
  parse_expr_list = λ s. some (s ∷ []);
  is_xid_start = λ _. true;
  is_xid_continue = λ _. true;
}

abbrev AllP : Result (List Str) → Type 0
AllP r = (ps : List Str) → r ≡ ok ps → (q : Str) → Memᴰ q ps → q ≡ codes "p"

AllP-cons : (r : Result (List Str)) → AllP r → AllP (r >>= λ qs. ok (codes "p" ∷ qs))
AllP-cons (ok rs) k = λ ps e q m.
    let s : codes "p" ∷ rs ≡ ps = cc in
    elim (Memᴰ.cases_cons (subst (λ l. Memᴰ q l) (sym s) m)) [ inl h ↦ h | inr n ↦ k rs refl q n ]
AllP-cons (err x) k = λ ps e. cc
AllP-cons panic k = λ ps e. cc
AllP-cons out_of_fuel k = λ ps e. cc

resolved-AllP : (path : Str) (ps : List (Partial Str)) → AllP (resolved syn files config path ps)
unfolding resolved resolve_partial
resolved-AllP path [] =
    λ ps e q m. let s : [] ≡ ps = cc in elim (subst (λ l. Memᴰ q l) (sym s) m) [ ]
resolved-AllP path (p ∷ ps) = AllP-cons (resolved syn files config path ps) (resolved-AllP path ps)

read_at :
    (path : Str) (r : Result (List (Partial Str))) → AllP (r >>= resolved syn files config path)
read_at path (ok ps) = resolved-AllP path ps
read_at path (err x) = λ ps e. cc
read_at path panic = λ ps e. cc
read_at path out_of_fuel = λ ps e. cc

partials_of-AllP : (path src : Str) → AllP (partials_of syn files config path src)
unfolding partials_of
partials_of-AllP path src = read_at path (parse_partials syn src)

all_named :
    (path src : Str) (ps : List Str)
    → partials_of syn files config path src ≡ ok ps
    → (q : Str) → Memᴰ q ps
    → q ≡ codes "p"
all_named = partials_of-AllP

read-ne-out_of_fuel_example :
    read (reader_of syn files config first (λ ps. ps)) 2 (codes "t") (codes "{{> p }}")
    ≢ out_of_fuel
read-ne-out_of_fuel_example =
    read-ne-out_of_fuel syn files config first (λ ps. ps) (codes "t" ∷ codes "p" ∷ [])
      (λ path src ps e q m. Memᴰ.tail (Memᴰ.head (all_named path src ps e q m))) 2 (codes "t")
      (codes "{{> p }}") (Memᴰ.head refl) (omega arith)
