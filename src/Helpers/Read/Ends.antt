-- ===== src/Helpers/Read/Ends.antt =====
-- `_read` ends where the files that can be named are finitely many: each call reads a new one.
use mathlib.Core.List.{Memᴰ}
use yarte.Base.{
  ℕ, zero, suc, ◌+◌, ◌≤◌, ◌<◌, Bool, true, false, List, [], ◌∷◌, length, Option, none, some,
  if◌then◌else◌, Str, ◌≡◌, ◌≢◌, refl, subst, arith,
}
use yarte.Parser.Result.{
  Result, ok, err, panic, out_of_fuel, ◌>>=◌, Ensures, holds, raised, panicked, Ensures-bind,
  Ensures-weaken,
}
use yarte.Helpers.Read.{
  Sources, lookup, is_some, contains, Reader, read_partials, read_from, read, resolved, partials_of,
  reader_of,
}
use yarte.Parser.Syntax.{Syn, Partial}
use yarte.Parser.PrePartials.{parse_partials}
use yarte.Parser.PrePartials.Sound.{parse_partials-ne-out_of_fuel}
use yarte.Config.{
  Files, Config, get_source, source_of, resolve_partial, dir_template, resolve_by, find_alias,
  canonical,
}
use yarte.Helpers.Read.Loaded.{Extends, Extends-cons, str_eq_refl}

-- How many of the files named are not in the map.
abbrev pub missing_one : Option Str → ℕ
missing_one none = 1
missing_one (some _) = 0

unfoldable pub missing : List Str → Sources → ℕ
missing [] v = 0
missing (u ∷ us) v = missing_one (lookup u v) + missing us v

missing_one_le : (o : Option Str) → missing_one o ≤ 1
missing_one_le none = omega arith
missing_one_le (some _) = omega arith

missing_one-Extends :
    (u : Str) (v w : Sources) → Extends v w → missing_one (lookup u w) ≤ missing_one (lookup u v)
missing_one-Extends u v w e = go (lookup u v) refl
  where
    go : (o : Option Str) → lookup u v ≡ o → missing_one (lookup u w) ≤ missing_one o
    go (some src) l = rw (e u src l) (omega arith)
    go none l = missing_one_le (lookup u w)

missing-Extends : (us : List Str) (v w : Sources) → Extends v w → missing us w ≤ missing us v
unfolding missing
missing-Extends [] v w e = omega arith
missing-Extends (u ∷ us) v w e =
    omega (arith, missing-Extends us v w e, missing_one-Extends u v w e)

lookup-head : (p src : Str) (v : Sources) → lookup p ((p, src) ∷ v) ≡ some src
unfolding lookup
lookup-head p src v = rw (str_eq_refl p) refl

missing-cons :
    (us : List Str) (p src : Str) (v : Sources)
    → Memᴰ p us
    → lookup p v ≡ none
    → missing us ((p, src) ∷ v) < missing us v
unfolding missing
missing-cons [] p src v m l = elim m [ ]
missing-cons (u ∷ us) p src v (Memᴰ.head e) l =
    let here : lookup u ((p, src) ∷ v) ≡ some src =
      subst (λ u. lookup u ((p, src) ∷ v) ≡ some src) e (lookup-head p src v) in
    let none_here : lookup u v ≡ none = subst (λ u. lookup u v ≡ none) e l in
    rw (here, none_here)
      (omega (arith, missing-Extends us v ((p, src) ∷ v) (Extends-cons p src v l)))
missing-cons (u ∷ us) p src v (Memᴰ.tail m) l = omega (
  arith,
  missing-cons us p src v m l,
  missing_one-Extends u v ((p, src) ∷ v) (Extends-cons p src v l),
)

missing-nil : (us : List Str) → missing us [] ≡ length us
unfolding missing lookup
missing-nil [] = refl
missing-nil (u ∷ us) = rw (missing-nil us) (omega arith)

starved : {A : Type 0} {P : A → Type 0} → Ensures (Unit {0}) P out_of_fuel → ⊥
starved h = elim h [ ]

Ensures-given :
    {A B : Type 0} {Q : B → Type 0} (r : Result A) {f : A → Result B}
    → r ≢ out_of_fuel
    → ((a : A) → r ≡ ok a → Ensures (Unit {0}) Q (f a))
    → Ensures (Unit {0}) Q (r >>= f)
Ensures-given (ok a) n k = k a refl
Ensures-given (err e) n k = raised
Ensures-given panic n k = panicked tt
Ensures-given out_of_fuel n k = elim (n refl) [ ]

module _ (reader : Reader) (named : List Str)
    (partials_end : (path src : Str) → reader.partials path src ≢ out_of_fuel)
    (source_ends : (path : Str) → reader.source path ≢ out_of_fuel)
    (partials-named : (path src : Str) (ps : List Str)
      → reader.partials path src ≡ ok ps
      → (q : Str) → Memᴰ q (reader.collect ps)
      → Memᴰ q named) where
  abbrev Ends : ℕ → (Str → Str → Sources → List ℕ → Result Sources) → Type 0
  Ends f deeper =
      (p src : Str) (v : Sources) (stack : List ℕ)
      → Memᴰ p named
      → lookup p v ≡ none
      → missing named v ≤ f
      → Ensures (Unit {0}) (Extends v) (deeper p src v stack)

  partial-Extends :
      (f : ℕ) (deeper : Str → Str → Sources → List ℕ → Result Sources) (stack : List ℕ)
      → Ends f deeper
      → (p : Str) (ps : List Str) → Memᴰ p named
      → ((w : Sources)
          → missing named w ≤ f
          → Ensures (Unit {0}) (Extends w) (read_partials reader deeper stack ps w))
      → (v : Sources) (o : Option Str) (c : Bool) → lookup p v ≡ o
      → missing named v ≤ f
      → Ensures (Unit {0}) (Extends v) (
          if is_some o
          then (if c then panic else read_partials reader deeper stack ps v)
          else (reader.source p >>= λ src.
              deeper p src v stack >>= read_partials reader deeper stack ps))
  partial-Extends f deeper stack ends p ps m rest v (some src) true l n = panicked tt
  partial-Extends f deeper stack ends p ps m rest v (some src) false l n = rest v n
  partial-Extends f deeper stack ends p ps m rest v none c l n =
      Ensures-given (reader.source p) (source_ends p) λ src _.
        Ensures-bind (ends p src v stack m l n) λ w e.
          Ensures-weaken (λ t. t) (λ x e' q s h. e' q s (e q s h))
            (rest w (omega (arith, n, missing-Extends named v w e)))

  read_partials-Extends :
      (f : ℕ) (deeper : Str → Str → Sources → List ℕ → Result Sources) (stack : List ℕ)
      → Ends f deeper
      → (ps : List Str) → ((q : Str) → Memᴰ q ps → Memᴰ q named)
      → (v : Sources) → missing named v ≤ f
      → Ensures (Unit {0}) (Extends v) (read_partials reader deeper stack ps v)
  unfolding read_partials
  read_partials-Extends f deeper stack ends [] k v n = holds (λ p src h. h)
  read_partials-Extends f deeper stack ends (p ∷ ps) k v n =
      partial-Extends f deeper stack ends p ps (k p (Memᴰ.head refl))
        (read_partials-Extends f deeper stack ends ps (λ q m. k q (Memᴰ.tail m))) v (lookup p v)
        (contains (reader.calculate_hash p) stack) refl n

  read_from-Ends : (f : ℕ) → Ends f (read_from reader f)
  unfolding read_from
  read_from-Ends zero p src v stack m l n =
      let k : ⊥ = omega (arith, missing-cons named p src v m l, n) in elim k [ ]
  read_from-Ends (suc f) p src v stack m l n =
      Ensures-given (reader.partials p src) (partials_end p src) λ ps e.
        Ensures-weaken (λ t. t) (λ w g q s h. g q s (Extends-cons p src v l q s h))
          (read_partials-Extends f (read_from reader f) (reader.calculate_hash p ∷ stack)
            (read_from-Ends f) (reader.collect ps) (partials-named p src ps e) ((p, src) ∷ v)
            (omega (arith, missing-cons named p src v m l, n)))

  read_ends :
      (f : ℕ) (path src : Str)
      → Memᴰ path named
      → length named ≤ f
      → read reader f path src ≢ out_of_fuel
  unfolding read lookup
  read_ends f path src m n e =
      let k = read_from-Ends f path src [] [] m refl (rw (missing-nil named) n) in
      starved (subst (Ensures (Unit {0}) (Extends [])) e k)

bind_ends :
    {A B : Type 0} (r : Result A) {f : A → Result B}
    → r ≢ out_of_fuel
    → ((a : A) → f a ≢ out_of_fuel)
    → (r >>= f) ≢ out_of_fuel
bind_ends (ok a) n k = k a
bind_ends (err e) n k = λ e. cc
bind_ends panic n k = λ e. cc
bind_ends out_of_fuel n k = λ e. n refl

ok_ends : {A : Type 0} {a : A} → ok a ≢ out_of_fuel
ok_ends e = cc

module _ (files : Files) where
  normalize_ends : (o : Option Str) → canonical files o ≢ out_of_fuel
  normalize_ends none e = cc
  normalize_ends (some p) e = cc

  dir_template_ends : (dir path : Str) → dir_template files dir path ≢ out_of_fuel
  unfolding dir_template
  dir_template_ends dir path = go (files.exists (files.join dir path))
    where
      go : (b : Bool) → (if b then ok (files.join dir path) else panic) ≢ out_of_fuel
      go true e = cc
      go false e = cc

  resolve_by_ends :
      (config : Config) (parent ident : Str) (o : Option Str)
      → resolve_by files config parent ident o ≢ out_of_fuel
  resolve_by_ends config parent ident (some buf) =
      bind_ends (dir_template files config.dir _) (dir_template_ends config.dir _)
        λ t. normalize_ends (files.canonicalize t)
  resolve_by_ends config parent ident none = normalize_ends (files.canonicalize _)

  source_of_ends : (o : Option Str) → source_of files o ≢ out_of_fuel
  source_of_ends none e = cc
  source_of_ends (some s) e = cc

module _ {Expr Local : Type 0} (syn : Syn Expr Local) (files : Files) (config : Config) where
  resolved_ends :
      (path : Str) (ps : List (Partial Expr)) → resolved syn files config path ps ≢ out_of_fuel
  unfolding resolved resolve_partial
  resolved_ends path [] = ok_ends
  resolved_ends path (p ∷ ps) =
      bind_ends (resolve_partial files config path p.path.t)
        (resolve_by_ends files config path p.path.t (find_alias files config.alias p.path.t))
        λ q. bind_ends (resolved syn files config path ps) (resolved_ends path ps) λ qs. ok_ends

  partials_of_ends : (path src : Str) → partials_of syn files config path src ≢ out_of_fuel
  unfolding partials_of
  partials_of_ends path src =
      bind_ends (parse_partials syn src) (parse_partials-ne-out_of_fuel syn src)
        (resolved_ends path)

  get_source_ends : (path : Str) → get_source files path ≢ out_of_fuel
  unfolding get_source
  get_source_ends path = source_of_ends files (files.read_to_string path)

  -- The program's `read` ends where the template and the partials of every text are among finitely
  -- many paths: as many units of fuel as there are paths are enough, whatever the texts and the
  -- hashes are.
  pub read-ne-out_of_fuel :
      (calculate_hash : Str → ℕ) (collect : List Str → List Str) (named : List Str)
      → ((path src : Str) (ps : List Str)
          → partials_of syn files config path src ≡ ok ps
          → (q : Str) → Memᴰ q (collect ps)
          → Memᴰ q named)
      → (f : ℕ) (path src : Str) → Memᴰ path named
      → length named ≤ f
      → read (reader_of syn files config calculate_hash collect) f path src ≢ out_of_fuel
  read-ne-out_of_fuel calculate_hash collect named k f path src m n =
      read_ends (reader_of syn files config calculate_hash collect) named partials_of_ends
        get_source_ends k f path src m n
