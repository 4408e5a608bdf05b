-- ===== src/Config.antt =====
-- yarte_config/src/lib.rs: the directory of the templates, the aliases of partials, and the text of a
-- file. A path is its text; what std does with paths and files is the record `Files`.
use yarte.Base.{
  ℕ, suc, Bool, not, ◌||◌, ◌==◌, List, [], ◌∷◌, ◌++◌, Option, none, some, if◌then◌else◌, length,
  take, drop, Str, codes, str_eq, starts_with,
}
use yarte.Parser.Result.{Result, ok, panic, ◌>>=◌}
use yarte.Parser.Trim.{rposition}

-- `Path::extension`, `with_extension`, `PathBuf::pop`, `join`, `exists`, `canonicalize` and
-- `fs::read_to_string`.
pub record Files : Type 0 where
  pub extension : Str → Option Str
  pub with_extension : Str → Str → Str
  pub parent : Str → Str
  pub join : Str → Str → Str
  pub exists : Str → Bool
  pub canonicalize : Str → Option Str
  pub read_to_string : Str → Option Str

pub data PrintConfig : Type 0 where
  all ast code no_print : PrintConfig

-- `From` for `PrintConfig`.
unfoldable pub print_config : Option Str → PrintConfig
print_config none = no_print
print_config (some s) =
    if str_eq s (codes "all")
    then all
    else if str_eq s (codes "ast")
    then ast
    else if str_eq s (codes "code")
    then code
    else no_print

-- `Config`, whose aliases are in the order of their names.
pub record Config : Type 0 where
  pub dir : Str
  pub alias : List (Str × Str)
  pub print_override : PrintConfig

module _ (files : Files) where
  -- `normalize`, where the system is not Windows.
  abbrev pub canonical : Option Str → Result Str
  canonical none = panic
  canonical (some p) = ok p

  abbrev pub normalize : Str → Result Str
  normalize p = canonical (files.canonicalize p)

  -- `Dir::get_template`.
  unfoldable pub dir_template : Str → Str → Result Str
  dir_template dir path =
      let template = files.join dir path in if files.exists template then ok template else panic

  -- `u8::is_ascii_whitespace`.
  abbrev pub is_ascii_whitespace : ℕ → Bool
  is_ascii_whitespace c = c == 9 || c == 10 || c == 12 || c == 13 || c == 32

  -- `get_source`.
  abbrev pub drained : Str → Option ℕ → Str
  drained source (some j) = take (suc j) source
  drained source none = source

  abbrev pub source_of : Option Str → Result Str
  source_of none = panic
  source_of (some source) =
      ok (drained source (rposition (λ x. not (is_ascii_whitespace x)) source))

  unfoldable pub get_source : Str → Result Str
  get_source path = source_of (files.read_to_string path)

  -- `get_template`.
  unfoldable pub get_template : Config → Str → Result (Str × Str)
  unfolding dir_template get_source
  get_template config ident = do
    path ← dir_template config.dir ident
    src ← get_source path
    ok (path, src)

  -- The first alias that the name of a partial begins with, with the rest of the name.
  abbrev pub find_alias : List (Str × Str) → Str → Option Str
  find_alias [] ident = none
  find_alias ((k, v) ∷ alias) ident =
      if starts_with ident k then some (v ++ drop (length k) ident) else find_alias alias ident

  -- The path of a partial, with the extension of the file that names it if it has none.
  abbrev pub extended : Str → Str → Option Str → Option Str → Str
  extended parent buf (some _) ext = buf
  extended parent buf none (some ext) = files.with_extension buf ext
  extended parent buf none none = buf

  abbrev pub with_parent : Str → Str → Str
  with_parent parent buf = extended parent buf (files.extension buf) (files.extension parent)

  abbrev pub resolve_by : Config → Str → Str → Option Str → Result Str
  resolve_by config parent ident (some buf) = do
    template ← dir_template config.dir (with_parent parent buf)
    normalize template
  resolve_by config parent ident none =
      normalize (files.join (files.parent parent) (with_parent parent ident))

  -- `resolve_partial`.
  unfoldable pub resolve_partial : Config → Str → Str → Result Str
  unfolding dir_template
  resolve_partial config parent ident =
      resolve_by config parent ident (find_alias config.alias ident)
