-- ===== src/Dom/Names.antt =====
-- Names of HTML, and the lists of names that yarte_dom/src/serializer.rs tests. `QualName`,
-- `LocalName` and the namespaces are markup5ever's; a local name is its text.
use yarte.Base.{Bool, true, false, ◌||◌, List, [], ◌∷◌, map, Str, str_eq, codes}

-- The namespaces that the serializer tells apart; `none_ns` is the empty one.
pub data Namespace : Type 0 where
  html mathml svg none_ns xml xmlns xlink other : Namespace

pub record QualName : Type 0 where
  pub ns : Namespace
  pub local : Str

abbrev pub is_html : Namespace → Bool
is_html html = true
is_html _ = false

abbrev pub one_of : Str → List Str → Bool
one_of s [] = false
one_of s (t ∷ ts) = str_eq s t || one_of s ts

-- The elements without children in `start_elem`.
abbrev pub void_names : List Str
void_names = map codes (
    "area" ∷ "base" ∷ "basefont" ∷ "bgsound" ∷ "br" ∷ "col" ∷ "embed" ∷ "frame" ∷ "hr" ∷ "img"
    ∷ "input" ∷ "keygen" ∷ "link" ∷ "meta" ∷ "param" ∷ "source" ∷ "track" ∷ "wbr" ∷ [])

-- The elements whose text is written as it is, in `write_text`.
abbrev pub verbatim_names : List Str
verbatim_names =
    map codes ("style" ∷ "script" ∷ "xmp" ∷ "iframe" ∷ "noembed" ∷ "noframes" ∷ "plaintext" ∷ [])

-- The elements around which white space is kept as one space, in `tag_whitespace`.
abbrev pub inline_names : List Str
inline_names = map codes (
    "a" ∷ "abbr" ∷ "b" ∷ "bdi" ∷ "bdo" ∷ "br" ∷ "cite" ∷ "code" ∷ "data" ∷ "del" ∷ "dfn" ∷ "em"
    ∷ "i" ∷ "input" ∷ "ins" ∷ "kbd" ∷ "mark" ∷ "q" ∷ "rp" ∷ "rt" ∷ "ruby" ∷ "s" ∷ "samp" ∷ "small"
    ∷ "span" ∷ "strong" ∷ "sub" ∷ "sup" ∷ "time" ∷ "u" ∷ "var" ∷ "wbr" ∷ [])
