-- ===== src/Dom/Serializer.antt =====
-- yarte_dom/src/serializer.rs: the calls of an HTML serializer that minifies white space.
use yarte.Base.{
  Bool, true, false, not, ◌&&◌, List, [], ◌∷◌, ◌++◌, Option, none, some, if◌then◌else◌, Str, codes,
  str_eq, starts_with,
}
use yarte.Parser.Result.{Result, ok, panic, ◌>>=◌}
use yarte.Parser.Cursor.{is_empty}
use yarte.Parser.Trim.{trim}
use yarte.Dom.Writer.{ElemInfo, Skip, skip, collapse, Serializer, write, write_escaped}
use yarte.Dom.Names.{
  Namespace, none_ns, xml, xmlns, xlink, QualName, is_html, one_of, void_names, verbatim_names,
  inline_names,
}

abbrev pub last_info : List ElemInfo → Result ElemInfo
last_info [] = panic
last_info (info ∷ _) = ok info

-- `parent`.
unfoldable pub parent : Serializer → Result ElemInfo
parent s = last_info s.stack

-- What is written for white space in front of an inline tag.
abbrev pub inline_space : Option Skip → Option Str → Str
inline_space _ none = []
inline_space (some skip) (some text) = []
inline_space (some collapse) (some text) = if is_empty text then [] else codes " "
inline_space none (some text) = if is_empty text then [] else codes " "

-- `tag_whitespace`.
unfoldable pub tag_whitespace : Serializer → QualName → Serializer
tag_whitespace s name =
    if one_of name.local inline_names
    then record s {
      writer = s.writer ++ inline_space s.skip_ws s.next_ws;
      skip_ws = some collapse;
      next_ws = none;
    }
    else record s { skip_ws = some skip; next_ws = none }

-- The prefix of an attribute's name.
abbrev pub attr_prefix : Namespace → Str → Str
attr_prefix none_ns local = []
attr_prefix xml local = codes "xml:"
attr_prefix xmlns local = if str_eq local (codes "xmlns") then [] else codes "xmlns:"
attr_prefix xlink local = codes "xlink:"
attr_prefix _ local = codes "unknown_namespace:"

unfoldable pub write_attr : Serializer → QualName → Str → Serializer
unfolding write_escaped
write_attr s name value =
    let named = write (write (write s (codes " ")) (attr_prefix name.ns name.local)) name.local in
    if is_empty value
    then named
    else write (write_escaped (write named (codes "=\"")) value true) (codes "\"")

-- The loop over the attributes in `start_elem`.
unfoldable pub write_attrs : Serializer → List (QualName × Str) → Serializer
unfolding write_attr
write_attrs s [] = s
write_attrs s ((name, value) ∷ attrs) =
    write_attrs
      (if s.wasm && starts_with name.local (codes "on") then s else write_attr s name value) attrs

abbrev pub html_name : QualName → Option Str
html_name name = if is_html name.ns then some name.local else none

abbrev pub is_void : QualName → Bool
is_void name = is_html name.ns && one_of name.local void_names

abbrev pub push_info : Serializer → QualName → Bool → Serializer
push_info s name ignore = record s {
  stack = record { html_name = html_name name; ignore_children = ignore } ∷ s.stack;
}

-- `start_elem` where the parent takes children: the tag.
unfoldable pub open_tag : Serializer → QualName → List (QualName × Str) → Serializer
unfolding tag_whitespace write_attrs
open_tag s name attrs =
    let begun = write (write (tag_whitespace s name) (codes "<")) name.local in
    write (write_attrs begun attrs) (codes ">")

-- `start_elem`.
unfoldable pub start_elem : Serializer → QualName → List (QualName × Str) → Result Serializer
unfolding parent open_tag
start_elem s name attrs = do
  info ← parent s
  ok (
      if info.ignore_children
      then push_info s name true
      else push_info (open_tag s name attrs) name (is_void name))

-- `end_elem`, on the entry taken from the stack.
unfoldable pub close_tag : Serializer → ElemInfo → QualName → Serializer
unfolding tag_whitespace
close_tag s info name =
    if info.ignore_children
    then s
    else write (write (write (tag_whitespace s name) (codes "</")) name.local) (codes ">")

unfoldable pub close_last : Serializer → List ElemInfo → QualName → Result Serializer
unfolding close_tag
close_last s [] name = panic
close_last s (info ∷ stack) name = ok (close_tag (record s { stack = stack }) info name)

unfoldable pub end_elem : Serializer → QualName → Result Serializer
unfolding close_last
end_elem s name = close_last s s.stack name

abbrev pub is_some : {A : Type 0} → Option A → Bool
is_some none = false
is_some (some _) = true

abbrev pub named_one_of : Option Str → List Str → Bool
named_one_of none names = false
named_one_of (some name) names = one_of name names

-- What is written for the white space in front of a text.
abbrev pub leading : Option Skip → Str → Str
leading (some collapse) l = if is_empty l then [] else codes " "
leading (some skip) l = []
leading none l = l

-- The white space of a text that is split into `l`, `v` and `r`: the state and the text to write.
unfoldable pub text_whitespace : Serializer → Str → Str → Str → Serializer × Str
text_whitespace s l v r =
    if not (is_empty l) && (is_empty v && is_empty r) then (record s { next_ws = some l }, v) else (
      record s {
        writer = s.writer ++ leading s.skip_ws l;
        skip_ws = none;
        next_ws = if is_empty r then none else some r;
      },
      v,
    )

unfoldable pub minify : Serializer → Str → Result (Serializer × Str)
unfolding text_whitespace
minify s text = do (l, v, r) ← trim text; ok (text_whitespace s l v r)

-- `write_text` in an element: what the white space of the text becomes.
unfoldable pub spaced : ElemInfo → Serializer → Str → Result (Serializer × Str)
unfolding minify
spaced info s text =
    if named_one_of info.html_name (codes "pre" ∷ codes "listing" ∷ [])
    then ok (record s { skip_ws = none; next_ws = none }, text)
    else minify s text

-- `write_text` in an element: the text itself.
unfoldable pub write_body : ElemInfo → Serializer → Str → Serializer
unfolding write_escaped
write_body info s v =
    if named_one_of info.html_name verbatim_names then write s v else write_escaped s v false

unfoldable pub write_in : Serializer → Str → ElemInfo → Result Serializer
unfolding spaced write_body
write_in s text info = do (s, v) ← spaced info s text; ok (write_body info s v)

-- `write_text`.
unfoldable pub write_text : Serializer → Str → Result Serializer
unfolding parent write_in
write_text s text = if is_some s.next_ws then panic else (parent s >>= write_in s text)

-- What stands for the white space that waits, in front of a comment or of the end.
abbrev pub waiting : Option Skip → Option Str → Str
waiting _ none = []
waiting (some collapse) (some text) = codes " "
waiting none (some text) = text
waiting (some skip) (some text) = []

-- `write_comment`.
unfoldable pub write_comment : Serializer → Str → Serializer
write_comment s text = record s {
  writer = s.writer ++ (waiting s.skip_ws s.next_ws ++ (codes "<!--" ++ (text ++ codes "-->")));
  skip_ws = none;
  next_ws = none;
}

-- `write_doctype`.
unfoldable pub write_doctype : Serializer → Str → Result Serializer
write_doctype s name =
    if is_some s.next_ws then panic else ok (write s (codes "<!DOCTYPE " ++ (name ++ codes ">")))

-- `end`.
unfoldable pub end : Serializer → Option QualName → Serializer
unfolding tag_whitespace
end s (some name) = tag_whitespace s name
end s none = record s { writer = s.writer ++ waiting s.skip_ws s.next_ws; next_ws = none }
