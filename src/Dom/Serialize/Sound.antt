-- ===== src/Dom/Serialize/Sound.antt =====
-- What each call of the serializer keeps of its state.
pub mod Total
use yarte.Base.{
  ℕ, Bool, true, false, not, ◌&&◌, List, [], ◌∷◌, ◌++◌, Option, none, some, ◌⊎◌, inl, inr, ◌≡◌,
  refl, sym, ap, ◌∙◌, arith, if◌then◌else◌, Bool-cases, Str, codes, starts_with,
}
use yarte.Parser.Result.{Result, ok, panic, ◌>>=◌}
use yarte.Parser.Cursor.{is_empty}
use yarte.Parser.Trim.{trim}
use yarte.Parser.Trim.Sound.{trim-IsTrim}
use yarte.Dom.Names.{QualName, one_of, inline_names, verbatim_names}
use yarte.Dom.Writer.{Serializer, ElemInfo, new, write, write_escaped, escape_char, is_nbsp}
use yarte.Dom.Serializer.{
  parent, tag_whitespace, write_attr, write_attrs, attr_prefix, last_info, close_last, html_name,
  is_void, push_info, open_tag, start_elem, close_tag, end_elem, is_some, named_one_of,
  text_whitespace, minify, spaced, write_body, write_in, write_text, write_comment, write_doctype,
  end,
}
use yarte.Dom.Serialize.{
  TreeElement, Trees, node, text, doctype, mark, nil, cons, serialize_element, serialize_nodes,
  serialize,
}

-- Nothing but the output differs.
abbrev Writes : Serializer → Serializer → Type 0
Writes s s' = (s'.stack ≡ s.stack) × (s'.next_ws ≡ s.next_ws)

write_escaped-Writes :
    (t : Str) (s : Serializer) (attr_mode : Bool) → Writes s (write_escaped s t attr_mode)
unfolding write_escaped
write_escaped-Writes [] s attr_mode = (refl, refl)
write_escaped-Writes (c ∷ []) s attr_mode = (refl, refl)
write_escaped-Writes (c ∷ d ∷ t) s attr_mode = elim (Bool-cases (is_nbsp c d)) [
  | inl e ↦ rw (write_escaped, e) (write_escaped-Writes t (write s (codes "&nbsp;")) attr_mode)
  | inr e ↦
      rw (write_escaped, e)
        (write_escaped-Writes (d ∷ t) (write s (escape_char attr_mode c)) attr_mode)
]

write_attr-Writes :
    (s : Serializer) (name : QualName) (value : Str) → Writes s (write_attr s name value)
unfolding write_attr
write_attr-Writes s name [] = (refl, refl)
write_attr-Writes s name (c ∷ value) =
    write_escaped-Writes (c ∷ value)
      (write (write (write (write s (codes " ")) (attr_prefix name.ns name.local)) name.local)
        (codes "=\""))
      true

write_attrs-Writes :
    (attrs : List (QualName × Str)) (s : Serializer) → Writes s (write_attrs s attrs)
unfolding write_attrs
write_attrs-Writes [] s = (refl, refl)
write_attrs-Writes ((name, value) ∷ attrs) s =
    elim (Bool-cases (s.wasm && starts_with name.local (codes "on"))) [
      | inl e ↦ rw (write_attrs, e) (write_attrs-Writes attrs s)
      | inr e ↦
          rw (write_attrs, e)
            (let (a, b) = write_attrs-Writes attrs (write_attr s name value) in
              let (c, d) = write_attr-Writes s name value in (a ∙ c, b ∙ d))
    ]

pub tag_whitespace-clean :
    (s : Serializer) (name : QualName)
    → ((tag_whitespace s name).stack ≡ s.stack) × ((tag_whitespace s name).next_ws ≡ none)
unfolding tag_whitespace
tag_whitespace-clean s name = elim (Bool-cases (one_of name.local inline_names)) [
  | inl e ↦ rw e (refl, refl)
  | inr e ↦ rw e (refl, refl)
]

pub open_tag-clean :
    (s : Serializer) (name : QualName) (attrs : List (QualName × Str))
    → ((open_tag s name attrs).stack ≡ s.stack) × ((open_tag s name attrs).next_ws ≡ none)
unfolding open_tag
open_tag-clean s name attrs =
    let begun = write (write (tag_whitespace s name) (codes "<")) name.local in
    let (a, b) = write_attrs-Writes attrs begun in
    let (c, d) = tag_whitespace-clean s name in (a ∙ c, b ∙ d)

pub close_tag-clean :
    (s : Serializer) (info : ElemInfo) (name : QualName)
    → s.next_ws ≡ none
    → ((close_tag s info name).stack ≡ s.stack) × ((close_tag s info name).next_ws ≡ none)
unfolding close_tag
close_tag-clean s info name e = elim (Bool-cases info.ignore_children) [
  | inl i ↦ rw i (refl, e)
  | inr i ↦ rw i (tag_whitespace-clean s name)
]

text_whitespace-stack : (s : Serializer) (l v r : Str) → (text_whitespace s l v r).0.stack ≡ s.stack
unfolding text_whitespace
text_whitespace-stack s l v r = elim (Bool-cases (not (is_empty l) && (is_empty v && is_empty r))) [
  | inl e ↦ rw e refl
  | inr e ↦ rw e refl
]

spaced-ok :
    (info : ElemInfo) (s : Serializer) (t : Str)
    → (s' : Serializer) × (v : Str) × (spaced info s t ≡ ok (s', v)) × (s'.stack ≡ s.stack)
unfolding spaced minify
spaced-ok info s t =
    elim (Bool-cases (named_one_of info.html_name (codes "pre" ∷ codes "listing" ∷ []))) [
      | inl e ↦ (record s { skip_ws = none; next_ws = none }, t, rw e refl, refl)
      | inr e ↦
          (let (l, v, r, p, _) = trim-IsTrim t in
            let out = text_whitespace s l v r in
            (out.0, out.1, rw (e, p) refl, text_whitespace-stack s l v r))
    ]

write_body-stack :
    (info : ElemInfo) (s : Serializer) (v : Str) → (write_body info s v).stack ≡ s.stack
unfolding write_body
write_body-stack info s v = elim (Bool-cases (named_one_of info.html_name verbatim_names)) [
  | inl e ↦ rw e refl
  | inr e ↦ rw e ((write_escaped-Writes v s false).0)
]

module _ (s : Serializer) (info : ElemInfo) (stack : List ElemInfo)
    (top : s.stack ≡ info ∷ stack) where
  pub start_elem-eq :
      (name : QualName) (attrs : List (QualName × Str))
      → info.ignore_children ≡ false
      → start_elem s name attrs ≡ ok (push_info (open_tag s name attrs) name (is_void name))
  unfolding start_elem parent
  start_elem-eq name attrs e =
      ap
        (λ st. last_info st >>= λ i. ok (
          if i.ignore_children
          then push_info s name true
          else push_info (open_tag s name attrs) name (is_void name)))
        top
      ∙ rw e refl

  pub end_elem-eq :
      (name : QualName) → end_elem s name ≡ ok (close_tag (record s { stack = stack }) info name)
  unfolding end_elem close_last
  end_elem-eq name = ap (λ st. close_last s st name) top

  pub write_text-ok :
      (t : Str)
      → s.next_ws ≡ none
      → (s' : Serializer) × (write_text s t ≡ ok s') × (s'.stack ≡ info ∷ stack)
  unfolding write_text parent write_in
  write_text-ok t e =
      let (s', v, p, k) = spaced-ok info s t in
      (
        write_body info s' v,
        ap (λ w. if is_some w then panic else (last_info s.stack >>= write_in s t)) e
            ∙ (ap (λ st. last_info st >>= write_in s t) top
                ∙ ap (λ r. r >>= λ x. ok (write_body info x.0 x.1)) p),
        write_body-stack info s' v ∙ (k ∙ top),
      )
