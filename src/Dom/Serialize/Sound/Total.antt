-- ===== src/Dom/Serialize/Sound/Total.antt =====
-- The serialization ends without a panic on every tree whose texts are merged.
use yarte.Base.{
  Bool, true, false, List, [], ◌∷◌, ◌++◌, none, some, ◌⊎◌, inl, inr, ◌≡◌, refl, ap, ◌∙◌, Str, codes,
  if◌then◌else◌,
}
use yarte.Parser.Result.{Result, ok, panic, ◌>>=◌}
use yarte.Dom.Names.{QualName}
use yarte.Dom.Writer.{Serializer, ElemInfo, new, write}
use yarte.Dom.Serializer.{
  tag_whitespace, html_name, is_void, push_info, open_tag, close_tag, end_elem, is_some,
  write_comment, write_doctype, end,
}
use yarte.Dom.Sink.{mark_text}
use yarte.Dom.Serialize.{
  TreeElement, Trees, node, text, doctype, mark, nil, cons, serialize_element, serialize_nodes,
  serialize,
}
use yarte.Dom.Serialize.Sound.{
  start_elem-eq, end_elem-eq, write_text-ok, tag_whitespace-clean, open_tag-clean, close_tag-clean,
}

-- Whether white space may wait behind the element, given whether it may in front of it.
abbrev pub leaves : Bool → TreeElement → Bool
leaves waits (text _) = true
leaves waits doctype = waits
leaves waits (node _ _ _) = false
leaves waits (mark _) = false

-- No text and no doctype comes directly behind a text, and an element without content by its name
-- has no children.
unfoldable mutual
  pub ElementFits : Bool → TreeElement → Type 0
  ElementFits waits (node name attrs children) =
      ((is_void name ≡ false) ⊎ (children ≡ nil)) × NodesFit false children
  ElementFits waits (text _) = waits ≡ false
  ElementFits waits doctype = waits ≡ false
  ElementFits waits (mark _) = Unit

  pub NodesFit : Bool → Trees → Type 0
  NodesFit waits nil = Unit
  NodesFit waits (cons t ts) = ElementFits waits t × NodesFit (leaves waits t) ts

-- In an element with the stack `info ∷ stack`, no white space waits, unless `waits`.
record Ready (waits : Bool) (info : ElemInfo) (stack : List ElemInfo) (s : Serializer)
    : Type 0 where
  top : s.stack ≡ info ∷ stack
  clean : waits ≡ false → s.next_ws ≡ none

abbrev Goes : Bool → ElemInfo → List ElemInfo → Result Serializer → Type 0
Goes waits info stack r = (s : Serializer) × (r ≡ ok s) × Ready waits info stack s

-- The entry of an element on the stack.
abbrev entry : QualName → ElemInfo
entry name = record { html_name = html_name name; ignore_children = is_void name }

opened-Ready :
    (s : Serializer) (info : ElemInfo) (stack : List ElemInfo) (name : QualName)
    (attrs : List (QualName × Str))
    → s.stack ≡ info ∷ stack
    → Ready false
        (entry name)
        (info ∷ stack)
        (push_info (open_tag s name attrs) name (is_void name))
opened-Ready s info stack name attrs top =
    let (a, b) = open_tag-clean s name attrs in
    record { top = ap (λ st. entry name ∷ st) (a ∙ top); clean = λ _. b }

-- The end of an element whose children are written.
close-Goes :
    (s : Serializer) (info : ElemInfo) (stack : List ElemInfo) (name : QualName)
    → s.stack ≡ entry name ∷ (info ∷ stack)
    → Goes false info stack (end_elem (end s (some name)) name)
unfolding end
close-Goes s info stack name top =
    let s3 = tag_whitespace s name in
    let (a, b) = tag_whitespace-clean s name in
    let (c, d) = close_tag-clean (record s3 { stack = info ∷ stack }) (entry name) name b in
    (
      close_tag (record s3 { stack = info ∷ stack }) (entry name) name,
      end_elem-eq s3 (entry name) (info ∷ stack) (a ∙ top) name,
      record { top = c; clean = λ _. d },
    )

-- An element without content has none to write.
children-Goes :
    (children : Trees) (name : QualName) (s : Serializer) (stack : List ElemInfo)
    → (is_void name ≡ false) ⊎ (children ≡ nil)
    → s.stack ≡ entry name ∷ stack
    → (is_void name ≡ false
        → (s' : Serializer) × (serialize_nodes children s ≡ ok s')
          × (s'.stack ≡ entry name ∷ stack))
    → (s' : Serializer) × (serialize_nodes children s ≡ ok s') × (s'.stack ≡ entry name ∷ stack)
unfolding serialize_nodes
children-Goes children name s stack (inl v) top go = go v
children-Goes children name s stack (inr n) top go = (s, ap (λ c. serialize_nodes c s) n, top)

mutual
  unfolding serialize_element serialize_nodes ElementFits NodesFit write_comment write_doctype

  element-Goes :
      (t : TreeElement) (waits : Bool) (s : Serializer) (info : ElemInfo) (stack : List ElemInfo)
      → ElementFits waits t
      → info.ignore_children ≡ false
      → Ready waits info stack s
      → Goes (leaves waits t) info stack (serialize_element t s)
  element-Goes (node name attrs children) waits s info stack (content, fits) e ready =
      let s1 = push_info (open_tag s name attrs) name (is_void name) in
      let ready1 = opened-Ready s info stack name attrs ready.top in
      let (s2, p2, top2) =
        children-Goes children name s1 (info ∷ stack) content ready1.top
          (λ v. nodes-Goes children false s1 (entry name) (info ∷ stack) fits v ready1) in
      let (s4, p4, ready4) = close-Goes s2 info stack name top2 in
      (
        s4,
        ap (λ r. r >>= λ x. serialize_nodes children x >>= λ y. end_elem (end y (some name)) name)
              (start_elem-eq s info stack ready.top name attrs e)
            ∙ (ap (λ r. r >>= λ y. end_elem (end y (some name)) name) p2 ∙ p4),
        ready4,
      )
  element-Goes (text t) waits s info stack fits e ready =
      let (s', p, top) = write_text-ok s info stack ready.top t (ready.clean fits) in
      (s', p, record { top = top; clean = λ h. cc })
  element-Goes doctype waits s info stack fits e ready = (
    write s (codes "<!DOCTYPE " ++ (codes "html" ++ codes ">")),
    ap
        (λ w.
          if is_some w
          then panic
          else ok (write s (codes "<!DOCTYPE " ++ (codes "html" ++ codes ">"))))
        (ready.clean fits),
    record { top = ready.top; clean = ready.clean },
  )
  element-Goes (mark t) waits s info stack fits e ready =
      (write_comment s (mark_text ++ t), refl, record { top = ready.top; clean = λ _. refl })

  nodes-Goes :
      (ts : Trees) (waits : Bool) (s : Serializer) (info : ElemInfo) (stack : List ElemInfo)
      → NodesFit waits ts
      → info.ignore_children ≡ false
      → Ready waits info stack s
      → (s' : Serializer) × (serialize_nodes ts s ≡ ok s') × (s'.stack ≡ info ∷ stack)
  nodes-Goes nil waits s info stack fits e ready = (s, refl, ready.top)
  nodes-Goes (cons t ts) waits s info stack (fit, fits) e ready =
      let (s1, p1, ready1) = element-Goes t waits s info stack fit e ready in
      let (s2, p2, top2) = nodes-Goes ts (leaves waits t) s1 info stack fits e ready1 in
      (s2, ap (λ r. r >>= serialize_nodes ts) p1 ∙ p2, top2)

-- Let no text and no doctype among the nodes, nor among the children of an element, come directly
-- behind a text, and let the elements without content by their names have no children. Then the
-- serialization ends with a text, and does not panic.
pub serialize-ok :
    (ts : Trees) (wasm : Bool) → NodesFit false ts → (out : Str) × (serialize ts wasm ≡ ok out)
unfolding serialize new
serialize-ok ts wasm fits =
    let (s, p, top) =
      nodes-Goes ts false (new wasm) (record { html_name = none; ignore_children = false }) [] fits
        refl (record { top = refl; clean = λ _. refl }) in
    ((end s none).writer, ap (λ r. r >>= λ s. ok ((end s none).writer)) p)
