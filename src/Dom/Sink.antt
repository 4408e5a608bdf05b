-- ===== src/Dom/Sink.antt =====
-- yarte_dom/src/sink.rs: the map of the nodes that the HTML parser makes, and the calls that make
-- them. The map is a list of pairs in the order of their keys.
use yarte.Base.{
  ℕ, suc, Bool, not, List, [], ◌∷◌, ◌++◌, Option, none, some, ltb, ◌==◌, if◌then◌else◌, Str, codes,
  str_eq, starts_with, drop, length, ◌&&◌, ◌||◌, ◌⊎◌, inl, inr,
}
use yarte.Parser.Result.{Result, ok, panic, ◌>>=◌}
use yarte.Dom.Names.{QualName, is_html}

pub record ParseNode : Type 0 where
  pub id : ℕ
  pub qual_name : Option QualName

-- An attribute, `ParseAttribute`, is the pair of its name and its value.
pub data ParseElement : Type 0 where
  mark : Str → ParseElement
  node : QualName → List (QualName × Str) → List ℕ → Option ℕ → ParseElement
  text : Str → ParseElement
  document : List ℕ → ParseElement

pub record Sink : Type 0 where
  pub count : ℕ
  pub nodes : List (ℕ × ParseElement)
  pub fragment : Bool
  pub err : List Str

-- `BTreeMap::get`.
abbrev pub get : List (ℕ × ParseElement) → ℕ → Option ParseElement
get [] id = none
get ((k, e) ∷ nodes) id = if k == id then some e else get nodes id

-- `BTreeMap::insert`.
abbrev pub insert : List (ℕ × ParseElement) → ℕ → ParseElement → List (ℕ × ParseElement)
insert [] id e = (id, e) ∷ []
insert ((k, d) ∷ nodes) id e =
    let rest = insert nodes id e in
    if k == id
    then (id, e) ∷ nodes
    else if ltb id k
    then (id, e) ∷ (k, d) ∷ nodes
    else (k, d) ∷ rest

-- `YARTE_TAG` of yarte_dom/src/tree_builder/mod.rs.
abbrev pub is_yarte_tag : QualName → Bool
is_yarte_tag name = is_html name.ns && str_eq name.local (codes "marquee")

-- `new_parse_node`.
abbrev pub new_parse_node : Sink → Sink × ParseNode
new_parse_node s = (record s { count = suc s.count }, record { id = s.count; qual_name = none })

-- `get_document`.
unfoldable pub get_document : Sink → Sink × ParseNode
get_document s = let (s, n) = new_parse_node s in (record s { fragment = not (n.id == 0) }, n)

-- `create_element`.
unfoldable pub create_element : Sink → QualName → List (QualName × Str) → Sink × ParseNode
create_element s name attrs =
    let (s, n) = new_parse_node s in
    (
      record s { nodes = insert s.nodes n.id (node name attrs [] none) },
      record n { qual_name = some name },
    )

-- `parse_error` and `finish`.
abbrev pub parse_error : Sink → Str → Sink
parse_error s msg = record s { err = s.err ++ msg ∷ [] }

abbrev pub finish : Sink → Sink ⊎ List Str
finish s = elim s.err [ [] ↦ inl s | e ∷ es ↦ inr (e ∷ es) ]

pub data NodeOrText : Type 0 where
  append_node : ParseNode → NodeOrText
  append_text : Str → NodeOrText

-- The element with the parent `p`, where it takes one, for the arm of `append_child` for a node.
abbrev pub with_parent : ℕ → Option ParseElement → Option ParseElement
with_parent p (some (node name attrs children parent)) =
    some (node name attrs children (if is_yarte_tag name then parent else some p))
with_parent p (some (mark s)) = some (mark s)
with_parent p _ = none

-- `append_child`: the sink and the child's id.
unfoldable pub append_child : Sink → ℕ → NodeOrText → Result (Sink × ℕ)
append_child s p (append_node n) = elim (with_parent p (get s.nodes n.id)) [
  | none ↦ panic
  | some e ↦ ok (record s { nodes = insert s.nodes n.id e }, n.id)
]
append_child s p (append_text t) =
    ok (record s { count = suc s.count; nodes = insert s.nodes s.count (text t) }, s.count)

-- `MARK`.
abbrev pub mark_text : Str
mark_text = codes "yarteHashHTMLExpressionsATTT"

-- `create_comment`.
unfoldable pub create_comment : Sink → Str → Sink × ParseNode
create_comment s t =
    let (s, n) = new_parse_node s in
    if starts_with t mark_text
    then (record s { nodes = insert s.nodes n.id (mark (drop (length mark_text) t)) }, n)
    else (parse_error s (codes "No use html comment, use yarte comments instead"), n)

-- The parent with one more child, where it takes children.
abbrev pub with_child : ℕ → Option ParseElement → Option ParseElement
with_child id (some (document children)) = some (document (children ++ id ∷ []))
with_child id (some (node name attrs children parent)) =
    some (node name attrs (children ++ id ∷ []) parent)
with_child id _ = none

-- `append`.
unfoldable pub append : Sink → ParseNode → NodeOrText → Result Sink
unfolding append_child
append s p child = do
  (s, id) ← append_child s p.id child
  elim (with_child id (get s.nodes p.id)) [
    | some e ↦ ok (record s { nodes = insert s.nodes p.id e })
    | none ↦ if p.id == 0 || s.fragment then ok s else panic
  ]

-- `append_doctype_to_document`.
unfoldable pub append_doctype_to_document : Sink → Result Sink
append_doctype_to_document s = elim (get s.nodes 0) [
  | none ↦ ok (record s { nodes = insert s.nodes 0 (document []) })
  | some _ ↦ panic
]
