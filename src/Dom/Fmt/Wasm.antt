-- ===== src/Dom/Fmt/Wasm.antt =====
-- yarte_dom/src/dom_fmt.rs, `to_wasmfmt`: the form of a WebAssembly application, with the scripts that
-- keep and read its state in the head of the document.
mod Tests
use yarte.Base.{
  ℕ, zero, suc, Bool, true, false, List, [], ◌∷◌, ◌++◌, Option, none, some, Str, codes, str_eq,
  if◌then◌else◌, ◌≡◌, refl, ap,
}
use yarte.Parser.Result.{Result, ok, panic, ◌>>=◌}
use yarte.Dom.Names.{Namespace, none_ns, QualName}
use yarte.Dom.Sink.{ParseElement, node, text, document, Sink, get, insert}
use yarte.Hir.Generator.{Hir, Hirs}
use yarte.Hir.Yields.{Yields, yields, panicked, Yields-bind, Yields-then, Yields-ok}
use yarte.Dom.Fmt.{Html, head_mark, hash, tail_mark, get_html, serialize_domfmt, resolve_nodes}
use yarte.Dom.Fmt.Bare.{bare, serialize_domfmt-bare, resolve_nodes-AreNodes}

abbrev pub html_name : Str → QualName
html_name local = record { ns = Namespace.html; local = local }

-- Whether an element is a node with that local name.
abbrev pub has_local : Str → Option ParseElement → Bool
has_local local (some (node name _ _ _)) = str_eq name.local local
has_local local _ = false

-- The last of the children that is a `head`.
unfoldable pub last_head : Sink → List ℕ → Option ℕ → Option ℕ
last_head sink [] head = head
last_head sink (i ∷ is) head =
    last_head sink is (if has_local (codes "head") (get sink.nodes i) then some i else head)

abbrev pub head_of : Sink → Option ParseElement → Option ℕ
head_of sink (some (node name _ children _)) =
    if str_eq name.local (codes "html") then last_head sink children none else none
head_of sink _ = none

-- The `head` of a document, if it has one.
unfoldable pub find_head : Sink → List (ℕ × ParseElement) → Result (Option ℕ)
unfolding last_head
find_head sink ((_, document (c ∷ cs)) ∷ _) = ok (head_of sink (get sink.nodes c))
find_head sink _ = panic

-- `keys().last()`.
abbrev pub last_key : List (ℕ × ParseElement) → Result ℕ
last_key [] = panic
last_key ((k, _) ∷ []) = ok k
last_key (_ ∷ e ∷ es) = last_key (e ∷ es)

abbrev pub get_state : Str
get_state =
    codes "function get_state(){return JSON.stringify("
    ++ (head_mark ++ (hash ++ (tail_mark ++ codes ");}")))

abbrev pub init_text : Str → Str
init_text script =
    codes "import init from '" ++ (script ++ codes "';async function run(){await init()}run()")

-- The two scripts with their texts, at the keys from `k` on.
abbrev pub with_scripts : Str → ℕ → List (ℕ × ParseElement) → List (ℕ × ParseElement)
with_scripts script k nodes =
    let nodes = insert nodes k (text get_state) in
    let nodes = insert nodes (suc k) (node (html_name (codes "script")) [] (k ∷ []) none) in
    let nodes = insert nodes (suc (suc k)) (text (init_text script)) in
    insert nodes (suc (suc (suc k))) (
      node (html_name (codes "script"))
        ((record { ns = none_ns; local = codes "type" }, codes "module") ∷ []) (suc (suc k) ∷ [])
        none)

abbrev pub in_front : List ℕ → Option ParseElement → Result ParseElement
in_front cs (some (node name attrs children parent)) = ok (node name attrs (cs ++ children) parent)
in_front cs _ = panic

abbrev pub first_child : ℕ → List (ℕ × ParseElement) → Result (List (ℕ × ParseElement))
first_child c ((k, document children) ∷ nodes) = ok ((k, document (c ∷ children)) ∷ nodes)
first_child c _ = panic

-- The scripts go to the front of the `head`, or of a new one in front of the document's children.
abbrev pub place : Option ℕ → ℕ → List (ℕ × ParseElement) → Result (List (ℕ × ParseElement))
place (some head) k nodes = do
  e ← in_front (suc k ∷ suc (suc (suc k)) ∷ []) (get nodes head)
  ok (insert nodes head e)
place none k nodes =
    let head = suc (suc (suc (suc k))) in
    first_child head
      (insert nodes head (node (html_name (codes "head")) [] (suc k ∷ suc (suc (suc k)) ∷ []) none))

abbrev pub script_of : Option Str → Result Str
script_of none = panic
script_of (some script) = ok script

-- `add_scripts`, on the sink.
unfoldable pub add_scripts : Option Str → Sink → Result Sink
unfolding find_head
add_scripts script sink = do
  head ← find_head sink sink.nodes
  last ← last_key sink.nodes
  script ← script_of script
  nodes ← place head (suc last) (with_scripts script (suc last) sink.nodes)
  ok (record sink { nodes = nodes })

module _ {Expr Local : Type 0} (html : Html) (f : ℕ) (state : Expr) (script : Option Str) where
  -- `to_wasmfmt`; `state` is the expression of the state.
  abbrev pub wasm_by : Option Sink → Hirs Expr Local → Result (Hirs Expr Local)
  wasm_by (some sink) ir = do
    sink ← add_scripts script sink
    serialize_domfmt html f true (some sink)
        (resolve_nodes html f true (Hirs.cons (Hir.safe state) ir))
  wasm_by none ir =
      serialize_domfmt html f true (html.parse_fragment (get_html ir))
        (resolve_nodes html f true ir)

  unfoldable pub to_wasmfmt : Hirs Expr Local → Result (Hirs Expr Local)
  unfolding add_scripts
  to_wasmfmt ir = wasm_by (html.parse_document (get_html ir)) ir

  -- What the form of an application is to hold: the state first, where it is a document.
  abbrev pub with_state : Option Sink → Hirs Expr Local → Hirs Expr Local
  with_state (some sink) ir = Hirs.cons (Hir.safe state) ir
  with_state none ir = ir

  wasm_by-bare :
      (o : Option Sink) (ir : Hirs Expr Local)
      → Yields (λ out. bare out ≡ bare (with_state o ir)) (wasm_by o ir)
  wasm_by-bare (some sink) ir = Yields-then (add_scripts script sink) λ s.
      serialize_domfmt-bare html f true _ _ _
        (resolve_nodes-AreNodes html f true (Hirs.cons (Hir.safe state) ir))
  wasm_by-bare none ir =
      serialize_domfmt-bare html f true _ _ _ (resolve_nodes-AreNodes html f true ir)

  -- The form of an application that is returned has the expressions, declarations, loops and
  -- conditions of the form that was given, in their order and at every depth; where the text is a
  -- document the expression of the state is in front of them, wherever the marks of the others stand.
  pub to_wasmfmt-bare :
      (ir out : Hirs Expr Local)
      → to_wasmfmt ir ≡ ok out
      → bare out ≡ bare (with_state (html.parse_document (get_html ir)) ir)
  unfolding to_wasmfmt
  to_wasmfmt-bare ir out e = Yields-ok (wasm_by-bare (html.parse_document (get_html ir)) ir) e
