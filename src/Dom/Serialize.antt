-- ===== src/Dom/Serialize.antt =====
-- yarte_dom/src/serialize.rs: a tree of HTML, and its serialization.
pub mod Sound
mod Tests
use yarte.Base.{Bool, List, [], ◌∷◌, ◌++◌, Option, none, some, Str, codes}
use yarte.Parser.Result.{Result, ok, ◌>>=◌}
use yarte.Dom.Names.{QualName}
use yarte.Dom.Writer.{Serializer, new}
use yarte.Dom.Sink.{mark_text}
use yarte.Dom.Serializer.{start_elem, end_elem, write_text, write_comment, write_doctype, end}

-- `TreeElement`, and `Vec<TreeElement>`.
mutual
  pub data TreeElement : Type 0 where
    node : QualName → List (QualName × Str) → Trees → TreeElement
    text : Str → TreeElement
    doctype : TreeElement
    mark : Str → TreeElement

  pub data Trees : Type 0 where
    nil : Trees
    cons : TreeElement → Trees → Trees

unfoldable mutual
  pub serialize_element : TreeElement → Serializer → Result Serializer
  serialize_element (node name attrs children) s = start_elem s name attrs >>= λ s.
      serialize_nodes children s >>= λ s. end_elem (end s (some name)) name
  serialize_element (text t) s = write_text s t
  serialize_element doctype s = write_doctype s (codes "html")
  serialize_element (mark t) s = ok (write_comment s (mark_text ++ t))

  -- The loop of `_serialize`.
  pub serialize_nodes : Trees → Serializer → Result Serializer
  serialize_nodes nil s = ok s
  serialize_nodes (cons t ts) s = serialize_element t s >>= serialize_nodes ts

-- `Tree::serialize` and `serialize`.
unfoldable pub serialize : Trees → Bool → Result Str
serialize nodes wasm = do
  s ← serialize_nodes nodes (new wasm)
  let done = end s none
  ok done.writer
