-- ===== src/Dom/Fmt.antt =====
-- yarte_dom/src/dom_fmt.rs: the intermediate form is written as HTML with marks in place of what is no
-- literal, parsed, written again, and taken apart at the marks. html5ever is a parameter, and one
-- unit of fuel is for each level of a tree. An `Err` is a panic here, since `From` expects none.
pub mod Bare
pub mod Wasm
mod Tests
use yarte.Base.{
  ℕ, zero, suc, ◌-◌, ltb, Bool, true, false, not, List, [], ◌∷◌, ◌++◌, Option, none, some, Str,
  codes, length, drop, starts_with, if◌then◌else◌,
}
use yarte.Parser.Result.{Result, ok, panic, ◌>>=◌}
use yarte.Parser.Cursor.{is_empty}
use yarte.Dom.Sink.{Sink}
use yarte.Dom.Tree.{from}
use yarte.Dom.Serialize.{serialize}
use yarte.Hir.Generator.{Hir, Hirs, IfElses, no_more, more, Els, no_els, els, push, push_lit}

-- `HEAD`, `HASH` and `TAIL`.
abbrev pub head_mark : Str
head_mark = codes "<!--yarteHashHTMLExpressionsATTT"

abbrev pub hash : Str
hash = codes "0x00000000"

abbrev pub tail_mark : Str
tail_mark = codes "-->"

-- `parse_document` and `parse_fragment` of sink.rs.
pub record Html : Type 0 where
  pub parse_document : Str → Option Sink
  pub parse_fragment : Str → Option Sink

-- `str::split` at a text that is not empty, behind the part `chunk`; `left` characters belong to the text that was found.
unfoldable pub split_from : Str → Str → ℕ → Str → List Str
split_from sep chunk left [] = chunk ∷ []
split_from sep chunk (suc left) (c ∷ s) = split_from sep chunk left s
split_from sep chunk zero (c ∷ s) =
    let found = split_from sep [] (length sep - 1) s in
    let other = split_from sep (chunk ++ c ∷ []) zero s in
    if starts_with (c ∷ s) sep then chunk ∷ found else other

-- The chunks, without the first where that is empty.
abbrev pub skip_first : List Str → List Str
skip_first ([] ∷ cs) = cs
skip_first cs = cs

abbrev pub or_fragment : Option Sink → Option Sink → Option Sink
or_fragment (some sink) other = some sink
or_fragment none other = other

module _ {Expr Local : Type 0} where
  -- `get_html`.
  unfoldable pub get_html : Hirs Expr Local → Str
  get_html Hirs.nil = []
  get_html (Hirs.cons (Hir.lit s) hs) = s ++ get_html hs
  get_html (Hirs.cons h hs) = head_mark ++ (hash ++ (tail_mark ++ get_html hs))

  -- A chunk that begins with a mark: what stands for the mark, and the literal behind it.
  abbrev pub at_mark : Str → Result (Hir Expr Local) → Hirs Expr Local → Result (Hirs Expr Local)
  at_mark chunk node buff = do
    h ← node
    (if ltb (length chunk) 13 then panic else ok (push_lit (push buff h) (drop 13 chunk)))

  -- The loop over the chunks; `nodes` is what `resolve_node` makes of the form, without its literals.
  unfoldable pub fill :
      List Str → List (Result (Hir Expr Local)) → Hirs Expr Local → Result (Hirs Expr Local)
  fill [] [] buff = ok buff
  fill [] (n ∷ nodes) buff = panic
  fill (chunk ∷ chunks) [] buff =
      let rest = fill chunks [] (push buff (Hir.lit chunk)) in
      if is_empty chunk then panic else if starts_with chunk hash then panic else rest
  fill (chunk ∷ chunks) (n ∷ nodes) buff =
      let rest = fill chunks (n ∷ nodes) (push buff (Hir.lit chunk)) in
      let next = at_mark chunk n buff >>= fill chunks nodes in
      if is_empty chunk then panic else if starts_with chunk hash then next else rest

  module _ (html : Html) (f : ℕ) where
    -- `serialize_domfmt`.
    unfoldable pub serialize_domfmt :
        Bool → Option Sink → List (Result (Hir Expr Local)) → Result (Hirs Expr Local)
    unfolding fill split_from
    serialize_domfmt wasm none nodes = panic
    serialize_domfmt wasm (some sink) nodes = do
      tree ← from f sink
      written ← serialize tree wasm
      fill (skip_first (split_from head_mark [] 0 written)) nodes Hirs.nil

    module _ (wasm : Bool) where
      -- `to_domfmt`, on what is made of its nodes.
      abbrev pub fragment_of :
          Hirs Expr Local → List (Result (Hir Expr Local)) → Result (Hirs Expr Local)
      fragment_of ir nodes = serialize_domfmt wasm (html.parse_fragment (get_html ir)) nodes

      unfoldable mutual
        -- `resolve_node` at all that is no literal.
        pub resolve_nodes : Hirs Expr Local → List (Result (Hir Expr Local))
        resolve_nodes Hirs.nil = []
        resolve_nodes (Hirs.cons (Hir.lit s) hs) = resolve_nodes hs
        resolve_nodes (Hirs.cons h hs) = resolve_node h ∷ resolve_nodes hs

        pub resolve_node : Hir Expr Local → Result (Hir Expr Local)
        resolve_node (Hir.each args body e) = do
          body ← fragment_of body (resolve_nodes body)
          ok (Hir.each args body e)
        resolve_node (Hir.if_else cond body ifs block) = do
          ifs ← resolve_ifs ifs
          otherwise ← resolve_els block
          body ← fragment_of body (resolve_nodes body)
          ok (Hir.if_else cond body ifs otherwise)
        resolve_node (Hir.lit s) = panic
        resolve_node (Hir.expr e) = ok (Hir.expr e)
        resolve_node (Hir.safe e) = ok (Hir.safe e)
        resolve_node (Hir.local e) = ok (Hir.local e)

        pub resolve_ifs : IfElses Expr Local → Result (IfElses Expr Local)
        resolve_ifs no_more = ok no_more
        resolve_ifs (more cond body ifs) = do
          body ← fragment_of body (resolve_nodes body)
          ifs ← resolve_ifs ifs
          ok (more cond body ifs)

        pub resolve_els : Els Expr Local → Result (Els Expr Local)
        resolve_els no_els = ok no_els
        resolve_els (els body) = do body ← fragment_of body (resolve_nodes body); ok (els body)

      -- `to_domfmt`.
      unfoldable pub to_domfmt : Hirs Expr Local → Result (Hirs Expr Local)
      unfolding get_html serialize_domfmt resolve_nodes
      to_domfmt ir = fragment_of ir (resolve_nodes ir)

    -- `to_domfmt_init`, which `From` calls.
    unfoldable pub to_domfmt_init : Hirs Expr Local → Result (Hirs Expr Local)
    unfolding get_html serialize_domfmt resolve_nodes
    to_domfmt_init ir =
        serialize_domfmt false
          (or_fragment (html.parse_document (get_html ir)) (html.parse_fragment (get_html ir)))
          (resolve_nodes false ir)
