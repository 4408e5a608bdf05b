-- ===== src/Hir/Meaning.antt =====
-- What a template renders, and what the intermediate form renders, over the values that the
-- expressions have at run time. yarte_hir/src/lib.rs is to turn the one into the other.
pub mod Simple
pub mod Pending
pub mod Steps
pub mod Values
pub mod Bodies
pub mod Chains
pub mod Ifs
pub mod Walk
pub mod Preserved
pub mod Constant
pub mod Chosen
use yarte.Base.{Bool, true, false, List, [], ◌∷◌, ◌++◌, Option, none, some, Str, if◌then◌else◌}
use yarte.Parser.Cursor.{is_empty}
use yarte.Parser.Syntax.{
  Node, Nodes, Helper, Branches, no_branch, branch, Else, no_else, else_block,
}
use yarte.Hir.Generator.{Hir, Hirs, IfElses, no_more, more, Els, no_els, els}

-- Whether a condition holds, and the text of an expression, escaped or, behind a flag, safe.
pub record Run (Expr : Type 0) : Type 0 where
  pub truth : Expr → Bool
  pub text : Expr → Bool → Str

module _ {Expr Local : Type 0} where
  -- The white space at the end of a node that only what follows can write, and that of a template
  -- in front of which `w` waits.
  abbrev pub trailing_node : Node Expr Local → Str
  trailing_node (Node.lit l s r) = if is_empty s.t then l else r
  trailing_node _ = []

  unfoldable pub trailing : Str → Nodes Expr Local → Str
  trailing w Nodes.nil = w
  trailing w (Nodes.cons n _ ns) = trailing (trailing_node n) ns

module _ {Expr Local : Type 0} (run : Run Expr) where
  unfoldable mutual
    pub out : Hir Expr Local → Str
    out (Hir.lit s) = s
    out (Hir.expr e) = run.text e false
    out (Hir.safe e) = run.text e true
    out (Hir.each _ _ _) = []
    out (Hir.if_else e body ps o) = if run.truth e then outs body else out_more ps (out_els o)
    out (Hir.local _) = []

    pub outs : Hirs Expr Local → Str
    outs Hirs.nil = []
    outs (Hirs.cons h hs) = out h ++ outs hs

    -- The text of the first condition that holds, or else the text given.
    pub out_more : IfElses Expr Local → Str → Str
    out_more no_more rest = rest
    out_more (more e body ps) rest = if run.truth e then outs body else out_more ps rest

    pub out_els : Els Expr Local → Str
    out_els no_els = []
    out_els (els body) = outs body

  -- The text of a template, of the nodes that the walk is compared on: loops, partials,
  -- declarations and comments stand for nothing here.
  unfoldable mutual
    pub said : Nodes Expr Local → Str
    said Nodes.nil = []
    said (Nodes.cons n _ ns) = said_node n ++ said ns

    pub said_node : Node Expr Local → Str
    said_node (Node.expr _ e) = run.text e.t false
    said_node (Node.safe _ e) = run.text e.t true
    said_node (Node.lit l s r) = l ++ s.t ++ r
    said_node (Node.raw _ _ l s r) = l ++ s.t ++ r
    said_node (Node.helper h) = said_helper h
    said_node (Node.local _) = []
    said_node (Node.partial _) = []
    said_node (Node.comment _) = []

    pub said_helper : Helper Expr Local → Str
    said_helper (Helper.if_else _ _ e b ifs o) =
        if run.truth e.t then said b else said_ifs ifs (said_els o)
    said_helper (Helper.unless _ _ e b) = if run.truth e.t then [] else said b
    said_helper (Helper.each _ _ _ _) = []
    said_helper (Helper.with_scope _ _ _ b) = said b
    said_helper (Helper.defined _ _ _ _ _) = []

    pub said_ifs : Branches Expr Local → Str → Str
    said_ifs no_branch rest = rest
    said_ifs (branch _ e b ifs) rest = if run.truth e.t then said b else said_ifs ifs rest

    pub said_els : Else Expr Local → Str
    said_els no_else = []
    said_els (else_block _ b) = said b
