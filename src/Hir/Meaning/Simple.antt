-- ===== src/Hir/Meaning/Simple.antt =====
-- The templates on which the lowering is compared with the meaning: literals, expressions, raw
-- blocks, `if`, `unless` and `with`, and no `~`, a literal never behind a literal.
use yarte.Base.{Bool, true, false, not, [], none, some, Str, ◌≡◌}
use yarte.Parser.Result.{ok}
use yarte.Parser.Cursor.{is_empty}
use yarte.Parser.Syntax.{
  S, Span, Ws, Node, Nodes, Helper, Branches, no_branch, branch, Else, no_else, else_block,
}
use yarte.Hir.Rust.{Names, Rust}
use yarte.Hir.Constants.{eval_bool, text_of}
use yarte.Hir.Meaning.{Run}

abbrev pub untrimmed : Ws
untrimmed = (false, false)

-- What `trim` leaves of a text that is all white space has no right part.
abbrev pub Parts : S Str → Str → Type 0
Parts s r = is_empty s.t ≡ true → r ≡ []

module _ {Expr Local : Type 0} (rust : Rust Expr Local) where
  -- An expression without attributes that the visitor leaves as it is, as the program's does where
  -- it names nothing of the template's data: `crate::x`, say.
  pub record Left (e : Expr) : Type 0 where
    pub visited : (names : Names Expr) → rust.visit_expr names e ≡ ok (names, e)
    pub bare : rust.has_attributes e ≡ false

  -- What is known of the run: a constant has its value, and a negated condition the other one.
  pub record Agrees (text_mode : Bool) (run : Run Expr) : Type 0 where
    pub constant_truth : (e : Expr) (b : Bool) → eval_bool rust e ≡ some b → run.truth e ≡ b
    pub constant_text :
        (e : Expr) (safe : Bool) (s : Str)
        → text_of rust text_mode (rust.eval e) safe ≡ some s
        → run.text e safe ≡ s
    pub negated : (e : Expr) → run.truth (rust.negate e) ≡ not (run.truth e)

  -- `Simple b ns`: `ns` may begin with a literal where `b` is true.
  mutual
    pub data Simple : Bool → Nodes Expr Local → Type 0 where
      simple_nil : {b : Bool} → Simple b Nodes.nil
      simple_lit :
          {l : Str} {s : S Str} {r : Str} {sp : Span} {ns : Nodes Expr Local}
          → Parts s r
          → Simple false ns
          → Simple true (Nodes.cons (Node.lit l s r) sp ns)
      simple_expr :
          {b : Bool} {e : S Expr} {sp : Span} {ns : Nodes Expr Local}
          → Left e.t
          → Simple true ns
          → Simple b (Nodes.cons (Node.expr untrimmed e) sp ns)
      simple_safe :
          {b : Bool} {e : S Expr} {sp : Span} {ns : Nodes Expr Local}
          → Left e.t
          → Simple true ns
          → Simple b (Nodes.cons (Node.safe untrimmed e) sp ns)
      simple_raw :
          {b : Bool} {l : Str} {s : S Str} {r : Str} {sp : Span} {ns : Nodes Expr Local}
          → Parts s r
          → Simple true ns
          → Simple b (Nodes.cons (Node.raw untrimmed untrimmed l s r) sp ns)
      simple_unless :
          {b : Bool} {e : S Expr} {body : Nodes Expr Local} {sp : Span} {ns : Nodes Expr Local}
          → Left e.t
          → Simple true body
          → Simple true ns
          → Simple b (Nodes.cons (Node.helper (Helper.unless untrimmed untrimmed e body)) sp ns)
      simple_with :
          {b : Bool} {e : S Expr} {body : Nodes Expr Local} {sp : Span} {ns : Nodes Expr Local}
          → Left e.t
          → Simple true body
          → Simple true ns
          → Simple b (Nodes.cons (Node.helper (Helper.with_scope untrimmed untrimmed e body)) sp ns)
      -- A constant condition, with no further ones.
      simple_const :
          {b : Bool} {e : S Expr} {v : Bool} {body : Nodes Expr Local} {els : Else Expr Local}
          {sp : Span} {ns : Nodes Expr Local}
          → Left e.t
          → eval_bool rust e.t ≡ some v
          → Simple true body
          → SimpleEls els
          → Simple true ns
          → Simple b (
              Nodes.cons
                (Node.helper (Helper.if_else untrimmed untrimmed e body no_branch els))
                sp
                ns)
      simple_if :
          {b : Bool} {e : S Expr} {body : Nodes Expr Local} {ifs : Branches Expr Local}
          {els : Else Expr Local} {sp : Span} {ns : Nodes Expr Local}
          → Left e.t
          → eval_bool rust e.t ≡ none
          → Simple true body
          → SimpleIfs ifs
          → SimpleEls els
          → Simple true ns
          → Simple b
              (Nodes.cons (Node.helper (Helper.if_else untrimmed untrimmed e body ifs els)) sp ns)

    -- Conditions that are all read at run time.
    pub data SimpleIfs : Branches Expr Local → Type 0 where
      simple_no_branch : SimpleIfs no_branch
      simple_branch :
          {e : S Expr} {body : Nodes Expr Local} {ifs : Branches Expr Local}
          → Left e.t
          → eval_bool rust e.t ≡ none
          → Simple true body
          → SimpleIfs ifs
          → SimpleIfs (branch untrimmed e body ifs)

    pub data SimpleEls : Else Expr Local → Type 0 where
      simple_no_else : SimpleEls no_else
      simple_else_block :
          {body : Nodes Expr Local} → Simple true body → SimpleEls (else_block untrimmed body)
