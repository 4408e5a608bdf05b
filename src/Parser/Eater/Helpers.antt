-- ===== src/Parser/Eater/Helpers.antt =====
-- The bodies of `hel` and `if_else`, over what they call.
use yarte.Base.{ℕ, ◌+◌, ◌≤◌, ◌<◌, Bool, arith, length, codes, str_eq}
use yarte.Parser.Result.{
  holds, raised, Ensures-bind, Ensures-if, Ensures-opt, Ensures-map_fail, Ensures-weaken,
}
use yarte.Parser.Cursor.{Cursor}
use yarte.Parser.Advances.{
  Advances, Advances-trans, Advances-weaken, Advances-Fits, Advances-length, Fits,
}
use yarte.Parser.Advances.Reads.{skip_ws-Ensures, ws-Ensures, tag-Ensures}
use yarte.Parser.Syntax.{Syn, S, Ws, Node, Nodes, Branches, Else, else_block, push_branch}
use yarte.Parser.Tags.{PResult}
use yarte.Parser.Tags.Sound.{end_expr-Ensures, spanned-Ensures, identifier-Ensures}
use yarte.Parser.Expressions.Sound.{arguments-Ensures}
use yarte.Parser.Raw.Sound.{MayPanic, Safe-MayPanic, tilde-Ensures}
use yarte.Parser.Eater.{
  header, closing, hel_step, else_tag, end_if_tag, else_if_block, else_rest, if_loop_step,
}

-- The run ends within its fuel, at least `k` bytes behind `i` if it succeeds.
abbrev pub Runs : {A : Type 0} → ℕ → Cursor → PResult A → Type 0
Runs k i r = MayPanic (λ x. Advances k i x.0) r

-- A reader that runs wherever fewer than `m` bytes are left.
abbrev pub RunsBelow : {A : Type 0} → ℕ → (Cursor → PResult A) → Type 0
RunsBelow m f = (c : Cursor) → Fits c → length c.rest < m → Runs 0 c (f c)

module _ {Expr Local : Type 0} (syn : Syn Expr Local) where
  header-Ensures : (i : Cursor) (lws : Bool) → Fits i → Runs 3 i (header syn i lws)
  unfolding header
  header-Ensures i lws fits = Ensures-bind (Safe-MayPanic (ws-Ensures i fits)) λ r a.
      Ensures-bind
        (spanned-Ensures 1 r.0 (Advances-Fits a) λ c _. Safe-MayPanic (identifier-Ensures syn c))
        λ p b. Ensures-bind (Safe-MayPanic (arguments-Ensures syn p.0 (Advances-Fits b))) λ q c.
          Ensures-bind (Safe-MayPanic (end_expr-Ensures q.0 (Advances-Fits c))) λ e d. holds (
            Advances-weaken (omega arith)
              (Advances-trans a (Advances-trans b (Advances-trans c d))))

  closing-Ensures : (i : Cursor) → Fits i → Runs 0 i (closing syn i)
  unfolding closing
  closing-Ensures i fits = Ensures-bind (Safe-MayPanic (tilde-Ensures i fits)) λ r a.
      Ensures-bind (Safe-MayPanic (tag-Ensures r.0 (codes "/"))) λ p b.
        Ensures-bind (Safe-MayPanic (ws-Ensures p.0 (Advances-Fits b))) λ q c.
          Ensures-bind
            (spanned-Ensures 1 q.0 (Advances-Fits c)
              λ x _. Safe-MayPanic (identifier-Ensures syn x))
            λ u d. Ensures-bind (Safe-MayPanic (end_expr-Ensures u.0 (Advances-Fits d))) λ v e.
              holds (
                Advances-weaken (omega arith)
                  (Advances-trans a (Advances-trans b (Advances-trans c (Advances-trans d e)))))

  pub hel_step-Ensures :
      (m : ℕ) {eat : Cursor → PResult (Nodes Expr Local)}
      {if_else : Ws → Cursor → S Expr → PResult (Node Expr Local)} (i : Cursor) (lws : Bool)
      → Fits i
      → length i.rest ≤ m
      → RunsBelow m eat
      → ((above : Ws) (c : Cursor) (args : S Expr)
          → Fits c
          → length c.rest + 1 < m
          → Runs 0 c (if_else above c args))
      → Runs 0 i (hel_step syn eat if_else i lws)
  unfolding hel_step
  hel_step-Ensures m i lws fits le eat_ok if_ok =
      Ensures-bind (header-Ensures i lws fits) λ (c, (above, ident, args)) a.
        Ensures-if (str_eq ident.t (codes "if"))
          (λ _.
            Ensures-weaken (λ x. x) (λ r b. Advances-weaken (omega arith) (Advances-trans a b))
              (if_ok above c args (Advances-Fits a) (omega (arith, Advances-length a))))
          λ _. Ensures-bind (eat_ok c (Advances-Fits a) (omega (arith, Advances-length a))) λ r b.
            Ensures-bind (closing-Ensures r.0 (Advances-Fits b)) λ (d, (below, c_ident)) e.
              Ensures-if (str_eq ident.t c_ident.t)
                (λ _. holds (Advances-weaken (omega arith) (Advances-trans a (Advances-trans b e))))
                λ _. raised

  else_tag-Ensures : (i : Cursor) → Fits i → Runs 4 i (else_tag syn i)
  unfolding else_tag
  else_tag-Ensures i fits = Ensures-bind (Safe-MayPanic (tilde-Ensures i fits)) λ r a.
      Ensures-bind (Safe-MayPanic (ws-Ensures r.0 (Advances-Fits a))) λ p b.
        Ensures-bind (Safe-MayPanic (tag-Ensures p.0 (codes "else")))
          λ q c. holds (Advances-weaken (omega arith) (Advances-trans a (Advances-trans b c)))

  end_if_tag-Ensures : (i : Cursor) → Fits i → Runs 0 i (end_if_tag syn i)
  unfolding end_if_tag
  end_if_tag-Ensures i fits = Ensures-bind (Safe-MayPanic (tilde-Ensures i fits)) λ r a.
      Ensures-bind (Safe-MayPanic (tag-Ensures r.0 (codes "/"))) λ p b.
        Ensures-bind (Safe-MayPanic (ws-Ensures p.0 (Advances-Fits b))) λ q c.
          Ensures-bind (Safe-MayPanic (tag-Ensures q.0 (codes "if"))) λ u d. holds (
            Advances-weaken (omega arith)
              (Advances-trans a (Advances-trans b (Advances-trans c d))))

  module _ (m : ℕ) {eat eat_if : Cursor → PResult (Nodes Expr Local)} (eat_ok : RunsBelow m eat)
      (eat_if_ok : RunsBelow m eat_if) where
    else_if_block-Ensures :
        (c : Cursor) (lws : Bool)
        → Fits c
        → length c.rest < m
        → Runs 0 c (else_if_block syn eat eat_if c lws)
    unfolding else_if_block
    else_if_block-Ensures c lws fits lt = Ensures-bind (Safe-MayPanic (ws-Ensures c fits)) λ r a.
        Ensures-bind (Safe-MayPanic (arguments-Ensures syn r.0 (Advances-Fits a))) λ p b.
          Ensures-bind (Safe-MayPanic (end_expr-Ensures p.0 (Advances-Fits b))) λ q d.
            let all = Advances-trans a (Advances-trans b d) in
            Ensures-bind (eat_if_ok q.0 (Advances-Fits d) (omega (arith, Advances-length all)))
              λ u e. holds (Advances-weaken (omega arith) (Advances-trans all e))

    else_rest-Ensures :
        (c : Cursor) (lws : Bool)
        → Fits c
        → length c.rest < m
        → Runs 0 c (else_rest syn eat eat_if c lws)
    unfolding else_rest
    else_rest-Ensures c lws fits lt = Ensures-bind (Safe-MayPanic (end_expr-Ensures c fits)) λ q d.
        Ensures-bind (eat_ok q.0 (Advances-Fits d) (omega (arith, Advances-length d)))
          λ u e. holds (Advances-weaken (omega arith) (Advances-trans d e))

    pub if_loop_step-Ensures :
        {again : Cursor → Branches Expr Local → Else Expr Local → PResult (Node Expr Local)}
        (above : Ws) (args : S Expr) (first : Nodes Expr Local) (i : Cursor)
        (nodes : Branches Expr Local) (tail : Else Expr Local)
        → Fits i
        → length i.rest ≤ m
        → ((c : Cursor) (ns : Branches Expr Local) (t : Else Expr Local)
            → Fits c
            → length c.rest < m
            → Runs 0 c (again c ns t))
        → Runs 0 i (if_loop_step syn eat eat_if again above args first i nodes tail)
    unfolding if_loop_step
    if_loop_step-Ensures above args first i nodes tail fits le again_ok =
        Ensures-opt (else_tag-Ensures i fits)
          (λ (c, lws) a. Ensures-bind (Safe-MayPanic (skip_ws-Ensures c (Advances-Fits a))) λ k b.
            Ensures-opt (Safe-MayPanic (tag-Ensures k (codes "if")))
              (λ (d, _) e.
                let here = Advances-trans a (Advances-trans b e) in
                Ensures-bind
                  (Ensures-map_fail (
                    else_if_block-Ensures d lws (Advances-Fits e)
                      (omega (arith, Advances-length here))))
                  λ (x, (w, ex, block)) g.
                    let all = Advances-trans here g in
                    Ensures-weaken (λ y. y)
                      (λ r h. Advances-weaken (omega arith) (Advances-trans all h))
                      (again_ok x (push_branch nodes w ex block) tail (Advances-Fits g)
                        (omega (arith, Advances-length all))))
              (Ensures-bind
                (Ensures-map_fail
                  (else_rest-Ensures c lws (Advances-Fits a) (omega (arith, Advances-length a))))
                λ (x, (w, block)) g.
                  let all = Advances-trans a g in
                  Ensures-weaken (λ y. y)
                    (λ r h. Advances-weaken (omega arith) (Advances-trans all h))
                    (again_ok x nodes (else_block w block) (Advances-Fits g)
                      (omega (arith, Advances-length all)))))
          (Ensures-opt (end_if_tag-Ensures i fits)
            (λ (c, lws) a.
              Ensures-bind (Safe-MayPanic (end_expr-Ensures c (Advances-Fits a)))
                λ r b. holds (Advances-weaken (omega arith) (Advances-trans a b)))
            raised)
