-- ===== src/Codegen/Runs.antt =====
-- What the generated code writes when it is run, and what the form means.
use yarte.Base.{Bool, true, false, List, [], ◌∷◌, ◌++◌, Str, if◌then◌else◌, ◌≡◌, refl, ap, ◌∙◌}
use yarte.Hir.Generator.{Hir, Hirs, IfElses, no_more, more, Els, no_els, els}
use yarte.Codegen.{
  declare, write_str, display, render, for_in, if_block, else_if, else_block, Tokens, nil, cons,
  CodeGen, html, text, extend, gen_expr, gen, gen_node, gen_ifs, gen_els,
}

-- The values at run time: whether a condition holds, what `Display` and `Render` write, the values of
-- the rounds of `for e in args`, and those behind a declaration.
pub record Machine (Expr Local Env : Type 0) : Type 0 where
  pub truth : Env → Expr → Bool
  pub displayed : Env → Expr → Str
  pub rendered : Env → Expr → Str
  pub rounds : Env → Expr → Expr → List Env
  pub declared : Env → Local → Env

abbrev pub concat_map : {A : Type 0} → (A → Str) → List A → Str
concat_map f [] = []
concat_map f (a ∷ rest) = f a ++ concat_map f rest

concat_map-ext :
    {A : Type 0} (f g : A → Str) (xs : List A)
    → ((a : A) → f a ≡ g a)
    → concat_map f xs ≡ concat_map g xs
concat_map-ext f g [] h = refl
concat_map-ext f g (a ∷ rest) h = rw (h a, concat_map-ext f g rest h) refl

-- The block that is run and what follows, and what the other blocks give.
if-append :
    (b : Bool) {x y z : Str} (x' z' w : Str)
    → x ≡ x'
    → y ≡ w
    → z ≡ z' ++ w
    → (if b then x ++ y else z) ≡ (if b then x' else z') ++ w
if-append true x' z' w h k l = rw (h, k) refl
if-append false x' z' w h k l = l

module _ {Expr Local Env : Type 0} (m : Machine Expr Local Env) where
  -- The code in its order; `done` is whether a block of the conditions in front was run.
  unfoldable pub exec : Env → Bool → Tokens Expr Local → Str
  exec env done nil = []
  exec env done (cons (declare l) ts) = exec (m.declared env l) done ts
  exec env done (cons (write_str s) ts) = s ++ exec env done ts
  exec env done (cons (display e) ts) = m.displayed env e ++ exec env done ts
  exec env done (cons (render e) ts) = m.rendered env e ++ exec env done ts
  exec env done (cons (for_in e args body) ts) =
      concat_map (λ v. exec v false body) (m.rounds env e args) ++ exec env done ts
  exec env done (cons (if_block cond body) ts) =
      if m.truth env cond then exec env false body ++ exec env true ts else exec env false ts
  exec env done (cons (else_if cond body) ts) =
      if done
      then exec env true ts
      else if m.truth env cond
      then exec env false body ++ exec env true ts
      else exec env false ts
  exec env done (cons (else_block body) ts) =
      if done then exec env true ts else exec env false body ++ exec env true ts

  abbrev pub expr_text : CodeGen → Env → Expr → Str
  expr_text html env e = m.rendered env e
  expr_text text env e = m.displayed env e

  expr-exec :
      (c : CodeGen) (env : Env) (done : Bool) (e : Expr) (ts : Tokens Expr Local)
      → exec env done (cons (gen_expr c e) ts) ≡ expr_text c env e ++ exec env done ts
  unfolding exec
  expr-exec html env done e ts = refl
  expr-exec text env done e ts = refl

  module _ (c : CodeGen) where
    -- What a form means: an expression is escaped by `Render` in HTML, and a condition is the first of
    -- its chain that holds.
    unfoldable mutual
      pub means : Env → Hirs Expr Local → Str
      means env Hirs.nil = []
      means env (Hirs.cons (Hir.local l) hs) = means (m.declared env l) hs
      means env (Hirs.cons (Hir.lit s) hs) = s ++ means env hs
      means env (Hirs.cons (Hir.safe e) hs) = m.displayed env e ++ means env hs
      means env (Hirs.cons (Hir.expr e) hs) = expr_text c env e ++ means env hs
      means env (Hirs.cons (Hir.each args body e) hs) =
          concat_map (λ v. means v body) (m.rounds env e args) ++ means env hs
      means env (Hirs.cons (Hir.if_else cond body ifs block) hs) =
          (if m.truth env cond then means env body else means_ifs env ifs (means_els env block))
          ++ means env hs

      pub means_ifs : Env → IfElses Expr Local → Str → Str
      means_ifs env no_more otherwise = otherwise
      means_ifs env (more cond body ifs) otherwise =
          if m.truth env cond then means env body else means_ifs env ifs otherwise

      pub means_els : Env → Els Expr Local → Str
      means_els env no_els = []
      means_els env (els body) = means env body

    skip-chain :
        (env : Env) (ifs : IfElses Expr Local) (block : Els Expr Local) (ts : Tokens Expr Local)
        → exec env true (extend (extend (gen_ifs c ifs) (gen_els c block)) ts) ≡ exec env true ts
    unfolding exec gen gen_ifs gen_els
    skip-chain env no_more no_els ts = refl
    skip-chain env no_more (els body) ts = refl
    skip-chain env (more cond body ifs) block ts = skip-chain env ifs block ts

    mutual
      unfolding exec gen gen_node gen_ifs gen_els means means_ifs means_els

      gen-exec :
          (hs : Hirs Expr Local) (env : Env) (done : Bool) → exec env done (gen c hs) ≡ means env hs
      gen-exec Hirs.nil env done = refl
      gen-exec (Hirs.cons (Hir.local l) hs) env done = gen-exec hs (m.declared env l) done
      gen-exec (Hirs.cons (Hir.lit s) hs) env done = ap (λ x. s ++ x) (gen-exec hs env done)
      gen-exec (Hirs.cons (Hir.safe e) hs) env done =
          ap (λ x. m.displayed env e ++ x) (gen-exec hs env done)
      gen-exec (Hirs.cons (Hir.expr e) hs) env done =
          expr-exec c env done e (gen c hs)
          ∙ ap (λ x. expr_text c env e ++ x) (gen-exec hs env done)
      gen-exec (Hirs.cons (Hir.each args body e) hs) env done =
          rw
            (
              concat_map-ext _ _ (m.rounds env e args) (λ v. gen-exec body v false),
              gen-exec hs env done,
            )
            refl
      gen-exec (Hirs.cons (Hir.if_else cond body ifs block) hs) env done =
          if-append (m.truth env cond) (means env body) (means_ifs env ifs (means_els env block))
            (means env hs) (gen-exec body env false)
            (skip-chain env ifs block (gen c hs) ∙ gen-exec hs env true)
            (ifs-exec ifs block env (gen c hs) (means env hs)
              (els-exec block env (gen c hs) (means env hs) (λ d. gen-exec hs env d))
              (λ d. gen-exec hs env d))

      -- The rest of a chain of conditions, in front of the code `ts` that writes `w`.
      ifs-exec :
          (ifs : IfElses Expr Local) (block : Els Expr Local) (env : Env) (ts : Tokens Expr Local)
          (w : Str)
          → exec env false (extend (gen_els c block) ts) ≡ means_els env block ++ w
          → ((done : Bool) → exec env done ts ≡ w)
          → exec env false (extend (extend (gen_ifs c ifs) (gen_els c block)) ts)
            ≡ means_ifs env ifs (means_els env block) ++ w
      ifs-exec no_more block env ts w k h = k
      ifs-exec (more cond body ifs) block env ts w k h =
          if-append (m.truth env cond) (means env body) (means_ifs env ifs (means_els env block)) w
            (gen-exec body env false) (skip-chain env ifs block ts ∙ h true)
            (ifs-exec ifs block env ts w k h)

      els-exec :
          (block : Els Expr Local) (env : Env) (ts : Tokens Expr Local) (w : Str)
          → ((done : Bool) → exec env done ts ≡ w)
          → exec env false (extend (gen_els c block) ts) ≡ means_els env block ++ w
      els-exec no_els env ts w h = h false
      els-exec (els body) env ts w h = rw (gen-exec body env false, h true) refl

    -- The generated code writes what the form means: the pieces of a chain of conditions, which are
    -- quoted one behind another, run the first block whose condition holds, or else the last; loops run
    -- their body for each value, and a declaration holds behind it up to the end of its block.
    pub exec-gen : (hs : Hirs Expr Local) (env : Env) → exec env false (gen c hs) ≡ means env hs
    exec-gen hs env = gen-exec hs env false
