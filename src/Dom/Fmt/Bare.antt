-- ===== src/Dom/Fmt/Bare.antt =====
-- What is no literal is taken back in its order, whatever the HTML parser makes of the marks.
use yarte.Base.{
  ℕ, Bool, false, List, [], ◌∷◌, Option, none, some, Str, length, drop, ltb, starts_with, ◌≡◌, refl,
  sym, ap, ◌∙◌,
}
use yarte.Parser.Result.{Result, ok}
use yarte.Parser.Cursor.{is_empty}
use yarte.Dom.Sink.{Sink}
use yarte.Dom.Tree.{from}
use yarte.Dom.Serialize.{serialize}
use yarte.Hir.Generator.{Hir, Hirs, IfElses, no_more, more, Els, no_els, els, push, push_lit}
use yarte.Hir.Yields.{
  Yields, yields, panicked, Yields-bind, Yields-then, Yields-if, Yields-ok, Yields-map,
}
use yarte.Dom.Fmt.{
  Html, hash, at_mark, fill, serialize_domfmt, resolve_nodes, resolve_node, resolve_ifs,
  resolve_els, get_html, or_fragment, to_domfmt_init,
}

module _ {Expr Local : Type 0} where
  unfoldable mutual
    -- The form without its literals, in the bodies too.
    pub bare : Hirs Expr Local → Hirs Expr Local
    bare Hirs.nil = Hirs.nil
    bare (Hirs.cons (Hir.lit s) hs) = bare hs
    bare (Hirs.cons h hs) = Hirs.cons (bare_node h) (bare hs)

    pub bare_node : Hir Expr Local → Hir Expr Local
    bare_node (Hir.each args body e) = Hir.each args (bare body) e
    bare_node (Hir.if_else cond body ifs block) =
        Hir.if_else cond (bare body) (bare_ifs ifs) (bare_els block)
    bare_node h = h

    pub bare_ifs : IfElses Expr Local → IfElses Expr Local
    bare_ifs no_more = no_more
    bare_ifs (more cond body ifs) = more cond (bare body) (bare_ifs ifs)

    pub bare_els : Els Expr Local → Els Expr Local
    bare_els no_els = no_els
    bare_els (els body) = els (bare body)

  abbrev append : Hirs Expr Local → Hirs Expr Local → Hirs Expr Local
  append Hirs.nil ks = ks
  append (Hirs.cons h hs) ks = Hirs.cons h (append hs ks)

  append-nil : (hs : Hirs Expr Local) → append hs Hirs.nil ≡ hs
  append-nil Hirs.nil = refl
  append-nil (Hirs.cons h hs) = ap (Hirs.cons h) (append-nil hs)

  append_assoc : (hs ks ls : Hirs Expr Local) → append (append hs ks) ls ≡ append hs (append ks ls)
  append_assoc Hirs.nil ks ls = refl
  append_assoc (Hirs.cons h hs) ks ls = ap (Hirs.cons h) (append_assoc hs ks ls)

  bare-cons :
      (h : Hir Expr Local) (hs : Hirs Expr Local)
      → bare (Hirs.cons h hs) ≡ append (bare (Hirs.cons h Hirs.nil)) (bare hs)
  unfolding bare
  bare-cons (Hir.lit s) hs = refl
  bare-cons (Hir.expr e) hs = refl
  bare-cons (Hir.safe e) hs = refl
  bare-cons (Hir.each args body e) hs = refl
  bare-cons (Hir.if_else cond body ifs block) hs = refl
  bare-cons (Hir.local e) hs = refl

  bare-push :
      (hs : Hirs Expr Local) (h : Hir Expr Local)
      → bare (push hs h) ≡ append (bare hs) (bare (Hirs.cons h Hirs.nil))
  unfolding bare
  bare-push Hirs.nil h = refl
  bare-push (Hirs.cons k hs) h =
      bare-cons k (push hs h)
      ∙ (ap (append (bare (Hirs.cons k Hirs.nil))) (bare-push hs h)
          ∙ (sym
                (append_assoc (bare (Hirs.cons k Hirs.nil)) (bare hs) (bare (Hirs.cons h Hirs.nil)))
              ∙ ap (λ x. append x (bare (Hirs.cons h Hirs.nil))) (sym (bare-cons k hs))))

  bare-push_lit : (hs : Hirs Expr Local) (s : Str) → bare (push_lit hs s) ≡ bare hs
  unfolding bare
  bare-push_lit hs [] = refl
  bare-push_lit hs (c ∷ s) = bare-push hs (Hir.lit (c ∷ s)) ∙ append-nil (bare hs)

  -- What is yielded for a node stands, without its literals, for the node `b`.
  abbrev pub IsNode : Hir Expr Local → Result (Hir Expr Local) → Type 0
  IsNode b r = Yields (λ h. bare (Hirs.cons h Hirs.nil) ≡ Hirs.cons b Hirs.nil) r

  pub data AreNodes : List (Result (Hir Expr Local)) → Hirs Expr Local → Type 0 where
    no_nodes : AreNodes [] Hirs.nil
    next_node :
        {b : Hir Expr Local} {bs : Hirs Expr Local} {r : Result (Hir Expr Local)}
        {rs : List (Result (Hir Expr Local))}
        → IsNode b r
        → AreNodes rs bs
        → AreNodes (r ∷ rs) (Hirs.cons b bs)

  abbrev Adds : Hirs Expr Local → Hirs Expr Local → Result (Hirs Expr Local) → Type 0
  Adds buff bs r = Yields (λ out. bare out ≡ append (bare buff) bs) r

  at_mark-Adds :
      (chunk : Str) (buff : Hirs Expr Local) (b : Hir Expr Local) (r : Result (Hir Expr Local))
      → IsNode b r
      → Adds buff (Hirs.cons b Hirs.nil) (at_mark chunk r buff)
  at_mark-Adds chunk buff b r n = Yields-bind n λ h e. Yields-if (ltb (length chunk) 13) panicked (
      yields (
        bare-push_lit (push buff h) (drop 13 chunk)
        ∙ (bare-push buff h ∙ ap (append (bare buff)) e)))

  -- A literal adds nothing.
  lit-Adds :
      (s : Str) (buff bs : Hirs Expr Local) (r : Result (Hirs Expr Local))
      → Adds (push buff (Hir.lit s)) bs r
      → Adds buff bs r
  unfolding bare
  lit-Adds s buff bs r h =
      Yields-map
        (λ out e. e ∙ ap (λ x. append x bs) (bare-push buff (Hir.lit s) ∙ append-nil (bare buff))) h

  fill-Adds :
      (chunks : List Str) (nodes : List (Result (Hir Expr Local))) (buff bs : Hirs Expr Local)
      → AreNodes nodes bs
      → Adds buff bs (fill chunks nodes buff)
  unfolding fill
  fill-Adds [] [] buff bs no_nodes = yields (sym (append-nil (bare buff)))
  fill-Adds [] (n ∷ nodes) buff bs m = panicked
  fill-Adds (chunk ∷ chunks) [] buff bs m = Yields-if (is_empty chunk) panicked (
      Yields-if (starts_with chunk hash) panicked
        (lit-Adds chunk buff bs _ (fill-Adds chunks [] (push buff (Hir.lit chunk)) bs m)))
  fill-Adds (chunk ∷ chunks) (n ∷ nodes) buff (Hirs.cons b bs) (next_node k m) =
      Yields-if (is_empty chunk) panicked (
        Yields-if (starts_with chunk hash)
          (Yields-bind (at_mark-Adds chunk buff b n k) λ mid e.
            Yields-map
              (λ out q.
                q ∙ (ap (λ x. append x bs) e ∙ append_assoc (bare buff) (Hirs.cons b Hirs.nil) bs))
              (fill-Adds chunks nodes mid bs m))
          (lit-Adds chunk buff (Hirs.cons b bs) _ (
            fill-Adds chunks (n ∷ nodes) (push buff (Hir.lit chunk)) (Hirs.cons b bs)
              (next_node k m))))
  fill-Adds (chunk ∷ chunks) (n ∷ nodes) buff Hirs.nil m = elim m [ ]

  module _ (html : Html) (f : ℕ) where
    pub serialize_domfmt-bare :
        (wasm : Bool) (o : Option Sink) (nodes : List (Result (Hir Expr Local)))
        (bs : Hirs Expr Local)
        → AreNodes nodes bs
        → Yields (λ out. bare out ≡ bs) (serialize_domfmt html f wasm o nodes)
    unfolding serialize_domfmt bare
    serialize_domfmt-bare wasm none nodes bs m = panicked
    serialize_domfmt-bare wasm (some sink) nodes bs m =
        Yields-then (from f sink)
          λ tree. Yields-then (serialize tree wasm) λ written. fill-Adds _ nodes Hirs.nil bs m

    module _ (wasm : Bool) where
      mutual
        unfolding bare bare_node bare_ifs bare_els resolve_nodes resolve_node resolve_ifs
            resolve_els

        pub resolve_nodes-AreNodes :
            (hs : Hirs Expr Local) → AreNodes (resolve_nodes html f wasm hs) (bare hs)
        resolve_nodes-AreNodes Hirs.nil = no_nodes
        resolve_nodes-AreNodes (Hirs.cons (Hir.lit s) hs) = resolve_nodes-AreNodes hs
        resolve_nodes-AreNodes (Hirs.cons (Hir.expr e) hs) =
            next_node (yields refl) (resolve_nodes-AreNodes hs)
        resolve_nodes-AreNodes (Hirs.cons (Hir.safe e) hs) =
            next_node (yields refl) (resolve_nodes-AreNodes hs)
        resolve_nodes-AreNodes (Hirs.cons (Hir.local e) hs) =
            next_node (yields refl) (resolve_nodes-AreNodes hs)
        resolve_nodes-AreNodes (Hirs.cons (Hir.each args body e) hs) =
            next_node
              (Yields-bind
                (serialize_domfmt-bare wasm _ _ (bare body) (resolve_nodes-AreNodes body))
                λ out q. yields (ap (λ x. Hirs.cons (Hir.each args x e) Hirs.nil) q))
              (resolve_nodes-AreNodes hs)
        resolve_nodes-AreNodes (Hirs.cons (Hir.if_else cond body ifs block) hs) =
            next_node
              (Yields-bind (resolve_ifs-bare ifs) λ i p. Yields-bind (resolve_els-bare block) λ b r.
                Yields-bind
                  (serialize_domfmt-bare wasm _ _ (bare body) (resolve_nodes-AreNodes body))
                  λ out q. yields (rw (p, r, q) refl))
              (resolve_nodes-AreNodes hs)

        resolve_ifs-bare :
            (ifs : IfElses Expr Local)
            → Yields (λ i. bare_ifs i ≡ bare_ifs ifs) (resolve_ifs html f wasm ifs)
        resolve_ifs-bare no_more = yields refl
        resolve_ifs-bare (more cond body ifs) =
            Yields-bind (serialize_domfmt-bare wasm _ _ (bare body) (resolve_nodes-AreNodes body))
              λ out q. Yields-bind (resolve_ifs-bare ifs) λ i p. yields (rw (q, p) refl)

        resolve_els-bare :
            (block : Els Expr Local)
            → Yields (λ b. bare_els b ≡ bare_els block) (resolve_els html f wasm block)
        resolve_els-bare no_els = yields refl
        resolve_els-bare (els body) =
            Yields-bind (serialize_domfmt-bare wasm _ _ (bare body) (resolve_nodes-AreNodes body))
              λ out q. yields (rw (q) refl)

    -- Whatever the HTML parser makes of the marks, where the form is returned it has what is no literal
    -- of the form that was given, in its order and with its expressions, and so have the bodies of its
    -- loops and conditions: nothing is lost, doubled or moved.
    pub to_domfmt_init-bare :
        (ir out : Hirs Expr Local) → to_domfmt_init html f ir ≡ ok out → bare out ≡ bare ir
    unfolding to_domfmt_init
    to_domfmt_init-bare ir out e =
        Yields-ok
          (serialize_domfmt-bare false
            (or_fragment (html.parse_document (get_html ir)) (html.parse_fragment (get_html ir)))
            (resolve_nodes html f false ir) (bare ir) (resolve_nodes-AreNodes false ir))
          e
