-- ===== src/Hir/Meaning/Steps.antt =====
-- What one node adds to the text read so far.
use yarte.Base.{
  Bool, true, false, List, [], ◌∷◌, ◌++◌, append_assoc, append-nil, none, some, Str, ◌≡◌, refl, ap,
  sym, subst, ◌∙◌, if◌then◌else◌,
}
use yarte.Parser.Result.{ok}
use yarte.Parser.Cursor.{is_empty}
use yarte.Parser.Syntax.{S}
use yarte.Hir.Scope.{Scope, pop, pops, extend, push_scope}
use yarte.Hir.Scope.Frames.{pops-push_scope}
use yarte.Hir.Generator.{Hirs, Writable, Generator, push_w, handle_ws, visit_lit}
use yarte.Hir.Blocks.{State}
use yarte.Hir.Meaning.{Run, outs}
use yarte.Hir.Meaning.Simple.{untrimmed, Parts}
use yarte.Hir.Meaning.Pending.{pend, waiting, tail, pend-append, pend-handle_ws}

-- No white space is dropped next and, where a literal may come next, none waits.
pub record Ready {Expr : Type 0} (b : Bool) (g : Generator Expr) : Type 0 where
  pub kept : g.skip_ws ≡ false
  pub empty : b ≡ true → g.next_ws ≡ none

abbrev pub settled : {Expr : Type 0} → Generator Expr → Generator Expr
settled g = record g { next_ws = none; skip_ws = false }

pub settled_lem : {Expr : Type 0} (g : Generator Expr) → Ready true g → g ≡ settled g
settled_lem g r =
    let e = r.empty refl in let k = r.kept in λ i. record g { next_ws = e i; skip_ws = k i }

pub loosen : {Expr : Type 0} {b : Bool} {g : Generator Expr} → Ready true g → Ready b g
loosen r = record { kept = r.kept; empty = λ _. r.empty refl }

settled-Ready : {Expr : Type 0} (g : Generator Expr) → Ready true (settled g)
settled-Ready g = record { kept = refl; empty = λ _. refl }

pub pop-push_scope : {Expr : Type 0} (s : Scope Expr) (t : List Expr) → pop (push_scope s t) ≡ ok s
unfolding pop push_scope
pop-push_scope s t =
    let same : extend (push_scope s t) [] ≡ push_scope s t =
      λ i. record (push_scope s t) { scope = append-nil (push_scope s t).scope i } in
    let e : pops (push_scope s t) ≡ ok (s, t ++ []) = sym (ap pops same) ∙ pops-push_scope s t [] in
    rw (e) refl

lit-waits :
    {Expr : Type 0} (g : Generator Expr) (l s r : Str)
    → (is_empty s ≡ true → r ≡ [])
    → waiting (visit_lit (settled g) l s r).next_ws ≡ (if is_empty s then l else r)
unfolding visit_lit
lit-waits g l [] (c ∷ r) p = let e : c ∷ r ≡ [] = p refl in cc
lit-waits g [] [] [] p = refl
lit-waits g (a ∷ l) [] [] p = refl
lit-waits g [] (b ∷ s) [] p = refl
lit-waits g [] (b ∷ s) (c ∷ r) p = refl
lit-waits g (a ∷ l) (b ∷ s) [] p = refl
lit-waits g (a ∷ l) (b ∷ s) (c ∷ r) p = refl

-- Of a literal, the white space behind it waits.
pub visit_lit-waits :
    {Expr : Type 0} (g : Generator Expr) (l : Str) (s : S Str) (r : Str)
    → Parts s r
    → Ready true g
    → waiting (visit_lit g l s.t r).next_ws ≡ (if is_empty s.t then l else r)
visit_lit-waits g l s r p d =
    ap (λ g. waiting (visit_lit g l s.t r).next_ws) (settled_lem g d) ∙ lit-waits g l s.t r p

module _ {Expr Local : Type 0} (run : Run Expr) where
  -- The text of the buffer and of what waits.
  abbrev pub so_far : State Expr Local → Str
  so_far s = outs run s.1 ++ tail run s.0

  -- From `s` to `s'` the text `t` is read; the names in scope are the same.
  pub record Done (b : Bool) (s : State Expr Local) (t : Str) (s' : State Expr Local) : Type 0 where
    pub names : s'.0.names ≡ s.0.names
    pub ready : Ready b s'.0
    pub reads : so_far s' ≡ so_far s ++ t

  pub Done-then :
      {b c : Bool} {s s' s'' : State Expr Local} {t u : Str}
      → Done b s t s'
      → Done c s' u s''
      → Done c s (t ++ u) s''
  Done-then {s} {t} {u} d f = record {
    names = f.names ∙ d.names;
    ready = f.ready;
    reads = f.reads ∙ ap (λ x. x ++ u) d.reads ∙ append_assoc (so_far s) t u;
  }

  pub handle_ws-Done :
      (g : Generator Expr) (buf : Hirs Expr Local)
      → Done true (g, buf) [] (handle_ws g untrimmed, buf)
  unfolding handle_ws tail
  handle_ws-Done g buf = record {
    names = refl;
    ready = record { kept = refl; empty = λ _. refl };
    reads =
        rw
          (
            append-nil (pend run (handle_ws g untrimmed).buf_w),
            pend-handle_ws run g,
            append-nil (outs run buf ++ (pend run g.buf_w ++ waiting g.next_ws)),
          )
          refl;
  }

  -- What is pushed where nothing waits comes last.
  pub push_w-Done :
      (g : Generator Expr) (buf : Hirs Expr Local) (w : Writable Expr) (t : Str)
      → Ready true g
      → pend run (w ∷ []) ≡ t
      → Done true (g, buf) t (push_w g w, buf)
  unfolding tail
  push_w-Done g buf w t r e = record {
    names = refl;
    ready = record { kept = r.kept; empty = r.empty };
    reads =
        rw
          (
            r.empty refl,
            pend-append run g.buf_w (w ∷ []),
            e,
            append-nil (pend run g.buf_w ++ t),
            append-nil (pend run g.buf_w),
            append_assoc (outs run buf) (pend run g.buf_w) t,
          )
          refl;
  }

  pub Done-as :
      {b : Bool} {s s' : State Expr Local} {t u : Str} → t ≡ u → Done b s t s' → Done b s u s'
  Done-as {b} {s} {s'} e d = subst (λ t. Done b s t s') e d

  pub Done-loosen :
      {b : Bool} {s s' : State Expr Local} {t : Str} → Done true s t s' → Done b s t s'
  Done-loosen d = record { names = d.names; ready = loosen d.ready; reads = d.reads }

  pub stay-Done :
      (g : Generator Expr) (buf : Hirs Expr Local) → Ready true g → Done true (g, buf) [] (g, buf)
  stay-Done g buf r = record { names = refl; ready = r; reads = sym (append-nil (so_far (g, buf))) }

  -- White space that waits is read.
  wait-Done :
      (g : Generator Expr) (buf : Hirs Expr Local) (r : Str)
      → Ready true g
      → Done false (g, buf) r (record g { next_ws = some r }, buf)
  unfolding tail
  wait-Done g buf r d = record {
    names = refl;
    ready = record { kept = d.kept; empty = λ e. cc };
    reads =
        rw
          (
            d.empty refl,
            append-nil (pend run g.buf_w),
            append_assoc (outs run buf) (pend run g.buf_w) r,
          )
          refl;
  }

  -- The three parts of a literal.
  lit-settled :
      (g : Generator Expr) (buf : Hirs Expr Local) (l s r : Str)
      → (is_empty s ≡ true → r ≡ [])
      → Done false (settled g, buf) (l ++ s ++ r) (visit_lit (settled g) l s r, buf)
  unfolding visit_lit pend
  lit-settled g buf [] [] [] p = Done-loosen (stay-Done (settled g) buf (settled-Ready g))
  lit-settled g buf l [] (c ∷ r) p = let e : c ∷ r ≡ [] = p refl in cc
  lit-settled g buf (a ∷ l) [] [] p =
      Done-as (rw (append-nil l, append-nil l) refl)
        (wait-Done (settled g) buf (a ∷ l) (settled-Ready g))
  lit-settled g buf [] (b ∷ s) [] p =
      Done-loosen
        (push_w-Done (settled g) buf (Writable.lit (b ∷ s)) ((b ∷ s) ++ []) (settled-Ready g) refl)
  lit-settled g buf [] (b ∷ s) (c ∷ r) p =
      let h = push_w (settled g) (Writable.lit (b ∷ s)) in
      let d =
        push_w-Done (settled g) buf (Writable.lit (b ∷ s)) (b ∷ s) (settled-Ready g)
          (append-nil (b ∷ s)) in
      Done-then d (wait-Done h buf (c ∷ r) d.ready)
  lit-settled g buf (a ∷ l) (b ∷ s) [] p =
      let h = push_w (settled g) (Writable.lit (a ∷ l)) in
      let d =
        push_w-Done (settled g) buf (Writable.lit (a ∷ l)) (a ∷ l) (settled-Ready g)
          (append-nil (a ∷ l)) in
      Done-as (sym (append-nil ((a ∷ l) ++ b ∷ s))) (
        Done-then d (
          Done-loosen
            (push_w-Done h buf (Writable.lit (b ∷ s)) (b ∷ s) d.ready (append-nil (b ∷ s)))))
  lit-settled g buf (a ∷ l) (b ∷ s) (c ∷ r) p =
      let h = push_w (settled g) (Writable.lit (a ∷ l)) in
      let d =
        push_w-Done (settled g) buf (Writable.lit (a ∷ l)) (a ∷ l) (settled-Ready g)
          (append-nil (a ∷ l)) in
      let k = push_w h (Writable.lit (b ∷ s)) in
      let f = push_w-Done h buf (Writable.lit (b ∷ s)) (b ∷ s) d.ready (append-nil (b ∷ s)) in
      Done-then (Done-then d f) (wait-Done k buf (c ∷ r) f.ready)

  pub visit_lit-Done :
      (g : Generator Expr) (buf : Hirs Expr Local) (l : Str) (s : S Str) (r : Str)
      → Parts s r
      → Ready true g
      → Done false (g, buf) (l ++ s.t ++ r) (visit_lit g l s.t r, buf)
  visit_lit-Done g buf l s r p d =
      subst (λ g. Done false (g, buf) (l ++ s.t ++ r) (visit_lit g l s.t r, buf))
        (sym (settled_lem g d)) (lit-settled g buf l s.t r p)
