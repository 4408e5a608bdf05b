-- ===== src/Hir/LoopVar/Says.antt =====
-- The search among the paths of an expression.
use yarte.Base.{
  ℕ, zero, suc, Bool, true, false, ◌&&◌, ◌||◌, ◌==◌, ltb, List, [], ◌∷◌, Option, none, some, Str,
  if◌then◌else◌, length, ◌≡◌, refl, ap, subst, arith,
}
use yarte.Parser.Result.{Result, ok, ◌>>=◌}
use yarte.Hir.Scope.{split_last}
use yarte.Hir.Path.{ExprPath, is_super, super_of, all_super}
use yarte.Hir.LoopVar.{is_loop_var, super_var, path_var, visit_paths, unless_found}
use yarte.Hir.LoopVar.Mentions.{is_var, any_var, named, AllNamed, next_named}
use yarte.Hir.Yields.{Gives, gives, Gives-bind}

abbrev pub Says : Bool → Result Bool → Type 0
Says b r = Gives (λ found. found ≡ b) r

pub or_false : (b : Bool) → b ≡ (b || false)
or_false true = refl
or_false false = refl

pub or_assoc : (a b c : Bool) → ((a || b) || c) ≡ (a || (b || c))
or_assoc true b c = refl
or_assoc false b c = refl

abbrev behind : Str → Option (List Str × Str) → Option (List Str × Str)
behind s o = elim o [ none ↦ none | some r ↦ some (s ∷ r.0, r.1) ]

super_var-if :
    (b : Bool) (on n : ℕ) (ident : Str)
    → super_var on (if b then some (n, ident) else none) ≡ (b && (n == on) && is_loop_var ident)
super_var-if true on n ident = refl
super_var-if false on n ident = refl

and_false : (b c : Bool) → false ≡ (b && false && c)
and_false true c = refl
and_false false c = refl

super-Says :
    (on : ℕ) (s : Str) (ss : List Str) (ident : Str)
    → Says (is_var on (some (s ∷ ss, ident))) (
        if ltb 0 on
        then (do k ← super_of (some (s ∷ ss, ident)); ok (super_var on k))
        else ok false)
super-Says zero s ss ident =
    let h : (suc (length ss) == 0) ≡ false = ground arith in
    gives (rw (h) (and_false (all_super (s ∷ ss)) (is_loop_var ident)))
super-Says (suc on) s ss ident =
    let h : ltb 0 (suc on) ≡ true = ground arith in
    rw (h) (gives (super_var-if (all_super (s ∷ ss)) (suc on) (suc (length ss)) ident))

split_last-cons : (s : Str) (ss : List Str) → (q : List Str × Str) × (split_last (s ∷ ss) ≡ some q)
split_last-cons s [] = (([], s), refl)
split_last-cons s (t ∷ ss) = let (q, e) = split_last-cons t ss in ((s ∷ q.0, q.1), ap (behind s) e)

path_var-Says :
    (on : ℕ) (s : Str) (ss : List Str)
    → Says (is_var on (split_last (s ∷ ss))) (path_var on (s ∷ ss))
unfolding path_var is_super
path_var-Says on s [] = gives refl
path_var-Says on s (t ∷ ss) = let (q, e) = split_last-cons t ss in rw (e) (super-Says on s q.0 q.1)

pub visit_paths-Says :
    (on : ℕ) (ps : List ExprPath) (found : Bool)
    → AllNamed ps
    → Says (found || any_var on ps) (visit_paths on ps found)
unfolding visit_paths any_var
visit_paths-Says on [] found h = gives (or_false found)
visit_paths-Says on (p ∷ ps) true (next_named k h) = visit_paths-Says on ps true h
visit_paths-Says on (p ∷ ps) false (next_named (named {s} {ss} e) h) = rw (e) (
    Gives-bind (path_var-Says on s ss) λ b q.
      subst (λ x. Says (x || any_var on ps) (visit_paths on ps b)) q (visit_paths-Says on ps b h))

pub from-Says : (b c x : Bool) {r : Result Bool} → x ≡ b → Says (x || c) r → Says (b || c) r
from-Says b c x {r} e h = subst (λ y. Says (y || c) r) e h

-- A step that says `b` and a rest that says `c` say `b` or `c`: the rest is left out only where the
-- step says yes.
pub after-Says :
    (b c x : Bool) (rest : Result Bool)
    → x ≡ b
    → (x ≡ false → Says c rest)
    → Says (b || c) (unless_found x rest)
after-Says b c true rest e h = gives (ap (λ y. y || c) e)
after-Says b c false rest e h = subst (λ y. Says (y || c) rest) e (h refl)
