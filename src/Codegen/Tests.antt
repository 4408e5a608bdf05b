-- ===== src/Codegen/Tests.antt =====
-- A form with a loop and a chain of conditions. The expressions are numbers, of which the odd ones
-- hold; the environment is the number of the round.
use yarte.Base.{ℕ, zero, suc, Bool, false, not, [], ◌∷◌, Str, codes, ◌≡◌, refl}
use yarte.Hir.Generator.{Hir, Hirs, no_more, more, els}
use yarte.Codegen.{html, gen}
use yarte.Codegen.Runs.{Machine, exec, means, exec-gen}

abbrev odd : ℕ → Bool
odd zero = false
odd (suc n) = not (odd n)

abbrev machine : Machine ℕ ℕ ℕ
machine = record {
  truth = λ env e. odd e;
  displayed = λ env e. b'0' ∷ [];
  rendered = λ env e. b'r' ∷ [];
  rounds = λ env e args. 1 ∷ 2 ∷ [];
  declared = λ env l. l;
}

abbrev lit : Str → Hirs ℕ ℕ
lit s = Hirs.cons (Hir.lit s) Hirs.nil

-- `for 0 in 0 { r } if 2 { a } else if 3 { b } else { c }`.
abbrev form : Hirs ℕ ℕ
form = Hirs.cons (Hir.each 0 (Hirs.cons (Hir.expr 5) Hirs.nil) 0) (
    Hirs.cons
      (Hir.if_else 2 (lit (codes "a")) (more 3 (lit (codes "b")) no_more) (els (lit (codes "c"))))
      Hirs.nil)

exec-gen_example : exec machine 0 false (gen html form) ≡ means machine html 0 form
exec-gen_example = exec-gen machine html form 0

form-exec : exec machine 0 false (gen html form) ≡ codes "rrb"
unfolding exec gen
form-exec = refl
