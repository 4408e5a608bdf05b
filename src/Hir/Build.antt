-- ===== src/Hir/Build.antt =====
-- yarte_hir/src/lib.rs: `generate`, from the parsed files to the intermediate form or the errors.
pub mod Apart
pub mod Balanced
mod Tests
use yarte.Base.{
  ℕ, Bool, true, false, ◌&&◌, List, [], ◌∷◌, Option, none, some, Str, ◌⊎◌, inl, inr, if◌then◌else◌,
}
use yarte.Parser.Result.{Result, ok, panic, ◌>>=◌}
use yarte.Parser.Syntax.{Nodes}
use yarte.Hir.Rust.{Rust, Input}
use yarte.Hir.Validator.{ErrorMessage}
use yarte.Hir.Generator.{Hir, lit, Hirs, nil, cons, write_buf_writable}
use yarte.Hir.Lower.{handle, start}

module _ {Expr Local : Type 0} where
  -- A form that holds nothing is one empty literal.
  abbrev pub or_empty : Hirs Expr Local → Hirs Expr Local
  or_empty nil = cons (Hir.lit []) nil
  or_empty (cons h hs) = cons h hs

  abbrev pub is_lit : Hir Expr Local → Bool
  is_lit (Hir.lit _) = true
  is_lit _ = false

  abbrev pub starts_with_lit : Hirs Expr Local → Bool
  starts_with_lit nil = false
  starts_with_lit (cons h _) = is_lit h

  -- The assertion of `build`: no two literals stand side by side.
  unfoldable pub apart : Hirs Expr Local → Bool
  apart nil = true
  apart (cons h hs) =
      (if is_lit h then (if starts_with_lit hs then false else true) else true) && apart hs

  abbrev pub result : List ErrorMessage → Hirs Expr Local → Hirs Expr Local ⊎ List ErrorMessage
  result [] buf = inl buf
  result (e ∷ es) buf = inr (e ∷ es)

module _ {Expr Local : Type 0} (rust : Rust Expr Local) (input : Input Expr Local) where
  -- `build`, on the nodes of the file.
  unfoldable pub build : ℕ → Str → Nodes Expr Local → Result (Hirs Expr Local ⊎ List ErrorMessage)
  unfolding handle start apart
  build f path nodes = do
    (g, buf) ← handle rust input f nodes (start rust input path, nil)
    let buf = or_empty (write_buf_writable g buf).1
    if apart buf then ok (result g.errors buf) else panic

  -- `generate`.
  unfoldable pub generate : ℕ → Str → Result (Hirs Expr Local ⊎ List ErrorMessage)
  unfolding build
  generate f path = elim (input.ctx path) [ none ↦ panic | some nodes ↦ build f path nodes ]
