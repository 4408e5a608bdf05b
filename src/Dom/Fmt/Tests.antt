-- ===== src/Dom/Fmt/Tests.antt =====
-- A form that a parser of one text takes back. The expressions are numbers.
use yarte.Base.{ℕ, true, [], ◌∷◌, none, some, codes, ◌≡◌, refl}
use yarte.Dom.Names.{QualName}
use yarte.Dom.Sink.{Sink, ParseElement}
use yarte.Hir.Generator.{Hir, Hirs}
use yarte.Dom.Fmt.{Html, to_domfmt_init}
use yarte.Dom.Fmt.Bare.{bare, to_domfmt_init-bare}

abbrev root_name : QualName
root_name = record { ns = yarte.Dom.Names.Namespace.html; local = codes "marquee" }

-- `ac<!--…0x00000000-->b`, parsed as a fragment.
abbrev sink : Sink
sink = record {
  count = 4;
  nodes =
      (0, ParseElement.node root_name [] (1 ∷ 2 ∷ 3 ∷ []) none)
      ∷ (1, ParseElement.text (codes "ac"))
      ∷ (2, ParseElement.mark (codes "0x00000000"))
      ∷ (3, ParseElement.text (codes "b"))
      ∷ [];
  fragment = true;
  err = [];
}

abbrev html : Html
html = record { parse_document = λ _. none; parse_fragment = λ _. some sink }

abbrev given : Hirs ℕ ℕ
given = Hirs.cons (Hir.lit (codes "a")) (
    Hirs.cons (Hir.lit (codes "c"))
      (Hirs.cons (Hir.expr 7) (Hirs.cons (Hir.lit (codes "b")) Hirs.nil)))

abbrev returned : Hirs ℕ ℕ
returned =
    Hirs.cons (Hir.lit (codes "ac"))
      (Hirs.cons (Hir.expr 7) (Hirs.cons (Hir.lit (codes "b")) Hirs.nil))

to_domfmt_init-bare_example : bare returned ≡ bare given
unfolding to_domfmt_init yarte.Dom.Tree.from yarte.Dom.Serialize.serialize
    yarte.Dom.Serialize.serialize_nodes yarte.Dom.Serializer.write_text yarte.Dom.Writer.new
    yarte.Parser.Trim.trim yarte.Parser.Cursor.is_ws yarte.Dom.Serializer.write_comment
    yarte.Dom.Serializer.end
to_domfmt_init-bare_example = to_domfmt_init-bare html 1 given returned refl
