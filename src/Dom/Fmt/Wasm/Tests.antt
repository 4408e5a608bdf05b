-- ===== src/Dom/Fmt/Wasm/Tests.antt =====
-- A document with an expression in an attribute in front of its head. The expressions are numbers.
use yarte.Base.{ℕ, false, [], ◌∷◌, ◌++◌, none, some, codes, ◌≡◌, refl}
use yarte.Parser.Result.{ok}
use yarte.Dom.Names.{none_ns}
use yarte.Dom.Sink.{Sink, ParseElement}
use yarte.Hir.Generator.{Hir, Hirs}
use yarte.Dom.Fmt.{Html, head_mark, hash, tail_mark}
use yarte.Dom.Fmt.Bare.{bare}
use yarte.Dom.Fmt.Wasm.{html_name, to_wasmfmt, with_state, to_wasmfmt-bare}

-- `<!doctype html><html lang="{{ 7 }}"><head></head></html>`.
abbrev sink : Sink
sink = record {
  count = 3;
  nodes =
      (0, ParseElement.document (1 ∷ []))
      ∷ (
        1,
        ParseElement.node (html_name (codes "html"))
            ((record { ns = none_ns; local = codes "lang" }, head_mark ++ (hash ++ tail_mark)) ∷ [])
            (2 ∷ []) none,
      )
      ∷ (2, ParseElement.node (html_name (codes "head")) [] [] none)
      ∷ [];
  fragment = false;
  err = [];
}

abbrev html : Html
html = record { parse_document = λ _. some sink; parse_fragment = λ _. none }

abbrev given : Hirs ℕ ℕ
given =
    Hirs.cons (Hir.lit (codes "<!doctype html><html lang=\""))
      (Hirs.cons (Hir.expr 7) (Hirs.cons (Hir.lit (codes "\"><head></head></html>")) Hirs.nil))

-- The state stands in the attribute, and the expression of the attribute in the script.
abbrev returned : Hirs ℕ ℕ
returned = Hirs.cons (Hir.lit (codes "<!DOCTYPE html><html lang=\"")) (
    Hirs.cons (Hir.safe 5) (
      Hirs.cons (Hir.lit (codes "\"><head><script>function get_state(){return JSON.stringify(")) (
        Hirs.cons (Hir.expr 7) (
          Hirs.cons
            (Hir.lit (
              codes ");}</script><script type=\"module\">"
              ++ codes "import init from 'app.js';async function run(){await init()}run()"
              ++ codes "</script></head></html>"))
            Hirs.nil))))

returned-to_wasmfmt : to_wasmfmt html 3 5 (some (codes "app.js")) given ≡ ok returned
unfolding to_wasmfmt yarte.Dom.Fmt.serialize_domfmt yarte.Dom.Tree.from
    yarte.Dom.Serialize.serialize yarte.Dom.Serialize.serialize_nodes
    yarte.Dom.Serializer.write_doctype yarte.Dom.Writer.new yarte.Dom.Serializer.start_elem
    yarte.Dom.Serializer.write_text yarte.Parser.Trim.trim yarte.Parser.Cursor.is_ws
    yarte.Dom.Serializer.end_elem yarte.Dom.Serializer.end yarte.Dom.Fmt.resolve_nodes
returned-to_wasmfmt = refl

to_wasmfmt-bare_example :
    bare returned ≡ bare (with_state html 3 5 (some (codes "app.js")) (some sink) given)
to_wasmfmt-bare_example =
    to_wasmfmt-bare html 3 5 (some (codes "app.js")) given returned returned-to_wasmfmt
