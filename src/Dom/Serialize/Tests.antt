-- ===== src/Dom/Serialize/Tests.antt =====
-- Concrete serializations.
use yarte.Base.{true, false, none, [], ◌∷◌, ◌≡◌, refl, inl, inr, Str, codes}
use yarte.Parser.Result.{ok}
use yarte.Dom.Names.{html, none_ns}
use yarte.Dom.Writer.{new, write_escaped, write}
use yarte.Dom.Writer.Escape.{Inside, read_text, write_escaped-Escapes}
use yarte.Dom.Serialize.{TreeElement, Trees, node, text, doctype, mark, nil, cons, serialize}
use yarte.Dom.Serialize.Sound.Total.{NodesFit, serialize-ok}

abbrev page : Trees
page = cons doctype (
    cons
      (node (record { ns = html; local = codes "div" })
        ((record { ns = none_ns; local = codes "onclick" }, codes "go")
          ∷ (record { ns = none_ns; local = codes "class" }, codes "a\"b")
          ∷ [])
        (cons (text (codes "  1 < 2 ")) (
          cons (node (record { ns = html; local = codes "b" }) [] (cons (text (codes " x")) nil)) (
            cons (text (codes " ")) (
              cons (node (record { ns = html; local = codes "br" }) [] nil)
                (cons (mark (codes "0")) nil))))))
      nil)

serialize-page :
    serialize page true
    ≡ ok (
        codes
          "<!DOCTYPE html><div class=\"a&quot;b\">1 &lt; 2 <b> x</b> <br><!--yarteHashHTMLExpressionsATTT0--></div>")
unfolding serialize yarte.Dom.Serialize.serialize_nodes yarte.Dom.Serializer.write_doctype new
    yarte.Dom.Serializer.start_elem yarte.Dom.Serializer.write_text yarte.Parser.Trim.trim
    yarte.Parser.Cursor.is_ws yarte.Dom.Serializer.end_elem yarte.Dom.Serializer.end
    yarte.Dom.Serializer.write_comment
serialize-page = refl

serialize-ok_example : (out : Str) × (serialize page true ≡ ok out)
serialize-ok_example = serialize-ok page true (
    unfold NodesFit in
    (refl, ((inl refl, (refl, ((inl refl, (refl, tt)), (refl, ((inr refl, tt), (tt, tt)))))), tt)))

write_escaped-Escapes_example :
    (e : Str) × (write_escaped (new true) (codes "a & <b>") false ≡ write (new true) e)
    × Inside false e
    × (read_text none e ≡ codes "a & <b>")
write_escaped-Escapes_example = write_escaped-Escapes (codes "a & <b>") (new true) false
