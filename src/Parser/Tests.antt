-- ===== src/Parser/Tests.antt =====
-- Concrete runs of the parser, with a stand-in for syn that takes any text but `!` for an
-- expression.
use Prim.Native.Nat.{◌+◌, ◌-◌}
use Prim.Native.String.{String}
use yarte.Base.{
  false, [], ◌∷◌, none, some, ◌≡◌, ◌≢◌, refl, arith, Str, codes, length, str_eq, if◌then◌else◌,
}
use yarte.Parser.Result.{ok, panic, out_of_fuel}
use yarte.Parser.Cursor.{
  Cursor, u32, adv, slice_to, slice_from, skip_ws, is_ws, adv_find, adv_starts_with,
}
use yarte.Parser.Trim.{trim}
use yarte.Parser.Syntax.{Syn, Node, Nodes, from_cursor, from_len}
use yarte.Parser.Eater.{parse, eater, eater_step, eat_lit}
use yarte.Parser.Eater.Covers.{Covers}
use yarte.Parser.Eater.Parsed.{parse-Covers, parse-ne-out_of_fuel, parse_plain}
use yarte.Parser.Tags.{eat_comment}
use yarte.Parser.Tags.Comment.{skip, up_to, eat_comment-up_to}
use yarte.Parser.Trim.Sound.{IsTrim, trim-IsTrim}
use yarte.Parser.Expressions.{eat_expression}
use yarte.Parser.PrePartials.{parse_partials}
use yarte.Parser.PrePartials.Sound.{parse_partials-ne-out_of_fuel}
use yarte.Parser.Raw.{raw_loop}
use yarte.Parser.Raw.Sound.{raw_loop_panics}

abbrev any_syn : Syn Str Str
any_syn = record {
  parse_expr = λ s. if str_eq s (codes "!") then none else some s;
  parse_local = λ s. some s;
  parse_expr_list = λ s. some (s ∷ []);
  is_xid_start = λ _. false;
  is_xid_continue = λ _. false;
}

abbrev at_start : String → Cursor
at_start s = record { rest = codes s; off = 0 }

abbrev template : Cursor
template = at_start "a {{ x }}"

abbrev template_nodes : Nodes Str Str
template_nodes =
    Nodes.cons
      (Node.lit [] (record { t = codes "a"; span = record { lo = 0; hi = 1 } }) (codes " "))
      (record { lo = 0; hi = 2 })
      (Nodes.cons
        (Node.expr (false, false) (record { t = codes "x"; span = record { lo = 5; hi = 6 } }))
        (record { lo = 2; hi = 9 }) Nodes.nil)

parse-template : parse any_syn template ≡ ok template_nodes
unfolding parse eater eater_step eat_expression trim adv slice_from slice_to adv_find
    adv_starts_with skip_ws is_ws from_cursor from_len eat_lit
parse-template = refl

abbrev nested : Cursor
nested =
    at_start
      "{{# if a }}{{!-- {{ --!}}{{ else if b ~}} {{# each c }}{{> p d }}{{/ each }}{{ else }}{{R}}{{ {{/R}}{{/ if }}"

parse-Covers_example : (k : Cursor) × Covers template template_nodes k × (k.rest ≡ [])
parse-Covers_example = parse-Covers any_syn template (omega arith) parse-template

parse-ne-out_of_fuel_example : parse any_syn nested ≢ out_of_fuel
parse-ne-out_of_fuel_example = parse-ne-out_of_fuel any_syn nested (omega arith)

parse_partials-ne-out_of_fuel_example : parse_partials any_syn nested.rest ≢ out_of_fuel
parse_partials-ne-out_of_fuel_example = parse_partials-ne-out_of_fuel any_syn nested.rest

raw_loop_panics_example : raw_loop 2 (at_start "a{{b") 0 ≡ panic
raw_loop_panics_example = raw_loop_panics 0 0 (codes "a") (codes "b") refl (omega arith)

trim-IsTrim_example :
    (l : Str) × (v : Str) × (r : Str) × (trim (codes " a b\n") ≡ ok (l, v, r))
    × IsTrim (codes " a b\n") l v r
trim-IsTrim_example = trim-IsTrim (codes " a b\n")

abbrev with_dashes : Cursor
with_dashes = at_start "-- {{ x }} !}} --!}}y"

eat_comment-up_to_example :
    eat_comment {Expr = Str} {Local = Str} with_dashes ≡ up_to (codes "--!}}") (skip 2 with_dashes)
eat_comment-up_to_example = eat_comment-up_to with_dashes

with_dashes-read :
    eat_comment {Expr = Str} {Local = Str} with_dashes
    ≡ ok (record { rest = codes "y"; off = 20 }, Node.comment (codes " {{ x }} !}} "))
unfolding eat_comment adv slice_to slice_from adv_find adv_starts_with
with_dashes-read = refl

parse_plain_example :
    (l : Str) × (v : Str) × (r : Str) × (parse any_syn (at_start " plain")
      ≡ ok (
          Nodes.cons
            (Node.lit l
              (record {
                t = v;
                span = record { lo = u32 (0 + u32 (length l)); hi = u32 (0 + u32 (6 - length r)) };
              })
              r)
            (record { lo = 0; hi = u32 (0 + u32 6) })
            Nodes.nil))
    × IsTrim (codes " plain") l v r
parse_plain_example = parse_plain any_syn (at_start " plain") (omega arith) refl (λ e. cc)
