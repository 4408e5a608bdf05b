-- ===== src/Lib.antt =====
-- Verification of yarte, a template engine that compiles Handlebars-like templates to Rust code.
--
-- The program. `yarte_derive` reads a template and the partials that it names (`yarte_helpers`,
-- `yarte_config`), parses each file into nodes with spans (`yarte_parser`), lowers the nodes to an
-- intermediate form (`yarte_hir`) and generates code from it (`yarte_codegen`, with `yarte_dom` for
-- HTML). `yarte_wasm_app` is the run time of a client application.
--
-- Parser (yarte_parser/src). Parser.Cursor and Parser.Result are strnom.rs: the cursor, the
-- combinators and the outcomes of a run. Parser.Syntax is the data of lib.rs and source_map.rs.
-- Parser.SourceMap is source_map.rs, with the map of files passed along. Parser.Trim is `trim`;
-- Parser.Tags has `comment`, `end_expr`, `identifier`, `path` and `spanned`; Parser.Expressions
-- `make_argument!`, `safe`, `expr` and `partial`; Parser.Raw `raw`; Parser.Eater `make_eater!`,
-- `eat_lit`, `hel`, `if_else` and `parse`; Parser.PrePartials is pre_partials.rs. Their child
-- modules hold the proofs.
--
-- Files (yarte_config/src, yarte_helpers/src). Config is lib.rs of yarte_config, the paths of
-- templates and partials and `get_source`, over a record of what std does with paths and files;
-- Helpers.Read is helpers/read.rs, the search for the files that a template includes. A call of
-- `_read` takes one unit of fuel; one for each path that can be named is enough.
--
-- Run time (yarte_wasm_app/src). WasmApp.Queue is queue.rs, linked nodes on an explicit heap whose
-- allocator is the caller's; WasmApp.App is lib.rs: `Context`, `Addr::push`, `update`, `send` and
-- `hydrate`, over the author's handlers, which are a parameter. The queue that an application uses
-- is the list of its messages. The loop of `update` runs on fuel; it may run for ever where the
-- handlers keep sending messages, and the fuel that is enough is stated where they do not.
--
-- HTML output (yarte_dom/src). Dom.Writer and Dom.Serializer are serializer.rs, the writer of HTML
-- that minifies white space, with its output as the list of bytes written; Dom.Names has the lists
-- of names that it tests, and Dom.Serialize is the tree of serialize.rs and the walk over it.
-- Dom.Sink is sink.rs, the map of nodes and the calls that fill it; Dom.Tree takes the tree out of
-- it (`Tree::from`, `get_children`), on one unit of fuel for each level of the tree. The names are
-- markup5ever's, taken as their texts. A failure of the writer is not modelled.
--
-- Formatting and code. Dom.Fmt is yarte_dom/src/dom_fmt.rs, which writes a form as HTML with marks,
-- has it parsed and written again, and takes it apart at the marks, with `to_wasmfmt` in
-- Dom.Fmt.Wasm; html5ever is a parameter. Codegen is lib.rs, html.rs and text.rs of
-- yarte_codegen/src, the pieces of code that are quoted for a form, and Codegen.Runs a meaning of
-- that code and of the form over the values at run time.
--
-- Lowering (yarte_hir/src). Hir.Scope is scope.rs, the scopes of the helpers as one vector and the
-- positions at which they begin; its count is taken to have 64 bits. Hir.Validator is validator.rs. lib.rs is in the files:
-- Hir.Generator (`HIR`, the state of the generator, its white space, `write_buf_writable`),
-- Hir.Constants (`const_eval`, `eval_bool`, `eval_iter`), Hir.Resolve with Hir.Path
-- (`resolve_path`, what a name stands for; Hir.Resolve.Places says what the helpers around it
-- bind), Hir.Blocks (`visit_each`, `const_iter`, `visit_with`, `visit_unless`), Hir.Chain and
-- Hir.Conditions (`visit_if`), Hir.Lower (`handle`, the walk over the nodes, and `visit_partial`)
-- and Hir.Build (`build`, `generate`). The generator is passed along with the buffer that is
-- filled; a block is walked by the function that is the helper's argument. The walk is structural
-- in the nodes, and a partial takes one unit of fuel, which is enough where partials are nested no
-- deeper; the program's recursion has no bound, as read.rs has refused the partials that include
-- themselves. syn's expressions and declarations are type parameters; Hir.Rust and
-- Hir.Resolve.Quote list what else is a parameter: functions of syn, quote and v_eval, and the
-- lookup of a partial's file. The visitors stand beside the generator: Hir.LoopVar is
-- visit_each.rs, whether the block of a loop uses the loop's variables, with one unit of fuel for
-- each level of partials; Hir.PartialArgs is visit_partial.rs; Hir.Visitor is visits.rs, on a
-- syntax of its own that tells apart what the visitor treats in its own way and leaves the rest to
-- `node`, whose parts are visited in order as syn's visitor does. Hir.Whole puts the visitors into
-- the generator. A `debug_assert!` is left out, and so is what only logs. Hir.Yields is the rules
-- for what a run yields, or gives. Hir.Meaning is a meaning of templates and of the intermediate
-- form over the values at run time, to compare them; it leaves out loops, partials, declarations
-- and comments, and Hir.Meaning.Simple says on which templates the two are compared.
--
-- Conventions. A text is a list of bytes, each of them one character, so templates are ASCII. A
-- slice out of bounds, and any other panic of the program, is the outcome `panic`. Offsets are
-- `u32` and wrap around at 2^32, as in a release build. Loops and the recursion of the parser run
-- on fuel, one unit for each round or call; the fuel given is one more than the bytes left, which
-- is enough because each round or call leaves fewer of them, and `out_of_fuel` has no counterpart
-- in the program. What syn accepts as an expression, and the tests of unicode_xid, are fields of
-- the parameter Parser.Syntax.Syn.
--
-- Not modelled: the WebAssembly client (dom/ of yarte_dom, wasm/ of yarte_codegen), the attributes
-- of the deriving struct (visit_derive.rs), the procedural macros, file access, and the libraries
-- that the source calls.
pub mod Base
pub mod Parser
pub mod Config
pub mod Helpers
pub mod WasmApp
pub mod Dom
pub mod Hir
pub mod Codegen
