-- ===== src/Lib.antt =====
-- specforge turns an OpenAPI spec into client libraries. A spec is resolved into a language-neutral
-- document (the IR); emitters write SDKs from it, and tools compare, lint, version and validate it.
-- This library models the tools of crates/specforge-core that work on the IR alone, the downgrade
-- of specs, the mock server, and the naming of the emitters.
--
-- Ir: crates/specforge-core/src/ir.rs, the document that all the others read. Types hold lists of
--   types, so `IrTypes` stands beside `IrType`.
-- Diff: crates/specforge-core/src/diff.rs. `diff_detailed`, `diff` and every function that they
--   call, by the same names; a loop's body is a function of its own. What is pushed on `findings`
--   is a list that is returned. Hash tables are read in the order of a parameter `Order`, which
--   only has to lose and add no key, so that nothing rests on the iteration order. Diff/Types and
--   Diff/Version hold `type_changed`, `type_to_string` and `ir_major_version`, with the overflow
--   checks of a 64-bit parse, and Diff/Findings the data types; Diff/Shape, Diff/Compatible and
--   Diff/Unchanged are its theory.
-- Validate: crates/specforge-core/src/validate.rs on `Json`, which stands for `serde_json::Value`;
--   numbers and the formatting of lists and indices are a parameter `Host`. A type may refer to
--   itself, so `validate_inner` takes fuel, one unit for each call, and `none` says that it ran
--   out. Validate/Conforms says when a value conforms, Validate/Decides relates the two,
--   Validate/Fuel has it that more fuel changes no answer, and Validate/Halting that enough fuel
--   exists where the registry is guarded: each shape refers, before it goes down into a property,
--   an element or an entry, to references of lower rank only.
-- Spec: crates/specforge-core/src/spec.rs on `Json`: `downgrade_31_to_30` with the conversions of
--   `downgrade_value`, `extract_webhooks`, and in Spec/Features `detect_31_features`. Both passes
--   go down into what they have just written, so they take fuel; Spec/Ends and Spec/Wrapped show
--   that more than twice and thrice the number of arrays and objects is enough. Spec/Parse has
--   `parse_str` and `parse_str_full` with the readers of serde_json, serde_yaml and openapiv3 as
--   parameters, `Readers`, and Spec/Parse/Outcome what becomes of a text. Spec/Passes and Spec/Everywhere are the theory of a pass, Spec/Conversions and
--   Spec/Downgraded that of the downgrade.
-- Changelog: crates/specforge-core/src/changelog.rs, `generate_changelog_result` and what it calls,
--   on the result of Diff; Changelog/Types has the data types. The date and the loading of the
--   previous spec are parameters.
-- Analyzer: crates/specforge-core/src/analyzer.rs, `unused_schemas`: the references of the bodies,
--   the `while` loop that closes them under the references of the schemas, and the names outside.
--   Each round but the last adds a name, so one unit of fuel more than the schemas have references
--   is enough. Analyzer/Depth has `build_ref_graph` and `ref_depth`, for which one unit more than
--   the schemas not yet seen is enough. Sorting and the rest of the report are left out.
-- Merge: crates/specforge-core/src/merge.rs on `Json`. A place that the code reaches with `get_mut`
--   is changed by `change_at`, which puts the changed value back; `==` of values is a parameter.
-- Mock: crates/specforge-core/src/mock.rs, `from_doc`, `generate_example_json` and the answer to a
--   request. A reference makes the recursion unbounded, so generating takes fuel; Mock/Fuel has it
--   that more fuel changes no example, Mock/Examples for which types enough exists, and Mock/Answers what a
--   server has to answer. The numbers and the printing of serde_json are a parameter `Printer`.
-- Infer: crates/specforge-core/src/infer.rs on `Json`. Infer/Alike says independently what the
--   keywords of a schema accept, and which values are like a sample; Infer/Accepts relates the two.
-- Webhooks: the end of crates/specforge-core/src/resolve.rs, `resolve_webhooks` and what it calls,
--   on `Json`. Webhooks/Described and Webhooks/Declared say by relations what a schema and the
--   webhooks of a spec are resolved to, and Webhooks/Found that they are.
-- LintConfig: crates/specforge-core/src/lint_config.rs, the rules, the overrides and the profiles.
-- Versioning: crates/specforge-core/src/versioning.rs; Unicode lower-casing is a parameter.
-- Names: crates/specforge-ts/src/name.rs; a text is its list of code points, and `push_str`,
--   `replace` and `matches!` are functions on it. Names/Literals has the reader of literals and
--   keys that the emitted text is meant for.
-- FieldNames: the loop of `unique_field_name`, which crates/specforge-rust/src/lib.rs and
--   crates/specforge-go/src/lib.rs share but for a character; FieldNames/Fresh shows that one round
--   more than there are used names is enough, and FieldNames/Suffixed what names it gives. The writing of numbers is a parameter `Decimal`.
-- RustSdk: crates/specforge-rust/src/lib.rs, its names, the field names of `emit_object` and
--   `render_type`; RustSdk/Fields is about the fields. What case characters outside ASCII have is a parameter `Casing`.
-- GoSdk: crates/specforge-go/src/lib.rs, its names, `render_type` and `build_path_concat`, whose
--   loop takes one unit of fuel for each round; GoSdk/Paths shows that one more than the characters
--   of the path is enough.
-- Prelude: shared list, option, text and map functions with their lemmas.
--
-- Not modelled: the reading of files and directories; the rest of the resolver, the lint and
-- security checks, which work on the types of the openapiv3 crate; deprecations, the graphs of
-- crates/specforge-core/src/graph.rs, duplicate and large schemas in the analyzer; the text that the
-- emitters write, the documentation and every other rendering as text; the command line, sockets
-- and git.
pub mod Prelude
pub mod FieldNames
pub mod Ir
pub mod Diff
pub mod LintConfig
pub mod Versioning
pub mod Names
pub mod Json
pub mod Validate
pub mod Changelog
pub mod Analyzer
pub mod Merge
pub mod Mock
pub mod Spec
pub mod Infer
pub mod Webhooks
pub mod RustSdk
pub mod GoSdk
