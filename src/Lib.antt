-- ===== src/Lib.antt =====
-- A verification library for the core of the rules engine: the values and records that every
-- evaluator shares (src/model.rs), the row masks and row errors of the columnar evaluators
-- (src/lazy.rs), the resolution of inputs in explain and in fast mode, the reading of parameters and
-- the operations on scalars (src/engine.rs), the lexer and the parser of rule formulas
-- (src/formula.rs), the check for cycles among derived relations (src/compile.rs), the digests
-- (src/digest.rs) and the derivation of units (src/unit_derivation). Paths are those of the crate, from
-- the repository's root.
--
-- Model.Platform holds what the crates chrono and rust_decimal give, as a record of parameters:
-- dates with their order and checked shifts, decimals with their order, rounding and checked
-- arithmetic. The laws it names are that both orders are total, of decimals up to numerical
-- equality. Every definition that reads a date or a decimal takes this record as an instance
-- argument. Model.Values translates ScalarValue, its conversions and its derived equality,
-- JudgmentOutcome, ComparisonOp, DType and Rounding; Model.Data translates Period, Interval,
-- InputRecord, RelationRecord and DataSet; Model.Versions translates ParameterVersion,
-- IndexedParameter and version_at.
--
-- Engine.Errors translates EvalError, within_rule and the results that carry errors.
-- Engine.Inputs translates the input index that Engine::with_tracing builds (a hash map, as a
-- function of its key, whose entries are sorted by descending start), lookup_input with its check
-- of ties, resolve_inputs_for_period with its state, and validate_input_spells. Its child modules
-- show how they fit: Latest that the sorted index puts the record that starts last in front,
-- Facts, Tracking and Resolved that the loop of resolve_inputs_for_period selects the same record
-- for each fact, Agreement and Validated that validated data holds no tie in conflict.
--
-- Rows.Mask translates RowMask and RowIter, with their bits, counts and early returns. The
-- allocator is a parameter: grants n says whether it grants a buffer of n rows, and filled_rows
-- fails as the code does where it does not. Rows.Errors translates RowErrors over the ordered map
-- of BTree. Sharing by Rc is not observable in either, so a shared value is its contents. The
-- scan of RowIter runs on a fuel of one more than the bits, and its collection on one more than
-- the length, which the lemmas on iteration show to be enough.
--
-- Formula.Tokens, Formula.Bytes, Formula.Scan and Formula.Lexer translate the lexer: the token
-- types and keywords, the slices it takes, one round of its loop, and the loop with its
-- positions. A text is its UTF-8 bytes. The loop runs on a fuel of one more than the length of
-- the source; every round reads a byte, so it ends.
--
-- Formula.Ast and Formula.Parser translate the parser: the syntax trees and declarations, then one
-- function for each parsing function of the code and one for each of its loops (Parser.Terms for
-- expressions, Parser.Declarations for parse_module and parse_source). The position in the tokens is
-- the list of those left; past their end a read gives the last token, as the code's clamp does, and
-- no tokens at all, on which the code would panic, are the result `panics`. Every function takes a
-- fuel, and parse_source gives twelve units for each token, for the levels of precedence that one
-- token can pass. Messages are constructors, without their rendering. Formula.Printer is no code of
-- the program: it is an independent account of the grammar, which prints a tree with parentheses
-- only where the grammar wants them.
--
-- Engine.Scalars translates the comparison of values, the checked arithmetic, the calendar shifts and
-- the rounding of outputs; Engine.Parameters the evaluation of parameters with the record of the read
-- for the trace; Model.Tables the named tables of Program and insert_unique. The parsing of dates and
-- decimals by the crates is part of the record of Model.Platform.
--
-- Compile.Cycles translates detect_relation_cycle (src/compile.rs). The graph is an ordered map of
-- BTree, the hash map of positions a search in its keys. The path stands with its top first, so the
-- names of a cycle are collected in the opposite order, which their sorting forgets. The inner loop
-- runs on a fuel of one more than the dependencies and twice the relations, since each round enters
-- a relation, passes over a dependency or finishes a relation.
--
-- Compile.Parameters translates incompatible_parameter_reason and what it calls (src/compile.rs), for
-- declarations of one parameter that modules repeat, and the check of the dates of versions,
-- validate_effective_ranges (src/spec.rs). A reason is its text.
--
-- Digest translates SHA-256 (src/digest.rs): bytes and words are numbers, with the wrap-around of 32
-- bits written out. The padding adds zeros on a fuel of 64, since the place of the length comes
-- within 64 bytes.
--
-- Units translates parts of src/unit_derivation/evaluate.rs and types.rs. Units.Types has the data
-- of a request, Units.Keys the texts that name facts, Units.Worlds the normal form of observations
-- and the worlds that they leave open, Units.Evaluate the value of an expression in a world,
-- Units.Components the connected components under edges, Units.Freeze the edges and cuts that are
-- active, Units.Precedence which cuts precede others, Units.Cuts the cuts that overlap and those
-- that an edge blocks, Units.Division the blocks of a world with its attachments, Units.World the
-- two together, and Units.Encoder the bytes that traces and unit identities hash. Sets and maps are
-- those of BTree. eval_expr passes down the set of names being visited, since it is on return what
-- it was, and runs on a fuel of one more than the rules; the search of a component runs on two more
-- than the remaining persons and their neighbours, and the loop around it on one more than the
-- persons. The search of cut_set_precedes runs on one more than the cuts it starts from and all
-- orders. The world variables of a list of observations stand in the order of their keys. A method
-- of TraceEncoder is the bytes that it appends.
--
-- Not modelled: the evaluators' recursion over expressions and its deferral (src/engine.rs,
-- src/depth.rs), the columnar evaluators (src/bulk.rs, src/dense.rs), the lowering of formulas
-- (src/formula.rs), the rest of the compiler and the artifact formats (src/compile.rs, src/spec.rs,
-- src/schema.rs, src/rulespec.rs, src/interface.rs), relation typing and direction, the rest of unit
-- derivation (the binding of facts, the loops of apply_cut_precedence, the coalescing of cuts,
-- influence, roles, results, events, compile.rs, interface.rs, aggregation.rs), and the command line
-- and service layers. The messages of errors are kept where a theorem reads them. Prelude holds the
-- shared helpers, BTree the ordered maps and sets with their laws, Tests the witnesses.
pub mod Prelude
pub mod BTree
pub mod Model
pub mod Engine
pub mod Rows
pub mod Formula
pub mod Compile
pub mod Digest
pub mod Units
pub mod Tests
