-- ===== src/Lib.antt =====
-- The cmm compiler: a verification development for its front end. Paths are from the repository's
-- root.
--
-- The compiler reads a file as bytes. `Lexer` (frontend/) cuts them into tokens and collects
-- diagnostics; the parser reads the tokens with the precedence table; `print` and `format` calls
-- have their format strings checked and turned into printf formats (ast/PrintFormat); string
-- literals are checked to be UTF-8 (support/Utf8). What is modelled, file by file:
--
-- - Token: src/frontend/Token.h and src/support/LiteralKind.h, the token types and the token. A
--   floating value is the text that `std::stod` is given.
-- - Diagnostic: src/sema/Diagnostic.h, as far as the lexer uses it.
-- - Precedence: src/frontend/OperatorPrecedence.cpp.
-- - Operators: the operator enumerations of src/ast/Expr.h.
-- - Parser: src/frontend/Parser.cpp, `parseExpr`. Parser.Infix is what its loop does with a token,
--   Parser.Climb the loop itself; the operands, which parseUnary and parsePostfix read, are a
--   parameter. Parser.Grammar describes the expressions by levels, on its own; Parser.Levels,
--   Parser.Sound and Parser.Finishes relate the two.
-- - Utf8: src/support/Utf8.cpp. Utf8.Scalars describes the encoding of Unicode scalar values on
--   its own; Utf8.Sound relates the two.
-- - Lexer: src/frontend/Lexer.cpp, a child module for each group of its member functions. The
--   state is the record `Lexer` with the members of the class, and a member function takes and
--   returns it; `scan_token` is scanToken, `tokenize` and `next_token` are tokenize and nextToken.
--   Lexer.Moves is the relation of the lexer's moves (advance and report), on which the proofs in
--   Lexer.Whole, Lexer.WholeNumber, Lexer.ScanShape, Lexer.Position, Lexer.Cover and Lexer.Tokens
--   stand. Lexer.Value is about the value of integer literals. Lexer.Stream relates nextToken to
--   tokenize.
-- - TokenStream: src/frontend/TokenStream.cpp, a look-ahead buffer over the lexer.
--   TokenStream.Sequence is the sequence of tokens that calls of nextToken give, TokenStream.Growth
--   and TokenStream.Refines hold the buffer against it.
-- - CtValue: src/ast/CtValue.cpp, the values of the compile-time evaluator. CtValue.Word is
--   integers as 64-bit patterns, CtValue.IntType is ctIntInfo, CtValue.Value is ctTruthy and
--   ctEquals, CtValue.Binary is ctBinary. `double` is a type with operations that the definitions
--   take as parameters. CtValue.Wrap, CtValue.Arithmetic and CtValue.Compare are about the integers.
-- - Types: src/ast/Type.h and the functions on types in src/ast/Symbol.cpp. A type is a tree, and a
--   structure, class or union is its name. Types.Equal is typesEqual, Types.Arithmetic the usual
--   arithmetic conversions, Types.Conversion conversionRank. Types.Equal.Canonical says what the
--   identity of a type depends on, Types.Arithmetic.Common describes the common class of two
--   operands on its own, Types.Conversion.Widens is about what an accepted conversion keeps.
-- - Symbols: src/ast/Symbol.cpp. Symbols.Overload is OverloadSet::resolve and Symbols.Scope the
--   scopes; a map is a list of entries, and a scope holds the maps of its parents.
--   Symbols.Overload.Unique and Symbols.Overload.Chosen relate the search to the best candidate,
--   Symbols.Scope.Declare says what a declaration changes.
-- - Mangle: src/ast/Mangle.cpp. Mangle.Agrees relates names to typesEqual, Mangle.Names is about the
--   sets of names with C linkage.
-- - Layout: src/ast/LayoutBuilder.cpp, the layout that buildAggregate writes into an annotated
--   aggregate, and in Layout.Union the block of buildUnion. The measures of types, which LLVM gives,
--   are a parameter. Layout.Align is alignUp, Layout.Tight and Layout.BitFields are what every round
--   of the loop keeps.
-- - Modules: src/driver/ModuleLoader.cpp, the imports of a unit. The file system and what the lexer
--   and the parser make of a file are parameters. Modules.Once is about what is appended, Modules.Ends
--   about the end of the recursion.
-- - Format: src/ast/PrintFormat.h and src/ast/PrintFormat.cpp. Format.Spec is parsePrintSpec,
--   Format.Spec.Conversion is specToPrintfConversion, Format.Build is buildPrintFormat;
--   Format.Decimal is std::stoi and std::to_string on decimal digits. Format.Build.Printf describes
--   how printf reads a format.
--
-- Prelude holds what the modules share. A byte is its value, and a text is the list of its bytes.
-- Positions, lines and columns are numbers without a bound: a file is taken to be shorter than 2 ^
-- 31 bytes, where `int` and `size_t` do not wrap. The accumulator of integer literals keeps its
-- bound of 2 ^ 128.
--
-- Loops whose end is not plain from a list run on fuel: the lexer's on the number of bytes left,
-- since each round advances; parseExpr on two steps for each token; the UTF-8 validator and
-- buildPrintFormat on the length of the text; loadModuleFile on the number of files, since its stack
-- holds each once. Results that need the fuel to be enough are in the list below.
--
-- Not modelled: logging; the conversion of floating literals to `double`; the class of a printf
-- argument's type (builtinPrintKind); ctCast, ctClone, ctDefaultValue and ctContainerInfo;
-- TypeContext; the offsets that LLVM's DataLayout computes; the rest of the parser, the syntax tree,
-- sema, templates, compile-time evaluation, code generation and the rest of the driver, which need
-- the syntax tree or call LLVM; thirdparty/mimalloc, a copy of another
-- project's library; libs/std, which is written in the compiled language.
pub mod Prelude
pub mod Utf8
pub mod Token
pub mod Diagnostic
pub mod Precedence
pub mod Operators
pub mod Parser
pub mod Lexer
pub mod TokenStream
pub mod Types
pub mod Symbols
pub mod Mangle
pub mod Layout
pub mod Modules
pub mod CtValue
pub mod Format
