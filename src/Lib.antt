-- ===== src/Lib.antt =====
-- scripts/tools/cpplint.py, the linter that the repository runs over its C++ sources.
--
-- The linter reads a file into lines, cleanses them of comments and strings, runs its checks over
-- every line with the states that track includes, functions and nested blocks, and hands each error
-- to `Error`, which asks the NOLINT suppressions, the verbosity and the filters whether to print it.
-- A check that takes the callback `error` is a function that returns the list of its calls, in their
-- order; a method that changes an object returns the new object.
--
--   Text, Text/*       Python's `str` as a list of code points, and the methods that are called
--   Dict               Python's `dict` with text keys
--   Regex, Regex/*     the patterns of `re`, a backtracking matcher, and `Match`, `Search`,
--                      `ReplaceAll`
--   Categories         the tables of error categories
--   Lint, Lint/*       `_CppLintState`, and the functions of the module that call its methods
--   Suppress, /*       NOLINT comments and the global suppressions
--   Emit, Emit/*       `_ShouldPrintError` and `Error`
--   Lines, Lines/*     `CleansedLines`, raw strings, comments, collapsed strings
--   Brackets, /*       `CloseExpression` and `ReverseCloseExpression`
--   Functions, /*      `_FunctionState` and `CheckForFunctionLengths`
--   Includes, /*       `_IncludeState`, `_ClassifyInclude` and `CheckIncludeLine`
--   Paths, Paths/*     the functions of `os.path` that are called, on a disk that is a parameter
--   Settings           the options for extensions and paths, and the functions that read them
--   FileInfo, /*       `FileInfo`
--   Guards, Guards/*   `PathSplitToList`, `GetHeaderGuardCPPVariable` and `CheckForHeaderGuard`
--   Nesting, /*        `NestingState`, with the blocks, classes and namespaces on its stack
--   Lint/Junit, /*     `FormatJUnitXML`
--   Needs, Needs/*     `CheckForIncludeWhatYouUse`, `CheckHeaderFileIncluded` and what they call
--   Checks             the checks: WholeFile (files, threads, logging), Calls, Comments, Spacing,
--                      Operators, Types (braces and types), Constructs, Macros, Tokens, Braces,
--                      Semicolons, Bodies, Inheritance (virtual functions), CStyle and Casts,
--                      References, Features (printf, C++11, C++14, blocks), and Style, which is
--                      `CheckStyle` and calls most of them
--   Tests, Tests/*     runs on concrete inputs
--
-- Numbers are natural numbers: line numbers, confidences and the verbosity are never negative here,
-- and an index of -1 is `none`. A star of a pattern makes at most one round more than there are
-- characters left, since each round but the last reads one. Characters outside of ASCII are no word
-- characters and have no case here. Python's `re`, `str` and `dict` are modelled as far as the source
-- uses them.
--
-- The confidence of a function that is too long is a logarithm of a float in the source, and is taken
-- as the exact logarithm rounded down.
--
-- The loops of `Update` get one round more than the line has characters, since each round but the last
-- shortens it, and that of `InTemplateArgumentList` one round for every character and every line. The
-- stack of blocks holds values: that the top before a line is the same object as one further down is
-- not modelled.
--
-- The disk is a working directory and a test whether a path exists; paths are those of POSIX, and the
-- sets of extensions are lists in the order in which they were made. The loops of `RepositoryName` and
-- of `PathSplitToList` get one round more than the path has characters.
--
-- The lines of a header that `UpdateIncludeState` reads, and how a tree of XML elements becomes text, are
-- parameters.
--
-- The loop of `CheckOperatorSpacing` over the names of operators and that of `CheckCheck` over an
-- expression get one round more than there are characters: a round of the first turns a character behind
-- an `operator` into an underscore, and one of the second shortens the expression. What `unicodedata`
-- says of a character is a parameter.
--
-- `CheckStyle` fails, with `none`, at a line number that is not of the file. In front of line 0
-- `CheckTrailingSemicolon` asks for the line number -1, for which there is no number here: this is `none`
-- as well.
--
-- Not modelled: the C++ sources of the framework, `CheckLanguage` and the check of global
-- strings, `CheckForNamespaceIndentation`, which compares objects by identity, the command line, the
-- reading of files, and the other scripts.
pub mod Base
pub mod Text
pub mod Paths
pub mod Settings
pub mod FileInfo
pub mod Guards
pub mod Needs
pub mod Checks
pub mod Categories
pub mod Dict
pub mod Lint
pub mod Suppress
pub mod Emit
pub mod Lines
pub mod Brackets
pub mod Functions
pub mod Includes
pub mod Nesting
mod Tests
pub mod Regex
