-- ===== src/Lib.antt =====
-- A model of the repository's C++ linter, build_support/cpplint.py, and what holds of it.
--
-- The linter reads a file into `CleansedLines`: four copies of its lines, of which `elided` has no
-- comments, strings or raw strings. It then goes over the lines: NOLINT comments are recorded, the
-- `NestingState` follows namespaces, classes, blocks and preprocessor conditionals, the include and
-- function states are updated, and each check calls `Error`, which asks the filters and the NOLINT
-- records whether to print. Around this, `main` reads the options, and for each file the
-- configuration files of its directories, processes it, and ends with the counts. The parts and
-- their modules:
--
--   Base         lists, text (a list of code points), decimal numbers, integers
--   Regex        Python's `re` as the linter uses it, `Match`, `Search`, `ReplaceAll`:
--                `Pattern` parses a pattern's text to a `Regex`, `Engine` matches by backtracking,
--                with references back to groups, and has `re.finditer`; `Engine.Sound` and
--                `Lengths` tell what a successful match says of its groups
--   Report       one call of the `error` callback
--   Nolint       `ParseNolintSuppressions`, `ProcessGlobalSuppresions`,
--                `ResetNolintSuppressions`, `IsErrorSuppressedByNolint` over the two dictionaries
--   State        `_CppLintState` (filters, counts) and `_ShouldPrintError`; `State.Printing` has
--                `Error`, `PrintError`, `PrintInfo` and the grouping in `FormatJUnitXML`,
--                `State.Kept` what `Error` leaves as it is
--   Includes     `_IncludeState`; `Includes.CppHeaders` is the table of C++ headers,
--                `Includes.Classify` has `_ClassifyInclude`, `Includes.Lines` `CheckIncludeLine`,
--                `Includes.Own` `CheckHeaderFileIncluded`
--   IncludeWhatYouUse  `FilesBelongToSameModule`, `UpdateIncludeState`,
--                `CheckForIncludeWhatYouUse`; `Templates` has their tables
--   Paths        `os.path` as the linter uses it, and `PathSplitToList`
--   FileInfo     the class, and the sets of extensions; its `System` stands for the file system and
--                `Flags` for the module's variables that options set
--   HeaderGuard  `GetHeaderGuardCPPVariable`, `CheckForHeaderGuard`
--   Actions      what a check does in order, where it also has lines read for NOLINT comments, and
--                how the linter's state runs through it
--   FileChecks   `CheckForBadCharacters`, `CheckForNewlineAtEOF`,
--                `CheckForMultilineCommentsAndStrings`, `CheckForCopyright`, the markers of
--                `ProcessFileData`
--   Functions    `_FunctionState`; `Functions.Lines` has `CheckForFunctionLengths`
--   Cleanse      `CleanseRawStrings`, `RemoveMultiLineComments`, `CleanseComments`,
--                `_CollapseStrings`, `CleansedLines`
--   Brackets     `FindEndOfExpressionInLine`, `CloseExpression` and their mirror images
--   Nesting      the blocks on the stack and their checks, `InTemplateArgumentList`,
--                `UpdatePreprocessor`, `Update`, `InnermostClass`, `CheckCompletedBlocks`
--   LineChecks   `CheckPosixThreading`, `CheckVlogArguments`, `CheckInvalidIncrement`,
--                `CheckMakePairUsesDeduction`, `FlagCxx11Features`, `FlagCxx14Features`;
--                `LineChecks.Inheritance` has the checks of `virtual`, `override` and `final`,
--                `LineChecks.Namespaces` those of indentation in namespaces
--   Spacing      `CheckComment`, `CheckSpacing`, `CheckParenthesisSpacing`, `CheckCommaSpacing`;
--                `Spacing.Lines` has `GetPreviousNonBlankLine` and `CheckSectionSpacing`,
--                `Spacing.Calls` `CheckSpacingForFunctionCall`
--   Braces       `CheckBraces`, and `CheckTrailingSemicolon` in `Braces.Semicolons`,
--                `CheckEmptyBlockBody` in `Braces.Empty`; `Unicode` in `Braces.Width` stands for
--                the tables of `unicodedata`
--   CheckMacros  `FindCheckMacro` and `CheckCheck`; `CheckMacros.Expression` is its loop
--   Language     `CheckPrintf` and questions that other checks ask about a line; `Language.Inside`
--                has the loop of `_GetTextInside`, `Language.Casts` `CheckCasts` and
--                `CheckCStyleCast`, `Language.Statics` `CheckGlobalStatic`, `Language.References`
--                `CheckForNonConstReference`, and `Language.Line` `CheckLanguage`, which calls them
--   Style        `CheckStyle`, which calls the checks of spaces and braces; `Style.Operators`,
--                `Style.Initializers` and `Style.Tokens` have `CheckOperatorSpacing`,
--                `CheckBracesSpacing` and `CheckAltTokens`, `Style.Limits` the length of a line
--   Constructors `CheckForNonStandardConstructs`
--   Process      `ProcessLine`, which calls the checks of a line with the states that they keep;
--                `Process.Data` has `ProcessFileData`
--   Program      the module's variables and the machine, `Host`; `Program.Getopt` and
--                `Program.Arguments` have `ParseArguments`, `Program.Config`
--                `ProcessConfigOverrides`, `Program.Files` `ProcessFile`, `Program.Main` `main`
--
-- Functions keep the source's names in snake case and take and return the state that the source
-- changes; the calls of `error` that a function makes are returned as a list of reports, in order.
-- A child module named for a property holds the theorems on its parent's definitions.
--
-- Loops that are not over a list run on fuel, and `none` says that it was too small: in
-- `_CollapseStrings`, `CleanseRawStrings`, `RemoveMultiLineComments`, the loops of `Update`, those
-- of `RepositoryName` and that of `PathSplitToList` it is one more than the characters or lines
-- left, of which each round takes at least one; in `CheckCheck` it is the characters of the
-- expression; in `InTemplateArgumentList` it is two more than the characters and lines of the file;
-- in `ProcessConfigOverrides` it is one more than the characters of the file's path. The totality
-- theorems below show that this is enough, and for `RepositoryName` under which condition. Two more
-- have no theorem of their own: the loop of `CheckOperatorSpacing` that hides the names of operator
-- methods has one more than the line's characters, of which each round hides at least one, and
-- `getopt` as many rounds as there are arguments, of which each takes at least one. A star in a
-- regular expression has as fuel one more than the characters left, which is enough as an empty
-- repetition ends it.
--
-- Simplifications: `\w`, `\d`, `\b` and `lower` know the ASCII letters only, `int()` the ASCII
-- digits, and so does a search that ignores case; verbosity levels are natural numbers, and where
-- an option sets a negative one, which the usage does not know, the run is not followed:
-- `below_zero` says so; `int(math.log(n, 2))` is the exact floor; a line out of range reads as
-- empty where the source would raise IndexError or, at -1, read the last line; a dictionary is an
-- association list or a list of its keys. `previous_stack_top` is a value where the source has a
-- reference. The blocks on a stack are values too: the source copies them deeply where two stacks
-- could share them.
--
-- A set is a list in the order in which Python goes over it; of the dictionary of includes only the
-- keys are kept, which is all that is read. File names are POSIX paths.
--
-- A pattern that a configuration file gives and `Pattern` does not know counts as one that does not
-- compile. `CheckForNamespaceIndentation` asks whether two blocks are the same object: here they
-- are when they lie at the same depth of the stack and begin on the same line. `Host` stands for
-- what the program asks the system for: files, directories, the standard input, `glob`, `os.walk`,
-- the order of a set; and for the XML text of `FormatJUnitXML`. The checks that a caller can add to
-- `ProcessFile` are a parameter.
--
-- Not modelled: runs at a negative level; the XML text and the texts of `PrintUsage`,
-- `PrintVersion` and `PrintCategories`, where the program's end says which of them is printed, and
-- the debugging output of --root; build_support/run_clang_format.py and run_clang_tidy.py, which
-- start other programs, with the list of paths in run_clang_tidy_extra.py; the C++ library under
-- src/ and its tests; webbench-1.5, a third-party program.
mod Base
pub mod Regex
pub mod Report
pub mod Nolint
pub mod State
pub mod Includes
pub mod IncludeWhatYouUse
pub mod FileChecks
pub mod FileInfo
pub mod Actions
pub mod Functions
pub mod HeaderGuard
pub mod Paths
pub mod Brackets
pub mod Cleanse
pub mod Nesting
mod Tests
pub mod LineChecks
pub mod Spacing
pub mod Constructors
pub mod Braces
pub mod CheckMacros
pub mod Language
pub mod Style
pub mod Process
pub mod Program
