-- ===== src/Lib.antt =====
-- The text classifier of the repository: how annotations are found in a text and how those that clash
-- are settled. Paths are from the repository's root.
--
-- How the parts interact. A text is cut into tokens (native/utils/tokenizer.cc, module Tokenizer).
-- The annotator (native/annotator/annotator.cc) maps a click or a selection to tokens, takes a window
-- of tokens around it and numbers the token spans in the window as the classes of the selection model
-- (native/annotator/feature-processor.cc, module Features). The spans that come back lose ignored
-- codepoints at their ends (Features/Boundary) and unpaired brackets (native/annotator/strip-unpaired-
-- brackets.cc, module Brackets). The candidates of all the annotators go through
-- `Annotator::ResolveConflicts` (module Conflict), which keeps the best of those that overlap.
--
-- Which file models which part, with the function names of the source in its spelling:
-- - Span: `CodepointSpan`, `SpansOverlap` and `DoesCandidateConflict` of native/annotator/types.h and
--   annotator.cc. A `std::set` ordered by the start of a span is a sorted list, and an iterator into it
--   is the pair of the elements before it and those from it on.
-- - Text, Token: native/utils/utf8/unicodetext.cc and the tokens of native/annotator/types.h.
-- - Conflict: candidates, sources and scores; Conflict/Resolve: `ResolveConflict` on one group;
--   Conflict/Groups: `ResolveConflicts` and `FirstNonOverlappingSpanIndex`.
-- - Brackets: `StripUnpairedBrackets`.
-- - Features: Boundary (`StripBoundaryCodepoints`), Clicks (`CodepointSpanToTokenSpan`,
--   `CenterTokenFromClick`, `FindCenterToken`), Labels (`MakeLabelMaps`, `TokenSpanToLabel`,
--   `LabelToTokenSpan`), Padding (`StripOrPadTokens`), Lines
--   (`SplitContext`, `StripTokensFromOtherLines`), Splits (`SplitTokensOnSelectionBoundaries`).
-- - Tokenizer: Ranges (`IsCodepointInRanges` of native/utils/codepoint-range.cc and
--   `FindTokenizationRange`), Internal (`InternalTokenize`, `InternalRetokenize`),
--   Numbers (`NumberTokenize`), Icu (`ICUTokenize`, `Tokenize`).
-- - Checksum: `VerifyLuhnChecksum` of native/utils/checksum.cc, which a regular expression may ask for.
-- - Duration: native/annotator/duration/duration.cc; Units (`ParsedDurationAtomsToMillis`), Parse (the
--   tables and the parsers of a token, with `ParseInt32` of native/utils/strings/numbers.cc), Find (`FindDurationStartingAt`, `FindAll`, `ClassifyText`).
-- - Annotator: Candidates and Chunks (`ModelBoundsSensitiveScoreChunks` and `ModelChunk`, which pick the
--   spans that the selection model likes best), Clicks (`ModelClickContextScoreChunks`), Status (native/utils/base/status.h), State (the fields of
--   `Annotator` and the tests that its entry points share), Annotate (`AnnotateSingleInput`), Fragments
--   (`AnnotateStructuredInput`, `Annotate`), Snap (`SnapLeftIfWhitespaceSelection`), Select
--   (`SuggestSelection`), Classify (`ClassifyText`).
-- - Actions: Ngrams (`IsNGramMatch`, `GetNumSkipGrams`, `GetFirstTokenMatches` and the count of matches
--   of `Eval`, in native/actions/ngram-model.cc).
-- - Prelude: what the modules share. Tests: runs on concrete inputs and uses of the theorems.
--
-- How it is modelled. An `int` is an integer ℤ, and a position that the code never lets fall below 0 is
-- a natural number. The indices count codepoints of one text or tokens of one window, so the sums stay
-- far from 2^31 and do not wrap; the `int64` milliseconds of a duration can, and do so in the model. A `UnicodeText` is the list of its codepoints and its iterators are
-- positions. The map from sources to sets is an association list. `std::sort` by a comparison is
-- insertion sort, which is one of the orders that the library may return. A binary search is the walk
-- to the first element that does not satisfy its test, which is what `std::lower_bound` and
-- `std::upper_bound` return on a sequence that the test partitions.
--
-- Loops are structural recursions, but for five. The loops of `ResolveConflicts` and of
-- `FirstNonOverlappingSpanIndex` run on the number of candidates as fuel, and that of `FindAll` on the
-- number of tokens, and those over the batches of the two scorers of `ModelChunk` on the number of spans or clicks.
-- Each round consumes at least one of them, and theorems say that this is enough.
--
-- What is a parameter: the breaks that the platform finds in a text; the classification of a span by
-- TFLite (`ModelClassifyText`), which may fail; features and logits of the selection model; the engines
-- that the entry points call, as functions that add candidates or fail; the scores, an abstract type with its comparisons; the
-- tables of `UniLib` for brackets, letters, digits, white space and dots; lower case and `strtol`, for
-- durations.
--
-- What is not modelled: the grammars, the other actions, the language identification and the other
-- annotators, whose results come in as candidates; feature vectors and model inference, which are
-- floating-point arithmetic; flatbuffers, the Java binding and the loading of models.
pub mod Prelude
pub mod Span
pub mod Text
pub mod Token
pub mod Conflict
pub mod Brackets
pub mod Checksum
pub mod Features
pub mod Duration
pub mod Actions
pub mod Tokenizer
pub mod Annotator
mod Tests
