-- ===== src/Tests.antt =====
-- Tests of the definitions on concrete inputs, and the theorems applied at such inputs.
mod Annotations
mod Breaks
mod Chunks
mod Checksums
mod Classified
mod ClickScores
mod Conflicts
mod Durations
mod Ngrams
mod Retokenized
mod Selections
mod Spans
mod Splits
mod TextLines
mod Tokens
