-- ===== src/Annotator.antt =====
-- native/annotator/annotator.cc: `Annotator`, what it does around its models. `Candidates` lists and
-- scores the token spans that the selection model looks at, `Chunks` picks among them; `State` is what
-- the entry points read, and `Annotate` and `Fragments` are the annotation of texts.
pub mod Candidates
pub mod Chunks
pub mod Clicks
pub mod Status
pub mod State
pub mod Annotate
pub mod Fragments
pub mod Snap
pub mod Select
pub mod Classify
