-- ===== src/Tokenizer.antt =====
-- native/utils/tokenizer.cc: how a text is cut into tokens. `Internal` goes by the roles of codepoint ranges,
-- `Numbers` by letters and digits, `Icu` by the breaks of the platform's iterator.
pub mod Ranges
pub mod Internal
pub mod Numbers
pub mod Icu
pub mod Spelling
