-- ===== src/Actions.antt =====
-- native/actions: the n-gram model that decides whether a conversation gets suggestions.
pub mod Ngrams
