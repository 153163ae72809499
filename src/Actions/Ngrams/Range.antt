-- ===== src/Actions/Ngrams/Range.antt =====
-- `GetFirstTokenMatches`: the range of the n-grams that begin with a token.
