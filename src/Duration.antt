-- ===== src/Duration.antt =====
-- native/annotator/duration/duration.h and duration.cc: durations in a text, such as "3 minutes 30 seconds".
-- `Units` is the sum of the parts, `Parse` reads one token, `Find` is the search over the tokens.
pub mod Units
pub mod Parse
pub mod Find
