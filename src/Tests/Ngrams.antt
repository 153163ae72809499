-- ===== src/Tests/Ngrams.antt =====
-- n-grams of small numbers.
use external_libtextclassifi.Prelude.{true, false, [], ◌∷◌, ◌≡◌, refl}
use external_libtextclassifi.Actions.Ngrams.{
  match_from, is_ngram_match, NgramModel, lower_index, upper_index, first_tokens,
  get_first_token_matches, ngram_at, count_ngrams, count_matches,
}
use external_libtextclassifi.Actions.Ngrams.Matches.{
  Occurs, ended, taken, skipped, is_ngram_match-Occurs,
}

-- One, skip, two, three.
match_with_a_skip : is_ngram_match 1 (1 ∷ 9 ∷ 2 ∷ 3 ∷ 4 ∷ []) (1 ∷ 2 ∷ 3 ∷ []) ≡ true
unfolding is_ngram_match match_from
match_with_a_skip = refl

is_ngram_match-Occurs_example : Occurs 1 0 (1 ∷ 9 ∷ 2 ∷ 3 ∷ 4 ∷ []) (1 ∷ 2 ∷ 3 ∷ [])
is_ngram_match-Occurs_example =
    is_ngram_match-Occurs 1 (1 ∷ 9 ∷ 2 ∷ 3 ∷ 4 ∷ []) (1 ∷ 2 ∷ 3 ∷ []) match_with_a_skip

-- An occurrence that the code misses, since it takes the first 2 that it sees.
missed_match : is_ngram_match 1 (1 ∷ 2 ∷ 2 ∷ 9 ∷ 3 ∷ []) (1 ∷ 2 ∷ 3 ∷ []) ≡ false
unfolding is_ngram_match match_from
missed_match = refl

missed_occurrence : Occurs 1 0 (1 ∷ 2 ∷ 2 ∷ 9 ∷ 3 ∷ []) (1 ∷ 2 ∷ 3 ∷ [])
missed_occurrence = taken (skipped (taken (skipped (taken ended))))

-- The n-grams 1 2, 1 3, and 2.
abbrev model : NgramModel
model = record {
  hashed_ngram_tokens = 1 ∷ 2 ∷ 1 ∷ 3 ∷ 2 ∷ [];
  ngram_start_offsets = 0 ∷ 2 ∷ 4 ∷ 5 ∷ [];
  num_ngrams = 3;
  max_skips = 1;
}

three_matches : count_matches model (1 ∷ 2 ∷ 3 ∷ []) 0 ≡ 3
unfolding count_matches count_ngrams ngram_at is_ngram_match match_from get_first_token_matches
    first_tokens lower_index upper_index
three_matches = refl
