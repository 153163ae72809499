-- ===== src/Actions/Ngrams.antt =====
-- native/actions/ngram-model.cc: matching n-grams against the hashed tokens of a message. A hash is a number;
-- the weights of the matches are summed as floats and are left out.
pub mod Matches
pub mod Range
use external_libtextclassifi.Prelude.{
  ℕ, zero, suc, ◌+◌, ◌-◌, ◌*◌, ◌/◌, ◌%◌, ◌^◌, Bool, true, false, List, [], ◌∷◌, ltb, leb, ◌==◌,
  if◌then◌else◌, length, drop, take, get_or,
}

-- The loop of `IsNGramMatch`, on what is left of the tokens and of the n-gram.
module _ (max_skips : ℕ) where
  unfoldable pub match_from : List ℕ → List ℕ → ℕ → Bool
  match_from tokens [] skip_remain = true
  match_from [] (g ∷ ngram_tokens) skip_remain = false
  match_from (t ∷ tokens) (g ∷ ngram_tokens) skip_remain = elim (t == g) [
    | true ↦ match_from tokens ngram_tokens max_skips
    | false ↦ elim skip_remain [
      | zero ↦ false
      | suc left ↦ match_from tokens (g ∷ ngram_tokens) left
    ]
  ]

  -- `IsNGramMatch`
  unfoldable pub is_ngram_match : List ℕ → List ℕ → Bool
  is_ngram_match tokens ngram_tokens = match_from tokens ngram_tokens 0

-- The weight of one effective length in `GetNumSkipGrams`.
unfoldable pub num_of_length : ℕ → ℕ → ℕ → ℕ → ℕ
num_of_length num_tokens len_min len_max len_i =
    let len_mid = (len_max + len_min) / 2 in
    let num_configs_of_len_i =
      if leb len_i len_mid then len_i - len_min + 1 else len_max - len_i + 1 in
    if ltb num_tokens len_i then 0 else num_configs_of_len_i * (num_tokens - len_i + 1)

-- The inner loop: `n` effective lengths from `len_i` on.
unfoldable pub add_lengths : ℕ → ℕ → ℕ → ℕ → ℕ → ℕ → ℕ
unfolding num_of_length
add_lengths zero len_i num_tokens len_min len_max total = total
add_lengths (suc n) len_i num_tokens len_min len_max total =
    add_lengths n (suc len_i) num_tokens len_min len_max
      ((total + num_of_length num_tokens len_min len_max len_i) % 2 ^ 64)

-- The outer loop: `n` lengths of n-grams from `ngram_len` on.
unfoldable pub add_ngrams : ℕ → ℕ → ℕ → ℕ → ℕ → ℕ
unfolding add_lengths
add_ngrams zero ngram_len num_tokens max_skips total = total
add_ngrams (suc n) ngram_len num_tokens max_skips total =
    let spread = (ngram_len - 1) * max_skips in
    add_ngrams n (suc ngram_len) num_tokens max_skips
      (add_lengths (suc spread) ngram_len num_tokens ngram_len (ngram_len + spread) total)

-- `GetNumSkipGrams`; its condition bounds the length by two numbers.
unfoldable pub get_num_skip_grams : ℕ → ℕ → ℕ → ℕ
unfolding add_ngrams
get_num_skip_grams num_tokens max_ngram_length max_skips =
    let longest = if leb max_ngram_length num_tokens then max_ngram_length else num_tokens in
    add_ngrams (longest - 1) 2 num_tokens max_skips num_tokens

-- `std::lower_bound` and `std::upper_bound` on a sorted sequence, as indices.
unfoldable pub lower_index : ℕ → List ℕ → ℕ
lower_index hash [] = 0
lower_index hash (x ∷ xs) = if ltb x hash then suc (lower_index hash xs) else 0

unfoldable pub upper_index : ℕ → List ℕ → ℕ
upper_index hash [] = 0
upper_index hash (x ∷ xs) = if leb x hash then suc (upper_index hash xs) else 0

-- `NGramLinearRegressionModel`; `ngram_start_offsets` has an entry more than there are n-grams.
pub record NgramModel : Type 0 where
  pub hashed_ngram_tokens : List ℕ
  pub ngram_start_offsets : List ℕ
  pub num_ngrams : ℕ
  pub max_skips : ℕ

-- What `FirstTokenIterator` walks over, `n` n-grams from `index` on.
unfoldable pub first_tokens : NgramModel → ℕ → ℕ → List ℕ
first_tokens m zero index = []
first_tokens m (suc n) index =
    get_or m.hashed_ngram_tokens (get_or m.ngram_start_offsets index 0) 0
    ∷ first_tokens m n (suc index)

pub record TokenRange : Type 0 where
  pub start : ℕ
  pub end : ℕ

-- `GetFirstTokenMatches`
unfoldable pub get_first_token_matches : NgramModel → ℕ → TokenRange
get_first_token_matches m token_hash = record {
  start = lower_index token_hash (first_tokens m m.num_ngrams 0);
  end = upper_index token_hash (first_tokens m m.num_ngrams 0);
}

-- The n-gram with an index.
unfoldable pub ngram_at : NgramModel → ℕ → List ℕ
ngram_at m ngram_idx =
    let ngram_tokens_begin = get_or m.ngram_start_offsets ngram_idx 0 in
    let ngram_tokens_end = get_or m.ngram_start_offsets (suc ngram_idx) 0 in
    take (ngram_tokens_end - ngram_tokens_begin) (drop ngram_tokens_begin m.hashed_ngram_tokens)

-- The inner loop of `Eval`: `n` n-grams from `ngram_idx` on, at a suffix of the tokens.
unfoldable pub count_ngrams : NgramModel → ℕ → ℕ → List ℕ → ℕ → ℕ
count_ngrams m zero ngram_idx tokens num_matches = num_matches
count_ngrams m (suc n) ngram_idx tokens num_matches = count_ngrams m n (suc ngram_idx) tokens (
    if is_ngram_match m.max_skips tokens (ngram_at m ngram_idx)
    then suc num_matches
    else num_matches)

-- The outer loop of `Eval`, over the suffixes of the tokens: `num_matches`.
unfoldable pub count_matches : NgramModel → List ℕ → ℕ → ℕ
count_matches m [] num_matches = num_matches
count_matches m (t ∷ tokens) num_matches =
    let ngram_range = get_first_token_matches m t in
    count_matches m tokens (
      count_ngrams m (ngram_range.end - ngram_range.start) ngram_range.start (t ∷ tokens)
        num_matches)
