-- ===== src/Features/Labels.antt =====
-- native/annotator/feature-processor.cc, `MakeLabelMaps`, `LabelToTokenSpan`, `TokenSpanToLabel`: the labels
-- of the selection model, one for each pair of token counts on the left and on the right of a click.
pub mod RoundTrip
use external_libtextclassifi.Prelude.{
  ℕ, zero, suc, ◌+◌, ℤ, pos, pos_part, negsuc, ltb_ℤ, leb_ℤ, Bool, true, false, not, ◌&&◌, ◌||◌,
  List, [], ◌∷◌, ◌++◌, Option, none, some, leb, if◌then◌else◌, length, get_or,
}
use external_libtextclassifi.Token.{TokenSpan, same_token_span}

abbrev pub invalid_label : ℤ
invalid_label = negsuc 0

-- The two maps of `FeatureProcessor`. A key that is assigned again would hide the older entry.
pub record LabelMaps : Type 0 where
  pub label_to_selection : List TokenSpan
  pub selection_to_label : List (TokenSpan × ℕ)
  pub selection_label_id : ℕ

abbrev pub token_span : ℕ → ℕ → TokenSpan
token_span l r = record { first = pos l; second = pos r }

unfoldable pub find : TokenSpan → List (TokenSpan × ℕ) → Option ℕ
find span [] = none
find span ((key, label) ∷ entries) =
    if same_token_span key span then some label else find span entries

unfoldable pub add_label : TokenSpan → LabelMaps → LabelMaps
add_label span m = record {
  label_to_selection = m.label_to_selection ++ span ∷ [];
  selection_to_label = (span, m.selection_label_id) ∷ m.selection_to_label;
  selection_label_id = suc m.selection_label_id;
}

-- The options of the feature processor that the maps depend on.
module _ (max_selection_span : ℕ) (selection_reduced_output_space : Bool) where
  abbrev pub is_label : ℕ → ℕ → Bool
  is_label l r = not selection_reduced_output_space || leb (r + l) max_selection_span

  -- The inner loop; the first argument counts the rounds left.
  unfoldable pub add_row : ℕ → ℕ → ℕ → LabelMaps → LabelMaps
  add_row zero l r m = m
  add_row (suc n) l r m =
      add_row n l (suc r) (if is_label l r then add_label (token_span l r) m else m)

  -- The outer loop.
  unfoldable pub add_rows : ℕ → ℕ → LabelMaps → LabelMaps
  add_rows zero l m = m
  add_rows (suc n) l m = add_rows n (suc l) (add_row (suc max_selection_span) l 0 m)

  -- `MakeLabelMaps`, the maps of the selection model
  unfoldable pub make_label_maps : LabelMaps
  make_label_maps =
      add_rows (suc max_selection_span) 0
        (record { label_to_selection = []; selection_to_label = []; selection_label_id = 0 })

-- `LabelToTokenSpan`; `none` is `return false`.
unfoldable pub label_to_token_span : LabelMaps → ℤ → Option TokenSpan
label_to_token_span m label =
    if leb_ℤ (pos 0) label && ltb_ℤ label (pos (length m.label_to_selection))
    then some (get_or m.label_to_selection (pos_part label) (token_span 0 0))
    else none

-- `TokenSpanToLabel`
unfoldable pub token_span_to_label : LabelMaps → TokenSpan → ℤ
token_span_to_label m span = elim (find span m.selection_to_label) [
  | none ↦ invalid_label
  | some label ↦ pos label
]
