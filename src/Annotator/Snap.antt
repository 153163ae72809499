-- ===== src/Annotator/Snap.antt =====
-- native/annotator/annotator.cc: `SnapLeftIfWhitespaceSelection`.
pub mod Left
use external_libtextclassifi.Prelude.{
  ℕ, zero, suc, ◌-◌, pos, pos_part, Bool, true, false, not, ◌&&◌, if◌then◌else◌,
}
use external_libtextclassifi.Span.{CodepointSpan}
use external_libtextclassifi.Text.{UnicodeText, UniLib, at}

module _ (lib : UniLib) (context_unicode : UnicodeText) where
  -- The first loop, `n` codepoints from the position `it` on.
  unfoldable pub all_whitespace : ℕ → ℕ → Bool
  all_whitespace zero it = true
  all_whitespace (suc n) it = elim (lib.is_whitespace (at context_unicode it)) [
    | true ↦ all_whitespace n (suc it)
    | false ↦ false
  ]

  -- The loop that moves left, where `result.first` and `it` stay at one position.
  unfoldable pub move_left : ℕ → ℕ
  move_left zero = zero
  move_left (suc it) = elim (lib.is_whitespace (at context_unicode (suc it))) [
    | true ↦ move_left it
    | false ↦ suc it
  ]

  -- `SnapLeftIfWhitespaceSelection`, for a span that is valid and not empty.
  unfoldable pub snap_left_if_whitespace_selection : CodepointSpan → CodepointSpan
  snap_left_if_whitespace_selection span =
      let first = pos_part span.first in
      let it = move_left first in
      if not (all_whitespace (pos_part span.second - first) first)
      then span
      else if not (lib.is_whitespace (at context_unicode it))
      then record { first = pos it; second = pos (suc it) }
      else span
