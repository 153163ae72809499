-- ===== src/Features/Lines/Stripped.antt =====
-- `StripTokensFromOtherLines` keeps the tokens on the lines that contain the span.
use external_libtextclassifi.Prelude.{true, List, ◌≡◌, All}
use external_libtextclassifi.Span.{CodepointSpan}
use external_libtextclassifi.Token.{Token}
use external_libtextclassifi.Features.Lines.{Line, contains, is_on_line}

-- The token is on each line that contains the span.
abbrev pub IsOnLines : CodepointSpan → List Line → Token → Type 0
IsOnLines span lines token =
    All (λ line. contains line span ≡ true → is_on_line line token ≡ true) lines
