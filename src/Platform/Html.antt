-- ===== src/Platform/Html.antt =====
-- internal/platform/ansi/html.go: `ToHTML`. Each inner loop of the code is a mode.
pub mod Style
pub mod Markup
pub mod Plain
use wmux.Prelude.{
  ℕ, leb, ◌==◌, ◌&&◌, if◌then◌else◌, Bool, true, false, [], ◌∷◌, ◌++◌, Option, none, some, Bytes,
  codes,
}
use wmux.Platform.Ansi.{esc, next_is_backslash}
use wmux.Platform.Html.Style.{Sgr, reset, style, apply_sgr}

-- html.EscapeString of one byte.
unfoldable pub escape_byte : ℕ → Bytes
escape_byte c =
    if c == b'&'
    then codes "&amp;"
    else if c == b'\''
    then codes "&#39;"
    else if c == b'<'
    then codes "&lt;"
    else if c == b'>'
    then codes "&gt;"
    else if c == 34
    then codes "&#34;"
    else c ∷ []

-- `csi p` and `inter p` have read `p` behind `ESC [`, the second with an intermediate byte in it.
pub data Mode : Type 0 where
  plain escape osc st : Mode
  csi inter : Bytes → Mode

abbrev pub is_inter : ℕ → Bool
is_inter c = leb 0x20 c && leb c 0x2F

unfoldable pub next_mode : Mode → ℕ → Bool → Mode
next_mode plain c b = if c == esc then escape else plain
next_mode escape c b = if c == b'[' then csi [] else if c == b']' then osc else plain
next_mode (csi p) c b =
    if leb 0x30 c && leb c 0x3F
    then csi (p ++ c ∷ [])
    else if is_inter c
    then inter (p ++ c ∷ [])
    else plain
next_mode (inter p) c b = if is_inter c then inter (p ++ c ∷ []) else plain
next_mode osc c b = if c == 7 then plain else if c == esc && b then st else osc
next_mode st c b = plain

-- The parameters, where the byte is the final byte of an SGR sequence.
unfoldable pub sgr_params : Mode → ℕ → Option Bytes
sgr_params (csi p) c = if c == b'm' then some p else none
sgr_params (inter p) c = if c == b'm' then some p else none
sgr_params _ c = none

-- Only text that is not an ESC is shown.
unfoldable pub shown : Mode → ℕ → Bytes
unfolding escape_byte
shown plain c = if c == esc then [] else escape_byte c
shown _ c = []

abbrev pub flush_span : Bool → Bytes
flush_span true = codes "</span>"
flush_span false = []

-- The tag, and whether a span is open behind it.
unfoldable pub open_tag : Bytes → Bytes × Bool
open_tag [] = ([], false)
open_tag (c ∷ s) = (codes "<span style=\"" ++ ((c ∷ s) ++ codes "\">"), true)

unfoldable pub open_span : Sgr → Bytes × Bool
unfolding open_tag
open_span s = open_tag (style s)

-- The rest of the page, where `span` is `spanOpen`.
unfoldable pub page : Mode → Sgr → Bool → Bytes → Bytes
unfolding next_mode sgr_params shown open_span
page m s span [] = flush_span span ++ codes "</pre>"
page m s span (c ∷ rest) = elim (sgr_params m c) [
  | none ↦ shown m c ++ page (next_mode m c (next_is_backslash rest)) s span rest
  | some p ↦
      flush_span span
      ++ ((open_span (apply_sgr p s)).0
          ++ page (next_mode m c (next_is_backslash rest)) (apply_sgr p s)
              (open_span (apply_sgr p s)).1 rest)
]

abbrev pub pre_tag : Bytes
pre_tag = codes "pre style=\"font-family:monospace;background:#000;color:#aaa;padding:8px\""

unfoldable pub to_html : Bytes → Bytes
unfolding page
to_html [] = b'<' ∷ pre_tag ++ b'>' ∷ codes "</pre>"
to_html (c ∷ text) = b'<' ∷ pre_tag ++ b'>' ∷ page plain reset false (c ∷ text)
