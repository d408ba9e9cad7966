-- ===== src/Platform/Html/Plain.antt =====
-- `ToHTML` and `Strip` find the same text.
use wmux.Prelude.{
  ℕ, ◌≡◌, refl, sym, ap, ◌∙◌, leb, ◌&&◌, ◌||◌, Bool, true, [], ◌∷◌, ◌++◌, none, Bytes, arith,
}
use wmux.Platform.Ansi
use wmux.Platform.Ansi.{esc, next_is_backslash, keep, kept, strip, strip_in}
use wmux.Platform.Html.{
  Mode, plain, escape, osc, st, csi, inter, is_inter, escape_byte, next_mode, shown, to_html,
}
use wmux.Platform.Html.Markup.{tokens, texts, visible, to_html-IsMarkup}

-- html.EscapeString.
unfoldable pub escape_string : Bytes → Bytes
escape_string [] = []
escape_string (c ∷ s) = escape_byte c ++ escape_string s

-- Behind `ESC [` there are parameter bytes, then intermediate bytes, then a final byte.
abbrev ends : Mode → ℕ → Bool
ends (csi p) c = leb 0x20 c && leb c 126
ends (inter p) c = is_inter c || (leb 64 c && leb c 126)
ends _ c = true

-- Whether every CSI sequence is one of ECMA-48, or the input ends within it.
unfoldable pub regular : Mode → Bytes → Bool
unfolding next_mode
regular m [] = true
regular m (c ∷ s) = ends m c && regular (next_mode m c (next_is_backslash s)) s

abbrev mode_of : Mode → Ansi.Mode
mode_of plain = Ansi.plain
mode_of escape = Ansi.escape
mode_of osc = Ansi.osc
mode_of st = Ansi.st
mode_of (csi p) = Ansi.csi
mode_of (inter p) = Ansi.csi

next_mode-mode_of :
    (m : Mode) (c : ℕ) (b : Bool)
    → ends m c ≡ true
    → Ansi.next_mode (mode_of m) c b ≡ mode_of (next_mode m c b)
unfolding next_mode Ansi.next_mode
next_mode-mode_of m c b h = ground arith

escape_string-keep :
    (m : Mode) (c : ℕ) (s : Bytes)
    → escape_string (keep (kept (mode_of m) c) c s) ≡ shown m c ++ escape_string s
unfolding escape_string shown kept
escape_string-keep m c s = ground arith

visible-strip_in :
    (m : Mode) (s : Bytes)
    → regular m s ≡ true
    → visible m s ≡ escape_string (strip_in (mode_of m) s)
unfolding visible strip_in escape_string regular
visible-strip_in m [] h = refl
visible-strip_in m (c ∷ s) h =
    let b = next_is_backslash s in
    ap (λ t. shown m c ++ t) (visible-strip_in (next_mode m c b) s (ground arith))
    ∙ sym (escape_string-keep m c (strip_in (mode_of (next_mode m c b)) s))
    ∙ ap (λ n. escape_string (keep (kept (mode_of m) c) c (strip_in n s)))
        (sym (next_mode-mode_of m c b (ground arith)))

-- Where the CSI sequences of the input are well formed, if the last one perhaps cut off, the text
-- of the HTML page is what `Strip` leaves of the input, escaped for HTML.
pub to_html-strip :
    (s : Bytes) → regular plain s ≡ true → texts (tokens none (to_html s)) ≡ escape_string (strip s)
unfolding strip texts
to_html-strip s h =
    let (ts, reads, markup, shows) = to_html-IsMarkup s in
    ap texts reads ∙ shows ∙ visible-strip_in plain s h
