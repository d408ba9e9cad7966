-- ===== src/Platform/Html/Markup.antt =====
-- What a reader of the page finds in it.
use wmux.Prelude.{
  ℕ, ◌≡◌, ◌⊎◌, inl, inr, refl, sym, ap, ◌∙◌, ◌==◌, not, Bool, true, false, Bool-cases, subst, List,
  [], ◌∷◌, ◌++◌, Option, none, some, Option-cases, Bytes, codes, map, append_assoc, append-nil,
  arith,
}
use wmux.Prelude.Search.{AllBytes-append, NoByte, AllBytes-all_bytes}
use wmux.Platform.Ansi.{esc, next_is_backslash}
use wmux.Platform.Html.Style.{Sgr, reset, style, apply_sgr}
use wmux.Platform.Html.{
  Mode, plain, escape, osc, st, csi, inter, escape_byte, next_mode, sgr_params, shown, flush_span,
  open_tag, open_span, page, pre_tag, to_html,
}
use wmux.Platform.Html.Style.Clean.{Clean, IsClean, reset-IsClean, style-Clean, apply_sgr-IsClean}

pub data Token : Type 0 where
  text : ℕ → Token
  tag : Bytes → Token

-- How HTML is cut into text and tags; `some t` is inside a tag of which `t` has been read.
unfoldable pub tokens : Option Bytes → Bytes → List Token
tokens t [] = []
tokens none (c ∷ s) = elim (c == b'<') [
  | true ↦ tokens (some []) s
  | false ↦ text c ∷ tokens none s
]
tokens (some t) (c ∷ s) = elim (c == b'>') [
  | true ↦ tag t ∷ tokens none s
  | false ↦ tokens (some (t ++ c ∷ [])) s
]

-- The text outside of tags.
unfoldable pub texts : List Token → Bytes
texts [] = []
texts (text c ∷ ts) = c ∷ texts ts
texts (tag t ∷ ts) = texts ts

-- A tag that opens a span, with a style that holds no quote, no bracket and no entity.
abbrev pub IsSpan : Bytes → Type 0
IsSpan t = (s : Bytes) × (t ≡ codes "span style=\"" ++ (s ++ codes "\"")) × Clean s

-- Spans are opened and closed in turn, none within another, and the page ends once, behind them.
abbrev pub IsMarkup : Bool → List Token → Type 0
IsMarkup span [] = ⊥
IsMarkup span (text c ∷ ts) = IsMarkup span ts
IsMarkup false (tag t ∷ ts) = ((t ≡ codes "/pre") × (ts ≡ [])) ⊎ (IsSpan t × IsMarkup true ts)
IsMarkup true (tag t ∷ ts) = (t ≡ codes "/span") × IsMarkup false ts

tokens-text : (t s : Bytes) → NoByte b'<' t → tokens none (t ++ s) ≡ map text t ++ tokens none s
unfolding tokens
tokens-text [] s h = refl
tokens-text (c ∷ t) s h = elim (Bool-cases (c == b'<')) [
  | inl e ↦ ground (arith, h.0)
  | inr e ↦ rw (e, tokens) (ap (◌∷◌ (text c)) (tokens-text t s h.1))
]

tokens-tag_from :
    (r t s : Bytes) → NoByte b'>' t → tokens (some r) (t ++ b'>' ∷ s) ≡ tag (r ++ t) ∷ tokens none s
unfolding tokens
tokens-tag_from r [] s h = ap (λ k. tag k ∷ tokens none s) (sym (append-nil r))
tokens-tag_from r (c ∷ t) s h = elim (Bool-cases (c == b'>')) [
  | inl e ↦ ground (arith, h.0)
  | inr e ↦
      rw (e, tokens)
        (tokens-tag_from (r ++ c ∷ []) t s h.1
          ∙ ap (λ k. tag k ∷ tokens none s) (append_assoc r (c ∷ []) t))
]

tokens-tag :
    (t s : Bytes) → NoByte b'>' t → tokens none (b'<' ∷ t ++ b'>' ∷ s) ≡ tag t ∷ tokens none s
unfolding tokens
tokens-tag t s h = tokens-tag_from [] t s h

escape_byte-NoByte : (c : ℕ) → NoByte b'<' (escape_byte c)
unfolding escape_byte
escape_byte-NoByte c = ground arith

shown-NoByte : (m : Mode) (c : ℕ) → NoByte b'<' (shown m c)
unfolding shown
shown-NoByte plain c = elim (Bool-cases (c == esc)) [
  | inl e ↦ rw e tt
  | inr e ↦ rw e (escape_byte-NoByte c)
]
shown-NoByte escape c = tt
shown-NoByte osc c = tt
shown-NoByte st c = tt
shown-NoByte (csi p) c = tt
shown-NoByte (inter p) c = tt

abbrev not_closing : ℕ → Bool
not_closing c = not (c == b'>')

Clean-NoByte : (s : Bytes) → Clean s → NoByte b'>' s
Clean-NoByte [] h = tt
Clean-NoByte (c ∷ s) h = (ground (arith, h.0), Clean-NoByte s h.1)

texts-append_text : (t : Bytes) (ts : List Token) → texts (map text t ++ ts) ≡ t ++ texts ts
unfolding texts
texts-append_text [] ts = refl
texts-append_text (c ∷ t) ts = ap (◌∷◌ c) (texts-append_text t ts)

IsMarkup-append_text :
    (span : Bool) (t : Bytes) (ts : List Token)
    → IsMarkup span ts
    → IsMarkup span (map text t ++ ts)
IsMarkup-append_text span [] ts h = h
IsMarkup-append_text span (c ∷ t) ts h = IsMarkup-append_text span t ts h

-- What the reader shows of the input.
unfoldable pub visible : Mode → Bytes → Bytes
unfolding shown next_mode
visible m [] = []
visible m (c ∷ rest) = shown m c ++ visible (next_mode m c (next_is_backslash rest)) rest

-- The rest of a page, as it is read.
abbrev Reads : Bool → Bytes → Bytes → Type 0
Reads span shows s = IsMarkup span (tokens none s) × (texts (tokens none s) ≡ shows)

shown-Reads :
    (span : Bool) (t shows s : Bytes)
    → NoByte b'<' t
    → Reads span shows s
    → Reads span (t ++ shows) (t ++ s)
shown-Reads span t shows s h (m, e) =
    rw (tokens-text t s h)
      (IsMarkup-append_text span t _ m, texts-append_text t (tokens none s) ∙ ap (λ k. t ++ k) e)

flush-Reads :
    (span : Bool) (shows s : Bytes) → Reads false shows s → Reads span shows (flush_span span ++ s)
unfolding texts
flush-Reads true shows s (m, e) =
    let clear : NoByte b'>' (codes "/span") = AllBytes-all_bytes not_closing (codes "/span") refl in
    let at = tokens-tag (codes "/span") s clear in
    (subst (IsMarkup true) (sym at) (refl, m), ap texts at ∙ e)
flush-Reads false shows s h = h

open_tag-Reads :
    (t shows s : Bytes)
    → Clean t
    → Reads (open_tag t).1 shows s
    → Reads false shows ((open_tag t).0 ++ s)
unfolding open_tag texts
open_tag-Reads [] shows s k h = h
open_tag-Reads (c ∷ t) shows s k (m, e) =
    let inner = codes "span style=\"" ++ ((c ∷ t) ++ codes "\"") in
    let quote : NoByte b'>' (codes "\"") = AllBytes-all_bytes not_closing (codes "\"") refl in
    let clear : NoByte b'>' inner =
      AllBytes-append not_closing (codes "span style=\"") ((c ∷ t) ++ codes "\"")
        (AllBytes-all_bytes not_closing (codes "span style=\"") refl)
        (AllBytes-append not_closing (c ∷ t) (codes "\"") (Clean-NoByte (c ∷ t) k) quote) in
    let regroup : (open_tag (c ∷ t)).0 ++ s ≡ b'<' ∷ inner ++ b'>' ∷ s =
      ap (λ r. codes "<span style=\"" ++ r)
        (append_assoc (c ∷ t) (codes "\">") s
          ∙ sym (append_assoc (c ∷ t) (codes "\"") (b'>' ∷ s))) in
    let at = ap (tokens none) regroup ∙ tokens-tag inner s clear in
    (subst (IsMarkup false) (sym at) (inr ((c ∷ t, refl, k), m)), ap texts at ∙ e)

end-Reads : Reads false [] (codes "</pre>")
unfolding tokens texts
end-Reads = (inl (refl, refl), refl)

-- The final byte of a sequence is no text.
sgr-shown : (m : Mode) (c : ℕ) {p : Bytes} → sgr_params m c ≡ some p → shown m c ≡ []
unfolding sgr_params shown
sgr-shown plain c e = cc
sgr-shown escape c e = refl
sgr-shown osc c e = refl
sgr-shown st c e = refl
sgr-shown (csi q) c e = refl
sgr-shown (inter q) c e = refl

page-Reads :
    (m : Mode) (s : Sgr) (span : Bool) (input : Bytes)
    → IsClean s
    → Reads span (visible m input) (page m s span input)
unfolding page visible open_tag open_span
page-Reads m s span [] h = flush-Reads span [] (codes "</pre>") end-Reads
page-Reads m s span (c ∷ rest) h = elim (Option-cases (sgr_params m c)) [
  | inl e ↦
      rw (e, page)
        (shown-Reads span (shown m c) _ _ (shown-NoByte m c)
          (page-Reads (next_mode m c (next_is_backslash rest)) s span rest h))
  | inr (p, e) ↦
      let t = apply_sgr p s in
      let clean = apply_sgr-IsClean p s h in
      let m' = next_mode m c (next_is_backslash rest) in
      rw (e, page, visible, sgr-shown m c e)
        (flush-Reads span _ _ (
          open_tag-Reads (style t) _ _ (style-Clean t clean)
            (page-Reads m' t (open_span t).1 rest clean)))
]

-- A reader of the page finds the tag of the `pre` element and then, whatever the input, spans that
-- are opened and closed in turn, none within another, each with a style without quotes, brackets or
-- entities, and the end of the `pre` element once, at the end. The text in it is the input without
-- its escape sequences, each byte escaped for HTML.
pub to_html-IsMarkup :
    (s : Bytes)
    → (ts : List Token) × (tokens none (to_html s) ≡ tag pre_tag ∷ ts)
      × IsMarkup false ts
      × (texts ts ≡ visible plain s)
unfolding to_html visible
to_html-IsMarkup [] =
    let clear : NoByte b'>' pre_tag = AllBytes-all_bytes not_closing pre_tag refl in
    (_, tokens-tag pre_tag (codes "</pre>") clear, end-Reads.0, end-Reads.1)
to_html-IsMarkup (c ∷ s) =
    let clear : NoByte b'>' pre_tag = AllBytes-all_bytes not_closing pre_tag refl in
    let (m, e) = page-Reads plain reset false (c ∷ s) reset-IsClean in
    (_, tokens-tag pre_tag (page plain reset false (c ∷ s)) clear, m, e)
