-- ===== src/Parser/Laws.antt =====
-- ArgSplit of utils/helper.go: words joined by spaces are split into those words again.
use ddbot_nexus.Prelude.{
  ◌==◌, all, is_empty, Text, join, is_space, trim_left, trim_space, ℕ, ◌≡◌, refl, ap, ◌∙◌, Bool,
  true, false, ◌&&◌, ◌||◌, not, List, [], ◌∷◌, ◌++◌, map, arith,
}
use ddbot_nexus.Utils.{quote}
use ddbot_nexus.Parser.{
  scan_args, trim_left_edges, trim_edges, arg_split, between, in_word, is_blank,
}
use mathlib.Core.List.{append_assoc, reverse, append-nil, reverse-reverse, reverse-cons}

-- A byte that neither ends a word nor is trimmed.
abbrev pub is_plain : ℕ → Bool
is_plain c = not (is_space c || c == quote)

-- A word that is not empty, of plain bytes.
abbrev pub is_word : Text → Bool
is_word w = not (is_empty w) && all is_plain w

all-is_plain-append :
    (s t : Text) → all is_plain s ≡ true → all is_plain t ≡ true → all is_plain (s ++ t) ≡ true
all-is_plain-append [] t h g = g
all-is_plain-append (c ∷ s) t h g = ground (arith, all-is_plain-append s t)

all-is_plain-reverse : (s : Text) → all is_plain s ≡ true → all is_plain (reverse s) ≡ true
all-is_plain-reverse [] h = refl
all-is_plain-reverse (c ∷ s) h = rw (reverse-cons c s) (
    all-is_plain-append (reverse s) (c ∷ []) (all-is_plain-reverse s (ground arith)) (ground arith))

trim_left_plain : (w : Text) → all is_plain w ≡ true → trim_left w ≡ w
unfolding trim_left
trim_left_plain [] h = refl
trim_left_plain (c ∷ w) h = ground arith

trim_left_edges_plain : (w : Text) → all is_plain w ≡ true → trim_left_edges w ≡ w
unfolding trim_left_edges is_space
trim_left_edges_plain [] h = refl
trim_left_edges_plain (c ∷ w) h = ground arith

trim_space_plain : (w : Text) → all is_plain w ≡ true → trim_space w ≡ w
unfolding trim_space
trim_space_plain w h =
    rw (trim_left_plain w h)
      (rw (trim_left_plain (reverse w) (all-is_plain-reverse w h)) (reverse-reverse w))

trim_edges_plain : (w : Text) → all is_plain w ≡ true → trim_edges w ≡ w
unfolding trim_edges
trim_edges_plain w h =
    rw (trim_left_edges_plain w h)
      (rw (trim_left_edges_plain (reverse w) (all-is_plain-reverse w h)) (reverse-reverse w))

plain_byte : (c : ℕ) → is_plain c ≡ true → (is_blank c ≡ false) × ((c == quote) ≡ false)
unfolding is_space
plain_byte c h = (ground arith, ground arith)

head_plain :
    (c : ℕ) (w : Text) → all is_plain (c ∷ w) ≡ true → (is_plain c ≡ true) × (all is_plain w ≡ true)
head_plain c w h = (ground arith, ground arith)

scan_args_step :
    (acc : Text) (c : ℕ) (s : Text)
    → is_plain c ≡ true
    → scan_args (in_word acc) (c ∷ s) ≡ scan_args (in_word (acc ++ c ∷ [])) s
unfolding scan_args
scan_args_step acc c s h = let (a, b) = plain_byte c h in rw a (rw b refl)

scan_args_start :
    (c : ℕ) (s : Text)
    → is_plain c ≡ true
    → scan_args between (c ∷ s) ≡ scan_args (in_word (c ∷ [])) s
unfolding scan_args
scan_args_start c s h = let (a, b) = plain_byte c h in rw a (rw b refl)

scan_args_last :
    (acc w : Text) → all is_plain w ≡ true → scan_args (in_word acc) w ≡ (acc ++ w) ∷ []
unfolding scan_args
scan_args_last acc [] h = rw (append-nil acc) refl
scan_args_last acc (c ∷ w) h =
    let (hc, hw) = head_plain c w h in
    scan_args_step acc c w hc
    ∙ scan_args_last (acc ++ c ∷ []) w hw
    ∙ ap (λ t. t ∷ []) (append_assoc acc (c ∷ []) w)

scan_args_word :
    (acc w s : Text)
    → all is_plain w ≡ true
    → scan_args (in_word acc) (w ++ b' ' ∷ s) ≡ (acc ++ w) ∷ scan_args between s
unfolding scan_args
scan_args_word acc [] s h = rw (append-nil acc) refl
scan_args_word acc (c ∷ w) s h =
    let (hc, hw) = head_plain c w h in
    scan_args_step acc c (w ++ b' ' ∷ s) hc
    ∙ scan_args_word (acc ++ c ∷ []) w s hw
    ∙ ap (λ t. t ∷ scan_args between s) (append_assoc acc (c ∷ []) w)

head_word :
    (c : ℕ) (w : Text) (ws : List Text)
    → all is_word ((c ∷ w) ∷ ws) ≡ true
    → (is_plain c ≡ true) × (all is_plain w ≡ true) × (all is_word ws ≡ true)
head_word c w ws h = (ground arith, ground arith, ground arith)

scan_args-join : (ws : List Text) → all is_word ws ≡ true → scan_args between (join b' ' ws) ≡ ws
unfolding scan_args join
scan_args-join [] h = refl
scan_args-join ([] ∷ ws) h = cc h
scan_args-join ((c ∷ w) ∷ []) h =
    let (hc, hw, hs) = head_word c w [] h in scan_args_start c w hc ∙ scan_args_last (c ∷ []) w hw
scan_args-join ((c ∷ w) ∷ v ∷ ws) h =
    let (hc, hw, hs) = head_word c w (v ∷ ws) h in
    scan_args_start c (w ++ b' ' ∷ join b' ' (v ∷ ws)) hc
    ∙ scan_args_word (c ∷ []) w (join b' ' (v ∷ ws)) hw
    ∙ ap (λ t. (c ∷ w) ∷ t) (scan_args-join (v ∷ ws) hs)

map_trimmed :
    (ws : List Text) → all is_word ws ≡ true → map (λ s. trim_edges (trim_space s)) ws ≡ ws
map_trimmed [] h = refl
map_trimmed (w ∷ ws) h = ground (arith, trim_space_plain w, trim_edges_plain w, map_trimmed ws)

-- Words that are not empty and hold neither a space nor a quote, joined by single spaces, are split
-- into those words again.
pub arg_split-join : (ws : List Text) → all is_word ws ≡ true → arg_split (join b' ' ws) ≡ ws
unfolding arg_split
arg_split-join ws h = rw (scan_args-join ws h) (map_trimmed ws h)
