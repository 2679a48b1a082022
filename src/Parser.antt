-- ===== src/Parser.antt =====
-- lsp/parser/parser.go, ArgSplit of utils/helper.go, and MatchCmdWithPrefix of lsp/cfg/config.go: a
-- message as a command, its prefix and its arguments.
-- Texts are ASCII, so the replacement of the no-break space that Parse makes first does nothing.
pub mod Laws
pub mod Prefixes
use ddbot_nexus.Prelude.{
  leb, ◌==◌, if◌then◌else◌, length, drop, any, is_empty, Text, bytes, ◌==ₜ◌, has_prefix, ℤ,
  positive, pos, trim_space, ℕ, ◌/◌, Bool, true, false, ◌&&◌, ◌||◌, Option, none, some, List, [],
  ◌∷◌, ◌++◌, map,
}
use mathlib.Core.List.{reverse}
use ddbot_nexus.Utils.{quote}
use ddbot_nexus.Concern.KeySet.{int_eq}

-- The elements of a message that Parse tells apart.
pub data ChatElement : Type 0 where
  reply other_element : ChatElement
  at : ℤ → ChatElement
  text : Text → ChatElement

pub record Parser : Type 0 where
  pub command : Text
  pub args : List Text
  pub at_target : ℤ
  pub at_args : List ℤ

unfoldable pub after_reply : List ChatElement → List ChatElement
after_reply [] = []
after_reply (at t ∷ es) = es
after_reply (reply ∷ es) = reply ∷ es
after_reply (other_element ∷ es) = other_element ∷ es
after_reply (text t ∷ es) = text t ∷ es

-- The part of a message that mentions are searched in.
unfoldable pub search_part : List ChatElement → List ChatElement
unfolding after_reply
search_part [] = []
search_part (reply ∷ es) = after_reply es
search_part (e ∷ es) = e ∷ es

unfoldable pub take_target : List ChatElement → ℤ × List ChatElement
take_target (at t ∷ es) = (t, es)
take_target es = (pos 0, es)

unfoldable pub mentions_after : Bool → List ChatElement → List ℤ
mentions_after after_cmd [] = []
mentions_after after_cmd (at t ∷ es) =
    let rest = mentions_after after_cmd es in if after_cmd then t ∷ rest else rest
mentions_after after_cmd (e ∷ es) = mentions_after true es

-- The texts that are not blank, each with a space after it.
unfoldable pub text_of_elements : List ChatElement → Text
text_of_elements [] = []
text_of_elements (text t ∷ es) =
    let rest = text_of_elements es in
    if is_empty (trim_space t) then rest else trim_space t ++ b' ' ∷ rest
text_of_elements (e ∷ es) = text_of_elements es

-- Where the scan for matches of the expression stands: between them, in a word, or behind a quote.
pub data Mode : Type 0 where
  between : Mode
  in_word in_quotes : Text → Mode

-- The bytes that `\s` of the expression matches; unlike TrimSpace it passes over the vertical tab.
abbrev pub is_blank : ℕ → Bool
is_blank c = c == 32 || leb 9 c && leb c 10 || leb 12 c && leb c 13

abbrev pub has_quote : Text → Bool
has_quote = any (λ c. c == quote)

unfoldable pub scan_args : Mode → Text → List Text
scan_args between [] = []
scan_args (in_word acc) [] = acc ∷ []
scan_args (in_quotes acc) [] = []
scan_args between (c ∷ s) =
    let out = scan_args between s in
    let quoted = scan_args (in_quotes (c ∷ [])) s in
    let word = scan_args (in_word (c ∷ [])) s in
    if is_blank c then out else if c == quote then if has_quote s then quoted else out else word
scan_args (in_word acc) (c ∷ s) =
    let out = scan_args between s in
    let quoted = scan_args (in_quotes (c ∷ [])) s in
    let word = scan_args (in_word (acc ++ c ∷ [])) s in
    if is_blank c
    then acc ∷ out
    else if c == quote
    then acc ∷ (if has_quote s then quoted else out)
    else word
scan_args (in_quotes acc) (c ∷ s) =
    let out = scan_args between s in
    let quoted = scan_args (in_quotes (acc ++ c ∷ [])) s in
    if c == quote then (acc ++ c ∷ []) ∷ out else quoted

abbrev pub is_edge : ℕ → Bool
is_edge c = c == quote || c == b' '

unfoldable pub trim_left_edges : Text → Text
trim_left_edges [] = []
trim_left_edges (c ∷ s) = let rest = trim_left_edges s in if is_edge c then rest else c ∷ s

-- strings.Trim by a quote and a space
unfoldable pub trim_edges : Text → Text
unfolding trim_left_edges
trim_edges s = reverse (trim_left_edges (reverse (trim_left_edges s)))

unfoldable pub arg_split : Text → List Text
unfolding scan_args trim_edges
arg_split str = map (λ s. trim_edges (trim_space s)) (scan_args between str)

unfoldable pub with_args : List Text → ℤ → List ℤ → Parser
with_args [] target at_args = record {
  command = [];
  args = [];
  at_target = target;
  at_args = at_args;
}
with_args (c ∷ cs) target at_args = record {
  command = trim_space c;
  args = map trim_space cs;
  at_target = target;
  at_args = at_args;
}

unfoldable pub parse : List ChatElement → Parser
unfolding search_part take_target mentions_after text_of_elements arg_split with_args
parse elems =
    let (target, rest) = take_target (search_part elems) in
    with_args (arg_split (trim_space (text_of_elements elems))) target (mentions_after false rest)

-- AtCheck; `uin` is the bot's number.
unfoldable pub at_check : ℤ → Parser → Bool
at_check uin p = if positive p.at_target then int_eq p.at_target uin else true

unfoldable pub get_cmd_args : Parser → List Text
get_cmd_args p = p.command ∷ p.args

-- GetCommandPrefix of lsp/cfg: the prefix of one command, from the custom ones, or the common one,
-- from the text in the configuration.
unfoldable pub common_prefix : Text → Text
common_prefix configured = let p = trim_space configured in if is_empty p then bytes "/" else p

unfoldable pub get_command_prefix : List (Text × Text) → Text → List Text → Text
unfolding common_prefix
get_command_prefix custom configured [] = common_prefix configured
get_command_prefix [] configured (c ∷ cs) = common_prefix configured
get_command_prefix ((k, v) ∷ custom) configured (c ∷ cs) =
    let rest = get_command_prefix custom configured (c ∷ cs) in if k ==ₜ c then v else rest

unfoldable pub match_common : Text → Text → Option (Text × Text)
match_common prefix cmd =
    if has_prefix cmd prefix then some (prefix, drop (length prefix) cmd) else none

-- MatchCmdWithPrefix of lsp/cfg: the prefix and the command. The custom prefixes of commands come in
-- the order in which `range` visits the map.
unfoldable pub match_cmd_with_prefix : List (Text × Text) → Text → Text → Option (Text × Text)
unfolding get_command_prefix match_common
match_cmd_with_prefix [] configured cmd = match_common (get_command_prefix [] configured []) cmd
match_cmd_with_prefix ((k, v) ∷ custom) configured cmd =
    let rest = match_cmd_with_prefix custom configured cmd in
    if v ++ k ==ₜ cmd then some (v, k) else rest

abbrev pub command_or_empty : Option (Text × Text) → Text × Text
command_or_empty none = ([], [])
command_or_empty (some p) = p

-- CommandPrefix and CommandName
unfoldable pub command_match : List (Text × Text) → Text → Parser → Text × Text
unfolding match_cmd_with_prefix
command_match custom configured p =
    command_or_empty (match_cmd_with_prefix custom configured p.command)
