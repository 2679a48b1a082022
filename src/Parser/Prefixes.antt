-- ===== src/Parser/Prefixes.antt =====
-- MatchCmdWithPrefix (lsp/cfg/config.go): what it finds is what was written.
use ddbot_nexus.Prelude.{
  Bool-cases, length, drop, Text, ◌==ₜ◌, ==ₜ_eq, has_prefix, has_prefix-append, ◌≡◌, refl, sym, ◌∙◌,
  inl, inr, true, none, some, List, [], ◌∷◌, ◌++◌, arith,
}
use ddbot_nexus.Parser.{common_prefix, get_command_prefix, match_common, match_cmd_with_prefix}

has_prefix-drop : (s p : Text) → has_prefix s p ≡ true → p ++ drop (length p) s ≡ s
unfolding has_prefix
has_prefix-drop s [] h = refl
has_prefix-drop [] (c ∷ p) h = cc h
has_prefix-drop (d ∷ s) (c ∷ p) h = ground (arith, has_prefix-drop s p)

append_of_pair : (x y : Text × Text) (s : Text) → some x ≡ some y → x.0 ++ x.1 ≡ s → y.0 ++ y.1 ≡ s
append_of_pair x y s h g = cc

match_common_joins :
    (q cmd prefix command : Text)
    → match_common q cmd ≡ some (prefix, command)
    → prefix ++ command ≡ cmd
unfolding match_common
match_common_joins q cmd prefix command h = elim (Bool-cases (has_prefix cmd q)) [
  | inl e ↦
      let found : match_common q cmd ≡ some (q, drop (length q) cmd) = rw e refl in
      append_of_pair (q, drop (length q) cmd) (prefix, command) cmd (sym found ∙ h)
        (has_prefix-drop cmd q e)
  | inr e ↦ let missed : match_common q cmd ≡ none = rw e refl in cc (sym missed ∙ h)
]

drop_append : (p s : Text) → drop (length p) (p ++ s) ≡ s
drop_append [] s = refl
drop_append (c ∷ p) s = drop_append p s

-- A prefix and a command that MatchCmdWithPrefix finds are, one after the other, the command as it was
-- written.
pub match_cmd_with_prefix_joins :
    (custom : List (Text × Text)) (configured cmd prefix command : Text)
    → match_cmd_with_prefix custom configured cmd ≡ some (prefix, command)
    → prefix ++ command ≡ cmd
unfolding match_cmd_with_prefix match_common
match_cmd_with_prefix_joins [] configured cmd prefix command h =
    match_common_joins (get_command_prefix [] configured []) cmd prefix command h
match_cmd_with_prefix_joins ((k, v) ∷ custom) configured cmd prefix command h =
    let here = v ++ k ==ₜ cmd in
    elim (Bool-cases here) [
      | inl e ↦
          let found : match_cmd_with_prefix ((k, v) ∷ custom) configured cmd ≡ some (v, k) =
            rw e refl in
          append_of_pair (v, k) (prefix, command) cmd (sym found ∙ h) (==ₜ_eq (v ++ k) cmd e)
      | inr e ↦
          let later : match_cmd_with_prefix ((k, v) ∷ custom) configured cmd
              ≡ match_cmd_with_prefix custom configured cmd =
            rw e refl in
          match_cmd_with_prefix_joins custom configured cmd prefix command (sym later ∙ h)
    ]

-- With no custom prefix, a command behind the common prefix is found, with that prefix.
pub match_cmd_with_prefix_common :
    (configured command : Text)
    → match_cmd_with_prefix [] configured (common_prefix configured ++ command)
      ≡ some (common_prefix configured, command)
unfolding match_cmd_with_prefix match_common get_command_prefix
match_cmd_with_prefix_common configured command =
    rw (has_prefix-append (common_prefix configured) command)
      (rw (drop_append (common_prefix configured) command) refl)
