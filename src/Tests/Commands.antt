-- ===== src/Tests/Commands.antt =====
-- A message as a command and its arguments (lsp/parser/parser.go, utils/helper.go).
use ddbot_nexus.Prelude.{bytes, join, pos, is_space, trim_space, ◌≡◌, refl, [], ◌∷◌}
use ddbot_nexus.Parser.{arg_split, parse, reply, at, text}
use ddbot_nexus.Parser.Laws.{arg_split-join}

arg_split-join_example :
    arg_split (join b' ' (bytes "/watch" ∷ bytes "-s" ∷ bytes "acfun" ∷ []))
    ≡ bytes "/watch" ∷ bytes "-s" ∷ bytes "acfun" ∷ []
unfolding ddbot_nexus.Prelude.is_space
arg_split-join_example = arg_split-join (bytes "/watch" ∷ bytes "-s" ∷ bytes "acfun" ∷ []) refl

-- Quotes keep their spaces, a quote that is not closed is passed over.
quoted :
    arg_split (bytes "/say \"a b\" c\"d") ≡ bytes "/say" ∷ bytes "a b" ∷ bytes "c" ∷ bytes "d" ∷ []
unfolding arg_split ddbot_nexus.Prelude.trim_space
quoted = refl

mentioned :
    parse (reply ∷ at (pos 9) ∷ at (pos 5) ∷ text (bytes " /grant") ∷ at (pos 7) ∷ [])
    ≡ record { command = bytes "/grant"; args = []; at_target = pos 5; at_args = pos 7 ∷ [] }
unfolding parse ddbot_nexus.Prelude.trim_space
mentioned = refl
