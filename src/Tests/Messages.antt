-- ===== src/Tests/Messages.antt =====
-- A message with text, a picture and mentions (lsp/mmsg/writer.go); custom elements are numbers, of
-- which 0 packs to nothing.
use ddbot_nexus.Prelude.{
  all, is_empty, bytes, trim_left, ℕ, zero, suc, ◌≡◌, refl, true, not, Option, none, some, List, [],
  ◌∷◌, ◌++◌,
}
use ddbot_nexus.Mmsg.{
  Msg, new_msg, flush_text, Sent, to_message, to_combine_message, text, cut, custom, plain,
  sent_text, sent_plain,
}
use ddbot_nexus.Mmsg.View.{
  atoms_of_text, view, Call, run_calls, run_meanings, view-run_calls_new, cut_atom, custom_atom,
  plain_atom, write_text, append_all, mention_all, mention_each,
}
use ddbot_nexus.Mmsg.Sending.{Trimmed, sent_of_all, to_message_keeps}

abbrev pack : ℕ → Option (Sent ℕ)
pack zero = none
pack (suc n) = some (sent_plain n)

abbrev calls : List (Call ℕ ℕ)
calls =
    write_text (bytes "on ")
    ∷ append_all (some (text (bytes "air")) ∷ none ∷ some (plain 7) ∷ [])
    ∷ mention_all 9 true
    ∷ write_text (bytes "bye ")
    ∷ mention_each (4 ∷ 0 ∷ [])
    ∷ []

abbrev written : Msg ℕ ℕ
written = record {
  elements = text (bytes "live") ∷ cut ∷ custom 0 ∷ cut ∷ plain 3 ∷ [];
  text_buf = bytes "now  ";
}

view-run_calls_new_example : view (run_calls calls new_msg) ≡ run_meanings calls []
view-run_calls_new_example = view-run_calls_new calls

to_message_keeps_example :
    Trimmed (sent_of_all pack (flush_text written).elements) (to_combine_message pack written)
    × (all (λ x. not (is_empty x)) (to_message pack written) ≡ true)
to_message_keeps_example = to_message_keeps pack written

two_messages :
    to_message pack written
    ≡ (sent_text (bytes "live") ∷ []) ∷ (sent_plain 3 ∷ sent_text (bytes "now") ∷ []) ∷ []
unfolding to_message ddbot_nexus.Prelude.trim_left
two_messages = refl

front_mention :
    view (run_calls calls new_msg)
    ≡ custom_atom 9 ∷ atoms_of_text (bytes "on air")
      ++ (plain_atom 7 ∷ atoms_of_text (bytes "bye ")
          ++ (cut_atom ∷ custom_atom 4 ∷ custom_atom 0 ∷ []))
unfolding view run_calls new_msg
front_mention = refl
