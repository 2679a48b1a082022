-- ===== src/Mmsg.antt =====
-- lsp/mmsg/writer.go: a message under construction, and its split into the messages to send. `C` is
-- the type of the elements that pack themselves for a target (images, mentions, pokes), `P` that of
-- the protocol's own elements; what packing gives is a parameter. Spaces are those of ASCII.
pub mod View
pub mod Sending
use ddbot_nexus.Prelude.{
  if◌then◌else◌, filter, is_empty, Text, trim_left, ℕ, ◌+◌, Bool, true, false, not, Option, none,
  some, List, [], ◌∷◌, ◌++◌,
}
use mathlib.Core.List.{reverse}

-- A message element; a custom element is never a cut.
pub data Element (C P : Type 0) : Type 0 where
  text : Text → Element C P
  cut : Element C P
  custom : C → Element C P
  plain : P → Element C P

pub record Msg (C P : Type 0) : Type 0 where
  pub elements : List (Element C P)
  pub text_buf : Text

module _ {C P : Type 0} where
  unfoldable pub new_msg : Msg C P
  new_msg = record { elements = []; text_buf = [] }

  unfoldable pub new_msg_from : List (Element C P) → Msg C P
  new_msg_from es = record { elements = es; text_buf = [] }

  unfoldable pub flush_text : Msg C P → Msg C P
  flush_text m =
      if is_empty m.text_buf
      then m
      else record { elements = m.elements ++ text m.text_buf ∷ []; text_buf = [] }

  abbrev pub push : Element C P → Msg C P → Msg C P
  push e m = record m { elements = m.elements ++ e ∷ [] }

  unfoldable pub write : Text → Msg C P → Msg C P
  write s m = record m { text_buf = m.text_buf ++ s }

  -- A nil element is passed over, and text goes to the buffer.
  unfoldable pub append_one : Option (Element C P) → Msg C P → Msg C P
  unfolding write flush_text
  append_one none m = m
  append_one (some (text s)) m = write s m
  append_one (some cut) m = push cut (flush_text m)
  append_one (some (custom c)) m = push (custom c) (flush_text m)
  append_one (some (plain p)) m = push (plain p) (flush_text m)

  unfoldable pub append : List (Option (Element C P)) → Msg C P → Msg C P
  unfolding append_one
  append [] m = m
  append (e ∷ es) m = append es (append_one e m)

  unfoldable pub keep_from : ℕ → (Element C P → ℕ → Bool) → List (Element C P) → List (Element C P)
  keep_from n predicate [] = []
  keep_from n predicate (e ∷ es) =
      let rest = keep_from (n + 1) predicate es in if predicate e n then rest else e ∷ rest

  unfoldable pub drop_elements : (Element C P → ℕ → Bool) → Msg C P → Msg C P
  unfolding flush_text keep_from
  drop_elements predicate m =
      let m' = flush_text m in record m' { elements = keep_from 0 predicate m'.elements }

  -- The copy; its text buffer is empty, and the original's is flushed.
  unfoldable pub clone : Msg C P → Msg C P
  unfolding flush_text
  clone m = new_msg_from (flush_text m).elements

  unfoldable pub clear : Msg C P → Msg C P
  unfolding flush_text
  clear m = record (flush_text m) { elements = [] }

  -- Cut
  unfoldable pub cut_msg : Msg C P → Msg C P
  unfolding flush_text
  cut_msg m = let m' = flush_text m in if is_empty m'.elements then m' else push cut m'

  -- AtAll; `at_all_element` is NewAt(0).
  unfoldable pub at_all : C → Bool → Msg C P → Msg C P
  unfolding append_one
  at_all at_all_element true m = record m { elements = custom at_all_element ∷ m.elements }
  at_all at_all_element false m = append_one (some (custom at_all_element)) m

  unfoldable pub at_each : List C → Msg C P → Msg C P
  unfolding append_one
  at_each [] m = m
  at_each (at ∷ ats) m = at_each ats (append_one (some (custom at)) m)

  -- lsp/notify.go, newAtIdsMsg: mentions after a cut.
  unfoldable pub new_at_ids_msg : List C → Msg C P → Msg C P
  unfolding cut_msg at_each
  new_at_ids_msg ats m = if is_empty ats then m else at_each ats (cut_msg m)

-- What is sent: text, or an element of the protocol.
pub data Sent (P : Type 0) : Type 0 where
  sent_text : Text → Sent P
  sent_plain : P → Sent P

unfoldable pub trim_right : Text → Text
trim_right s = reverse (trim_left (reverse s))

module _ {P : Type 0} where
  unfoldable pub has_text : List (Sent P) → Bool
  has_text [] = false
  has_text (sent_text t ∷ es) = true
  has_text (sent_plain p ∷ es) = has_text es

  -- The last text loses the spaces at its end, and goes if nothing is left.
  unfoldable pub clean_text : List (Sent P) → List (Sent P)
  unfolding has_text trim_right
  clean_text [] = []
  clean_text (sent_plain p ∷ es) = sent_plain p ∷ clean_text es
  clean_text (sent_text t ∷ es) =
      let rest = clean_text es in
      if has_text es
      then sent_text t ∷ rest
      else if is_empty (trim_right t)
      then es
      else sent_text (trim_right t) ∷ es

  unfoldable pub clean_last : List (List (Sent P)) → List (List (Sent P))
  unfolding clean_text
  clean_last [] = []
  clean_last (x ∷ []) = clean_text x ∷ []
  clean_last (x ∷ y ∷ r) = x ∷ clean_last (y ∷ r)

  abbrev pub packed : Option (Sent P) → List (Sent P)
  packed none = []
  packed (some e) = e ∷ []

  unfoldable pub concat : List (List (Sent P)) → List (Sent P)
  concat [] = []
  concat (x ∷ xs) = x ++ concat xs

module _ {C P : Type 0} (pack : C → Option (Sent P)) where
  -- The loop of ToMessage, with the message that it fills.
  unfoldable pub segments : List (Element C P) → List (Sent P) → List (List (Sent P))
  segments [] sending = if is_empty sending then [] else sending ∷ []
  segments (text t ∷ es) sending = segments es (sending ++ sent_text t ∷ [])
  segments (plain p ∷ es) sending = segments es (sending ++ sent_plain p ∷ [])
  segments (custom c ∷ es) sending = segments es (sending ++ packed (pack c))
  segments (cut ∷ es) sending =
      let rest = segments es [] in if is_empty sending then rest else sending ∷ rest

  -- ToMessage. The text that the last step trims is trimmed in place; a second call, which would
  -- find it trimmed, is not modelled.
  unfoldable pub to_message : Msg C P → List (List (Sent P))
  unfolding cut_msg segments clean_last
  to_message m = filter (λ x. not (is_empty x)) (clean_last (segments (cut_msg m).elements []))

  unfoldable pub to_combine_message : Msg C P → List (Sent P)
  unfolding concat
  to_combine_message m = concat (to_message m)
