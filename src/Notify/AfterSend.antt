-- ===== src/Notify/AfterSend.antt =====
-- lsp/notify.go, the function that handleConcernNotify gives to sendGroupMessageWithLimit, which runs
-- once the message is sent: what it sends more, to the same target. The chat client is a parameter:
-- `send k m` is its answer to the further message `m`, the `k`-th of them, and `is_at_all` says of an
-- element whether it mentions all members. What a site does when it is told is not modelled.
use ddbot_nexus.Prelude.{
  if◌then◌else◌, any, is_empty, ℤ, negsuc, ℕ, suc, Bool, true, false, ◌&&◌, ◌||◌, not, Option, none,
  some, List, [], ◌∷◌, ◌++◌, map,
}
use mathlib.Core.Option
use ddbot_nexus.Concern.KeySet.{int_eq}
use ddbot_nexus.Mmsg.{Element, Msg, plain, new_msg, new_msg_from, drop_elements, new_at_ids_msg}

-- A message as the client reports it; the number -1 says that it was not sent.
pub record SentMessage (P : Type 0) : Type 0 where
  pub id : ℤ
  pub elements : List P

-- What NotifyAfterCallback is told, and what is sent; a panic ends the function.
pub record AfterSend (C P : Type 0) : Type 0 where
  pub reported : Option (SentMessage P)
  pub resent : List (Msg C P)

abbrev pub is_unsent : {P : Type 0} → SentMessage P → Bool
is_unsent m = int_eq m.id (negsuc 0)

abbrev pub first_sent : {P : Type 0} → List (SentMessage P) → Option (SentMessage P)
first_sent [] = none
first_sent (m ∷ ms) = some m

module _ {C P : Type 0} (is_at_all : P → Bool) (send : ℕ → Msg C P → List (SentMessage P))
    (mention : ℤ → C) where
  abbrev pub mentions_all : Element C P → Bool
  mentions_all (plain p) = is_at_all p
  mentions_all e = false

  -- The message again, without the mentions of all members.
  unfoldable pub without_at_all : SentMessage P → Msg C P
  without_at_all m = drop_elements (λ e i. mentions_all e) (new_msg_from (map plain m.elements))

  -- One answer, or a panic.
  abbrev pub answered : List (SentMessage P) → Option Bool
  answered (m ∷ []) = some (not (is_unsent m))
  answered ms = none

  -- The loop over the messages that were sent: what it sends, and whether one of these went through,
  -- which is none after a panic.
  unfoldable pub retry_at_all : ℕ → List (SentMessage P) → List (Msg C P) × Option Bool
  unfolding without_at_all
  retry_at_all k [] = ([], some false)
  retry_at_all k (m ∷ ms) =
      let again = without_at_all m in
      let (skipped, skipped_once) = retry_at_all k ms in
      let (out, once) = retry_at_all (suc k) ms in
      if not (is_unsent m && any is_at_all m.elements)
      then (skipped, skipped_once)
      else elim (answered (send k again)) [
        | none ↦ (again ∷ [], none)
        | some passed ↦ (again ∷ out, Option.map (λ o. passed || o) once)
      ]

  abbrev pub fallback : List ℤ → Option Bool → List (Msg C P)
  fallback ids (some true) =
      if is_empty ids then [] else new_at_ids_msg (map mention ids) new_msg ∷ []
  fallback ids _ = []

  -- `at_before` is whether AtBeforeHook passed, `ids` whom the group mentions for the type.
  unfoldable pub after_send : Bool → List ℤ → List (SentMessage P) → AfterSend C P
  unfolding retry_at_all
  after_send at_before ids msgs =
      let (out, once) = retry_at_all 0 msgs in
      record {
        reported = first_sent msgs;
        resent = if at_before then out ++ fallback ids once else [];
      }
