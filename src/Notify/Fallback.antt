-- ===== src/Notify/Fallback.antt =====
-- What the function that runs after sending (lsp/notify.go, handleConcernNotify) sends more.
use ddbot_nexus.Prelude.{if◌then◌else◌, any, all, ℤ, ℕ, suc, Bool, ◌&&◌, not, List, [], ◌∷◌}
use ddbot_nexus.Mmsg.{Msg, Element}
use ddbot_nexus.Notify.AfterSend.{SentMessage, is_unsent, mentions_all}

module _ {C P : Type 0} (is_at_all : P → Bool) (send : ℕ → Msg C P → List (SentMessage P))
    (mention : ℤ → C) where
  -- No element of the message is a mention of all members.
  abbrev pub no_at_all : Msg C P → Bool
  no_at_all m = all (λ e. not (mentions_all is_at_all send mention e)) m.elements

  -- The messages that were not sent and that mention all members.
  abbrev pub failed : List (SentMessage P) → ℕ
  failed [] = 0
  failed (m ∷ ms) =
      let n = failed ms in if is_unsent m && any is_at_all m.elements then suc n else n

  abbrev no_at_alls : List (Element C P) → Bool
  no_at_alls = all (λ e. not (mentions_all is_at_all send mention e))
