-- ===== src/Notify/Targets.antt =====
-- What handleConcernNotify (lsp/notify.go) hands to the sender, in which order and to which group.
use ddbot_nexus.Prelude.{length, All, ℤ, ℕ, ◌≤◌, ◌≡◌, List, ◌++◌}
use ddbot_nexus.Notify.{Outgoing, Surroundings, Outcome, sent}
use ddbot_nexus.Buntdb.Interface.{BuntDb}
use ddbot_nexus.Concern.Registry.{Concern}

module _ ⦃b : BuntDb⦄ {C P : Type 0} (w : Surroundings C P) where
  -- Of what a notification leads to, how many messages are the notification itself.
  abbrev pub own : Outcome → ℕ
  own sent = 1
  own o = 0

  -- At most so many messages: digests, all to the group, and then the notification itself, to the
  -- target, just when the outcome is that it was sent.
  abbrev pub Targets : ℤ → ℤ → ℕ → Outcome → List (Outgoing C P) → Type 0
  Targets target group most o out =
      (digests : List (Outgoing C P)) × (messages : List (Outgoing C P)) × (out
        ≡ digests ++ messages)
      × All (λ x. x.group_code ≡ group) digests
      × All (λ x. x.group_code ≡ target) messages
      × (length messages ≡ own o)
      × (length out ≤ most)
