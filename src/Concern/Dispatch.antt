-- ===== src/Concern/Dispatch.antt =====
-- DefaultDispatch and filterNotify (lsp/concern/stateManager.go): from an event of a site to the
-- notifications of the groups that have subscribed to it. What an event holds beside its id and its
-- type is for the generator of notifications, a parameter; a notification that is nil is none.
pub mod Reaches
use ddbot_nexus.Prelude.{
  leb, ◌==◌, if◌then◌else◌, length, Text, ℤ, pos, negsuc, ℕ, Bool, true, false, ◌&&◌, Option, none,
  some, List, [], ◌∷◌, ◌++◌,
}
use ddbot_nexus.Buntdb.Interface.{Reply, BuntDb, ok, err}
use ddbot_nexus.Buntdb.ShortCut.{Session}
use ddbot_nexus.ConcernType.{ConcernType, contain_all}
use ddbot_nexus.Concern.KeySet.{ConcernId, id_eq}
use ddbot_nexus.Concern.Registry.{Concern, Center, get_concern_by_site_and_type}
use ddbot_nexus.Concern.StateManager.{Manager, Subscription, Filter, list_concern_state}
use ddbot_nexus.Concern.Config.Hooks.{HookResult, Notify}
use ddbot_nexus.Concern.Config.Hooks
use ddbot_nexus.Notify.{ConcernNotify}

pub record Event : Type 0 where
  pub uid : ConcernId
  pub ctype : ConcernType

-- GetLargeNotifyLimit of lsp/cfg, from the number in the configuration
unfoldable pub large_notify_limit : ℤ → ℕ
large_notify_limit (negsuc n) = 50
large_notify_limit (pos n) = if n == 0 then 50 else n

-- What is handed to the framework for an event: nothing, notifications one after another, or, where
-- there are many, the same with a pause before each.
pub data Delivery (C P : Type 0) : Type 0 where
  no_delivery : Delivery C P
  at_once spaced : List (ConcernNotify C P) → Delivery C P

-- What a site contributes: its hooks on a notification, by the configuration of a group for an id, and
-- the notifications of an event for a group.
pub record Site (C P : Type 0) : Type 0 where
  pub should_send : Text → ℤ → ConcernId → Hooks.Notify → HookResult
  pub filter_by : Text → ℤ → ConcernId → Hooks.Notify → HookResult
  pub generate : ℤ → Event → List (Option (ConcernNotify C P))

module _ {C P : Type 0} (w : Site C P) (center : Center) where
  -- A site or type that is not registered lets everything pass.
  unfoldable pub passes_hooks : Reply Concern → ConcernNotify C P → Bool
  passes_hooks (err e) n = true
  passes_hooks (ok c) n =
      (w.should_send n.site n.group_code n.uid n.hook).pass
      && (w.filter_by n.site n.group_code n.uid n.hook).pass

  unfoldable pub filter_notify : Option (ConcernNotify C P) → Bool
  unfolding passes_hooks
  filter_notify none = false
  filter_notify (some n) = passes_hooks (get_concern_by_site_and_type center n.site n.hook.ctype) n

  unfoldable pub keep_notifies : List (Option (ConcernNotify C P)) → List (ConcernNotify C P)
  unfolding filter_notify
  keep_notifies [] = []
  keep_notifies (none ∷ ns) = keep_notifies ns
  keep_notifies (some n ∷ ns) =
      let rest = keep_notifies ns in if filter_notify (some n) then n ∷ rest else rest

  unfoldable pub notifies_of : Event → List Subscription → List (ConcernNotify C P)
  unfolding keep_notifies
  notifies_of e [] = []
  notifies_of e (sub ∷ subs) = keep_notifies (w.generate sub.group e) ++ notifies_of e subs

  unfoldable pub deliver : ℕ → List (ConcernNotify C P) → Delivery C P
  deliver limit [] = no_delivery
  deliver limit (n ∷ ns) = if leb limit (length (n ∷ ns)) then spaced (n ∷ ns) else at_once (n ∷ ns)

  abbrev pub delivery_of : ℕ → Event → Reply (List Subscription) → Delivery C P
  delivery_of limit e (err x) = no_delivery
  delivery_of limit e (ok subs) = deliver limit (notifies_of e subs)

-- The subscriptions that an event concerns.
abbrev pub concerned : Event → Filter
concerned e = λ g i p. id_eq e.uid i && contain_all p e.ctype

module _ ⦃b : BuntDb⦄ {C P : Type 0} (w : Site C P) (center : Center) (c : Manager) where
  -- One turn of the loop of DefaultDispatch.
  unfoldable pub default_dispatch : ℕ → Event → Session → Delivery C P × Session
  unfolding notifies_of deliver
  default_dispatch limit e s =
      let (r, s') = list_concern_state c (concerned e) s in (delivery_of w center limit e r, s')
