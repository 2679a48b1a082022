-- ===== src/Notify.antt =====
-- lsp/notify.go: what a notification of a site does, from its arrival to the messages that are handed
-- to the sender, and the digests that fall due. The sender, which waits for its turn and sends in a
-- goroutine, is not modelled: a call of sendGroupMessageWithLimit is an outgoing message.
pub mod Gates
pub mod Targets
pub mod Mentions
pub mod AfterSend
pub mod Fallback
use ddbot_nexus.Prelude.{
  if◌then◌else◌, Text, bytes, ◌==ₜ◌, ℤ, pos, format_int, Bool, true, false, ◌&&◌, not, Option, none,
  some, List, [], ◌∷◌, ◌++◌, map,
}
use ddbot_nexus.Mmsg.{Msg, Sent, clone, at_all, new_at_ids_msg, to_combine_message}
use ddbot_nexus.Permission.{Members}
use ddbot_nexus.Concern.KeySet.{ConcernId, int_id, text_id, int_eq}
use ddbot_nexus.Concern.StateManager.{Manager, check_and_set_at_all_mark}
use ddbot_nexus.Concern.Config.{GroupConcernAtConfig, check_at_all, get_at_someone_list}
use ddbot_nexus.Concern.Config.Hooks.{Notify, HookResult}
use ddbot_nexus.Concern.Config.Hooks
use ddbot_nexus.Concern.StateManager
use ddbot_nexus.Groupux.Manager.{
  PreparedDigest, Moment, QuietSummaryItem, lasting, allow_at_all, should_drop_duplicate,
}
use ddbot_nexus.Groupux.Manager
use ddbot_nexus.Groupux.Types.{Override, GroupUxPolicy}
use ddbot_nexus.Buntdb.Interface.{Error, Reply, BuntDb, ok, err}
use ddbot_nexus.BotState.{is_muted}
use ddbot_nexus.ConcernType.{ConcernType}
use ddbot_nexus.Buntdb.ShortCut.{Session}
use ddbot_nexus.Concern.Registry.{Concern, Center, get_concern_by_site_and_type}
use ddbot_nexus.Permission.Require.{check_group_administrator}
use ddbot_nexus.Groupux.Policy.{aggregate_type_enabled}
use ddbot_nexus.Groupux.Manager.Buffers.{
  push_aggregate, apply_quiet_hours, collecting, policy, flush_due,
}

-- A notification: its group, its subject, what the hooks read of it, and its message, if any.
pub record ConcernNotify (C P : Type 0) : Type 0 where
  pub group_code : ℤ
  pub site : Text
  pub uid : ConcernId
  pub hook : Hooks.Notify
  pub message : Option (Msg C P)

pub record Outgoing (C P : Type 0) : Type 0 where
  pub group_code : ℤ
  pub msg : Msg C P

abbrev pub is_some {ℓ} : {A : Type ℓ} → Option A → Bool
is_some none = false
is_some (some a) = true

-- Why a notification went no further, or that it was sent.
pub data Outcome : Type 0 where
  group_muted message_nil dropped_duplicate held_quiet held_aggregate sent_digest sent : Outcome
  no_concern : Error → Outcome

-- fmt.Sprint of an id
unfoldable pub uid_text : ConcernId → Text
uid_text (int_id i) = format_int i
uid_text (text_id t) = t

module _ ⦃b : BuntDb⦄ where
  -- What lies outside of these files: the bot's number and its groups, the digest of a fingerprint, the
  -- reading of durations and of stored overrides, the texts of messages, the rendering of digests, the
  -- configuration of a group for an id, which is JSON, the hook before a mention and the callback before
  -- the message, which a site may replace, and the element of a mention (0 is all).
  pub record Surroundings (C P : Type 0) : Type 0 where
    pub members : Members
    pub uin : ℤ
    pub sha : Text → Text
    pub parse_duration : Text → Option ℤ
    pub load : ℤ → Option Override
    pub pack : ℤ → C → Option (Sent P)
    pub msg_to_string : List (Sent P) → Text
    pub build : PreparedDigest → Option (Msg C P)
    pub at_config : Text → ℤ → ConcernId → GroupConcernAtConfig
    pub state_manager : Text → StateManager.Manager
    pub at_before : Text → Hooks.Notify → HookResult
    pub before_callback : ConcernNotify C P → Session → ConcernNotify C P × Session
    pub mention : ℤ → C

  -- The database, the registry, and the group experience manager.
  pub record NotifyState : Type 0 where
    pub session : Session
    pub center : Center
    pub ux : Manager.Manager

module _ ⦃b : BuntDb⦄ (C P : Type 0) where
  -- A step ends with an outcome and the messages that it hands to the sender.
  abbrev pub Step : Type 0
  Step = NotifyState → Outcome × List (Outgoing C P) × NotifyState

module _ ⦃b : BuntDb⦄ {C P : Type 0} (w : Surroundings C P) where
  abbrev pub stop : Outcome → Step C P
  stop o st = (o, [], st)

  -- Is the group muted for the bot, who is not one of its administrators?
  unfoldable pub is_silenced : ℤ → Session → Bool × Session
  is_silenced group s =
      let (m, s') = is_muted group w.uin s in
      (m && not (check_group_administrator w.members group w.uin), s')

  abbrev pub built : ℤ → Option (Msg C P) → List (Outgoing C P)
  built group none = []
  built group (some m) = record { group_code = group; msg = m } ∷ []

  -- dispatchGroupUXDigest
  unfoldable pub dispatch_digest : PreparedDigest → Session → List (Outgoing C P) × Session
  unfolding is_silenced
  dispatch_digest d s =
      let (silenced, s') = is_silenced d.group_code s in
      if int_eq d.group_code (pos 0)
      then ([], s)
      else if silenced
      then ([], s')
      else (built d.group_code (w.build d), s')

  abbrev pub dispatch_some : Option PreparedDigest → Session → List (Outgoing C P) × Session
  dispatch_some none s = ([], s)
  dispatch_some (some d) s = dispatch_digest d s

  -- The bot may mention all: it is an administrator, the group wants it, and no mark stands.
  -- `origin` is the notification before the callback, by which the configuration and the target were
  -- chosen, `n` the one that the callback leaves.
  unfoldable pub at_all_wanted : ConcernNotify C P → ConcernNotify C P → Session → Bool × Session
  at_all_wanted origin n s =
      let config = w.at_config origin.site origin.group_code origin.uid in
      let (marked, s') =
        check_and_set_at_all_mark (w.state_manager origin.site) n.group_code n.uid s in
      if check_group_administrator w.members n.group_code w.uin && check_at_all config n.hook.ctype
      then (marked, s')
      else (false, s)

  -- The message with its mentions.
  unfoldable pub with_mentions :
      ConcernNotify C P
      → ConcernNotify C P
      → GroupUxPolicy
      → Moment
      → Msg C P
      → NotifyState
      → Msg C P × NotifyState
  unfolding at_all_wanted
  with_mentions origin n p now m st =
      let (wanted, s') = at_all_wanted origin n st.session in
      let (allowed, ux') = allow_at_all n.group_code p now st.ux in
      let ids =
        get_at_someone_list (w.at_config origin.site origin.group_code origin.uid) n.hook.ctype in
      let some_ids = new_at_ids_msg (map w.mention ids) m in
      if not (w.at_before origin.site n.hook).pass
      then (m, st)
      else if wanted
      then if allowed
        then (at_all (w.mention (pos 0)) true m, record st { session = s'; ux = ux' })
        else (some_ids, record st { session = s'; ux = ux' })
      else (some_ids, record st { session = s' })

  unfoldable pub send_notify :
      ConcernNotify C P → ConcernNotify C P → GroupUxPolicy → Moment → Msg C P → Step C P
  unfolding with_mentions
  send_notify origin n p now m st =
      let (m', st') = with_mentions origin n p now m st in
      (sent, record { group_code = origin.group_code; msg = m' } ∷ [], st')

  abbrev pub aggregated : Option PreparedDigest → Step C P
  aggregated none st = (held_aggregate, [], st)
  aggregated (some d) st =
      let (out, s') = dispatch_digest d st.session in (sent_digest, out, record st { session = s' })

  -- Does the policy collect the type?
  unfoldable pub collects : GroupUxPolicy → ConcernType → Bool
  collects p t =
      aggregate_type_enabled p t
      && is_some (lasting p.notify.aggregate.window)
      && is_some (collecting p.notify.aggregate.max_items)

  unfoldable pub aggregate_or_send :
      ConcernNotify C P
      → ConcernNotify C P
      → GroupUxPolicy
      → Moment
      → QuietSummaryItem
      → Msg C P
      → Step C P
  unfolding collects send_notify
  aggregate_or_send origin n p now item m st =
      let (digest, ux') = push_aggregate n.group_code n.hook.ctype item p now st.ux in
      if collects p n.hook.ctype
      then aggregated digest (record st { ux = ux' })
      else send_notify origin n p now m st

  unfoldable pub quiet_or_go :
      ConcernNotify C P
      → ConcernNotify C P
      → GroupUxPolicy
      → Moment
      → QuietSummaryItem
      → Msg C P
      → Step C P
  unfolding aggregate_or_send
  quiet_or_go origin n p now item m st =
      let (deliver, summary, ux') = apply_quiet_hours n.group_code p item now st.ux in
      let (out, s') = dispatch_some summary st.session in
      let st' = record st { session = s'; ux = ux' } in
      let (o, out', st'') = aggregate_or_send origin n p now item m st' in
      if deliver then (o, out ++ out', st'') else (held_quiet, out, st')

  unfoldable pub summary_item : ConcernNotify C P → Moment → Text → QuietSummaryItem
  summary_item n now preview = record {
    site = n.site;
    ctype = n.hook.ctype;
    uid = uid_text n.uid;
    fingerprint = [];
    message = preview;
    occurred_at = now.nanos;
  }

  unfoldable pub drop_or_go : ConcernNotify C P → ConcernNotify C P → Moment → Msg C P → Step C P
  unfolding quiet_or_go summary_item
  drop_or_go origin n now m st =
      let (p, ux') = policy w.parse_duration w.load n.group_code st.ux in
      let preview = w.msg_to_string (to_combine_message (w.pack origin.group_code) m) in
      let (duplicate, ux'') =
        should_drop_duplicate w.sha n.group_code n.site n.hook.ctype (uid_text n.uid) preview p now
          ux' in
      let st' = record st { ux = ux'' } in
      let rest = quiet_or_go origin n p now (summary_item n now preview) m st' in
      if duplicate then (dropped_duplicate, [], st') else rest

  abbrev pub with_message : Option (Msg C P) → (Msg C P → Step C P) → Step C P
  with_message none go = stop message_nil
  with_message (some m) go = go (clone m)

  abbrev pub with_concern : Reply Concern → Step C P → Step C P
  with_concern (err e) go = stop (no_concern e)
  with_concern (ok c) go = go

  -- From the callback of the configuration on, which may change the notification and the database.
  unfoldable pub call_and_go : ConcernNotify C P → Moment → Step C P
  unfolding drop_or_go
  call_and_go origin now st =
      let (n, s') = w.before_callback origin st.session in
      with_message n.message (drop_or_go origin n now) (record st { session = s' })

  -- handleConcernNotify
  unfoldable pub handle_concern_notify : ConcernNotify C P → Moment → Step C P
  unfolding is_silenced call_and_go
  handle_concern_notify n now st =
      let (silenced, s') = is_silenced n.group_code st.session in
      let st' = record st { session = s' } in
      if silenced
      then (group_muted, [], st')
      else with_concern (get_concern_by_site_and_type st.center n.site n.hook.ctype)
          (call_and_go n now) st'

  abbrev pub digest_item : PreparedDigest → Moment → QuietSummaryItem
  digest_item d now = record {
    site = bytes "digest";
    ctype = d.ctype;
    uid = [];
    fingerprint = [];
    message = bytes "aggregate items=" ++ format_int (pos d.count);
    occurred_at = now.nanos;
  }

  abbrev pub Flushed : Type 0
  Flushed = List (Outgoing C P) × NotifyState

  -- A digest that has fallen due; one of collected items is held in the quiet hours, but for the count
  -- of them.
  unfoldable pub flush_digest : PreparedDigest → Moment → NotifyState → Flushed
  flush_digest d now st =
      let (deliver, summary, ux') =
        apply_quiet_hours d.group_code d.policy (digest_item d now) now st.ux in
      let (out, s') = dispatch_some summary st.session in
      let (out', s'') = dispatch_digest d s' in
      let (direct, s₁) = dispatch_digest d st.session in
      if d.reason ==ₜ bytes "aggregate"
      then if deliver
        then (out ++ out', record st { session = s''; ux = ux' })
        else (out, record st { session = s'; ux = ux' })
      else (direct, record st { session = s₁ })

  unfoldable pub flush_digests : List PreparedDigest → Moment → NotifyState → Flushed
  unfolding flush_digest
  flush_digests [] now st = ([], st)
  flush_digests (d ∷ ds) now st =
      let (out, st') = flush_digest d now st in
      let (outs, st'') = flush_digests ds now st' in (out ++ outs, st'')

  -- flushGroupUXDigests
  unfoldable pub flush_group_ux_digests : Moment → NotifyState → Flushed
  unfolding flush_digests
  flush_group_ux_digests now st =
      let (ds, ux') = flush_due w.parse_duration w.load now st.ux in
      flush_digests ds now (record st { ux = ux' })
