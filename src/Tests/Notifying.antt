-- ===== src/Tests/Notifying.antt =====
-- Notifications (lsp/notify.go) to group 1, of which the bot, user 99, is an administrator or not.
use ddbot_nexus.Prelude.{
  ◌==◌, bytes, ◌==ₜ◌, split_at, elem, ℤ, pos, negsuc, ℕ, suc, ◌≡◌, refl, Bool, true, false, none,
  some, List, [], ◌∷◌, map,
}
use ddbot_nexus.Notify.AfterSend.{SentMessage, after_send}
use ddbot_nexus.Mmsg.{
  new_msg_from, plain, custom, Msg, new_msg, at_all, new_at_ids_msg, drop_elements,
}
use ddbot_nexus.Tests.Groups.{
  news_type, night, read_none, load_empty, at_night, item, started, quiet_at_night,
}
use ddbot_nexus.Notify.{
  ConcernNotify, Surroundings, NotifyState, at_all_wanted, with_mentions, quiet_or_go, held_quiet,
  send_notify, sent,
}
use ddbot_nexus.Notify.Gates.{quiet_or_go_holds}
use ddbot_nexus.Notify.Targets.{Targets}
use ddbot_nexus.Notify.Mentions.{at_all_wanted_once, with_mentions_single}
use ddbot_nexus.Permission.{MemberPermission, Members, user, owner, member}
use ddbot_nexus.Concern.Registry.{Concern, new_concern_center}
use ddbot_nexus.Concern.KeySet.{new_prefix_key_set_with_int64_id, int_id, int_eq}
use ddbot_nexus.Concern.Config.Hooks.{at_before_hook}
use ddbot_nexus.Groupux.Manager.Held.{buffer, total}
use ddbot_nexus.Buntdb.Memory.{memory, memory_laws, memory_laws-Live, set_entry}
use ddbot_nexus.Buntdb.ShortCut.{inside, rw_cover_tx, set}
use ddbot_nexus.ConcernType.{ConcernType, split_parts, contain_all, sort, split}
use ddbot_nexus.Concern.Config.{check_at_all, first_list, get_at_someone_list}
use ddbot_nexus.Concern.StateManager.{check_and_set_at_all_mark}
use ddbot_nexus.Permission.Require.{is_manager, check_group_administrator}

abbrev members_of : MemberPermission → Members
members_of role group = some (λ user. some role)

abbrev world : MemberPermission → Surroundings ℤ ℕ
world role = record {
  members = members_of role;
  uin = pos 99;
  sha = λ t. t;
  parse_duration = read_none;
  load = load_empty;
  pack = λ group c. none;
  msg_to_string = λ es. [];
  build = λ d. some new_msg;
  at_config = λ site group uid. record {
    at_all = news_type;
    at_someone = record { ctype = news_type; at_list = pos 5 ∷ [] } ∷ [];
  };
  state_manager = λ site. record {
    keys = new_prefix_key_set_with_int64_id site;
    max_group_concern = 0;
    use_emit = false;
  };
  at_before = λ site n. at_before_hook n;
  before_callback = λ n s. (n, s);
  mention = λ user. user;
}

abbrev bilibili : Concern
bilibili = record { site = bytes "bilibili"; types = bytes "news" ∷ bytes "live" ∷ [] }

abbrev notification : ConcernNotify ℤ ℕ
notification = record {
  group_code = pos 1;
  site = bytes "bilibili";
  uid = int_id (pos 2);
  hook = record { ctype = news_type; message = bytes "hello"; live = none };
  message = some (record { elements = []; text_buf = bytes "hello" });
}

abbrev hello : Msg ℤ ℕ
hello = record { elements = []; text_buf = bytes "hello" }

abbrev state : NotifyState
state = record {
  session = inside (record { entries = []; indexes = [] });
  center = new_concern_center;
  ux = started;
}

live : memory_laws.Live (record { entries = []; indexes = [] })
live = memory_laws-Live _

-- A callback that changes the group.
abbrev moving : Surroundings ℤ ℕ
moving = record (world owner) { before_callback = λ n s. (record n { group_code = pos 7 }, s) }

abbrev registered_state : NotifyState
registered_state = record state {
  center = record {
    concern_list = bilibili ∷ [];
    concern_map = (bytes "bilibili", bilibili) ∷ [];
    concern_type_map = (bytes "bilibili", bytes "live/news") ∷ [];
    concern_sites = bytes "bilibili" ∷ [];
  };
}

quiet_or_go_holds_example :
    ((quiet_or_go (world owner) notification notification night at_night item hello state).0
      ≡ held_quiet)
    × ((quiet_or_go (world owner) notification notification night at_night item hello state).1 ≡ [])
    × ((quiet_or_go
          (world owner)
          notification
          notification
          night
          at_night
          item
          hello
          state).2.session
        ≡ state.session)
    × (total (
          buffer
            (pos 1)
            (quiet_or_go
              (world owner)
              notification
              notification
              night
              at_night
              item
              hello
              state).2.ux)
        ≡ suc (total (buffer (pos 1) started)))
quiet_or_go_holds_example =
    quiet_or_go_holds (world owner) notification notification night at_night item hello state refl
      refl quiet_at_night

wanted_first : (at_all_wanted (world owner) notification notification state.session).0 ≡ true
unfolding at_all_wanted ddbot_nexus.Permission.Require.check_group_administrator
    ddbot_nexus.Permission.Require.is_manager ddbot_nexus.Concern.Config.check_at_all
    ddbot_nexus.ConcernType.contain_all ddbot_nexus.ConcernType.split
    ddbot_nexus.ConcernType.split_parts ddbot_nexus.ConcernType.sort ddbot_nexus.Prelude.split_at
    ddbot_nexus.Prelude.elem ddbot_nexus.Prelude.◌==ₜ◌
    ddbot_nexus.Concern.StateManager.check_and_set_at_all_mark ddbot_nexus.Buntdb.ShortCut.set
    ddbot_nexus.Buntdb.ShortCut.rw_cover_tx ddbot_nexus.Buntdb.Memory.set_entry
wanted_first = refl

at_all_wanted_once_test :
    (at_all_wanted
      (world owner)
      notification
      notification
      (at_all_wanted (world owner) notification notification state.session).1).0
    ≡ false
at_all_wanted_once_test =
    at_all_wanted_once (world owner) memory_laws notification notification state.session live
      wanted_first

with_mentions_single_test :
    ((with_mentions (world member) notification notification night at_night hello state).0
      ≡ new_at_ids_msg (pos 5 ∷ []) hello)
    × ((with_mentions (world member) notification notification night at_night hello state).1
        ≡ state)
unfolding ddbot_nexus.Permission.Require.check_group_administrator
    ddbot_nexus.Permission.Require.is_manager at_before_hook
    ddbot_nexus.Concern.Config.get_at_someone_list ddbot_nexus.Concern.Config.first_list
    ddbot_nexus.ConcernType.contain_all ddbot_nexus.ConcernType.split
    ddbot_nexus.ConcernType.split_parts ddbot_nexus.ConcernType.sort ddbot_nexus.Prelude.split_at
    ddbot_nexus.Prelude.elem ddbot_nexus.Prelude.◌==ₜ◌
with_mentions_single_test =
    with_mentions_single (world member) notification notification night at_night hello state refl
      refl

-- A message that was not sent, of element 0, which mentions all, and element 7; what is sent more, is.
abbrev unsent : SentMessage ℕ
unsent = record { id = negsuc 0; elements = 0 ∷ 7 ∷ [] }

abbrev mentions_everyone : ℕ → Bool
mentions_everyone p = p == 0

abbrev answers : ℕ → Msg ℤ ℕ → List (SentMessage ℕ)
answers k m = record { id = pos 1; elements = [] } ∷ []

resent_once :
    (after_send mentions_everyone answers (λ user. user) true (pos 5 ∷ []) (unsent ∷ [])).resent
    ≡ new_msg_from (plain 7 ∷ []) ∷ new_msg_from (custom (pos 5) ∷ []) ∷ []
unfolding after_send new_msg_from ddbot_nexus.Concern.KeySet.int_eq ddbot_nexus.Mmsg.drop_elements
    new_at_ids_msg new_msg
resent_once = refl

-- The message goes to the group that the notification had before the callback.
goes_to_origin :
    ((send_notify moving notification
        (record notification { group_code = pos 7 })
        night
        at_night
        hello
        state).0
      ≡ sent)
    × (map
          (λ o. o.group_code)
          (send_notify moving notification
            (record notification { group_code = pos 7 })
            night
            at_night
            hello
            state).1
        ≡ pos 1 ∷ [])
unfolding send_notify
goes_to_origin = (refl, refl)
