-- ===== src/Tests/Settings.antt =====
-- The configuration of a subscription (lsp/concern/config.go, config_at.go).
use ddbot_nexus.Prelude.{
  bytes, ◌==ₜ◌, split_at, elem, ℤ, pos, ◌≡◌, refl, ◌↔◌, true, false, ◌&&◌, ◌||◌, not, some, List,
  [], ◌∷◌,
}
use ddbot_nexus.ConcernType.{ConcernType, contain_all, sort, split_parts, split}
use ddbot_nexus.Concern.Config.{
  GroupConcernAtConfig, elem_id, get_at_someone_list, merge_at_someone_list, remove_at_someone_list,
}
use ddbot_nexus.Concern.Config.Mentions.{
  elem_id-merge_at_someone_list, elem_id-remove_at_someone_list,
}
use ddbot_nexus.Concern.Config.Hooks.{
  Notify, LiveNotify, GroupConcernNotifyConfig, GroupConcernFilterConfig, at_before_hook,
  should_send_hook, filter_hook, filter_is_empty, validates,
}
use ddbot_nexus.Concern.Config.Hooks.Rules.{
  should_send_hook_live, filter_hook_iff, at_before_hook-should_send_hook, is_pushed, SomeOccurs,
}

abbrev live_type : ConcernType
live_type = bytes "live"

abbrev mentions : GroupConcernAtConfig
mentions = record {
  at_all = [];
  at_someone = record { ctype = live_type; at_list = pos 7 ∷ [] } ∷ [];
}

same_order : (s : List ℤ) → elem_id (pos 8) s ≡ elem_id (pos 8) s
same_order s = refl

live_contains : contain_all live_type live_type ≡ true
unfolding contain_all ddbot_nexus.ConcernType.split ddbot_nexus.ConcernType.split_parts
    ddbot_nexus.ConcernType.sort ddbot_nexus.Prelude.split_at ddbot_nexus.Prelude.elem
    ddbot_nexus.Prelude.◌==ₜ◌
live_contains = refl

elem_id-merge_at_someone_list_test :
    elem_id (pos 8) (
      get_at_someone_list
        (merge_at_someone_list (λ s. s) live_type (pos 8 ∷ []) mentions)
        live_type)
    ≡ (elem_id (pos 8) (get_at_someone_list mentions live_type) || elem_id (pos 8) (pos 8 ∷ []))
elem_id-merge_at_someone_list_test =
    elem_id-merge_at_someone_list (λ s. s) live_type (pos 8 ∷ []) mentions (pos 8) same_order
      live_contains

elem_id-remove_at_someone_list_test :
    elem_id (pos 8) (
      get_at_someone_list
        (remove_at_someone_list (λ s. s) live_type (pos 7 ∷ []) mentions)
        live_type)
    ≡ (elem_id (pos 8) (get_at_someone_list mentions live_type)
        && not (elem_id (pos 8) (pos 7 ∷ [])))
elem_id-remove_at_someone_list_test =
    elem_id-remove_at_someone_list (λ s. s) live_type (pos 7 ∷ []) mentions (pos 8) same_order

abbrev started : LiveNotify
started = record {
  is_live = true;
  living = true;
  title_changed = false;
  live_status_changed = true;
}

abbrev notification : Notify
notification = record { ctype = live_type; message = bytes "a game"; live = some started }

abbrev quiet_config : GroupConcernNotifyConfig
quiet_config = record { title_change_notify = []; offline_notify = [] }

should_send_hook_live_example :
    (should_send_hook quiet_config notification).pass ≡ is_pushed quiet_config live_type started
should_send_hook_live_example = should_send_hook_live quiet_config notification started refl refl

mentioned : (at_before_hook notification).pass ≡ true
unfolding at_before_hook
mentioned = refl

at_before_hook-should_send_hook_test : (should_send_hook quiet_config notification).pass ≡ true
at_before_hook-should_send_hook_test =
    at_before_hook-should_send_hook quiet_config notification mentioned

abbrev game_filter : GroupConcernFilterConfig
game_filter = record { kind = bytes "text"; config = bytes "game" }

filter_there : filter_is_empty game_filter ≡ false
unfolding filter_is_empty
filter_there = refl

filter_valid : validates game_filter ≡ true
unfolding validates filter_is_empty ddbot_nexus.Prelude.◌==ₜ◌
filter_valid = refl

filter_hook_iff_example :
    ((filter_hook (λ t. some (t ∷ [])) game_filter notification).pass ≡ true)
    ↔ SomeOccurs (bytes "game" ∷ []) (bytes "a game")
filter_hook_iff_example =
    filter_hook_iff (λ t. some (t ∷ [])) game_filter notification (bytes "game" ∷ []) filter_there
      filter_valid refl
