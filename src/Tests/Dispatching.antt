-- ===== src/Tests/Dispatching.antt =====
-- An event of user 2, whose "live" group 1 has subscribed to, and the stored configuration of the
-- group for that user (lsp/concern/stateManager.go).
use ddbot_nexus.Prelude.{
  if◌then◌else◌, any, all, bytes, ◌==ₜ◌, text_leb, has_prefix, join, cons_first, split_at, elem, ℤ,
  pos, format_uint, format_int, parse_int, ℕ, ◌≡◌, refl, Bool, true, false, ◌&&◌, not, none, some,
  [], ◌∷◌,
}
use ddbot_nexus.Tests.Subscriptions.{table, manager, two}
use ddbot_nexus.Buntdb.Interface.{rollback, config_not_supported, ok, err, Reply, is_ok}
use ddbot_nexus.Buntdb.Memory.{memory, memory_laws, memory_laws-Live, ascend_entries}
use ddbot_nexus.Buntdb.ShortCut.{inside, r_cover_tx}
use ddbot_nexus.Concern.KeySet.{
  group_concern_state_key, int_eq, id_eq, new_prefix_key_set_with_int64_id,
  parse_group_concern_state_key,
}
use ddbot_nexus.Concern.Dispatch.{
  Event, Site, default_dispatch, at_once, passes_hooks, filter_notify, keep_notifies, notifies_of,
  deliver,
}
use ddbot_nexus.Concern.Dispatch.Reaches.{
  KeepsGroup, delivered, is_state_key, entries_give, default_dispatch-entries_give, to_group,
  subscribes,
}
use ddbot_nexus.Concern.Registry.{
  new_concern_center, Concern, or_not_supported, get_concern_by_site, type_checked,
  check_site_and_type, get_concern_by_site_and_type,
}
use ddbot_nexus.Concern.Config.Operate.{
  GroupConcernConfig, ConfigJson, new_config, get_group_concern_config,
  operate_group_concern_config, operate_group_concern_config-get, validate_default,
}
use ddbot_nexus.Concern.Config.Hooks.{hook_result_pass, filter_is_empty, validates}
use ddbot_nexus.Sites.Config.{validate_bilibili}
use ddbot_nexus.Notify.{ConcernNotify}
use ddbot_nexus.ConcernType.{ConcernType, insert_sorted, split_parts, contain_all, sort, split}
use ddbot_nexus.Buntdb.Key.{key_of, named_key, parse_concern_state_key_with_int64, render}
use ddbot_nexus.Concern.StateManager.{keep_states, list_concern_state}

abbrev started : Event
started = record { uid = two; ctype = bytes "live" }

abbrev notify_of : ℤ → Event → ConcernNotify ℕ ℕ
notify_of g e = record {
  group_code = g;
  site = bytes "bilibili";
  uid = e.uid;
  hook = record { ctype = e.ctype; message = []; live = none };
  message = none;
}

abbrev site : Site ℕ ℕ
site = record {
  should_send = λ s g i n. hook_result_pass;
  filter_by = λ s g i n. hook_result_pass;
  generate = λ g e. none ∷ some (notify_of g e) ∷ [];
}

site-KeepsGroup : KeepsGroup site
site-KeepsGroup g e = (tt, (refl, tt))

subscribed : memory.ascend table (group_concern_state_key (manager 3).keys []) ≡ ok table.entries
unfolding ascend_entries elem ◌==ₜ◌ group_concern_state_key named_key join
    new_prefix_key_set_with_int64_id has_prefix
subscribed = refl

default_dispatch-entries_give_example :
    (any (to_group (pos 1)) (
        delivered
          (default_dispatch site new_concern_center (manager 3) 50 started (inside table)).0)
      ≡ (all (λ x. is_state_key (manager 3).keys x.0) table.entries
          && entries_give site new_concern_center
              (to_group (pos 1))
              (manager 3).keys
              started
              table.entries))
    × ((g : ℤ)
        → (any (to_group g) (
              delivered
                (default_dispatch site new_concern_center (manager 3) 50 started (inside table)).0)
            && not (subscribes (manager 3).keys started g table.entries))
          ≡ false)
    × ((default_dispatch site new_concern_center (manager 3) 50 started (inside table)).1
        ≡ inside table)
default_dispatch-entries_give_example =
    default_dispatch-entries_give table (manager 3) table.entries subscribed site new_concern_center
      50 started (to_group (pos 1)) site-KeepsGroup

reached :
    (default_dispatch site new_concern_center (manager 3) 50 started (inside table)).0
    ≡ at_once (notify_of (pos 1) started ∷ [])
unfolding default_dispatch ddbot_nexus.Concern.StateManager.list_concern_state
    ddbot_nexus.Buntdb.ShortCut.r_cover_tx ddbot_nexus.Buntdb.Memory.ascend_entries
    ddbot_nexus.Prelude.elem ddbot_nexus.Prelude.◌==ₜ◌ group_concern_state_key
    ddbot_nexus.Buntdb.Key.named_key ddbot_nexus.Prelude.join
    ddbot_nexus.Concern.KeySet.new_prefix_key_set_with_int64_id
    ddbot_nexus.Concern.StateManager.keep_states ddbot_nexus.Prelude.has_prefix
    ddbot_nexus.Concern.KeySet.parse_group_concern_state_key
    ddbot_nexus.Buntdb.Key.parse_concern_state_key_with_int64 ddbot_nexus.Prelude.split_at
    ddbot_nexus.Prelude.parse_int ddbot_nexus.Concern.KeySet.id_eq
    ddbot_nexus.ConcernType.contain_all ddbot_nexus.Buntdb.Key.key_of ddbot_nexus.Buntdb.Key.render
    ddbot_nexus.Concern.Dispatch.deliver ddbot_nexus.Concern.Dispatch.filter_notify
    ddbot_nexus.Concern.Dispatch.keep_notifies ddbot_nexus.Concern.Dispatch.notifies_of
    ddbot_nexus.Concern.Dispatch.passes_hooks ddbot_nexus.Concern.KeySet.int_eq
    ddbot_nexus.Concern.Registry.check_site_and_type
    ddbot_nexus.Concern.Registry.get_concern_by_site
    ddbot_nexus.Concern.Registry.get_concern_by_site_and_type
    ddbot_nexus.Concern.Registry.or_not_supported ddbot_nexus.Concern.Registry.type_checked
    ddbot_nexus.ConcernType.insert_sorted ddbot_nexus.ConcernType.sort ddbot_nexus.ConcernType.split
    ddbot_nexus.ConcernType.split_parts ddbot_nexus.Groupux.Assoc.find
    ddbot_nexus.Prelude.format_int ddbot_nexus.Prelude.format_uint ddbot_nexus.Prelude.cons_first
    ddbot_nexus.Prelude.text_leb new_concern_center
reached = refl

-- A JSON library that knows one configuration, as the text "c".
abbrev stored_config : GroupConcernConfig
stored_config = record new_config {
  group_concern_filter = record { kind = bytes "text"; config = bytes "x" };
}

abbrev json : ConfigJson
json = record { encode = λ c. ok (bytes "c"); decoded = λ v. some stored_config }

abbrev set_filter : GroupConcernConfig → Bool × GroupConcernConfig
set_filter c = (true, stored_config)

-- A filter of bilibili by the type 8.
abbrev validate : GroupConcernConfig → Reply (Unit {0})
validate = validate_bilibili (λ t. ok (t ∷ [])) (λ t. false) (λ n. int_eq n (pos 8))

abbrev by_type : GroupConcernConfig
by_type = record new_config {
  group_concern_filter = record { kind = bytes "type"; config = bytes "8" };
}

valid_by_type : validate by_type ≡ ok tt
unfolding validate_bilibili ddbot_nexus.Concern.Config.Hooks.filter_is_empty ◌==ₜ◌ parse_int int_eq
valid_by_type = refl

invalid_by_default : validate_default by_type ≡ err config_not_supported
unfolding validate_default ddbot_nexus.Concern.Config.Hooks.validates
    ddbot_nexus.Concern.Config.Hooks.filter_is_empty ◌==ₜ◌
invalid_by_default = refl

operate_group_concern_config-get_example :
    ((operate_group_concern_config json
        (manager 3)
        (pos 1)
        two
        validate
        new_config
        set_filter
        (inside table)).0
      ≡ (if (set_filter new_config).0 then validate (set_filter new_config).1 else err rollback))
    × ((get_group_concern_config json
          (manager 3)
          (pos 1)
          two
          (operate_group_concern_config json
            (manager 3)
            (pos 1)
            two
            validate
            new_config
            set_filter
            (inside table)).1).0
        ≡ (if (set_filter new_config).0 && is_ok (validate (set_filter new_config).1)
            then (set_filter new_config).1
            else (get_group_concern_config json (manager 3) (pos 1) two (inside table)).0))
operate_group_concern_config-get_example =
    operate_group_concern_config-get memory_laws (inside table) (memory_laws-Live table) json
      (manager 3) (pos 1) two validate new_config set_filter (bytes "c") refl refl refl
