-- ===== src/Groupux/Types.antt =====
-- lsp/groupux/types.go: the policy of a group, and the overrides of a group as they are read.
-- Durations are int64 counts of nanoseconds. time.ParseDuration is an argument, `parse_duration`, of
-- what reads a duration. Texts are ASCII.
use ddbot_nexus.Prelude.{
  if◌then◌else◌, Text, bytes, ◌==ₜ◌, elem, ℤ, parse_int, trim_space, Bool, true, false, Option,
  none, some, List, [], ◌∷◌, map,
}
use mathlib.Core.Option
use ddbot_nexus.ConcernType.{ConcernType}

pub record AggregatePolicy : Type 0 where
  pub enabled : Bool
  pub window : ℤ
  pub max_items : ℤ
  pub types : List ConcernType

pub record QuietHoursPolicy : Type 0 where
  pub enabled : Bool
  pub start : Text
  pub end : Text
  pub summary_on_exit : Bool
  pub summary_max_n : ℤ

pub record CommandPolicy : Type 0 where
  pub concise_reply : Bool
  pub parse_error_cooldown : ℤ
  pub group_unknown_tips : Bool

pub record NotifyPolicy : Type 0 where
  pub dedupe_ttl : ℤ
  pub aggregate : AggregatePolicy
  pub at_all_cooldown : ℤ
  pub quiet_hours : QuietHoursPolicy

pub record GroupUxPolicy : Type 0 where
  pub enabled : Bool
  pub command : CommandPolicy
  pub notify : NotifyPolicy

-- The keys that an override may hold, by the constants of types.go.
pub data OverrideKey : Type 0 where
  enabled_key concise_reply_key parse_error_cooldown_key group_unknown_tips_key : OverrideKey
  dedupe_ttl_key aggregate_enabled_key aggregate_window_key aggregate_max_items_key : OverrideKey
  aggregate_types_key at_all_cooldown_key quiet_hours_enabled_key quiet_hours_start_key :
      OverrideKey
  quiet_hours_end_key quiet_hours_summary_on_key quiet_hours_summary_n_key : OverrideKey

unfoldable pub key_text : OverrideKey → Text
key_text enabled_key = bytes "enabled"
key_text concise_reply_key = bytes "command.conciseReply"
key_text parse_error_cooldown_key = bytes "command.parseErrorCooldown"
key_text group_unknown_tips_key = bytes "command.groupUnknownTips"
key_text dedupe_ttl_key = bytes "notify.dedupeTTL"
key_text aggregate_enabled_key = bytes "notify.aggregate.enabled"
key_text aggregate_window_key = bytes "notify.aggregate.window"
key_text aggregate_max_items_key = bytes "notify.aggregate.maxItems"
key_text aggregate_types_key = bytes "notify.aggregate.types"
key_text at_all_cooldown_key = bytes "notify.atAllCooldown"
key_text quiet_hours_enabled_key = bytes "notify.quietHours.enabled"
key_text quiet_hours_start_key = bytes "notify.quietHours.start"
key_text quiet_hours_end_key = bytes "notify.quietHours.end"
key_text quiet_hours_summary_on_key = bytes "notify.quietHours.summaryOnExit"
key_text quiet_hours_summary_n_key = bytes "notify.quietHours.summaryMaxItems"

-- The values of an override, with no key twice; nil is the empty map.
abbrev pub Override : Type 0
Override = List (Text × Text)

unfoldable pub lookup_text : Text → Override → Option Text
lookup_text k [] = none
lookup_text k ((j, v) ∷ m) = if j ==ₜ k then some v else lookup_text k m

unfoldable pub get_string : OverrideKey → Override → Option Text
unfolding lookup_text
get_string k o = Option.map trim_space (lookup_text (key_text k) o)

-- strconv.ParseBool
unfoldable pub parse_bool : Text → Option Bool
parse_bool s =
    if elem s (map bytes ("1" ∷ "t" ∷ "T" ∷ "TRUE" ∷ "true" ∷ "True" ∷ []))
    then some true
    else if elem s (map bytes ("0" ∷ "f" ∷ "F" ∷ "FALSE" ∷ "false" ∷ "False" ∷ []))
    then some false
    else none

unfoldable pub get_bool : OverrideKey → Override → Option Bool
unfolding parse_bool
get_bool k o = Option.bind (get_string k o) parse_bool

unfoldable pub get_int : OverrideKey → Override → Option ℤ
get_int k o = Option.bind (get_string k o) parse_int

unfoldable pub get_duration : (Text → Option ℤ) → OverrideKey → Override → Option ℤ
get_duration parse_duration k o = Option.bind (get_string k o) parse_duration
