-- ===== src/Concern/Config/Hooks.antt =====
-- lsp/concern/config.go, config_filter.go, config_notify.go and hook.go: whether a notification is
-- sent to a group. A notification is what the hooks read of it; `live` is none where it does not
-- implement NotifyLiveExt. json.Unmarshal of a text filter is an argument, `unmarshal`, and an
-- error of it is `none`.
pub mod Rules
use ddbot_nexus.Prelude.{
  if◌then◌else◌, any, is_empty, All, Text, bytes, ◌==ₜ◌, has_prefix, Bool, true, false, ◌&&◌, ◌||◌,
  not, Option, none, some, List, [], ◌∷◌,
}
use ddbot_nexus.ConcernType.{ConcernType, contain_all}

pub record LiveNotify : Type 0 where
  pub is_live : Bool
  pub living : Bool
  pub title_changed : Bool
  pub live_status_changed : Bool

pub record Notify : Type 0 where
  pub ctype : ConcernType
  pub message : Text
  pub live : Option LiveNotify

pub record HookResult : Type 0 where
  pub pass : Bool
  pub reason : Text

pub record GroupConcernNotifyConfig : Type 0 where
  pub title_change_notify : ConcernType
  pub offline_notify : ConcernType

pub record GroupConcernFilterConfig : Type 0 where
  pub kind : Text
  pub config : Text

unfoldable pub check_title_change_notify : GroupConcernNotifyConfig → ConcernType → Bool
check_title_change_notify g t = contain_all g.title_change_notify t

unfoldable pub check_offline_notify : GroupConcernNotifyConfig → ConcernType → Bool
check_offline_notify g t = contain_all g.offline_notify t

abbrev pub hook_result_pass : HookResult
hook_result_pass = record { pass = true; reason = [] }

abbrev pub default_hook_result : HookResult
default_hook_result = record { pass = false; reason = bytes "default hook" }

abbrev pub fresh_result : HookResult
fresh_result = record { pass = false; reason = [] }

unfoldable pub pass_or_reason : Bool → Text → HookResult → HookResult
pass_or_reason pass reason h =
    if pass then record h { pass = pass } else record h { reason = reason }

abbrev pub at_before_live : LiveNotify → HookResult
at_before_live n =
    if not n.living
    then record fresh_result { reason = bytes "Living() is false" }
    else if not n.live_status_changed
    then record fresh_result { reason = bytes "Living() ok but LiveStatusChanged() is false" }
    else record fresh_result { pass = true }

unfoldable pub at_before_hook : Notify → HookResult
at_before_hook n = elim n.live [
  | none ↦ hook_result_pass
  | some e ↦ if e.is_live then at_before_live e else hook_result_pass
]

abbrev pub should_send_live : GroupConcernNotifyConfig → ConcernType → LiveNotify → HookResult
should_send_live g t n =
    let titled =
      pass_or_reason (check_title_change_notify g t) (bytes "CheckTitleChangeNotify is false")
        fresh_result in
    let offline =
      pass_or_reason (check_offline_notify g t) (bytes "CheckOfflineNotify is false")
        fresh_result in
    if n.living
    then (if n.live_status_changed
        then hook_result_pass
        else if n.title_changed
        then titled
        else default_hook_result)
    else if n.live_status_changed
    then offline
    else default_hook_result

unfoldable pub should_send_hook : GroupConcernNotifyConfig → Notify → HookResult
should_send_hook g n = elim n.live [
  | none ↦ hook_result_pass
  | some e ↦ if e.is_live then should_send_live g n.ctype e else hook_result_pass
]

abbrev pub filter_type_text : Text
filter_type_text = bytes "text"

unfoldable pub filter_is_empty : GroupConcernFilterConfig → Bool
filter_is_empty f = is_empty f.kind || is_empty f.config

-- Whether Validate returns nil.
unfoldable pub validates : GroupConcernFilterConfig → Bool
validates f = not (not (filter_is_empty f) && not (f.kind ==ₜ filter_type_text))

unfoldable pub get_filter_by_text :
    (Text → Option (List Text)) → GroupConcernFilterConfig → Option (List Text)
get_filter_by_text unmarshal f = if f.kind ==ₜ filter_type_text then unmarshal f.config else none

-- strings.Contains
unfoldable pub contains : Text → Text → Bool
contains [] t = is_empty t
contains (c ∷ s) t = has_prefix (c ∷ s) t || contains s t

abbrev pub match_any : Text → List Text → HookResult
match_any message texts =
    if any (contains message) texts
    then record fresh_result { pass = true }
    else record fresh_result { reason = bytes "TextFilter All pattern match failed" }

unfoldable pub filter_hook :
    (Text → Option (List Text)) → GroupConcernFilterConfig → Notify → HookResult
filter_hook unmarshal f n =
    if filter_is_empty f
    then hook_result_pass
    else if f.kind ==ₜ filter_type_text
    then elim (get_filter_by_text unmarshal f) [
      | none ↦ hook_result_pass
      | some texts ↦ match_any n.message texts
    ]
    else hook_result_pass
