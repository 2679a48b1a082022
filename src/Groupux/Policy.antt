-- ===== src/Groupux/Policy.antt =====
-- lsp/groupux/policy.go: how the policy of a group is merged and made sane, and the
-- quiet hours. Durations are int64 counts of nanoseconds. time.ParseDuration is an argument,
-- `parse_duration`, of what reads a duration. Texts are ASCII.
pub mod Sane
pub mod Quiet
use ddbot_nexus.Groupux.Types.{
  AggregatePolicy, CommandPolicy, GroupUxPolicy, NotifyPolicy, Override, OverrideKey,
  QuietHoursPolicy, aggregate_enabled_key, aggregate_max_items_key, aggregate_types_key,
  aggregate_window_key, at_all_cooldown_key, concise_reply_key, dedupe_ttl_key, enabled_key,
  get_bool, get_duration, get_int, get_string, group_unknown_tips_key, key_text, lookup_text,
  parse_bool, parse_error_cooldown_key, quiet_hours_enabled_key, quiet_hours_end_key,
  quiet_hours_start_key, quiet_hours_summary_n_key, quiet_hours_summary_on_key,
}
use ddbot_nexus.Prelude.{
  ltb, leb, ◌==◌, if◌then◌else◌, any, is_empty, Text, bytes, ◌==ₜ◌, split_at, elem, ℤ, pos, negsuc,
  parse_int, trim_space, to_lower, ℕ, zero, suc, ◌+◌, ◌*◌, Bool, true, false, ◌&&◌, ◌||◌, not,
  Option, none, some, List, [], ◌∷◌, map,
}
use mathlib.Core.Option
use ddbot_nexus.ConcernType.{ConcernType}

abbrev news : List ConcernType
news = bytes "news" ∷ []

is_separator : ℕ → Bool
is_separator c = c == b',' || (c == b';' || (c == b'/' || (c == b'|' || c == b' ')))

unfoldable pub end_field : Text → List Text → List Text
end_field [] fields = fields
end_field (c ∷ s) fields = (c ∷ s) ∷ fields

-- strings.FieldsFunc: the field before the first separator, and the fields after it.
unfoldable pub fields_func : Text → Text × List Text
unfolding is_separator end_field
fields_func [] = ([], [])
fields_func (c ∷ s) =
    let (field, fields) = fields_func s in
    if is_separator c then ([], end_field field fields) else (c ∷ field, fields)

-- The loop that trims, lowers, and keeps each non-empty name once, in order; `seen` is the map.
unfoldable pub distinct_names : List Text → List Text → List Text
distinct_names [] seen = []
distinct_names (item ∷ items) seen =
    let name = to_lower (trim_space item) in
    let skip = is_empty name || elem name seen in
    let rest = distinct_names items (if skip then seen else name ∷ seen) in
    if skip then rest else name ∷ rest

unfoldable pub or_news : List ConcernType → List ConcernType
or_news [] = news
or_news (t ∷ ts) = t ∷ ts

unfoldable pub parse_aggregate_types : Text → List ConcernType
unfolding fields_func distinct_names or_news
parse_aggregate_types raw =
    let (field, fields) = fields_func (trim_space raw) in
    or_news (distinct_names (end_field field fields) [])

-- The minutes of the day that a text "hh:mm" names; an error is `none`.
unfoldable pub minutes_of : ℤ → ℤ → Option ℕ
minutes_of (pos hh) (pos mm) = if ltb 23 hh || ltb 59 mm then none else some (hh * 60 + mm)
minutes_of _ _ = none

unfoldable pub two_numbers : Option ℤ → Option ℤ → Option ℕ
unfolding minutes_of
two_numbers (some hh) (some mm) = minutes_of hh mm
two_numbers _ _ = none

unfoldable pub hours_and_minutes : List Text → Option ℕ
unfolding two_numbers
hours_and_minutes (hh ∷ mm ∷ []) = two_numbers (parse_int hh) (parse_int mm)
hours_and_minutes _ = none

unfoldable pub parse_hhmm : Text → Option ℕ
unfolding hours_and_minutes
parse_hhmm raw = hours_and_minutes (split_at b':' (trim_space raw))

unfoldable pub at_least_zero : ℤ → ℤ
at_least_zero (pos n) = pos n
at_least_zero (negsuc n) = pos 0

unfoldable pub at_least_one : ℤ → ℤ
at_least_one (pos zero) = pos 1
at_least_one (pos (suc n)) = pos (suc n)
at_least_one (negsuc n) = pos 1

abbrev pub checked_time : Text → Text → Option ℕ → Text
checked_time default raw none = default
checked_time default raw (some m) = raw

unfoldable pub valid_time_or : Text → Text → Text
valid_time_or default raw = checked_time default raw (parse_hhmm raw)

unfoldable pub sanitize_aggregate : AggregatePolicy → AggregatePolicy
unfolding or_news at_least_zero at_least_one
sanitize_aggregate a = record a {
  window = at_least_zero a.window;
  max_items = at_least_one a.max_items;
  types = or_news a.types;
}

unfoldable pub sanitize_quiet_hours : QuietHoursPolicy → QuietHoursPolicy
unfolding at_least_one valid_time_or
sanitize_quiet_hours q = record q {
  start = valid_time_or (bytes "23:00") q.start;
  end = valid_time_or (bytes "07:00") q.end;
  summary_max_n = at_least_one q.summary_max_n;
}

unfoldable pub sanitize_policy : GroupUxPolicy → GroupUxPolicy
unfolding sanitize_aggregate sanitize_quiet_hours at_least_zero
sanitize_policy p = record p {
  command = record p.command {
    parse_error_cooldown = at_least_zero p.command.parse_error_cooldown;
  };
  notify = record {
    dedupe_ttl = at_least_zero p.notify.dedupe_ttl;
    aggregate = sanitize_aggregate p.notify.aggregate;
    at_all_cooldown = at_least_zero p.notify.at_all_cooldown;
    quiet_hours = sanitize_quiet_hours p.notify.quiet_hours;
  };
}

-- `if value, ok := get(); ok { field = value }`
abbrev pub given {ℓ} : {A : Type ℓ} → Option A → A → A
given none old = old
given (some v) old = v

unfoldable pub merge_policy : (Text → Option ℤ) → GroupUxPolicy → Override → GroupUxPolicy
unfolding sanitize_policy get_bool get_int get_string get_duration
merge_policy parse_duration base o =
    if is_empty o
    then sanitize_policy base
    else sanitize_policy (record {
      enabled = given (get_bool enabled_key o) base.enabled;
      command = record {
        concise_reply = given (get_bool concise_reply_key o) base.command.concise_reply;
        parse_error_cooldown =
            given (get_duration parse_duration parse_error_cooldown_key o)
              base.command.parse_error_cooldown;
        group_unknown_tips =
            given (get_bool group_unknown_tips_key o) base.command.group_unknown_tips;
      };
      notify = record {
        dedupe_ttl = given (get_duration parse_duration dedupe_ttl_key o) base.notify.dedupe_ttl;
        aggregate = record {
          enabled = given (get_bool aggregate_enabled_key o) base.notify.aggregate.enabled;
          window =
              given (get_duration parse_duration aggregate_window_key o)
                base.notify.aggregate.window;
          max_items = given (get_int aggregate_max_items_key o) base.notify.aggregate.max_items;
          types =
              given (Option.map parse_aggregate_types (get_string aggregate_types_key o))
                base.notify.aggregate.types;
        };
        at_all_cooldown =
            given (get_duration parse_duration at_all_cooldown_key o) base.notify.at_all_cooldown;
        quiet_hours = record {
          enabled = given (get_bool quiet_hours_enabled_key o) base.notify.quiet_hours.enabled;
          start = given (get_string quiet_hours_start_key o) base.notify.quiet_hours.start;
          end = given (get_string quiet_hours_end_key o) base.notify.quiet_hours.end;
          summary_on_exit =
              given (get_bool quiet_hours_summary_on_key o) base.notify.quiet_hours.summary_on_exit;
          summary_max_n =
              given (get_int quiet_hours_summary_n_key o) base.notify.quiet_hours.summary_max_n;
        };
      };
    })

unfoldable pub aggregate_type_enabled : GroupUxPolicy → ConcernType → Bool
aggregate_type_enabled p t =
    let name = to_lower (trim_space t) in
    p.enabled
    && (p.notify.aggregate.enabled
        && (not (is_empty name) && any (λ allow. to_lower allow ==ₜ name) p.notify.aggregate.types))

unfoldable pub within : Option ℕ → Option ℕ → ℕ → Bool
within (some start) (some end) current =
    if start == end
    then true
    else if ltb start end
    then leb start current && ltb current end
    else leb start current || ltb current end
within _ _ current = false

-- `current` is the minute of the day.
unfoldable pub in_quiet_hours : GroupUxPolicy → ℕ → Bool
unfolding within
in_quiet_hours p current =
    p.enabled
    && (p.notify.quiet_hours.enabled
        && within (parse_hhmm p.notify.quiet_hours.start) (parse_hhmm p.notify.quiet_hours.end)
            current)
