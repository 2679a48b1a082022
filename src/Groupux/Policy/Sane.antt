-- ===== src/Groupux/Policy/Sane.antt =====
-- What every policy that the manager uses satisfies (sanitizePolicy, lsp/groupux/policy.go).
use ddbot_nexus.Prelude.{
  Option-cases, is_empty, Text, bytes, split_at, ℤ, pos, negsuc, parse_int, trim_space, ℕ, zero,
  suc, ◌<◌, ◌≡◌, refl, sym, ap, subst, inl, inr, false, Option, some, List, [], ◌∷◌,
}
use ddbot_nexus.Groupux.Policy.{
  or_news, parse_hhmm, at_least_zero, at_least_one, valid_time_or, sanitize_aggregate,
  sanitize_quiet_hours, sanitize_policy, merge_policy, checked_time,
}
use ddbot_nexus.Groupux.Policy.Quiet.{parse_hhmm_bound}
use ddbot_nexus.Groupux.Types.{GroupUxPolicy, Override}
use ddbot_nexus.ConcernType.{ConcernType}

abbrev pub NotNegative : ℤ → Type 0
NotNegative z = (n : ℕ) × (z ≡ pos n)

abbrev pub Positive : ℤ → Type 0
Positive z = (n : ℕ) × (z ≡ pos (suc n))

-- The text is read as a minute of the day.
abbrev pub IsTime : Text → Type 0
IsTime t = (m : ℕ) × (parse_hhmm t ≡ some m) × (m < 1440)

-- Durations are not negative, counts are positive, some type is aggregated, times can be read.
pub record IsSane (p : GroupUxPolicy) : Type 0 where
  pub cooldown : NotNegative p.command.parse_error_cooldown
  pub ttl : NotNegative p.notify.dedupe_ttl
  pub window : NotNegative p.notify.aggregate.window
  pub at_all : NotNegative p.notify.at_all_cooldown
  pub items : Positive p.notify.aggregate.max_items
  pub summary : Positive p.notify.quiet_hours.summary_max_n
  pub types : is_empty p.notify.aggregate.types ≡ false
  pub start : IsTime p.notify.quiet_hours.start
  pub end : IsTime p.notify.quiet_hours.end

at_least_zero-NotNegative : (z : ℤ) → NotNegative (at_least_zero z)
unfolding at_least_zero
at_least_zero-NotNegative (pos n) = (n, refl)
at_least_zero-NotNegative (negsuc n) = (0, refl)

at_least_one-Positive : (z : ℤ) → Positive (at_least_one z)
unfolding at_least_one
at_least_one-Positive (pos zero) = (0, refl)
at_least_one-Positive (pos (suc n)) = (n, refl)
at_least_one-Positive (negsuc n) = (0, refl)

or_news_not_empty : (ts : List ConcernType) → is_empty (or_news ts) ≡ false
unfolding or_news
or_news_not_empty [] = refl
or_news_not_empty (t ∷ ts) = refl

some-IsTime : (t : Text) (m : ℕ) → parse_hhmm t ≡ some m → IsTime t
some-IsTime t m h = (m, h, parse_hhmm_bound t m h)

valid_time_or-IsTime : (default raw : Text) → IsTime default → IsTime (valid_time_or default raw)
unfolding valid_time_or
valid_time_or-IsTime default raw h = elim (Option-cases (parse_hhmm raw)) [
  | inl e ↦ subst IsTime (ap (checked_time default raw) (sym e)) h
  | inr (m, e) ↦ subst IsTime (ap (checked_time default raw) (sym e)) (some-IsTime raw m e)
]

eleven_pm : parse_hhmm (bytes "23:00") ≡ some 1380
unfolding parse_hhmm split_at trim_space parse_int
eleven_pm = refl

seven_am : parse_hhmm (bytes "07:00") ≡ some 420
unfolding parse_hhmm split_at trim_space parse_int
seven_am = refl

sanitize_policy-IsSane : (p : GroupUxPolicy) → IsSane (sanitize_policy p)
unfolding sanitize_policy sanitize_aggregate sanitize_quiet_hours
sanitize_policy-IsSane p = record {
  cooldown = at_least_zero-NotNegative p.command.parse_error_cooldown;
  ttl = at_least_zero-NotNegative p.notify.dedupe_ttl;
  window = at_least_zero-NotNegative p.notify.aggregate.window;
  at_all = at_least_zero-NotNegative p.notify.at_all_cooldown;
  items = at_least_one-Positive p.notify.aggregate.max_items;
  summary = at_least_one-Positive p.notify.quiet_hours.summary_max_n;
  types = or_news_not_empty p.notify.aggregate.types;
  start =
      valid_time_or-IsTime (bytes "23:00") p.notify.quiet_hours.start
        (some-IsTime (bytes "23:00") 1380 eleven_pm);
  end =
      valid_time_or-IsTime (bytes "07:00") p.notify.quiet_hours.end
        (some-IsTime (bytes "07:00") 420 seven_am);
}

-- Whatever a group overrides, and whatever the global policy is, the policy of the group is sane:
-- no duration is negative, no count is below one, a type is aggregated, and the times are
-- read as minutes of the day.
pub merge_policy-IsSane :
    (parse_duration : Text → Option ℤ) (base : GroupUxPolicy) (o : Override)
    → IsSane (merge_policy parse_duration base o)
unfolding merge_policy
merge_policy-IsSane parse_duration base [] = sanitize_policy-IsSane base
merge_policy-IsSane parse_duration base (x ∷ o) = sanitize_policy-IsSane _
