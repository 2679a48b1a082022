-- ===== src/Groupux/Policy/Quiet.antt =====
-- The quiet hours as an interval of the clock (lsp/groupux/policy.go).
use ddbot_nexus.Prelude.{
  ltb, ◌==◌, Text, split_at, ℤ, pos, negsuc, parse_int, trim_space, ℕ, ◌+◌, ◌-◌, ◌%◌, ◌<◌, ◌≡◌,
  true, ◌||◌, Option, none, some, List, [], ◌∷◌, arith,
}
use ddbot_nexus.Groupux.Policy.{
  minutes_of, two_numbers, hours_and_minutes, within, parse_hhmm, in_quiet_hours,
}
use ddbot_nexus.Groupux.Types.{GroupUxPolicy}

minutes_of_bound : (hh mm : ℤ) (m : ℕ) → minutes_of hh mm ≡ some m → m < 1440
unfolding minutes_of
minutes_of_bound (pos hh) (pos mm) m h = ground arith
minutes_of_bound (pos hh) (negsuc mm) m h = cc
minutes_of_bound (negsuc hh) mm m h = cc

two_numbers_bound : (a b : Option ℤ) (m : ℕ) → two_numbers a b ≡ some m → m < 1440
unfolding two_numbers
two_numbers_bound (some hh) (some mm) m h = minutes_of_bound hh mm m h
two_numbers_bound none b m h = cc
two_numbers_bound (some hh) none m h = cc

hours_and_minutes_bound : (parts : List Text) (m : ℕ) → hours_and_minutes parts ≡ some m → m < 1440
unfolding hours_and_minutes
hours_and_minutes_bound (hh ∷ mm ∷ []) m h = two_numbers_bound (parse_int hh) (parse_int mm) m h
hours_and_minutes_bound [] m h = cc
hours_and_minutes_bound (hh ∷ []) m h = cc
hours_and_minutes_bound (hh ∷ mm ∷ x ∷ xs) m h = cc

-- A time that is read is a minute of the day.
pub parse_hhmm_bound : (raw : Text) (m : ℕ) → parse_hhmm raw ≡ some m → m < 1440
unfolding parse_hhmm
parse_hhmm_bound raw m h = hours_and_minutes_bound (split_at b':' (trim_space raw)) m h

within-clock :
    (start end current : ℕ)
    → start < 1440
    → end < 1440
    → current < 1440
    → within (some start) (some end) current
      ≡ (start == end || ltb ((current + 1440 - start) % 1440) ((end + 1440 - start) % 1440))
unfolding within
within-clock start end current hs he hc = ground arith

-- While a policy and its quiet hours are on, and both times can be read, a minute of the day is
-- quiet exactly when the clock reaches it from the start, going round midnight if need be, before
-- it reaches the end; equal times make the whole day quiet.
pub in_quiet_hours-clock :
    (p : GroupUxPolicy) (start end current : ℕ)
    → p.enabled ≡ true
    → p.notify.quiet_hours.enabled ≡ true
    → parse_hhmm p.notify.quiet_hours.start ≡ some start
    → parse_hhmm p.notify.quiet_hours.end ≡ some end
    → current < 1440
    → in_quiet_hours p current
      ≡ (start == end || ltb ((current + 1440 - start) % 1440) ((end + 1440 - start) % 1440))
unfolding in_quiet_hours
in_quiet_hours-clock p start end current on quiet hs he hc =
    let lemma =
      within-clock start end current (parse_hhmm_bound p.notify.quiet_hours.start start hs)
        (parse_hhmm_bound p.notify.quiet_hours.end end he) hc in
    rw (on, quiet, hs, he, lemma)
