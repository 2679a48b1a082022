-- ===== src/Tests/Groups.antt =====
-- The manager of the groups (lsp/groupux), with quiet hours from 23:00 to 07:00.
use ddbot_nexus.Prelude.{
  ltb, ◌==◌, if◌then◌else◌, length, take, Text, bytes, ◌==ₜ◌, split_at, ℤ, pos, parse_int,
  trim_space, to_lower, suc, ◌+◌, ◌-◌, ◌%◌, ◌≤◌, ◌<◌, ◌≡◌, refl, ap, true, false, ◌&&◌, ◌||◌, not,
  Option, none, some, [], ◌∷◌, ◌++◌, arith,
}
use ddbot_nexus.ConcernType.{ConcernType}
use ddbot_nexus.Groupux.Assoc.{find}
use ddbot_nexus.Groupux.Policy.{merge_policy, parse_hhmm, in_quiet_hours, aggregate_type_enabled}
use ddbot_nexus.Groupux.Types.{GroupUxPolicy, Override}
use ddbot_nexus.Groupux.Policy.Quiet.{in_quiet_hours-clock}
use ddbot_nexus.Groupux.Policy.Sane.{merge_policy-IsSane, IsSane}
use ddbot_nexus.Groupux.Manager.{
  Manager, Moment, QuietSummaryItem, DigestBucket, lasting, should_drop_duplicate, allow_at_all,
  drop_within,
}
use ddbot_nexus.Groupux.Manager.Buffers.{
  push_aggregate, apply_quiet_hours, flush_due, collecting, summary_of, empty_buffer, remember,
  get_override, policy, flush_bucket, flush_buckets, flush_buffer, flush_buffers,
}
use ddbot_nexus.Groupux.Manager.Cooldown.{should_drop_duplicate_twice, allow_at_all_twice}
use ddbot_nexus.Groupux.Manager.Digest.{push_aggregate_keeps, waiting, digest_items}
use ddbot_nexus.Groupux.Manager.Summary.{apply_all, all_quiet, apply_quiet_hours_summary}
use ddbot_nexus.Groupux.Manager.Held.{
  apply_quiet_hours_holds, apply_quiet_hours_leaves, buffer, total,
}
use ddbot_nexus.Groupux.Manager.Due.{flush_due-aggregate}
use ddbot_nexus.Concern.KeySet.{int_eq}

abbrev pub news_type : ConcernType
news_type = bytes "news"

abbrev pub night : GroupUxPolicy
night = record {
  enabled = true;
  command = record {
    concise_reply = true;
    parse_error_cooldown = pos 60;
    group_unknown_tips = false;
  };
  notify = record {
    dedupe_ttl = pos 20;
    aggregate = record {
      enabled = true;
      window = pos 30;
      max_items = pos 3;
      types = news_type ∷ [];
    };
    at_all_cooldown = pos 40;
    quiet_hours = record {
      enabled = true;
      start = bytes "23:00";
      end = bytes "07:00";
      summary_on_exit = true;
      summary_max_n = pos 8;
    };
  };
}

abbrev pub read_none : Text → Option ℤ
read_none t = none

abbrev pub load_empty : ℤ → Option Override
load_empty group = some []

merge_policy-IsSane_example : IsSane (merge_policy read_none night [])
merge_policy-IsSane_example = merge_policy-IsSane read_none night []

eleven_pm : parse_hhmm night.notify.quiet_hours.start ≡ some 1380
unfolding parse_hhmm ddbot_nexus.Prelude.split_at ddbot_nexus.Prelude.trim_space
    ddbot_nexus.Prelude.parse_int
eleven_pm = refl

seven_am : parse_hhmm night.notify.quiet_hours.end ≡ some 420
unfolding parse_hhmm ddbot_nexus.Prelude.split_at ddbot_nexus.Prelude.trim_space
    ddbot_nexus.Prelude.parse_int
seven_am = refl

midnight : 0 < 1440
midnight = ground arith

in_quiet_hours-clock_example :
    in_quiet_hours night 0
    ≡ (1380 == 420 || ltb ((0 + 1440 - 1380) % 1440) ((420 + 1440 - 1380) % 1440))
in_quiet_hours-clock_example =
    in_quiet_hours-clock night 1380 420 0 refl refl eleven_pm seven_am midnight

abbrev pub at_night : Moment
at_night = record { nanos = 100; minute = 0 }

abbrev at_noon : Moment
at_noon = record { nanos = 115; minute = 720 }

abbrev pub item : QuietSummaryItem
item = record {
  site = bytes "bilibili";
  ctype = news_type;
  uid = bytes "2";
  fingerprint = [];
  message = bytes "hello";
  occurred_at = 100;
}

-- Group 1 has an item that is held since the night, and an item that waits for a digest.
abbrev pub started : Manager
started = record {
  global = night;
  overrides = [];
  override_loaded = [];
  dedupe = [];
  at_all = [];
  parse_err = [];
  aggregate =
      (
        bytes "1:news",
        record { group_code = pos 1; ctype = news_type; items = item ∷ []; flush_at = 120 },
      )
      ∷ [];
  quiet = (pos 1, record { in_quiet = true; items = item ∷ []; dropped = 0 }) ∷ [];
}

pub quiet_at_night : in_quiet_hours night 0 ≡ true
unfolding in_quiet_hours parse_hhmm ddbot_nexus.Prelude.split_at ddbot_nexus.Prelude.trim_space
    ddbot_nexus.Prelude.parse_int
quiet_at_night = refl

awake_at_noon : in_quiet_hours night 720 ≡ false
unfolding in_quiet_hours parse_hhmm ddbot_nexus.Prelude.split_at ddbot_nexus.Prelude.trim_space
    ddbot_nexus.Prelude.parse_int
awake_at_noon = refl

news_on : aggregate_type_enabled night news_type ≡ true
unfolding aggregate_type_enabled ddbot_nexus.Prelude.to_lower ddbot_nexus.Prelude.trim_space ◌==ₜ◌
news_on = refl

window : lasting night.notify.aggregate.window ≡ some 30
unfolding lasting
window = refl

three : collecting night.notify.aggregate.max_items ≡ some 3
unfolding collecting
three = refl

push_aggregate_keeps_example :
    (digest_items (push_aggregate (pos 1) news_type item night at_noon started).0
        ++ waiting (pos 1) news_type (push_aggregate (pos 1) news_type item night at_noon started).1
      ≡ waiting (pos 1) news_type started ++ (item ∷ []))
    × (length (
          waiting (pos 1) news_type (push_aggregate (pos 1) news_type item night at_noon started).1)
        < 3)
push_aggregate_keeps_example =
    push_aggregate_keeps (pos 1) news_type item night at_noon started 30 3 news_on window three

apply_quiet_hours_holds_test :
    ((apply_quiet_hours (pos 1) night item at_night started).0 ≡ false)
    × ((apply_quiet_hours (pos 1) night item at_night started).1 ≡ none)
    × (total (buffer (pos 1) (apply_quiet_hours (pos 1) night item at_night started).2)
        ≡ suc (total (buffer (pos 1) started)))
apply_quiet_hours_holds_test =
    apply_quiet_hours_holds (pos 1) night item at_night started refl refl quiet_at_night

inside_quiet : (buffer (pos 1) started).in_quiet ≡ true
unfolding find ddbot_nexus.Concern.KeySet.int_eq
inside_quiet = refl

apply_quiet_hours_leaves_test :
    ((apply_quiet_hours (pos 1) night item at_noon started).0 ≡ true)
    × ((apply_quiet_hours (pos 1) night item at_noon started).1
        ≡ summary_of (pos 1) night (buffer (pos 1) started))
    × (buffer (pos 1) (apply_quiet_hours (pos 1) night item at_noon started).2 ≡ empty_buffer)
apply_quiet_hours_leaves_test =
    apply_quiet_hours_leaves (pos 1) night item at_noon started refl refl awake_at_noon inside_quiet

not_full : length (buffer (pos 1) started).items ≤ 500
unfolding find ddbot_nexus.Concern.KeySet.int_eq
not_full = omega arith

one_quiet : all_quiet night ((item, at_night) ∷ []) ≡ true
one_quiet = ap (λ b. b && true) quiet_at_night

apply_quiet_hours_summary_example :
    let came = (buffer (pos 1) started).items ++ item ∷ [] in
    let (deliver, summary, m') =
      apply_quiet_hours
        (pos 1)
        night
        item
        at_noon
        (apply_all (pos 1) night ((item, at_night) ∷ []) started) in
    (deliver ≡ true)
    × (summary ≡ (
        if night.notify.quiet_hours.summary_on_exit
        then some (record {
          group_code = pos 1;
          ctype = bytes "digest";
          policy = night;
          items = take 500 came;
          count = length (take 500 came);
          dropped = (buffer (pos 1) started).dropped + (length came - 500);
          reason = bytes "quiet-summary";
        })
        else none))
    × (buffer (pos 1) m' ≡ empty_buffer)
apply_quiet_hours_summary_example =
    apply_quiet_hours_summary (pos 1) night refl refl (item, at_night) [] item at_noon started
      one_quiet awake_at_noon not_full

ttl : lasting night.notify.dedupe_ttl ≡ some 20
unfolding lasting
ttl = refl

not_dropped :
    (should_drop_duplicate
      (λ t. t)
      (pos 1)
      (bytes "bilibili")
      news_type
      (bytes "2")
      (bytes "hello")
      night
      at_night
      started).0
    ≡ false
unfolding should_drop_duplicate ddbot_nexus.Groupux.Manager.drop_within lasting find
not_dropped = refl

should_drop_duplicate_twice_example :
    (should_drop_duplicate
      (λ t. t)
      (pos 1)
      (bytes "bilibili")
      news_type
      (bytes "2")
      (bytes "hello")
      night
      at_noon
      (should_drop_duplicate
        (λ t. t)
        (pos 1)
        (bytes "bilibili")
        news_type
        (bytes "2")
        (bytes "hello")
        night
        at_night
        started).1).0
    ≡ ltb 115 (100 + 20)
should_drop_duplicate_twice_example =
    should_drop_duplicate_twice (λ t. t) (pos 1) (bytes "bilibili") news_type (bytes "2")
      (bytes "hello") night at_night at_noon started 20 refl ttl not_dropped

cooldown : lasting night.notify.at_all_cooldown ≡ some 40
unfolding lasting
cooldown = refl

allowed : (allow_at_all (pos 1) night at_night started).0 ≡ true
unfolding allow_at_all lasting find
allowed = refl

allow_at_all_twice_test :
    (allow_at_all (pos 1) night at_noon (allow_at_all (pos 1) night at_night started).1).0
    ≡ not (ltb 115 (100 + 40))
allow_at_all_twice_test =
    allow_at_all_twice (pos 1) night at_night at_noon started 40 refl cooldown allowed

abbrev bucket : DigestBucket
bucket = record { group_code = pos 1; ctype = news_type; items = item ∷ []; flush_at = 120 }

still_there :
    find ◌==ₜ◌ (bytes "1:news") (flush_due read_none load_empty at_noon started).1.aggregate
    ≡ some bucket
unfolding find flush_due ddbot_nexus.Groupux.Manager.Buffers.flush_buffers
    ddbot_nexus.Groupux.Manager.Buffers.flush_buckets
    ddbot_nexus.Groupux.Manager.Buffers.flush_bucket
    ddbot_nexus.Groupux.Manager.Buffers.flush_buffer ddbot_nexus.Groupux.Manager.Buffers.policy
    ddbot_nexus.Groupux.Manager.Buffers.get_override ddbot_nexus.Groupux.Manager.Buffers.remember
    ◌==ₜ◌
still_there = refl

flush_due-aggregate_example :
    (find ◌==ₜ◌ (bytes "1:news") started.aggregate ≡ some bucket) × (115 < 120)
flush_due-aggregate_example =
    flush_due-aggregate read_none load_empty at_noon started (bytes "1:news") bucket still_there
