-- ===== src/Groupux/Manager/Buffers.antt =====
-- lsp/groupux/manager.go: the digests and the quiet hours, and the overrides of the groups.
-- LoadOverride is an argument, `load`: what the store holds for a group, or none for an error.
use ddbot_nexus.Prelude.{
  ltb, leb, if◌then◌else◌, length, is_empty, Text, bytes, ◌==ₜ◌, ℤ, pos, negsuc, format_int,
  to_lower, ℕ, zero, suc, ◌+◌, Bool, true, false, ◌&&◌, ◌||◌, not, Option, none, some, List, [],
  ◌∷◌, ◌++◌,
}
use ddbot_nexus.ConcernType.{ConcernType}
use ddbot_nexus.Groupux.Assoc.{find, put, erase}
use ddbot_nexus.Concern.KeySet.{int_eq}
use ddbot_nexus.Groupux.Policy.{aggregate_type_enabled, in_quiet_hours, merge_policy}
use ddbot_nexus.Groupux.Types.{GroupUxPolicy, Override}
use ddbot_nexus.Groupux.Manager.{
  Moment, lasting, QuietSummaryItem, DigestBucket, PreparedDigest, QuietBuffer, Manager,
}

unfoldable pub aggregate_key : ℤ → ConcernType → Text
aggregate_key group t = format_int group ++ (b':' ∷ to_lower t)

abbrev pub aggregate_digest :
    ℤ → ConcernType → GroupUxPolicy → List QuietSummaryItem → PreparedDigest
aggregate_digest group t p items = record {
  group_code = group;
  ctype = t;
  policy = p;
  items = items;
  count = length items;
  dropped = 0;
  reason = bytes "aggregate";
}

abbrev pub bucket_or_new : ℤ → ConcernType → ℕ → Option DigestBucket → DigestBucket
bucket_or_new group t flush_at none = record {
  group_code = group;
  ctype = t;
  items = [];
  flush_at = flush_at;
}
bucket_or_new group t flush_at (some b) = b

-- The bucket of the key with the item added, kept while it has fewer items than `max_items`.
unfoldable pub push_bucket :
    ℤ
    → ConcernType
    → QuietSummaryItem
    → GroupUxPolicy
    → ℕ
    → ℕ
    → Manager
    → Option PreparedDigest × Manager
push_bucket group t item p flush_at max_items m =
    let key = aggregate_key group t in
    let old = bucket_or_new group t flush_at (find ◌==ₜ◌ key m.aggregate) in
    let items = old.items ++ (item ∷ []) in
    if ltb (length items) max_items
    then (none, record m { aggregate = put ◌==ₜ◌ key (record old { items = items }) m.aggregate })
    else (
      some (aggregate_digest group t p items),
      record m { aggregate = erase ◌==ₜ◌ key m.aggregate },
    )

-- The number of items to collect; none where MaxItems is at most 1.
unfoldable pub collecting : ℤ → Option ℕ
collecting (pos zero) = none
collecting (pos (suc zero)) = none
collecting (pos (suc (suc n))) = some (suc (suc n))
collecting (negsuc n) = none

unfoldable pub push_or_pass :
    Option ℕ
    → Option ℕ
    → ℤ
    → ConcernType
    → QuietSummaryItem
    → GroupUxPolicy
    → ℕ
    → Manager
    → Option PreparedDigest × Manager
unfolding push_bucket
push_or_pass (some window) (some max_items) group t item p now m =
    push_bucket group t item p (now + window) max_items m
push_or_pass (some window) none group t item p now m =
    (some (aggregate_digest group t p (item ∷ [])), m)
push_or_pass none max_items group t item p now m =
    (some (aggregate_digest group t p (item ∷ [])), m)

unfoldable pub push_aggregate :
    ℤ
    → ConcernType
    → QuietSummaryItem
    → GroupUxPolicy
    → Moment
    → Manager
    → Option PreparedDigest × Manager
push_aggregate group t item p now m =
    if not (aggregate_type_enabled p t)
    then (none, m)
    else push_or_pass (lasting p.notify.aggregate.window) (collecting p.notify.aggregate.max_items)
        group t item p now.nanos m

abbrev pub empty_buffer : QuietBuffer
empty_buffer = record { in_quiet = false; items = []; dropped = 0 }

abbrev pub buffer_or_empty : Option QuietBuffer → QuietBuffer
buffer_or_empty none = empty_buffer
buffer_or_empty (some q) = q

abbrev pub quiet_digest : ℤ → GroupUxPolicy → QuietBuffer → PreparedDigest
quiet_digest group p q = record {
  group_code = group;
  ctype = bytes "digest";
  policy = p;
  items = q.items;
  count = length q.items;
  dropped = q.dropped;
  reason = bytes "quiet-summary";
}

-- The summary of a buffer that leaves the quiet hours.
unfoldable pub summary_of : ℤ → GroupUxPolicy → QuietBuffer → Option PreparedDigest
summary_of group p q =
    if not (is_empty q.items) && p.notify.quiet_hours.summary_on_exit
    then some (quiet_digest group p q)
    else none

abbrev pub leave_quiet : Bool → QuietBuffer → QuietBuffer
leave_quiet now_quiet q = if q.in_quiet && not now_quiet then empty_buffer else q

-- An item that is held: kept while there is room, else counted.
unfoldable pub hold : QuietSummaryItem → QuietBuffer → QuietBuffer
hold item q =
    if leb 500 (length q.items)
    then record q { dropped = suc q.dropped }
    else record q { items = q.items ++ (item ∷ []) }

-- The buffer after an item, whether the item is delivered, and the summary.
unfoldable pub pass_buffer :
    ℤ
    → GroupUxPolicy
    → QuietSummaryItem
    → Bool
    → QuietBuffer
    → Bool × Option PreparedDigest × QuietBuffer
pass_buffer group p item now_quiet q =
    let summary = if q.in_quiet && not now_quiet then summary_of group p q else none in
    let left = record (leave_quiet now_quiet q) { in_quiet = now_quiet } in
    if not now_quiet then (true, summary, left) else (false, summary, hold item left)

-- The operation on the buffer of the group.
unfoldable pub pass_group :
    ℤ → GroupUxPolicy → QuietSummaryItem → Bool → Manager → Bool × Option PreparedDigest × Manager
pass_group group p item now_quiet m =
    let old = buffer_or_empty (find int_eq group m.quiet) in
    let (deliver, summary, q) = pass_buffer group p item now_quiet old in
    (deliver, summary, record m { quiet = put int_eq group q m.quiet })

unfoldable pub apply_quiet_hours :
    ℤ → GroupUxPolicy → QuietSummaryItem → Moment → Manager → Bool × Option PreparedDigest × Manager
apply_quiet_hours group p item now m =
    if not p.enabled || not p.notify.quiet_hours.enabled
    then (true, none, m)
    else pass_group group p item (in_quiet_hours p now.minute) m

abbrev pub is_loaded : Option Bool → Bool
is_loaded none = false
is_loaded (some b) = b

abbrev pub override_or_empty : Option Override → Override
override_or_empty none = []
override_or_empty (some o) = o

unfoldable pub remember : ℤ → Override → Manager → Manager
remember group o m = record m {
  overrides = if is_empty o then erase int_eq group m.overrides else put int_eq group o m.overrides;
  override_loaded = put int_eq group true m.override_loaded;
}

-- getOverrideLocked; `none` is an error.
unfoldable pub get_override : (ℤ → Option Override) → ℤ → Manager → Option Override × Manager
get_override load group m =
    if is_loaded (find int_eq group m.override_loaded)
    then (some (override_or_empty (find int_eq group m.overrides)), m)
    else elim (load group) [ none ↦ (none, m) | some o ↦ (some o, remember group o m) ]

abbrev pub policy_by : (Text → Option ℤ) → GroupUxPolicy → Option Override → GroupUxPolicy
policy_by parse_duration global none = global
policy_by parse_duration global (some o) = merge_policy parse_duration global o

-- Policy, and policyLocked as FlushDue uses it.
unfoldable pub policy :
    (Text → Option ℤ) → (ℤ → Option Override) → ℤ → Manager → GroupUxPolicy × Manager
policy parse_duration load group m =
    let (o, after) = get_override load group m in (policy_by parse_duration after.global o, after)

-- A bucket in FlushDue: its digest where it is due.
unfoldable pub flush_bucket :
    (Text → Option ℤ)
    → (ℤ → Option Override)
    → ℕ
    → Text
    → DigestBucket
    → Manager
    → List PreparedDigest × Manager
flush_bucket parse_duration load now key b m =
    if ltb now b.flush_at
    then ([], m)
    else let (p, after) = policy parse_duration load b.group_code m in
      (
        aggregate_digest b.group_code b.ctype p b.items ∷ [],
        record after { aggregate = erase ◌==ₜ◌ key after.aggregate },
      )

unfoldable pub flush_buckets :
    (Text → Option ℤ)
    → (ℤ → Option Override)
    → ℕ
    → List (Text × DigestBucket)
    → Manager
    → List PreparedDigest × Manager
flush_buckets parse_duration load now [] m = ([], m)
flush_buckets parse_duration load now ((key, b) ∷ bs) m =
    let (d, after) = flush_bucket parse_duration load now key b m in
    let (ds, last) = flush_buckets parse_duration load now bs after in (d ++ ds, last)

abbrev pub one_or_none : Option PreparedDigest → List PreparedDigest
one_or_none none = []
one_or_none (some d) = d ∷ []

-- A buffer in FlushDue: its summary where it leaves the quiet hours.
unfoldable pub flush_buffer :
    (Text → Option ℤ)
    → (ℤ → Option Override)
    → ℕ
    → ℤ
    → QuietBuffer
    → Manager
    → List PreparedDigest × Manager
flush_buffer parse_duration load minute group q m =
    let (p, after) = policy parse_duration load group m in
    let now_quiet = in_quiet_hours p minute in
    (
      (if q.in_quiet && not now_quiet then one_or_none (summary_of group p q) else []),
      record after {
        quiet =
            put int_eq group (record (leave_quiet now_quiet q) { in_quiet = now_quiet })
              after.quiet;
      },
    )

unfoldable pub flush_buffers :
    (Text → Option ℤ)
    → (ℤ → Option Override)
    → ℕ
    → List (ℤ × QuietBuffer)
    → Manager
    → List PreparedDigest × Manager
flush_buffers parse_duration load minute [] m = ([], m)
flush_buffers parse_duration load minute ((group, q) ∷ qs) m =
    let (d, after) = flush_buffer parse_duration load minute group q m in
    let (ds, last) = flush_buffers parse_duration load minute qs after in (d ++ ds, last)

unfoldable pub flush_due :
    (Text → Option ℤ) → (ℤ → Option Override) → Moment → Manager → List PreparedDigest × Manager
flush_due parse_duration load now m =
    let (ds, after) = flush_buckets parse_duration load now.nanos m.aggregate m in
    let (ss, last) = flush_buffers parse_duration load now.minute after.quiet after in
    (ds ++ ss, last)
