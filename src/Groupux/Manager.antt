-- ===== src/Groupux/Manager.antt =====
-- lsp/groupux/manager.go, and the types of policy.go that it fills: what the manager remembers of
-- each group and what its operations let through. A moment is a count of nanoseconds with the minute
-- of the day that the local clock shows; `digest` is sha1 with hex. A map is an association list,
-- and `range` visits it in the order of the list. The mutex is held through each operation, so an
-- operation is a function of the state.
pub mod Buffers
pub mod Cooldown
pub mod Digest
pub mod Held
pub mod Summary
pub mod Due
use ddbot_nexus.Prelude.{
  ltb, if◌then◌else◌, length, filter, Text, ◌==ₜ◌, ℤ, pos, negsuc, format_int, trim_space, to_lower,
  ℕ, zero, suc, ◌+◌, Bool, true, false, not, Option, none, some, List, [], ◌∷◌, ◌++◌,
}
use ddbot_nexus.ConcernType.{ConcernType}
use ddbot_nexus.Groupux.Assoc.{find, put}
use ddbot_nexus.Concern.KeySet.{int_eq}
use ddbot_nexus.Groupux.Policy.{sanitize_policy}
use ddbot_nexus.Groupux.Types.{GroupUxPolicy, Override}

pub record Moment : Type 0 where
  pub nanos : ℕ
  pub minute : ℕ

pub record QuietSummaryItem : Type 0 where
  pub site : Text
  pub ctype : ConcernType
  pub uid : Text
  pub fingerprint : Text
  pub message : Text
  pub occurred_at : ℕ

pub record DigestBucket : Type 0 where
  pub group_code : ℤ
  pub ctype : ConcernType
  pub items : List QuietSummaryItem
  pub flush_at : ℕ

pub record PreparedDigest : Type 0 where
  pub group_code : ℤ
  pub ctype : ConcernType
  pub policy : GroupUxPolicy
  pub items : List QuietSummaryItem
  pub count : ℕ
  pub dropped : ℕ
  pub reason : Text

pub record QuietBuffer : Type 0 where
  pub in_quiet : Bool
  pub items : List QuietSummaryItem
  pub dropped : ℕ

pub record Manager : Type 0 where
  pub global : GroupUxPolicy
  pub overrides : List (ℤ × Override)
  pub override_loaded : List (ℤ × Bool)
  pub dedupe : List (Text × ℕ)
  pub at_all : List (ℤ × ℕ)
  pub parse_err : List (Text × ℕ)
  pub aggregate : List (Text × DigestBucket)
  pub quiet : List (ℤ × QuietBuffer)

unfoldable pub new_manager : GroupUxPolicy → Manager
new_manager global = record {
  global = sanitize_policy global;
  overrides = [];
  override_loaded = [];
  dedupe = [];
  at_all = [];
  parse_err = [];
  aggregate = [];
  quiet = [];
}

unfoldable pub set_global_policy : GroupUxPolicy → Manager → Manager
set_global_policy p m = record m { global = sanitize_policy p }

-- The nanoseconds of a duration; none where it is `<= 0`.
unfoldable pub lasting : ℤ → Option ℕ
lasting (pos zero) = none
lasting (pos (suc n)) = some (suc n)
lasting (negsuc n) = none

-- `exp.After(now)` of a remembered moment.
abbrev pub is_after : Option ℕ → ℕ → Bool
is_after none now = false
is_after (some exp) now = ltb now exp

-- The sweep of the moments that are past, in a map that has grown.
unfoldable pub sweep : ℕ → List (Text × ℕ) → List (Text × ℕ)
sweep now m = if ltb 4096 (length m) then filter (λ p. ltb now p.1) m else m

-- Whether a key is refused until its moment; else its moment is set.
abbrev pub until : Text → ℕ → ℕ → List (Text × ℕ) → Bool × List (Text × ℕ)
until key now duration m =
    if is_after (find ◌==ₜ◌ key m) now
    then (true, m)
    else (false, sweep now (put ◌==ₜ◌ key (now + duration) m))

unfoldable pub parse_err_key : ℤ → ℤ → Text → Text
parse_err_key group user command =
    format_int group ++ (b':' ∷ (format_int user ++ (b':' ∷ to_lower (trim_space command))))

unfoldable pub answer_within : Option ℕ → Text → ℕ → Manager → Bool × Manager
answer_within none key now m = (true, m)
answer_within (some d) key now m =
    let (refused, kept) = until key now d m.parse_err in
    (not refused, record m { parse_err = kept })

unfoldable pub allow_parse_error : ℤ → ℤ → Text → GroupUxPolicy → Moment → Manager → Bool × Manager
allow_parse_error group user command p now m =
    if not p.enabled
    then (true, m)
    else answer_within (lasting p.command.parse_error_cooldown) (parse_err_key group user command)
        now.nanos m

-- `now.Sub(last) < cooldown` of a remembered moment.
abbrev pub is_cooling : Option ℕ → ℕ → ℕ → Bool
is_cooling none now cooldown = false
is_cooling (some last) now cooldown = ltb now (last + cooldown)

unfoldable pub allow_at_all : ℤ → GroupUxPolicy → Moment → Manager → Bool × Manager
allow_at_all group p now m = elim (lasting p.notify.at_all_cooldown) [
  | none ↦ (true, m)
  | some d ↦
      if not p.enabled
      then (true, m)
      else if is_cooling (find int_eq group m.at_all) now.nanos d
      then (false, m)
      else (true, record m { at_all = put int_eq group now.nanos m.at_all })
]

unfoldable pub notification_fingerprint :
    (Text → Text) → ℤ → Text → ConcernType → Text → Text → Text
notification_fingerprint digest group site ctype uid message = digest (
    format_int group
    ++ (b'|'
        ∷ (to_lower (trim_space site)
            ++ (b'|'
                ∷ (to_lower (trim_space ctype)
                    ++ (b'|' ∷ (trim_space uid ++ (b'|' ∷ trim_space message))))))))

unfoldable pub drop_within : Option ℕ → Text → ℕ → Manager → Bool × Manager
drop_within none key now m = (false, m)
drop_within (some d) key now m =
    let (dropped, kept) = until key now d m.dedupe in (dropped, record m { dedupe = kept })

unfoldable pub should_drop_duplicate :
    (Text → Text)
    → ℤ
    → Text
    → ConcernType
    → Text
    → Text
    → GroupUxPolicy
    → Moment
    → Manager
    → Bool × Manager
should_drop_duplicate digest group site ctype uid message p now m =
    if not p.enabled
    then (false, m)
    else drop_within (lasting p.notify.dedupe_ttl)
        (notification_fingerprint digest group site ctype uid message) now.nanos m
