-- ===== src/Groupux/Manager/Cooldown.antt =====
-- How long the manager refuses what it has just let through (lsp/groupux/manager.go).
use ddbot_nexus.Prelude.{
  ltb, Bool-cases, length, Text, ◌==ₜ◌, ==ₜ_refl, ℤ, pos, negsuc, ℕ, zero, suc, ◌+◌, ◌<◌, ◌≡◌, sym,
  ap, ◌∙◌, inl, inr, true, false, not, some, List, arith,
}
use ddbot_nexus.Groupux.Assoc.{find, put, find-put_same, find-filter}
use ddbot_nexus.Concern.KeySet.{int_eq_refl, int_eq}
use ddbot_nexus.Groupux.Manager.{
  drop_within, answer_within, lasting, sweep, until, Moment, Manager, parse_err_key,
  allow_parse_error, allow_at_all, notification_fingerprint, should_drop_duplicate,
}
use ddbot_nexus.ConcernType.{ConcernType}
use ddbot_nexus.Groupux.Types.{GroupUxPolicy}

lasting_positive : (z : ℤ) (d : ℕ) → lasting z ≡ some d → 0 < d
unfolding lasting
lasting_positive (pos zero) d h = cc
lasting_positive (pos (suc n)) d h = ground arith
lasting_positive (negsuc n) d h = cc

-- A sweep keeps a moment that is still to come.
find-sweep :
    (now v : ℕ) (key : Text) (m : List (Text × ℕ))
    → find ◌==ₜ◌ key m ≡ some v
    → now < v
    → find ◌==ₜ◌ key (sweep now m) ≡ some v
unfolding sweep
find-sweep now v key m h later = elim (Bool-cases (ltb 4096 (length m))) [
  | inl e ↦ rw e (find-filter ◌==ₜ◌ (λ exp. ltb now exp) key v m h (ground arith))
  | inr e ↦ rw e h
]

find-until :
    (key : Text) (now d : ℕ) (m : List (Text × ℕ))
    → 0 < d
    → (until key now d m).0 ≡ false
    → find ◌==ₜ◌ key (until key now d m).1 ≡ some (now + d)
find-until key now d m hd h =
    let here =
      find-sweep now (now + d) key (put ◌==ₜ◌ key (now + d) m)
        (find-put_same ◌==ₜ◌ key (now + d) m (==ₜ_refl key)) (ground arith) in
    ground (arith, here)

-- Right after a key was let through, it is refused exactly before its moment.
until-until :
    (key : Text) (now d later e : ℕ) (m : List (Text × ℕ))
    → 0 < d
    → (until key now d m).0 ≡ false
    → (until key later e (until key now d m).1).0 ≡ ltb later (now + d)
until-until key now d later e m hd h = ground (arith, find-until key now d m hd h)

drop_within_twice :
    (key : Text) (now d later : ℕ) (m : Manager)
    → 0 < d
    → (drop_within (some d) key now m).0 ≡ false
    → (drop_within (some d) key later (drop_within (some d) key now m).1).0 ≡ ltb later (now + d)
unfolding drop_within
drop_within_twice key now d later m hd h = until-until key now d later d m.dedupe hd h

answer_within_twice :
    (key : Text) (now d later : ℕ) (m : Manager)
    → 0 < d
    → (answer_within (some d) key now m).0 ≡ true
    → (answer_within (some d) key later (answer_within (some d) key now m).1).0
      ≡ not (ltb later (now + d))
unfolding answer_within
answer_within_twice key now d later m hd h =
    ap not (until-until key now d later d m.parse_err hd (ground arith))

module _ (p : GroupUxPolicy) (d : ℕ) (on : p.enabled ≡ true) where
  should_drop_duplicate_on :
      (digest : Text → Text) (group : ℤ) (site : Text) (ctype : ConcernType) (uid message : Text)
      (now : Moment) (m : Manager)
      → lasting p.notify.dedupe_ttl ≡ some d
      → should_drop_duplicate digest group site ctype uid message p now m
        ≡ drop_within
            (some d)
            (notification_fingerprint digest group site ctype uid message)
            now.nanos
            m
  unfolding should_drop_duplicate
  should_drop_duplicate_on digest group site ctype uid message now m lasts = rw (on, lasts)

  allow_parse_error_on :
      (group user : ℤ) (command : Text) (now : Moment) (m : Manager)
      → lasting p.command.parse_error_cooldown ≡ some d
      → allow_parse_error group user command p now m
        ≡ answer_within (some d) (parse_err_key group user command) now.nanos m
  unfolding allow_parse_error
  allow_parse_error_on group user command now m lasts = rw (on, lasts)

-- While the policy is on and its time to live is positive, a notification that was not dropped is dropped again
-- exactly until its time to live has passed.
pub should_drop_duplicate_twice :
    (digest : Text → Text) (group : ℤ) (site : Text) (ctype : ConcernType) (uid message : Text)
    (p : GroupUxPolicy) (now later : Moment) (m : Manager) (ttl : ℕ)
    → p.enabled ≡ true
    → lasting p.notify.dedupe_ttl ≡ some ttl
    → (should_drop_duplicate digest group site ctype uid message p now m).0 ≡ false
    → (should_drop_duplicate digest group site ctype uid message p later
        (should_drop_duplicate digest group site ctype uid message p now m).1).0
      ≡ ltb later.nanos (now.nanos + ttl)
should_drop_duplicate_twice digest group site ctype uid message p now later m ttl on lasts first =
    let key = notification_fingerprint digest group site ctype uid message in
    let e = should_drop_duplicate_on p ttl on digest group site ctype uid message now m lasts in
    let f =
      should_drop_duplicate_on p ttl on digest group site ctype uid message later
        (drop_within (some ttl) key now.nanos m).1 lasts in
    rw (e, f)
      (drop_within_twice key now.nanos ttl later.nanos m
        (lasting_positive p.notify.dedupe_ttl ttl lasts) (ap (λ r. r.0) (sym e) ∙ first))

-- While the policy is on and its cooldown is positive, a user whose parse error was answered is answered again
-- for the same command exactly when the cooldown has passed.
pub allow_parse_error_twice :
    (group user : ℤ) (command : Text) (p : GroupUxPolicy) (now later : Moment) (m : Manager)
    (cooldown : ℕ)
    → p.enabled ≡ true
    → lasting p.command.parse_error_cooldown ≡ some cooldown
    → (allow_parse_error group user command p now m).0 ≡ true
    → (allow_parse_error group user command p later
        (allow_parse_error group user command p now m).1).0
      ≡ not (ltb later.nanos (now.nanos + cooldown))
allow_parse_error_twice group user command p now later m d on lasts first =
    let key = parse_err_key group user command in
    let e = allow_parse_error_on p d on group user command now m lasts in
    let f =
      allow_parse_error_on p d on group user command later
        (answer_within (some d) key now.nanos m).1 lasts in
    rw (e, f)
      (answer_within_twice key now.nanos d later.nanos m
        (lasting_positive p.command.parse_error_cooldown d lasts) (ap (λ r. r.0) (sym e) ∙ first))

-- While the policy is on and its cooldown is positive, a group that could mention all its members may do so
-- again exactly when the cooldown has passed.
pub allow_at_all_twice :
    (group : ℤ) (p : GroupUxPolicy) (now later : Moment) (m : Manager) (cooldown : ℕ)
    → p.enabled ≡ true
    → lasting p.notify.at_all_cooldown ≡ some cooldown
    → (allow_at_all group p now m).0 ≡ true
    → (allow_at_all group p later (allow_at_all group p now m).1).0
      ≡ not (ltb later.nanos (now.nanos + cooldown))
unfolding allow_at_all
allow_at_all_twice group p now later m d on lasts first =
    let set = find-put_same int_eq group now.nanos m.at_all (int_eq_refl group) in
    ground (arith, set)
