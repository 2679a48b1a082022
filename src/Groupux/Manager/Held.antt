-- ===== src/Groupux/Manager/Held.antt =====
-- What is held in the quiet hours (lsp/groupux/manager.go).
use ddbot_nexus.Prelude.{
  if◌then◌else◌, length, length-append, ℤ, ℕ, suc, ◌+◌, ◌≤◌, ◌≡◌, refl, sym, ap, ◌∙◌, subst, Bool,
  true, false, ◌||◌, not, Option, none, [], ◌∷◌, arith,
}
use ddbot_nexus.Groupux.Assoc.{find, find-put_same}
use ddbot_nexus.Concern.KeySet.{int_eq_refl, int_eq}
use ddbot_nexus.Groupux.Manager.{Manager, QuietSummaryItem, QuietBuffer, Moment, PreparedDigest}
use ddbot_nexus.Groupux.Manager.Buffers.{
  pass_group, hold, buffer_or_empty, pass_buffer, apply_quiet_hours, empty_buffer, summary_of,
  leave_quiet,
}
use ddbot_nexus.Groupux.Policy.{in_quiet_hours}
use ddbot_nexus.Groupux.Types.{GroupUxPolicy}

-- The buffer of a group.
abbrev pub buffer : ℤ → Manager → QuietBuffer
buffer group m = buffer_or_empty (find int_eq group m.quiet)

-- The items of a buffer, those counted only included.
abbrev pub total : QuietBuffer → ℕ
total q = length q.items + q.dropped

hold_bound :
    (item : QuietSummaryItem) (q : QuietBuffer)
    → length q.items ≤ 500
    → length (hold item q).items ≤ 500
unfolding hold
hold_bound item q h = ground (arith, length-append q.items (item ∷ []))

total-hold : (item : QuietSummaryItem) (q : QuietBuffer) → total (hold item q) ≡ suc (total q)
unfolding hold
total-hold item q = ground (arith, length-append q.items (item ∷ []))

pub buffer-pass_group :
    (group : ℤ) (p : GroupUxPolicy) (item : QuietSummaryItem) (now_quiet : Bool) (m : Manager)
    → buffer group (pass_group group p item now_quiet m).2
      ≡ (pass_buffer group p item now_quiet (buffer group m)).2
unfolding pass_group
buffer-pass_group group p item now_quiet m =
    let q = (pass_buffer group p item now_quiet (buffer group m)).2 in
    ap buffer_or_empty (find-put_same int_eq group q m.quiet (int_eq_refl group))

pub pass_group_same :
    (group : ℤ) (p : GroupUxPolicy) (item : QuietSummaryItem) (now_quiet : Bool) (m : Manager)
    → ((pass_group group p item now_quiet m).0
        ≡ (pass_buffer group p item now_quiet (buffer group m)).0)
      × ((pass_group group p item now_quiet m).1
          ≡ (pass_buffer group p item now_quiet (buffer group m)).1)
unfolding pass_group
pass_group_same group p item now_quiet m = (refl, refl)

both_on : (a b : Bool) → a ≡ true → b ≡ true → (not a || not b) ≡ false
both_on a b on quiet_on = ground arith

pub apply_quiet_hours_on :
    (group : ℤ) (p : GroupUxPolicy) (item : QuietSummaryItem) (now : Moment) (m : Manager)
    → p.enabled ≡ true
    → p.notify.quiet_hours.enabled ≡ true
    → apply_quiet_hours group p item now m ≡ pass_group group p item (in_quiet_hours p now.minute) m
unfolding apply_quiet_hours
apply_quiet_hours_on group p item now m on quiet_on =
    ap (λ b. if b then (true, none, m) else pass_group group p item (in_quiet_hours p now.minute) m)
      (both_on p.enabled p.notify.quiet_hours.enabled on quiet_on)

pass_buffer_quiet :
    (group : ℤ) (p : GroupUxPolicy) (item : QuietSummaryItem) (q : QuietBuffer)
    → ((pass_buffer group p item true q).0 ≡ false)
      × ((pass_buffer group p item true q).1 ≡ none)
      × (total (pass_buffer group p item true q).2 ≡ suc (total q))
unfolding pass_buffer
pass_buffer_quiet group p item q =
    (refl, ground arith, ground (arith, total-hold item (record q { in_quiet = true })))

pass_buffer_leave :
    (group : ℤ) (p : GroupUxPolicy) (item : QuietSummaryItem) (q : QuietBuffer)
    → q.in_quiet ≡ true
    → ((pass_buffer group p item false q).0 ≡ true)
      × ((pass_buffer group p item false q).1 ≡ summary_of group p q)
      × ((pass_buffer group p item false q).2 ≡ empty_buffer)
unfolding pass_buffer
pass_buffer_leave group p item q h = (refl, rw h, ground arith)

-- A bound on both branches.
if_bound :
    (group : ℤ) (m : Manager) (r : Bool × Option PreparedDigest × Manager) (c : Bool)
    → length (buffer group m).items ≤ 500
    → length (buffer group r.2).items ≤ 500
    → length (buffer group (if c then (true, none, m) else r).2).items ≤ 500
if_bound group m r true h l = h
if_bound group m r false h l = l

leave_bound :
    (b : Bool) (q : QuietBuffer) → length q.items ≤ 500 → length (leave_quiet b q).items ≤ 500
leave_bound b q h = ground arith

pass_buffer_bound :
    (group : ℤ) (p : GroupUxPolicy) (item : QuietSummaryItem) (now_quiet : Bool) (q : QuietBuffer)
    → length q.items ≤ 500
    → length (pass_buffer group p item now_quiet q).2.items ≤ 500
unfolding pass_buffer
pass_buffer_bound group p item true q h =
    hold_bound item (record (leave_quiet true q) { in_quiet = true }) (leave_bound true q h)
pass_buffer_bound group p item false q h = leave_bound false q h

module _ (group : ℤ) (p : GroupUxPolicy) (item : QuietSummaryItem) (now : Moment)
    (m : Manager) where
  -- While the policy and its quiet hours are on, and the moment is quiet: the item is not delivered,
  -- there is no summary, and the group's buffer accounts for one item more, kept or counted.
  pub apply_quiet_hours_holds :
      p.enabled ≡ true
      → p.notify.quiet_hours.enabled ≡ true
      → in_quiet_hours p now.minute ≡ true
      → ((apply_quiet_hours group p item now m).0 ≡ false)
        × ((apply_quiet_hours group p item now m).1 ≡ none)
        × (total (buffer group (apply_quiet_hours group p item now m).2)
            ≡ suc (total (buffer group m)))
  apply_quiet_hours_holds on quiet_on quiet =
      let e =
        apply_quiet_hours_on group p item now m on quiet_on
        ∙ ap (λ b. pass_group group p item b m) quiet in
      let same = pass_group_same group p item true m in
      let held = pass_buffer_quiet group p item (buffer group m) in
      (
        ap (λ r. r.0) e ∙ same.0 ∙ held.0,
        ap (λ r. r.1) e ∙ same.1 ∙ held.1,
        ap (λ r. total (buffer group r.2)) e
            ∙ ap total (buffer-pass_group group p item true m)
            ∙ held.2,
      )

  -- While the policy and its quiet hours are on, the moment is not quiet, and the group's buffer was
  -- in the quiet hours: the item is delivered, with the summary of the buffer, which is emptied.
  pub apply_quiet_hours_leaves :
      p.enabled ≡ true
      → p.notify.quiet_hours.enabled ≡ true
      → in_quiet_hours p now.minute ≡ false
      → (buffer group m).in_quiet ≡ true
      → ((apply_quiet_hours group p item now m).0 ≡ true)
        × ((apply_quiet_hours group p item now m).1 ≡ summary_of group p (buffer group m))
        × (buffer group (apply_quiet_hours group p item now m).2 ≡ empty_buffer)
  apply_quiet_hours_leaves on quiet_on quiet inside =
      let e =
        apply_quiet_hours_on group p item now m on quiet_on
        ∙ ap (λ b. pass_group group p item b m) quiet in
      let same = pass_group_same group p item false m in
      let left = pass_buffer_leave group p item (buffer group m) inside in
      (
        ap (λ r. r.0) e ∙ same.0 ∙ left.0,
        ap (λ r. r.1) e ∙ same.1 ∙ left.1,
        ap (λ r. buffer group r.2) e ∙ buffer-pass_group group p item false m ∙ left.2,
      )

  -- No operation makes the buffer of its group longer than 500 items.
  pub apply_quiet_hours_bound :
      length (buffer group m).items ≤ 500
      → length (buffer group (apply_quiet_hours group p item now m).2).items ≤ 500
  unfolding apply_quiet_hours
  apply_quiet_hours_bound h =
      let b = buffer-pass_group group p item (in_quiet_hours p now.minute) m in
      let l = pass_buffer_bound group p item (in_quiet_hours p now.minute) (buffer group m) h in
      if_bound group m (pass_group group p item (in_quiet_hours p now.minute) m)
        (not p.enabled || not p.notify.quiet_hours.enabled) h
        (subst (λ q. length q.items ≤ 500) (sym b) l)
