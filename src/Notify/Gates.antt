-- ===== src/Notify/Gates.antt =====
-- Of handleConcernNotify (lsp/notify.go): the group of a digest, and what the quiet hours hold.
use ddbot_nexus.Prelude.{
  ltb, if◌then◌else◌, Bool-cases, length, is_empty, All, ◌==ₜ◌, ℤ, pos, ℕ, suc, ◌+◌, ◌≤◌, ◌≡◌, refl,
  subst, inl, inr, Bool, true, false, ◌&&◌, ◌||◌, not, Option, none, some, List, [], ◌∷◌, ◌++◌,
  arith,
}
use ddbot_nexus.Notify.{
  Outgoing, Surroundings, dispatch_digest, ConcernNotify, NotifyState, is_silenced, built,
  dispatch_some, quiet_or_go, held_quiet,
}
use ddbot_nexus.Groupux.Manager.{
  PreparedDigest, Moment, QuietSummaryItem, QuietBuffer, Manager, lasting,
}
use ddbot_nexus.Groupux.Manager
use ddbot_nexus.Buntdb.Interface.{BuntDb}
use ddbot_nexus.Buntdb.ShortCut.{Session}
use ddbot_nexus.Mmsg.{Msg}
use ddbot_nexus.ConcernType.{ConcernType}
use ddbot_nexus.Concern.KeySet.{int_eq}
use ddbot_nexus.Groupux.Policy.{aggregate_type_enabled, in_quiet_hours}
use ddbot_nexus.Groupux.Manager.Held.{buffer, total, apply_quiet_hours_holds}
use ddbot_nexus.Groupux.Assoc.{find}
use ddbot_nexus.Groupux.Types.{GroupUxPolicy}
use ddbot_nexus.Groupux.Manager.Buffers.{
  aggregate_key, bucket_or_new, push_bucket, push_or_pass, push_aggregate, summary_of, pass_buffer,
  apply_quiet_hours, collecting, pass_group,
}

-- A digest, if there is one, is for the group.
abbrev pub OfGroup : ℤ → Option PreparedDigest → Type 0
OfGroup group none = Unit
OfGroup group (some d) = d.group_code ≡ group

push_bucket-OfGroup :
    (group : ℤ) (t : ConcernType) (item : QuietSummaryItem) (p : GroupUxPolicy) (f k : ℕ)
    (m : Manager.Manager)
    → OfGroup group (push_bucket group t item p f k m).0
unfolding push_bucket
push_bucket-OfGroup group t item p f k m =
    let old = bucket_or_new group t f (find ◌==ₜ◌ (aggregate_key group t) m.aggregate) in
    elim (Bool-cases (ltb (length (old.items ++ item ∷ [])) k)) [
      | inl e ↦ rw e tt
      | inr e ↦ rw e refl
    ]

push_or_pass-OfGroup :
    (window most : Option ℕ) (group : ℤ) (t : ConcernType) (item : QuietSummaryItem)
    (p : GroupUxPolicy) (now : ℕ) (m : Manager.Manager)
    → OfGroup group (push_or_pass window most group t item p now m).0
unfolding push_or_pass
push_or_pass-OfGroup (some d) (some k) group t item p now m =
    push_bucket-OfGroup group t item p (now + d) k m
push_or_pass-OfGroup (some d) none group t item p now m = refl
push_or_pass-OfGroup none most group t item p now m = refl

pub push_aggregate-OfGroup :
    (group : ℤ) (t : ConcernType) (item : QuietSummaryItem) (p : GroupUxPolicy) (now : Moment)
    (m : Manager.Manager)
    → OfGroup group (push_aggregate group t item p now m).0
unfolding push_aggregate
push_aggregate-OfGroup group t item p now m = elim (Bool-cases (aggregate_type_enabled p t)) [
  | inl e ↦ rw e (
      push_or_pass-OfGroup (lasting p.notify.aggregate.window)
        (collecting p.notify.aggregate.max_items) group t item p now.nanos m)
  | inr e ↦ rw e tt
]

if-OfGroup :
    (group : ℤ) (c : Bool) (d : Option PreparedDigest)
    → OfGroup group d
    → OfGroup group (if c then d else none)
if-OfGroup group true d h = h
if-OfGroup group false d h = tt

summary_of-OfGroup :
    (group : ℤ) (p : GroupUxPolicy) (q : QuietBuffer) → OfGroup group (summary_of group p q)
unfolding summary_of
summary_of-OfGroup group p q =
    elim (Bool-cases (not (is_empty q.items) && p.notify.quiet_hours.summary_on_exit)) [
      | inl e ↦ rw e refl
      | inr e ↦ rw e tt
    ]

pass_buffer-OfGroup :
    (group : ℤ) (p : GroupUxPolicy) (item : QuietSummaryItem) (now_quiet : Bool) (q : QuietBuffer)
    → OfGroup group (pass_buffer group p item now_quiet q).1
unfolding pass_buffer
pass_buffer-OfGroup group p item true q =
    if-OfGroup group (q.in_quiet && false) (summary_of group p q) (summary_of-OfGroup group p q)
pass_buffer-OfGroup group p item false q =
    if-OfGroup group (q.in_quiet && true) (summary_of group p q) (summary_of-OfGroup group p q)

pub apply_quiet_hours-OfGroup :
    (group : ℤ) (p : GroupUxPolicy) (item : QuietSummaryItem) (now : Moment) (m : Manager.Manager)
    → OfGroup group (apply_quiet_hours group p item now m).1
unfolding apply_quiet_hours
apply_quiet_hours-OfGroup group p item now m =
    elim (Bool-cases (not p.enabled || not p.notify.quiet_hours.enabled)) [
      | inl e ↦ rw e tt
      | inr e ↦ rw e (
          unfold pass_group in
          pass_buffer-OfGroup group p item (in_quiet_hours p now.minute) (buffer group m))
    ]

module _ ⦃b : BuntDb⦄ {C P : Type 0} (w : Surroundings C P) where
  -- At most so many messages, all to the group.
  abbrev pub ToGroup : ℤ → ℕ → List (Outgoing C P) → Type 0
  ToGroup group n out = All (λ o. o.group_code ≡ group) out × (length out ≤ n)

  built-ToGroup : (group : ℤ) (m : Option (Msg C P)) → ToGroup group 1 (built w group m)
  built-ToGroup group none = (tt, omega arith)
  built-ToGroup group (some m) = ((refl, tt), omega arith)

  pub dispatch_digest-ToGroup :
      (group : ℤ) (d : PreparedDigest) (s : Session)
      → d.group_code ≡ group
      → ToGroup group 1 (dispatch_digest w d s).0
  unfolding dispatch_digest
  dispatch_digest-ToGroup group d s h = elim (Bool-cases (int_eq d.group_code (pos 0))) [
    | inl z ↦ rw z (tt, omega arith)
    | inr z ↦ elim (Bool-cases (is_silenced w d.group_code s).0) [
      | inl q ↦ rw (z, q) (tt, omega arith)
      | inr q ↦
          rw (z, q)
            (subst (λ g. ToGroup g 1 (built w d.group_code (w.build d))) h
              (built-ToGroup d.group_code (w.build d)))
    ]
  ]

  pub dispatch_some-ToGroup :
      (group : ℤ) (d : Option PreparedDigest) (s : Session)
      → OfGroup group d
      → ToGroup group 1 (dispatch_some w d s).0
  dispatch_some-ToGroup group none s h = (tt, omega arith)
  dispatch_some-ToGroup group (some d) s h = dispatch_digest-ToGroup group d s h

  -- In the quiet hours of a policy that is on, a notification that is no duplicate is held: nothing is
  -- handed to the sender, the session is as it was, and the group's buffer accounts for one item more.
  pub quiet_or_go_holds :
      (origin n : ConcernNotify C P) (p : GroupUxPolicy) (now : Moment) (item : QuietSummaryItem)
      (m : Msg C P) (st : NotifyState)
      → p.enabled ≡ true
      → p.notify.quiet_hours.enabled ≡ true
      → in_quiet_hours p now.minute ≡ true
      → ((quiet_or_go w origin n p now item m st).0 ≡ held_quiet)
        × ((quiet_or_go w origin n p now item m st).1 ≡ [])
        × ((quiet_or_go w origin n p now item m st).2.session ≡ st.session)
        × (total (buffer n.group_code (quiet_or_go w origin n p now item m st).2.ux)
            ≡ suc (total (buffer n.group_code st.ux)))
  unfolding quiet_or_go
  quiet_or_go_holds origin n p now item m st on quiet_on quiet =
      let (kept, no_summary, more) =
        apply_quiet_hours_holds n.group_code p item now st.ux on quiet_on quiet in
      rw (kept, no_summary) (refl, refl, refl, more)
