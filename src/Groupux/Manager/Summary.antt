-- ===== src/Groupux/Manager/Summary.antt =====
-- From the first notification that is held to the summary (ApplyQuietHours, lsp/groupux/manager.go).
use ddbot_nexus.Prelude.{
  leb, if◌then◌else◌, Bool-cases, length, take, all, is_empty, length-append, bytes, ℤ, ℕ, zero,
  suc, ◌+◌, ◌-◌, ◌≤◌, ◌<◌, ◌≡◌, refl, sym, ap, ◌∙◌, ◌⊎◌, inl, inr, Bool, true, false, none, some,
  List, [], ◌∷◌, ◌++◌, map, arith,
}
use mathlib.Core.List.{append_assoc, append-nil}
use ddbot_nexus.Groupux.Manager.{Moment, QuietSummaryItem, QuietBuffer, Manager}
use ddbot_nexus.Groupux.Manager.Buffers.{
  hold, apply_quiet_hours, empty_buffer, summary_of, pass_buffer, pass_group,
}
use ddbot_nexus.Groupux.Types.{GroupUxPolicy}
use ddbot_nexus.Groupux.Policy.{in_quiet_hours}
use ddbot_nexus.Groupux.Manager.Held.{
  buffer-pass_group, apply_quiet_hours_on, apply_quiet_hours_leaves, buffer,
}

take_all {ℓ} : {A : Type ℓ} (n : ℕ) (xs : List A) → length xs ≤ n → take n xs ≡ xs
take_all zero [] h = refl
take_all zero (x ∷ xs) h = absurd (omega arith)
take_all (suc n) [] h = refl
take_all (suc n) (x ∷ xs) h = ap (λ l. x ∷ l) (take_all n xs (omega arith))

take-append {ℓ} :
    {A : Type ℓ} (n : ℕ) (xs ys : List A) → n ≤ length xs → take n (xs ++ ys) ≡ take n xs
take-append zero xs ys h = refl
take-append (suc n) [] ys h = absurd (omega arith)
take-append (suc n) (x ∷ xs) ys h = ap (λ l. x ∷ l) (take-append n xs ys (omega arith))

length-take {ℓ} : {A : Type ℓ} (n : ℕ) (xs : List A) → n ≤ length xs → length (take n xs) ≡ n
length-take zero xs h = refl
length-take (suc n) [] h = absurd (omega arith)
length-take (suc n) (x ∷ xs) h = ap suc (length-take n xs (omega arith))

take_not_empty {ℓ} :
    {A : Type ℓ} (n : ℕ) (xs : List A) (y : A) (ys : List A)
    → is_empty (take (suc n) (xs ++ y ∷ ys)) ≡ false
take_not_empty n [] y ys = refl
take_not_empty n (x ∷ xs) y ys = refl

abbrev buffer_with : List QuietSummaryItem → ℕ → QuietBuffer
buffer_with items d = record { in_quiet = true; items = items; dropped = d }

-- The first `n` of some items, and the number of the others, beside `d` more.
abbrev first_of : ℕ → List QuietSummaryItem → ℕ → QuietBuffer
first_of n items d = buffer_with (take n items) (d + (length items - n))

-- The buffer of quiet hours in which these items came, after `d` that were counted only: the first 500
-- of them, and the number of the others.
abbrev pub buffer_of : List QuietSummaryItem → ℕ → QuietBuffer
buffer_of items d = first_of 500 items d

with_items :
    (xs ys : List QuietSummaryItem) (d e : ℕ)
    → xs ≡ ys
    → d ≡ e
    → buffer_with xs d ≡ buffer_with ys e
with_items xs ys d e h g = cc

first_of_more :
    (n : ℕ) (item : QuietSummaryItem) (items : List QuietSummaryItem) (d : ℕ)
    → n ≤ length items
    → buffer_with (take n items) (suc (d + (length items - n))) ≡ first_of n (items ++ item ∷ []) d
first_of_more n item items d h =
    with_items (take n items) (take n (items ++ item ∷ [])) (suc (d + (length items - n)))
      (d + (length (items ++ item ∷ []) - n)) (sym (take-append n items (item ∷ []) h))
      (omega (arith, length-append items (item ∷ []), h))

first_of_room :
    (n : ℕ) (item : QuietSummaryItem) (items : List QuietSummaryItem) (d : ℕ)
    → length items < n
    → buffer_with (take n items ++ item ∷ []) (d + (length items - n))
      ≡ first_of n (items ++ item ∷ []) d
first_of_room n item items d h =
    with_items (take n items ++ item ∷ []) (take n (items ++ item ∷ [])) (d + (length items - n))
      (d + (length (items ++ item ∷ []) - n))
      (ap (λ l. l ++ item ∷ []) (take_all n items (omega arith))
        ∙ sym (take_all n (items ++ item ∷ []) (omega (arith, length-append items (item ∷ []), h))))
      (omega (arith, length-append items (item ∷ []), h))

leb_full :
    (n : ℕ) (items : List QuietSummaryItem)
    → n ≤ length items
    → leb n (length (take n items)) ≡ true
leb_full n items h = rw (length-take n items h) (ground arith)

leb_room :
    (n : ℕ) (items : List QuietSummaryItem)
    → length items < n
    → leb n (length (take n items)) ≡ false
leb_room n items h = rw (take_all n items (omega arith)) (ground arith)

le_or_lt : (m n : ℕ) → (m ≤ n) ⊎ (n < m)
le_or_lt m n = omega arith

hold_full :
    (item : QuietSummaryItem) (q : QuietBuffer)
    → leb 500 (length q.items) ≡ true
    → hold item q ≡ record q { dropped = suc q.dropped }
unfolding hold
hold_full item q h = rw h refl

hold_room :
    (item : QuietSummaryItem) (q : QuietBuffer)
    → leb 500 (length q.items) ≡ false
    → hold item q ≡ record q { items = q.items ++ item ∷ [] }
unfolding hold
hold_room item q h = rw h refl

hold-buffer_of :
    (item : QuietSummaryItem) (items : List QuietSummaryItem) (d : ℕ)
    → hold item (buffer_of items d) ≡ buffer_of (items ++ item ∷ []) d
hold-buffer_of item items d = elim (le_or_lt 500 (length items)) [
  | inl h ↦
      hold_full item (buffer_of items d) (leb_full 500 items h) ∙ first_of_more 500 item items d h
  | inr h ↦
      hold_room item (buffer_of items d) (leb_room 500 items h) ∙ first_of_room 500 item items d h
]

-- The notifications of a group, one after the other.
unfoldable pub apply_all : ℤ → GroupUxPolicy → List (QuietSummaryItem × Moment) → Manager → Manager
apply_all group p [] m = m
apply_all group p ((item, now) ∷ run) m =
    apply_all group p run (apply_quiet_hours group p item now m).2

abbrev as_quiet : QuietBuffer → QuietBuffer
as_quiet q = record q { in_quiet = true }

buffer_of_short :
    (q : QuietBuffer)
    → length q.items ≤ 500
    → record q { in_quiet = true } ≡ buffer_of q.items q.dropped
buffer_of_short q h =
    with_items q.items (take 500 q.items) q.dropped (q.dropped + (length q.items - 500))
      (sym (take_all 500 q.items h)) (omega (arith, h))

-- Is the moment of each notification quiet?
abbrev pub all_quiet : GroupUxPolicy → List (QuietSummaryItem × Moment) → Bool
all_quiet p = all (λ x. in_quiet_hours p x.1.minute)

module _ (group : ℤ) (p : GroupUxPolicy) (on : p.enabled ≡ true)
    (quiet_on : p.notify.quiet_hours.enabled ≡ true) where
  passes_quiet :
      (item : QuietSummaryItem) (q : QuietBuffer)
      → (pass_buffer group p item true q).2 ≡ hold item (record q { in_quiet = true })
  unfolding pass_buffer
  passes_quiet item q = elim (Bool-cases q.in_quiet) [ inl e ↦ rw e refl | inr e ↦ rw e refl ]

  step :
      (item : QuietSummaryItem) (now : Moment) (items : List QuietSummaryItem) (d : ℕ) (m : Manager)
      → in_quiet_hours p now.minute ≡ true
      → record (buffer group m) { in_quiet = true } ≡ buffer_of items d
      → buffer group (apply_quiet_hours group p item now m).2 ≡ buffer_of (items ++ item ∷ []) d
  step item now items d m quiet h =
      let e =
        apply_quiet_hours_on group p item now m on quiet_on
        ∙ ap (λ b. pass_group group p item b m) quiet in
      ap (λ r. buffer group r.2) e
      ∙ buffer-pass_group group p item true m
      ∙ passes_quiet item (buffer group m)
      ∙ ap (hold item) h
      ∙ hold-buffer_of item items d

  run :
      (xs : List (QuietSummaryItem × Moment)) (items : List QuietSummaryItem) (d : ℕ) (m : Manager)
      → all_quiet p xs ≡ true
      → buffer group m ≡ buffer_of items d
      → buffer group (apply_all group p xs m) ≡ buffer_of (items ++ map (λ x. x.0) xs) d
  unfolding apply_all
  run [] items d m quiet h = h ∙ ap (λ l. buffer_of l d) (sym (append-nil items))
  run ((item, now) ∷ xs) items d m quiet h =
      let m' = (apply_quiet_hours group p item now m).2 in
      run xs (items ++ item ∷ []) d m' (ground arith)
        (step item now items d m (ground arith) (ap as_quiet h))
      ∙ ap (λ l. buffer_of l d) (append_assoc items (item ∷ []) (map (λ x. x.0) xs))

  summary_of_full :
      (q : QuietBuffer)
      → is_empty q.items ≡ false
      → summary_of group p q ≡ (
          if p.notify.quiet_hours.summary_on_exit
          then some (record {
            group_code = group;
            ctype = bytes "digest";
            policy = p;
            items = q.items;
            count = length q.items;
            dropped = q.dropped;
            reason = bytes "quiet-summary";
          })
          else none)
  unfolding summary_of
  summary_of_full q h = rw h refl

  -- While the policy and its quiet hours are on: where notifications of a group come at quiet moments,
  -- one or more, and then one at a moment that is not quiet, the last is delivered. Where the policy
  -- wants a summary, it comes with one that holds the notifications of the quiet hours in their order,
  -- behind those that the group's buffer held before (at most 500), as many as 500 in all, and that
  -- counts the others, behind those that were counted before. The buffer is then empty.
  pub apply_quiet_hours_summary :
      (first : QuietSummaryItem × Moment) (rest : List (QuietSummaryItem × Moment))
      (item : QuietSummaryItem) (now : Moment) (m : Manager)
      → all_quiet p (first ∷ rest) ≡ true
      → in_quiet_hours p now.minute ≡ false
      → length (buffer group m).items ≤ 500
      → let came = (buffer group m).items ++ map (λ x. x.0) (first ∷ rest) in
        let (deliver, summary, m') =
          apply_quiet_hours group p item now (apply_all group p (first ∷ rest) m) in
        (deliver ≡ true)
        × (summary ≡ (
            if p.notify.quiet_hours.summary_on_exit
            then some (record {
              group_code = group;
              ctype = bytes "digest";
              policy = p;
              items = take 500 came;
              count = length (take 500 came);
              dropped = (buffer group m).dropped + (length came - 500);
              reason = bytes "quiet-summary";
            })
            else none))
        × (buffer group m' ≡ empty_buffer)
  unfolding apply_all
  apply_quiet_hours_summary (x, at) rest item now m quiet awake short =
      let q = buffer group m in
      let m₁ = (apply_quiet_hours group p x at m).2 in
      let last = apply_all group p rest m₁ in
      let held : buffer group last ≡ buffer_of (q.items ++ x ∷ map (λ y. y.0) rest) q.dropped =
        run rest (q.items ++ x ∷ []) q.dropped m₁ (ground arith)
          (step x at q.items q.dropped m (ground arith) (buffer_of_short q short))
        ∙ ap (λ l. buffer_of l q.dropped) (append_assoc q.items (x ∷ []) (map (λ y. y.0) rest)) in
      let (delivered, summary, emptied) =
        apply_quiet_hours_leaves group p item now last on quiet_on awake
          (ap (λ b. b.in_quiet) held) in
      (
        delivered,
        summary
            ∙ ap (summary_of group p) held
            ∙ summary_of_full (buffer_of (q.items ++ x ∷ map (λ y. y.0) rest) q.dropped)
                (take_not_empty 499 q.items x (map (λ y. y.0) rest)),
        emptied,
      )
