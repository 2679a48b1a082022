-- ===== src/Concern/Dispatch/Reaches.antt =====
-- Whom DefaultDispatch (lsp/concern/stateManager.go) reaches.
use ddbot_nexus.Prelude.{
  leb, if◌then◌else◌, Bool-cases, Option-cases, length, any, all, is_empty, All, Text, ℤ, ℕ, ◌≡◌,
  refl, sym, ap, ◌∙◌, inl, inr, Bool, true, false, ◌&&◌, ◌||◌, not, Option, none, some, List, [],
  ◌∷◌, ◌++◌, arith,
}
use ddbot_nexus.ConcernType.{contain_all, ConcernType}
use ddbot_nexus.Concern.KeySet.{
  id_eq, PrefixKeySet, parse_group_concern_state_key, ConcernId, group_concern_state_key, int_eq,
}
use ddbot_nexus.Concern.Dispatch.{
  Event, Delivery, no_delivery, at_once, spaced, Site, filter_notify, keep_notifies, notifies_of,
  deliver, delivery_of, concerned, default_dispatch,
}
use ddbot_nexus.Notify.{ConcernNotify}
use ddbot_nexus.Buntdb.Interface.{Reply, BuntDb, ok, err, is_ok, Reply-cases}
use ddbot_nexus.Buntdb.ShortCut.{r_cover_tx, inside}
use ddbot_nexus.Concern.StateManager.{Subscription, keep_states, list_concern_state, Manager}
use ddbot_nexus.Concern.Registry.{Center}

-- The notifications of a delivery, in their order.
abbrev pub delivered : {C P : Type 0} → Delivery C P → List (ConcernNotify C P)
delivered no_delivery = []
delivered (at_once ns) = ns
delivered (spaced ns) = ns

abbrev pub is_state_key : PrefixKeySet → Text → Bool
is_state_key k key = elim (parse_group_concern_state_key k key) [ none ↦ false | some x ↦ true ]

module _ {C P : Type 0} (w : Site C P) (center : Center) (p : ConcernNotify C P → Bool) where
  -- Does a notification that the hooks let pass meet the test?
  abbrev pub passes : Option (ConcernNotify C P) → Bool
  passes none = false
  passes (some n) = filter_notify w center (some n) && p n

  -- Does an entry give its group a notification of the event that passes?
  abbrev pub entry_gives : Event → Option (ℤ × ConcernId) → ConcernType → Bool
  entry_gives e none value = false
  entry_gives e (some (g, i)) value =
      not (is_empty value)
      && (id_eq e.uid i && contain_all value e.ctype)
      && any passes (w.generate g e)

  abbrev pub entries_give : PrefixKeySet → Event → List (Text × Text) → Bool
  entries_give k e [] = false
  entries_give k e ((key, value) ∷ entries) =
      entry_gives e (parse_group_concern_state_key k key) value || entries_give k e entries

  any-append : (xs ys : List (ConcernNotify C P)) → any p (xs ++ ys) ≡ (any p xs || any p ys)
  any-append [] ys = refl
  any-append (x ∷ xs) ys = ground (arith, any-append xs ys)

  any-keep_notifies :
      (ns : List (Option (ConcernNotify C P))) → any p (keep_notifies w center ns) ≡ any passes ns
  unfolding keep_notifies
  any-keep_notifies [] = refl
  any-keep_notifies (none ∷ ns) = any-keep_notifies ns
  any-keep_notifies (some n ∷ ns) = elim (Bool-cases (filter_notify w center (some n))) [
    | inl h ↦ rw h (ap (λ x. p n || x) (any-keep_notifies ns))
    | inr h ↦ rw h (any-keep_notifies ns)
  ]

  delivered-deliver :
      (limit : ℕ) (ns : List (ConcernNotify C P)) → delivered (deliver w center limit ns) ≡ ns
  delivered-deliver limit [] = unfold deliver in refl
  delivered-deliver limit (n ∷ ns) = elim (Bool-cases (leb limit (length (n ∷ ns)))) [
    | inl h ↦ unfold deliver in rw h refl
    | inr h ↦ unfold deliver in rw h refl
  ]

  abbrev notifies_from : Event → Reply (List Subscription) → List (ConcernNotify C P)
  notifies_from e (err x) = []
  notifies_from e (ok subs) = notifies_of w center e subs

  delivered-delivery_of :
      (limit : ℕ) (e : Event) (r : Reply (List Subscription))
      → delivered (delivery_of w center limit e r) ≡ notifies_from e r
  delivered-delivery_of limit e (err x) = refl
  delivered-delivery_of limit e (ok subs) = delivered-deliver limit (notifies_of w center e subs)

  any-notifies_of :
      (e : Event) (sub : Subscription) (subs : List Subscription)
      → any p (notifies_of w center e (sub ∷ subs))
        ≡ (any passes (w.generate sub.group e) || any p (notifies_of w center e subs))
  any-notifies_of e sub subs =
      unfold notifies_of in
      (any-append (keep_notifies w center (w.generate sub.group e)) (notifies_of w center e subs)
        ∙ ap (λ x. x || any p (notifies_of w center e subs))
            (any-keep_notifies (w.generate sub.group e)))

  -- The list goes on with a subscription just when its value is not empty and it is concerned.
  any-kept :
      (e : Event) (sub : Subscription) (subs : List Subscription)
      → any p (
          notifies_from e (
            if is_empty sub.types || not (concerned e sub.group sub.id sub.types)
            then ok subs
            else ok (sub ∷ subs)))
        ≡ (entry_gives e (some (sub.group, sub.id)) sub.types
            || any p (notifies_of w center e subs))
  any-kept e sub subs =
      elim (Bool-cases (is_empty sub.types || not (concerned e sub.group sub.id sub.types))) [
        | inl h ↦ rw h (ground arith)
        | inr h ↦ rw h (any-notifies_of e sub subs ∙ ground arith)
      ]

  and_found : (a b c d : Bool) → true ≡ a → d ≡ (a && c) → (b || d) ≡ (a && (b || c))
  and_found a b c d h g = ground arith

  is_ok-keep_states :
      (k : PrefixKeySet) (e : Event) (entries : List (Text × Text))
      → is_ok (keep_states k (concerned e) entries) ≡ all (λ x. is_state_key k x.0) entries
  unfolding keep_states
  is_ok-keep_states k e [] = refl
  is_ok-keep_states k e ((key, value) ∷ entries) =
      let rest = is_ok-keep_states k e entries in
      elim (Option-cases (parse_group_concern_state_key k key)) [
        | inl h ↦ rw (h, keep_states, is_ok, is_state_key) refl
        | inr (x, h) ↦ elim (Reply-cases (keep_states k (concerned e) entries)) [
          | inr (er, q) ↦ rw (h, q, keep_states, is_ok, is_state_key) (sym (ap is_ok q) ∙ rest)
          | inl (subs, q) ↦ elim (Bool-cases (is_empty value || not (concerned e x.0 x.1 value))) [
            | inl y ↦ rw (h, q, y, keep_states, is_ok, is_state_key) (sym (ap is_ok q) ∙ rest)
            | inr y ↦ rw (h, q, y, keep_states, is_ok, is_state_key) (sym (ap is_ok q) ∙ rest)
          ]
        ]
      ]

  any-keep_states :
      (k : PrefixKeySet) (e : Event) (entries : List (Text × Text))
      → any p (notifies_from e (keep_states k (concerned e) entries))
        ≡ (all (λ x. is_state_key k x.0) entries && entries_give k e entries)
  unfolding keep_states
  any-keep_states k e [] = unfold notifies_of in refl
  any-keep_states k e ((key, value) ∷ entries) =
      let keys_ok = is_ok-keep_states k e entries in
      let rest = any-keep_states k e entries in
      elim (Option-cases (parse_group_concern_state_key k key)) [
        | inl h ↦ rw (h, keep_states, is_state_key) refl
        | inr (x, h) ↦ elim (Reply-cases (keep_states k (concerned e) entries)) [
          | inr (er, q) ↦
              rw (h, q, keep_states, is_state_key)
                (ap (λ o. o && (entry_gives e (some x) value || entries_give k e entries))
                  (sym (ap is_ok q) ∙ keys_ok))
          | inl (subs, q) ↦
              let found : true ≡ all (λ x. is_state_key k x.0) entries =
                sym (ap is_ok q) ∙ keys_ok in
              let same : any p (notifies_of w center e subs)
                  ≡ (all (λ x. is_state_key k x.0) entries && entries_give k e entries) =
                sym (ap (λ r. any p (notifies_from e r)) q) ∙ rest in
              rw (h, q, keep_states, is_state_key)
                (any-kept e (record { group = x.0; id = x.1; types = value }) subs
                  ∙ and_found (all (λ x. is_state_key k x.0) entries) _ _ _ found same)
        ]
      ]

both : (f t a h : Bool) → t ≡ h → (a && not h) ≡ false → (f && t || a) && not h ≡ false
both f t a h e g = ground arith

both_parts : (v h a : Bool) → (a && not h) ≡ false → (v && a) && not (h && v) ≡ false
both_parts v h a e = ground arith

either_part :
    (a b c d : Bool)
    → (a && not b) ≡ false
    → (c && not d) ≡ false
    → (a || c) && not (b || d) ≡ false
either_part a b c d e g = ground arith

less : (a b c : Bool) → (b && not c) ≡ false → (a && b) && not c ≡ false
less a b c e = ground arith

-- A notification, if there is one, is for the group.
abbrev pub ForGroup : {C P : Type 0} → ℤ → Option (ConcernNotify C P) → Type 0
ForGroup g none = Unit
ForGroup g (some n) = n.group_code ≡ g

-- The generator makes for a group notifications of that group only.
abbrev pub KeepsGroup : {C P : Type 0} → Site C P → Type 0
KeepsGroup w = (g : ℤ) (e : Event) → All (ForGroup g) (w.generate g e)

abbrev pub to_group : {C P : Type 0} → ℤ → ConcernNotify C P → Bool
to_group g n = int_eq n.group_code g

-- Does an entry subscribe the group to the event's id, with at least its types?
abbrev pub entry_subscribes : Event → ℤ → Option (ℤ × ConcernId) → ConcernType → Bool
entry_subscribes e g none value = false
entry_subscribes e g (some (h, i)) value =
    int_eq h g && (not (is_empty value) && (id_eq e.uid i && contain_all value e.ctype))

abbrev pub subscribes : PrefixKeySet → Event → ℤ → List (Text × Text) → Bool
subscribes k e g [] = false
subscribes k e g ((key, value) ∷ entries) =
    entry_subscribes e g (parse_group_concern_state_key k key) value || subscribes k e g entries

module _ {C P : Type 0} (w : Site C P) (center : Center) (g : ℤ) where
  no_others :
      (h : ℤ) (ns : List (Option (ConcernNotify C P)))
      → All (ForGroup h) ns
      → (any (passes w center (to_group g)) ns && not (int_eq h g)) ≡ false
  no_others h [] own = refl
  no_others h (none ∷ ns) own = no_others h ns own.1
  no_others h (some n ∷ ns) own =
      both (filter_notify w center (some n)) (to_group g n) (any (passes w center (to_group g)) ns)
        (int_eq h g) (ap (λ x. int_eq x g) own.0) (no_others h ns own.1)

  entry_gives-subscribes :
      (e : Event) (o : Option (ℤ × ConcernId)) (value : ConcernType)
      → KeepsGroup w
      → (entry_gives w center (to_group g) e o value && not (entry_subscribes e g o value)) ≡ false
  entry_gives-subscribes e none value own = refl
  entry_gives-subscribes e (some (h, i)) value own =
      both_parts (not (is_empty value) && (id_eq e.uid i && contain_all value e.ctype)) (int_eq h g)
        (any (passes w center (to_group g)) (w.generate h e))
        (no_others h (w.generate h e) (own h e))

  entries_give-subscribes :
      (k : PrefixKeySet) (e : Event) (entries : List (Text × Text))
      → KeepsGroup w
      → (entries_give w center (to_group g) k e entries && not (subscribes k e g entries)) ≡ false
  entries_give-subscribes k e [] own = refl
  entries_give-subscribes k e ((key, value) ∷ entries) own =
      either_part (entry_gives w center (to_group g) e (parse_group_concern_state_key k key) value)
        (entry_subscribes e g (parse_group_concern_state_key k key) value)
        (entries_give w center (to_group g) k e entries) (subscribes k e g entries)
        (entry_gives-subscribes e (parse_group_concern_state_key k key) value own)
        (entries_give-subscribes k e entries own)

module _ ⦃b : BuntDb⦄ (t : b.Tx) (c : Manager) (entries : List (Text × Text))
    (listed : b.ascend t (group_concern_state_key c.keys []) ≡ ok entries) where
  -- In a transaction, where the generator makes for a group notifications of that group only: among
  -- the notifications that DefaultDispatch hands over for an event is one that meets a test, just when
  -- every key of the index of subscriptions can be read and the generator gives one that the hooks let
  -- pass and that meets the test, for a group with an entry that subscribes it to the id of the event
  -- with at least its types. None is for a group with no such entry, and one key that cannot be read
  -- keeps the event from all groups. The database stays as it was.
  pub default_dispatch-entries_give :
      {C P : Type 0} (w : Site C P) (center : Center) (limit : ℕ) (e : Event)
      (p : ConcernNotify C P → Bool)
      → KeepsGroup w
      → (any p (delivered (default_dispatch w center c limit e (inside t)).0) ≡ (
          all (λ x. is_state_key c.keys x.0) entries && entries_give w center p c.keys e entries))
        × ((g : ℤ)
            → (any (to_group g) (delivered (default_dispatch w center c limit e (inside t)).0)
                && not (subscribes c.keys e g entries))
              ≡ false)
        × ((default_dispatch w center c limit e (inside t)).1 ≡ inside t)
  unfolding default_dispatch list_concern_state r_cover_tx
  default_dispatch-entries_give {C} {P} w center limit e p own =
      let found : (q : ConcernNotify C P → Bool)
          → any q (delivered (default_dispatch w center c limit e (inside t)).0) ≡ (
              all (λ x. is_state_key c.keys x.0) entries
              && entries_give w center q c.keys e entries) =
        λ q. rw listed (
          ap (any q)
            (delivered-delivery_of w center q limit e (keep_states c.keys (concerned e) entries))
          ∙ any-keep_states w center q c.keys e entries) in
      (
        found p,
        λ g.
            ap (λ x. x && not (subscribes c.keys e g entries)) (found (to_group g))
            ∙ less (all (λ x. is_state_key c.keys x.0) entries)
                (entries_give w center (to_group g) c.keys e entries)
                (subscribes c.keys e g entries)
                (entries_give-subscribes w center g c.keys e entries own),
        refl,
      )
