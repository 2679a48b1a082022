-- ===== src/Concern/Config/Hooks/Rules.antt =====
-- What the default hooks let through (lsp/concern/config.go, concern_ext.go, hook.go).
use ddbot_nexus.Prelude.{
  Bool-cases, any, is_empty, Text, ◌==ₜ◌, ==ₜ_refl, ==ₜ_eq, has_prefix, has_prefix-append, elem,
  ◌≡◌, refl, sym, ap, ◌∙◌, ◌↔◌, inl, inr, Bool, true, false, ◌&&◌, ◌||◌, not, Option, some, List,
  [], ◌∷◌, ◌++◌, arith,
}
use ddbot_nexus.ConcernType.{ConcernType, contain_all}
use ddbot_nexus.Concern.Config.Hooks.{
  filter_is_empty, get_filter_by_text, Notify, at_before_hook, should_send_hook, filter_hook,
  at_before_live, should_send_live, pass_or_reason, check_title_change_notify, check_offline_notify,
  LiveNotify, HookResult, GroupConcernNotifyConfig, GroupConcernFilterConfig, match_any, contains,
  validates,
}

-- A hook that does not pass gives a reason, and one that passes gives none.
abbrev pub HasReason : HookResult → Type 0
HasReason h = h.pass ≡ is_empty h.reason

at_before_live-HasReason : (e : LiveNotify) → HasReason (at_before_live e)
at_before_live-HasReason e = ground arith

should_send_live-HasReason :
    (g : GroupConcernNotifyConfig) (t : ConcernType) (e : LiveNotify)
    → HasReason (should_send_live g t e)
unfolding pass_or_reason
should_send_live-HasReason g t e = ground arith

at_before_hook-HasReason : (n : Notify) → HasReason (at_before_hook n)
unfolding at_before_hook
at_before_hook-HasReason n = ground arith

should_send_hook-HasReason :
    (g : GroupConcernNotifyConfig) (n : Notify) → HasReason (should_send_hook g n)
unfolding should_send_hook pass_or_reason
should_send_hook-HasReason g n = ground arith

match_any-HasReason : (message : Text) (texts : List Text) → HasReason (match_any message texts)
match_any-HasReason message texts = ground arith

filter_hook-HasReason :
    (unmarshal : Text → Option (List Text)) (f : GroupConcernFilterConfig) (n : Notify)
    → HasReason (filter_hook unmarshal f n)
unfolding filter_hook
filter_hook-HasReason unmarshal f n = ground arith

-- Each of the three hooks gives a reason exactly when it does not pass.
pub hooks-HasReason :
    (unmarshal : Text → Option (List Text)) (g : GroupConcernNotifyConfig)
    (f : GroupConcernFilterConfig) (n : Notify)
    → HasReason (at_before_hook n)
      × HasReason (should_send_hook g n)
      × HasReason (filter_hook unmarshal f n)
hooks-HasReason unmarshal g f n = (
  at_before_hook-HasReason n,
  should_send_hook-HasReason g n,
  filter_hook-HasReason unmarshal f n,
)

-- A notification that may mention someone is also sent.
pub at_before_hook-should_send_hook :
    (g : GroupConcernNotifyConfig) (n : Notify)
    → (at_before_hook n).pass ≡ true
    → (should_send_hook g n).pass ≡ true
unfolding at_before_hook should_send_hook
at_before_hook-should_send_hook g n h = ground arith

-- The rules of the comment on NotifyLiveExt, with the title configuration for a changed title.
abbrev pub is_pushed : GroupConcernNotifyConfig → ConcernType → LiveNotify → Bool
is_pushed g t e =
    (e.living && e.live_status_changed)
    || ((not e.living && (e.live_status_changed && contain_all g.offline_notify t))
        || (e.living
            && (not e.live_status_changed
                && (e.title_changed && contain_all g.title_change_notify t))))

-- A notification with the live extension, while it is live, is sent exactly by the rules: the
-- broadcast starts, or it ends and the group asks for that, or its title changes while it goes on
-- and the group asks for that.
pub should_send_hook_live :
    (g : GroupConcernNotifyConfig) (n : Notify) (e : LiveNotify)
    → n.live ≡ some e
    → e.is_live ≡ true
    → (should_send_hook g n).pass ≡ is_pushed g n.ctype e
unfolding should_send_hook pass_or_reason check_title_change_notify check_offline_notify
should_send_hook_live g n e he hl = ground arith

-- A text occurs in a message.
pub record Occurs (t s : Text) : Type 0 where
  pub before : Text
  pub after : Text
  pub split : s ≡ before ++ (t ++ after)

has_prefix_split : (s t : Text) → has_prefix s t ≡ true → (r : Text) × (s ≡ t ++ r)
unfolding has_prefix
has_prefix_split s [] h = (s, refl)
has_prefix_split [] (c ∷ t) h = cc
has_prefix_split (d ∷ s) (c ∷ t) h =
    let (r, e) = has_prefix_split s t (ground arith) in (r, ground (arith, e))

contains-append : (p t r : Text) → contains (p ++ (t ++ r)) t ≡ true
unfolding contains has_prefix
contains-append [] [] [] = refl
contains-append [] [] (c ∷ r) = refl
contains-append [] (c ∷ t) r = rw (has_prefix-append (c ∷ t) r)
contains-append (d ∷ p) t r = ground (arith, contains-append p t r)

contains_split : (s t : Text) → contains s t ≡ true → Occurs t s
unfolding contains
contains_split [] [] h = record { before = []; after = []; split = refl }
contains_split [] (c ∷ t) h = cc
contains_split (d ∷ s) t h = elim (Bool-cases (has_prefix (d ∷ s) t)) [
  | inl e ↦
      let (r, q) = has_prefix_split (d ∷ s) t e in record { before = []; after = r; split = q }
  | inr e ↦
      let o = contains_split s t (ground arith) in
      record { before = d ∷ o.before; after = o.after; split = ap (λ l. d ∷ l) o.split }
]

-- One text contains another exactly when it is split around it.
contains_iff : (s t : Text) → (contains s t ≡ true) ↔ Occurs t s
contains_iff s t =
    (contains_split s t, λ o. ap (λ l. contains l t) o.split ∙ contains-append o.before t o.after)

-- One of the texts occurs in the message.
abbrev pub SomeOccurs : List Text → Text → Type 0
SomeOccurs texts message = (t : Text) × (elem t texts ≡ true) × Occurs t message

some_occurs : (texts : List Text) (m : Text) → any (contains m) texts ≡ true → SomeOccurs texts m
unfolding elem
some_occurs [] m h = cc
some_occurs (t ∷ ts) m h = elim (Bool-cases (contains m t)) [
  | inl e ↦ (t, ground (arith, ==ₜ_refl t), (contains_iff m t).0 e)
  | inr e ↦ let (u, inside, o) = some_occurs ts m (ground arith) in (u, ground arith, o)
]

matched_by_one :
    (texts : List Text) (m t : Text)
    → elem t texts ≡ true
    → Occurs t m
    → any (contains m) texts ≡ true
unfolding elem
matched_by_one [] m t h o = cc
matched_by_one (u ∷ ts) m t h o = elim (Bool-cases (t ==ₜ u)) [
  | inl e ↦ ground (arith, ==ₜ_eq t u e, (contains_iff m t).1 o)
  | inr e ↦ ground (arith, matched_by_one ts m t (ground arith) o)
]

match_any_pass : (m : Text) (texts : List Text) → (match_any m texts).pass ≡ any (contains m) texts
match_any_pass m texts = ground arith

filter_hook_text :
    (unmarshal : Text → Option (List Text)) (f : GroupConcernFilterConfig) (n : Notify)
    (texts : List Text)
    → filter_is_empty f ≡ false
    → validates f ≡ true
    → unmarshal f.config ≡ some texts
    → (filter_hook unmarshal f n).pass ≡ any (contains n.message) texts
unfolding filter_hook validates get_filter_by_text
filter_hook_text unmarshal f n texts he hv hu = ground (arith, match_any_pass n.message texts)

-- A filter that is not empty, is valid, and can be read, lets a notification pass exactly when one
-- of its texts occurs in the message.
pub filter_hook_iff :
    (unmarshal : Text → Option (List Text)) (f : GroupConcernFilterConfig) (n : Notify)
    (texts : List Text)
    → filter_is_empty f ≡ false
    → validates f ≡ true
    → unmarshal f.config ≡ some texts
    → ((filter_hook unmarshal f n).pass ≡ true) ↔ SomeOccurs texts n.message
filter_hook_iff unmarshal f n texts he hv hu =
    let same = filter_hook_text unmarshal f n texts he hv hu in
    (
      λ h. some_occurs texts n.message (sym same ∙ h),
      λ o. same ∙ matched_by_one texts n.message o.0 o.1 o.2,
    )
