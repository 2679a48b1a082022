-- ===== src/Concern/Config/Mentions.antt =====
-- What each change of the mentions does to the list that is read (lsp/concern/config_at.go).
use ddbot_nexus.Prelude.{
  if◌then◌else◌, ==_iff, Bool-cases, any, filter, ℤ, pos, negsuc, ◌≡◌, refl, ap, ◌∙◌, inl, inr,
  Bool, true, false, ◌&&◌, ◌||◌, not, List, [], ◌∷◌, ◌++◌, arith,
}
use ddbot_nexus.ConcernType.{ConcernType, contain_all}
use ddbot_nexus.Concern.Config.{
  first_list, change_lists, change_or_append, AtSomeone, elem_id, put_ids, drop_ids,
  GroupConcernAtConfig, get_at_someone_list, set_at_someone_list, merge_at_someone_list,
  remove_at_someone_list, clear_at_someone_list,
}
use ddbot_nexus.Concern.KeySet.{int_eq, int_eq_sym}

abbrev pub has_type : ConcernType → List AtSomeone → Bool
has_type t ats = any (λ a. contain_all a.ctype t) ats

first_list-change_lists :
    (f : List ℤ → List ℤ) (t : ConcernType) (ats : List AtSomeone)
    → first_list t (change_lists f t ats) ≡ (if has_type t ats then f (first_list t ats) else [])
unfolding first_list change_lists
first_list-change_lists f t [] = refl
first_list-change_lists f t (a ∷ ats) = ground (arith, first_list-change_lists f t ats)

first_list_absent :
    (t : ConcernType) (ats : List AtSomeone) → has_type t ats ≡ false → first_list t ats ≡ []
unfolding first_list
first_list_absent t [] h = refl
first_list_absent t (a ∷ ats) h = ground (arith, first_list_absent t ats)

first_list-append :
    (t : ConcernType) (ats : List AtSomeone) (a : AtSomeone)
    → has_type t ats ≡ false
    → contain_all a.ctype t ≡ true
    → first_list t (ats ++ (a ∷ [])) ≡ a.at_list
unfolding first_list
first_list-append t [] a h c = rw c
first_list-append t (x ∷ ats) a h c = ground (arith, first_list-append t ats a)

first_list-filter :
    (t : ConcernType) (ats : List AtSomeone)
    → first_list t (filter (λ a. not (contain_all a.ctype t)) ats) ≡ []
unfolding first_list
first_list-filter t [] = refl
first_list-filter t (a ∷ ats) = ground (arith, first_list-filter t ats)

first_list-change_or_append :
    (f : List ℤ → List ℤ) (t : ConcernType) (ids : List ℤ) (ats : List AtSomeone)
    → contain_all t t ≡ true
    → first_list t (change_or_append f t ids ats)
      ≡ (if has_type t ats then f (first_list t ats) else ids)
unfolding change_or_append
first_list-change_or_append f t ids ats refl_t = elim (Bool-cases (has_type t ats)) [
  | inl h ↦ ground (arith, first_list-change_lists f t ats)
  | inr h ↦ ground (arith, first_list-append t ats (record { ctype = t; at_list = ids }) h refl_t)
]

int_eq_eq : (x y : ℤ) → int_eq x y ≡ true → x ≡ y
unfolding int_eq
int_eq_eq (pos m) (pos n) h = ap pos ((==_iff m n).0 h)
int_eq_eq (negsuc m) (negsuc n) h = ap negsuc ((==_iff m n).0 h)
int_eq_eq (pos m) (negsuc n) h = cc
int_eq_eq (negsuc m) (pos n) h = cc

-- Equal integers are equal to the same ones.
int_eq_same : (x y z : ℤ) → int_eq x y ≡ true → int_eq x z ≡ int_eq y z
int_eq_same x y z h = ap (λ w. int_eq w z) (int_eq_eq x y h)

elem_id_same : (x y : ℤ) (s : List ℤ) → int_eq x y ≡ true → elem_id x s ≡ elem_id y s
elem_id_same x y s h = ap (λ w. elem_id w s) (int_eq_eq x y h)

elem_id-put_ids : (x : ℤ) (xs s : List ℤ) → elem_id x (put_ids xs s) ≡ (elem_id x xs || elem_id x s)
unfolding put_ids elem_id
elem_id-put_ids x [] s = refl
elem_id-put_ids x (y ∷ xs) s = elim (Bool-cases (elem_id y s)) [
  | inl h ↦ ground (arith, elem_id-put_ids x xs s, elem_id_same x y s)
  | inr h ↦ ground (arith, elem_id-put_ids x xs (y ∷ s))
]

elem_id-filter :
    (x y : ℤ) (s : List ℤ)
    → elem_id x (filter (λ z. not (int_eq y z)) s) ≡ (elem_id x s && not (int_eq x y))
unfolding elem_id
elem_id-filter x y [] = refl
elem_id-filter x y (z ∷ s) = ground (
  arith,
  elem_id-filter x y s,
  int_eq_same x y z,
  int_eq_same z y x,
  int_eq_sym y z,
  int_eq_sym z x,
  int_eq_sym x y,
)

elem_id-drop_ids :
    (x : ℤ) (xs s : List ℤ) → elem_id x (drop_ids xs s) ≡ (elem_id x s && not (elem_id x xs))
unfolding drop_ids elem_id
elem_id-drop_ids x [] s = ground arith
elem_id-drop_ids x (y ∷ xs) s =
    ground (arith, elem_id-drop_ids x xs (filter (λ z. not (int_eq y z)) s), elem_id-filter x y s)

elem_id_empty : (x : ℤ) → elem_id x [] ≡ false
unfolding elem_id
elem_id_empty x = refl

merged_or_new :
    (range_map : List ℤ → List ℤ) (t : ConcernType) (ids : List ℤ) (ats : List AtSomeone) (x : ℤ)
    → ((s : List ℤ) → elem_id x (range_map s) ≡ elem_id x s)
    → elem_id x
        (if has_type t ats then range_map (put_ids ids (put_ids (first_list t ats) [])) else ids)
      ≡ (elem_id x (first_list t ats) || elem_id x ids)
merged_or_new range_map t ids ats x keeps =
    let old = first_list t ats in
    elim (Bool-cases (has_type t ats)) [
      | inl h ↦ ground (
        arith,
        keeps (put_ids ids (put_ids old [])),
        elem_id-put_ids x ids (put_ids old []),
        elem_id-put_ids x old [],
        elem_id_empty x,
      )
      | inr h ↦ ground (arith, first_list_absent t ats h, elem_id_empty x)
    ]

left_or_none :
    (range_map : List ℤ → List ℤ) (t : ConcernType) (ids : List ℤ) (ats : List AtSomeone) (x : ℤ)
    → ((s : List ℤ) → elem_id x (range_map s) ≡ elem_id x s)
    → elem_id x
        (if has_type t ats then range_map (drop_ids ids (put_ids (first_list t ats) [])) else [])
      ≡ (elem_id x (first_list t ats) && not (elem_id x ids))
left_or_none range_map t ids ats x keeps =
    let old = first_list t ats in
    elim (Bool-cases (has_type t ats)) [
      | inl h ↦ ground (
        arith,
        keeps (drop_ids ids (put_ids old [])),
        elem_id-drop_ids x ids (put_ids old []),
        elem_id-put_ids x old [],
        elem_id_empty x,
      )
      | inr h ↦ ground (arith, first_list_absent t ats h, elem_id_empty x)
    ]

-- For a type that contains itself, setting its list makes that the list that is read for it.
pub get-set_at_someone_list :
    (t : ConcernType) (ids : List ℤ) (g : GroupConcernAtConfig)
    → contain_all t t ≡ true
    → get_at_someone_list (set_at_someone_list t ids g) t ≡ ids
unfolding get_at_someone_list set_at_someone_list
get-set_at_someone_list t ids g refl_t =
    ground (arith, first_list-change_or_append (λ _. ids) t ids g.at_someone refl_t)

-- For a type that contains itself, and an order of visiting maps that keeps their keys, the list
-- that is read after a merge holds exactly what it held before and what is merged.
pub elem_id-merge_at_someone_list :
    (range_map : List ℤ → List ℤ) (t : ConcernType) (ids : List ℤ) (g : GroupConcernAtConfig)
    (x : ℤ)
    → ((s : List ℤ) → elem_id x (range_map s) ≡ elem_id x s)
    → contain_all t t ≡ true
    → elem_id x (get_at_someone_list (merge_at_someone_list range_map t ids g) t)
      ≡ (elem_id x (get_at_someone_list g t) || elem_id x ids)
unfolding get_at_someone_list merge_at_someone_list
elem_id-merge_at_someone_list range_map t ids g x keeps refl_t =
    ap (elem_id x) (
      first_list-change_or_append (λ l. range_map (put_ids ids (put_ids l []))) t ids g.at_someone
        refl_t)
    ∙ merged_or_new range_map t ids g.at_someone x keeps

-- For an order of visiting maps that keeps their keys, the list that is read after a removal holds
-- exactly what it held before and is not removed.
pub elem_id-remove_at_someone_list :
    (range_map : List ℤ → List ℤ) (t : ConcernType) (ids : List ℤ) (g : GroupConcernAtConfig)
    (x : ℤ)
    → ((s : List ℤ) → elem_id x (range_map s) ≡ elem_id x s)
    → elem_id x (get_at_someone_list (remove_at_someone_list range_map t ids g) t)
      ≡ (elem_id x (get_at_someone_list g t) && not (elem_id x ids))
unfolding get_at_someone_list remove_at_someone_list
elem_id-remove_at_someone_list range_map t ids g x keeps =
    ap (elem_id x)
      (first_list-change_lists (λ l. range_map (drop_ids ids (put_ids l []))) t g.at_someone)
    ∙ left_or_none range_map t ids g.at_someone x keeps

-- After the entries of a type are cleared, no list is read for it.
pub get-clear_at_someone_list :
    (t : ConcernType) (g : GroupConcernAtConfig)
    → get_at_someone_list (clear_at_someone_list t g) t ≡ []
unfolding get_at_someone_list clear_at_someone_list
get-clear_at_someone_list t g = first_list-filter t g.at_someone
