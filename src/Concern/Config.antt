-- ===== src/Concern/Config.antt =====
-- lsp/concern/config_at.go: whom a group mentions when it is notified. Receivers are not nil, as
-- GetGroupConcernAt returns them. A map used as a set is a list with no repetition, and `range_map`
-- is the order in which `range` visits its keys.
pub mod Mentions
pub mod Hooks
pub mod Operate
use ddbot_nexus.Prelude.{if◌then◌else◌, any, filter, ℤ, Bool, not, List, [], ◌∷◌, ◌++◌}
use ddbot_nexus.Concern.KeySet.{int_eq}
use ddbot_nexus.ConcernType.{ConcernType, contain_all}

pub record AtSomeone : Type 0 where
  pub ctype : ConcernType
  pub at_list : List ℤ

pub record GroupConcernAtConfig : Type 0 where
  pub at_all : ConcernType
  pub at_someone : List AtSomeone

unfoldable pub check_at_all : GroupConcernAtConfig → ConcernType → Bool
check_at_all g t = contain_all g.at_all t

unfoldable pub first_list : ConcernType → List AtSomeone → List ℤ
first_list t [] = []
first_list t (a ∷ ats) = if contain_all a.ctype t then a.at_list else first_list t ats

unfoldable pub get_at_someone_list : GroupConcernAtConfig → ConcernType → List ℤ
get_at_someone_list g t = first_list t g.at_someone

-- The loop that changes the list of each entry whose type contains t.
unfoldable pub change_lists : (List ℤ → List ℤ) → ConcernType → List AtSomeone → List AtSomeone
change_lists f t [] = []
change_lists f t (a ∷ ats) =
    (if contain_all a.ctype t then record a { at_list = f a.at_list } else a) ∷ change_lists f t ats

unfoldable pub change_or_append :
    (List ℤ → List ℤ) → ConcernType → List ℤ → List AtSomeone → List AtSomeone
change_or_append f t ids ats =
    let found = any (λ a. contain_all a.ctype t) ats in
    if found then change_lists f t ats else ats ++ (record { ctype = t; at_list = ids } ∷ [])

unfoldable pub set_at_someone_list :
    ConcernType → List ℤ → GroupConcernAtConfig → GroupConcernAtConfig
set_at_someone_list t ids g = record g {
  at_someone = change_or_append (λ _. ids) t ids g.at_someone;
}

unfoldable pub elem_id : ℤ → List ℤ → Bool
elem_id x ids = any (int_eq x) ids

-- `qqSet[id] = true` for each id
unfoldable pub put_ids : List ℤ → List ℤ → List ℤ
put_ids [] s = s
put_ids (x ∷ xs) s = put_ids xs (if elem_id x s then s else x ∷ s)

-- `delete(qqSet, id)` for each id
unfoldable pub drop_ids : List ℤ → List ℤ → List ℤ
drop_ids [] s = s
drop_ids (x ∷ xs) s = drop_ids xs (filter (λ y. not (int_eq x y)) s)

unfoldable pub merge_at_someone_list :
    (List ℤ → List ℤ) → ConcernType → List ℤ → GroupConcernAtConfig → GroupConcernAtConfig
merge_at_someone_list range_map t ids g = record g {
  at_someone =
      change_or_append (λ old. range_map (put_ids ids (put_ids old []))) t ids g.at_someone;
}

unfoldable pub remove_at_someone_list :
    (List ℤ → List ℤ) → ConcernType → List ℤ → GroupConcernAtConfig → GroupConcernAtConfig
remove_at_someone_list range_map t ids g = record g {
  at_someone = change_lists (λ old. range_map (drop_ids ids (put_ids old []))) t g.at_someone;
}

unfoldable pub clear_at_someone_list : ConcernType → GroupConcernAtConfig → GroupConcernAtConfig
clear_at_someone_list t g = record g {
  at_someone = filter (λ a. not (contain_all a.ctype t)) g.at_someone;
}
