-- ===== src/ConcernType.antt =====
-- lsp/concern_type/type.go: a subscription type is a text of names joined by '/', such as
-- "live/news", used as a set of names. A Go map used as a set is a list with no repetition; its
-- unspecified order of iteration does not show, since `combine` sorts.
pub mod Sets
pub mod Laws
use ddbot_nexus.Prelude.{
  if◌then◌else◌, all, filter, any, is_empty, elem, Text, lacks, split_at, ◌==ₜ◌, text_leb, join, ℕ,
  Bool, true, false, ◌&&◌, not, List, [], ◌∷◌,
}

abbrev pub ConcernType : Type 0
ConcernType = Text

abbrev pub type_separator : ℕ
type_separator = b'/'

abbrev pub empty_type : ConcernType
empty_type = []

unfoldable pub is_trivial : ConcernType → Bool
is_trivial t = lacks type_separator t

unfoldable pub insert_sorted : Text → List Text → List Text
insert_sorted x [] = x ∷ []
insert_sorted x (y ∷ ys) =
    let rest = insert_sorted x ys in if text_leb x y then x ∷ y ∷ ys else y ∷ rest

-- sort.Strings, and sort.Slice by `<`
unfoldable pub sort : List Text → List Text
unfolding insert_sorted
sort [] = []
sort (x ∷ xs) = insert_sorted x (sort xs)

-- The function `split`.
unfoldable pub split_parts : ConcernType → List ConcernType
split_parts t = sort (split_at type_separator t)

-- The method `Split`.
unfoldable pub split : ConcernType → List ConcernType
split t = if is_empty t then [] else split_parts t

unfoldable pub combine : List ConcernType → ConcernType
combine [] = empty_type
combine (t ∷ ts) = join type_separator (sort (t ∷ ts))

unfoldable pub contain_all : ConcernType → ConcernType → Bool
contain_all t o =
    if is_empty t && is_empty o
    then false
    else if is_empty o
    then true
    else all (λ u. elem u (split t)) (split o)

unfoldable pub contain_any : ConcernType → ConcernType → Bool
contain_any t o =
    if is_empty t && is_empty o
    then false
    else if is_empty o
    then true
    else any (λ u. elem u (split t)) (split o)

-- `typeSet[x] = struct{}{}`
unfoldable pub set_insert : Text → List Text → List Text
set_insert x s = if elem x s then s else x ∷ s

-- `delete(typeSet, x)`
unfoldable pub set_delete : Text → List Text → List Text
set_delete x s = filter (λ y. not (x ==ₜ y)) s

unfoldable pub insert_all : List Text → List Text → List Text
unfolding set_insert
insert_all [] s = s
insert_all (x ∷ xs) s = insert_all xs (set_insert x s)

unfoldable pub delete_all : List Text → List Text → List Text
unfolding set_delete
delete_all [] s = s
delete_all (x ∷ xs) s = delete_all xs (set_delete x s)

unfoldable pub insert_types : List ConcernType → List Text → List Text
insert_types [] s = s
insert_types (o ∷ os) s = insert_types os (insert_all (split o) s)

unfoldable pub delete_types : List ConcernType → List Text → List Text
delete_types [] s = s
delete_types (o ∷ os) s = delete_types os (delete_all (split o) s)

unfoldable pub add : ConcernType → List ConcernType → ConcernType
add t os = combine (insert_types os (insert_all (split t) []))

unfoldable pub remove : ConcernType → List ConcernType → ConcernType
remove t os = combine (delete_types os (insert_all (split t) []))

unfoldable pub intersection : ConcernType → ConcernType → ConcernType
intersection t o = let s = insert_all (split t) [] in combine (filter (λ u. elem u s) (split o))
