-- ===== src/Tests/Types.antt =====
-- The sets of types (lsp/concern_type/type.go) at "live/news".
use ddbot_nexus.Prelude.{
  is_empty, bytes, text_leb, split_at, elem, ◌≡◌, refl, ◌↔◌, ◌⊎◌, inr, true, false, ◌&&◌, ◌||◌, not,
  [], ◌∷◌,
}
use ddbot_nexus.ConcernType.{
  ConcernType, add, remove, intersection, contain_all, contain_any, split, sort, split_parts,
}
use ddbot_nexus.ConcernType.Laws.{
  elem-add, elem-remove, elem-intersection, contain_all_iff, contain_all-add, contain_any-remove,
  add-is_well_formed, remove-is_well_formed, is_well_formed, Included,
}
use ddbot_nexus.ConcernType.Sets.{elem_of_any}

abbrev live_news : ConcernType
live_news = bytes "live/news"

abbrev video : ConcernType
video = bytes "video"

well_formed : is_well_formed live_news ≡ true
unfolding split_parts split_at sort split ddbot_nexus.Prelude.text_leb
well_formed = refl

video_well_formed : is_well_formed video ≡ true
unfolding split_parts split_at sort split
video_well_formed = refl

add-is_well_formed_test : is_well_formed (add live_news (video ∷ [])) ≡ true
unfolding split_parts split_at sort split
add-is_well_formed_test = add-is_well_formed live_news (video ∷ []) well_formed refl

remove-is_well_formed_test : is_well_formed (remove live_news (video ∷ [])) ≡ true
remove-is_well_formed_test = remove-is_well_formed live_news (video ∷ []) well_formed

elem-add_example :
    elem video (split (add live_news (video ∷ [])))
    ≡ (elem video (split live_news) || elem_of_any video (video ∷ []))
unfolding split_parts split_at sort split
elem-add_example = elem-add live_news (video ∷ []) video well_formed refl

elem-remove_example :
    elem video (split (remove live_news (video ∷ [])))
    ≡ (elem video (split live_news) && not (elem_of_any video (video ∷ [])))
elem-remove_example = elem-remove live_news (video ∷ []) video well_formed

elem-intersection_test :
    elem video (split (intersection video live_news))
    ≡ (elem video (split video) && elem video (split live_news))
elem-intersection_test = elem-intersection video video live_news well_formed

contain_all_iff_example : (contain_all live_news video ≡ true) ↔ (
    ((is_empty video ≡ true) × (is_empty live_news ≡ false))
    ⊎ ((is_empty video ≡ false) × Included (split video) (split live_news)))
contain_all_iff_example = contain_all_iff live_news video

contain_all-add_test : contain_all (add live_news (video ∷ [])) video ≡ true
contain_all-add_test =
    contain_all-add live_news video video well_formed video_well_formed refl (inr refl)

contain_any-remove_test : contain_any (remove live_news (video ∷ [])) video ≡ false
contain_any-remove_test = contain_any-remove live_news video well_formed refl
