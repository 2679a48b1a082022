-- ===== src/Tests/Subscriptions.antt =====
-- Subscriptions (lsp/concern/stateManager.go) of group 1, which has subscribed to user 2's "live".
use ddbot_nexus.Prelude.{
  if◌then◌else◌, is_empty, Text, bytes, ◌==ₜ◌, text_leb, has_prefix, join, cons_first, split_at,
  elem, pos, format_uint, format_int, parse_int, ℕ, ◌≤◌, ◌<◌, ◌≡◌, refl, true, false, List, [], ◌∷◌,
  arith,
}
use ddbot_nexus.ConcernType.{
  ConcernType, add, remove, contain_all, sort, split_parts, split, insert_sorted, combine,
  set_insert, insert_all, insert_types,
}
use ddbot_nexus.Buntdb.Interface.{ok, err, not_found, already_exists, max_group_concern_exceed}
use ddbot_nexus.Buntdb.Memory.{memory, memory_laws, Table, memory_laws-Live, lookup, ascend_entries}
use ddbot_nexus.Buntdb.ShortCut.{Session, inside, r_cover_tx}
use ddbot_nexus.Buntdb.ShortCut.Laws.{read}
use ddbot_nexus.Concern.KeySet.{
  ConcernId, new_prefix_key_set_with_int64_id, int_id, int_eq, id_part, group_concern_state_key,
  parse_group_concern_state_key, id_eq,
}
use ddbot_nexus.Concern.StateManager.{
  Manager, Subscription, state_key, add_group_concern, remove_group_concern, check_limit,
  list_concern_state, distinct_ids, keep_states, group_types, group_type_by_id,
}
use ddbot_nexus.Concern.StateManager.Laws.{
  add_group_concern_succeeds, add_group_concern_exists, held,
}
use ddbot_nexus.Concern.StateManager.Removal.{
  remove_group_concern_succeeds, remove_group_concern_missing,
}
use ddbot_nexus.Concern.StateManager.Limit.{add_group_concern_full, of_group}
use ddbot_nexus.Buntdb.Key.{
  named_key, parse_concern_state_key_with_int64, render, key_of,
  parse_concern_state_key_with_string,
}

abbrev pub table : Table
table = record {
  entries = (bytes "BilibiliGroupConcernState:1:2", bytes "live") ∷ [];
  indexes = bytes "BilibiliGroupConcernState" ∷ [];
}

abbrev session : Session
session = inside table

abbrev pub manager : ℕ → Manager
manager limit = record {
  keys = new_prefix_key_set_with_int64_id (bytes "Bilibili");
  max_group_concern = limit;
  use_emit = true;
}

abbrev live_type : ConcernType
live_type = bytes "live"

abbrev news_type : ConcernType
news_type = bytes "news"

abbrev pub two : ConcernId
two = int_id (pos 2)

is_live : memory_laws.Live table
is_live = memory_laws-Live table

subscribed : read session (state_key (manager 3) (pos 1) two) ≡ ok live_type
unfolding read ddbot_nexus.Buntdb.Memory.lookup ◌==ₜ◌ state_key
    ddbot_nexus.Concern.KeySet.group_concern_state_key ddbot_nexus.Buntdb.Key.named_key
    ddbot_nexus.Prelude.join new_prefix_key_set_with_int64_id ddbot_nexus.Prelude.format_int
    ddbot_nexus.Concern.KeySet.id_part
subscribed = refl

not_to_news :
    contain_all (held (read session (state_key (manager 3) (pos 1) two))) news_type ≡ false
unfolding contain_all held read lookup ◌==ₜ◌ state_key group_concern_state_key named_key join
    new_prefix_key_set_with_int64_id format_int id_part split split_parts sort split_at elem
    ddbot_nexus.Buntdb.Key.key_of ddbot_nexus.Buntdb.Key.render
    ddbot_nexus.ConcernType.insert_sorted ddbot_nexus.Prelude.format_uint
    ddbot_nexus.Prelude.cons_first ddbot_nexus.Prelude.text_leb
not_to_news = refl

not_to_news_limited :
    contain_all (held (read session (state_key (manager 1) (pos 1) two))) news_type ≡ false
unfolding contain_all held read lookup ◌==ₜ◌ state_key group_concern_state_key named_key join
    new_prefix_key_set_with_int64_id format_int id_part split split_parts sort split_at elem
    ddbot_nexus.Buntdb.Key.key_of ddbot_nexus.Buntdb.Key.render
    ddbot_nexus.ConcernType.insert_sorted ddbot_nexus.Prelude.format_uint
    ddbot_nexus.Prelude.cons_first ddbot_nexus.Prelude.text_leb
not_to_news_limited = refl

to_live : contain_all (held (read session (state_key (manager 3) (pos 1) two))) live_type ≡ true
unfolding contain_all held read lookup ◌==ₜ◌ state_key group_concern_state_key named_key join
    new_prefix_key_set_with_int64_id format_int id_part split split_parts sort split_at elem
    ddbot_nexus.Buntdb.Key.key_of ddbot_nexus.Buntdb.Key.render
    ddbot_nexus.ConcernType.insert_sorted ddbot_nexus.Prelude.format_uint
    ddbot_nexus.Prelude.cons_first ddbot_nexus.Prelude.text_leb
to_live = refl

room : (check_limit (manager 3) (pos 1) session).0 ≡ ok tt
unfolding check_limit list_concern_state r_cover_tx ascend_entries elem ◌==ₜ◌
    group_concern_state_key named_key join new_prefix_key_set_with_int64_id keep_states has_prefix
    parse_group_concern_state_key parse_concern_state_key_with_int64 split_at parse_int int_eq
    ddbot_nexus.Buntdb.Key.key_of ddbot_nexus.Buntdb.Key.parse_concern_state_key_with_string
    ddbot_nexus.Buntdb.Key.render ddbot_nexus.Concern.KeySet.id_eq distinct_ids
    ddbot_nexus.Concern.StateManager.group_type_by_id ddbot_nexus.Concern.StateManager.group_types
    add ddbot_nexus.ConcernType.combine ddbot_nexus.ConcernType.insert_all
    ddbot_nexus.ConcernType.insert_sorted ddbot_nexus.ConcernType.insert_types
    ddbot_nexus.ConcernType.set_insert sort split split_parts format_int
    ddbot_nexus.Prelude.format_uint ddbot_nexus.Prelude.cons_first ddbot_nexus.Prelude.text_leb
room = refl

add_group_concern_succeeds_example :
    ((add_group_concern (manager 3) (pos 1) two news_type session).0
      ≡ ok (add (held (read session (state_key (manager 3) (pos 1) two))) (news_type ∷ [])))
    × ((j : Text)
        → read (add_group_concern (manager 3) (pos 1) two news_type session).2 j ≡ (
            if state_key (manager 3) (pos 1) two ==ₜ j
            then ok (add (held (read session (state_key (manager 3) (pos 1) two))) (news_type ∷ []))
            else read session j))
add_group_concern_succeeds_example =
    add_group_concern_succeeds memory_laws (manager 3) session (pos 1) two news_type is_live
      not_to_news room

add_group_concern_exists_test :
    add_group_concern (manager 3) (pos 1) two live_type session ≡ (err already_exists, [], session)
add_group_concern_exists_test =
    add_group_concern_exists memory_laws (manager 3) session (pos 1) two live_type is_live to_live

live_contains : contain_all live_type live_type ≡ true
unfolding contain_all ddbot_nexus.ConcernType.split ddbot_nexus.ConcernType.split_parts
    ddbot_nexus.ConcernType.sort ddbot_nexus.Prelude.split_at ddbot_nexus.Prelude.elem ◌==ₜ◌
live_contains = refl

remove_group_concern_succeeds_example :
    ((remove_group_concern (manager 3) (pos 1) two live_type session).0
      ≡ ok (remove live_type (live_type ∷ [])))
    × ((j : Text)
        → read (remove_group_concern (manager 3) (pos 1) two live_type session).2 j ≡ (
            if state_key (manager 3) (pos 1) two ==ₜ j
            then (if is_empty (remove live_type (live_type ∷ []))
                then err not_found
                else ok (remove live_type (live_type ∷ [])))
            else read session j))
remove_group_concern_succeeds_example =
    remove_group_concern_succeeds memory_laws (manager 3) session (pos 1) two live_type live_type
      is_live subscribed live_contains

remove_group_concern_missing_test :
    remove_group_concern (manager 3) (pos 1) two news_type session ≡ (err not_found, [], session)
remove_group_concern_missing_test =
    remove_group_concern_missing memory_laws (manager 3) session (pos 1) two news_type is_live
      not_to_news

abbrev subscriptions : List Subscription
subscriptions = record { group = pos 1; id = two; types = live_type } ∷ []

listed :
    (list_concern_state (manager 1) (of_group memory_laws (manager 1) session (pos 1)) session).0
    ≡ ok subscriptions
unfolding list_concern_state ddbot_nexus.Buntdb.ShortCut.r_cover_tx
    ddbot_nexus.Buntdb.Memory.ascend_entries ddbot_nexus.Prelude.elem ◌==ₜ◌
    ddbot_nexus.Concern.KeySet.group_concern_state_key ddbot_nexus.Buntdb.Key.named_key
    ddbot_nexus.Prelude.join new_prefix_key_set_with_int64_id
    ddbot_nexus.Concern.StateManager.keep_states ddbot_nexus.Prelude.has_prefix
    ddbot_nexus.Concern.KeySet.parse_group_concern_state_key
    ddbot_nexus.Buntdb.Key.parse_concern_state_key_with_int64 ddbot_nexus.Prelude.split_at
    ddbot_nexus.Prelude.parse_int ddbot_nexus.Concern.KeySet.int_eq
listed = refl

limited : 0 < 1
limited = ground arith

count : distinct_ids (manager 1) subscriptions ≡ 1
unfolding distinct_ids group_type_by_id group_types
count = refl

full : 1 ≤ distinct_ids (manager 1) subscriptions
full = rw count (ground arith)

add_group_concern_full_example :
    add_group_concern (manager 1) (pos 1) two news_type session
    ≡ (err max_group_concern_exceed, [], session)
add_group_concern_full_example =
    add_group_concern_full memory_laws (manager 1) session (pos 1) two news_type subscriptions
      is_live not_to_news_limited listed limited full
