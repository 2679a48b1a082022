-- ===== src/Buntdb/Key/Laws.antt =====
-- Keys of different families differ, and a concern state key reads back as its group and id.
use ddbot_nexus.Prelude.{
  if◌then◌else◌, Text, bytes, ◌==ₜ◌, has_prefix, has_prefix_same, has_prefix_longer, lacks, join,
  split_at, split_at-append, split_at_whole, split_at-join, ℤ, format_int, IsInt64,
  parse_int-format_int, format_int-lacks, ◌≡◌, refl, sym, ap, ◌∙◌, true, Option, none, some, List,
  [], ◌∷◌, ◌++◌, map, arith,
}
use ddbot_nexus.Buntdb.Key.{
  KeyFamily, int_part, text_part, named_key, family_name, parse_concern_state_key_with_int64,
  parse_concern_state_key_with_string, bilibili_group_concern_state, bilibili_group_concern_config,
  bilibli_fresh, bilibili_current_live, bilibili_current_news, bilibili_dynamic_id,
  bilibili_uid_first_timestamp, bilibili_user_cookie_info, bilibili_not_live_count,
  bilibili_user_info, bilibili_user_stat, bilibili_group_at_all_mark, bilibili_compact_mark,
  bilibili_notify_msg, bilibili_active_timestamp, bilibili_last_fresh, douyu_group_concern_state,
  douyu_group_concern_config, douyu_fresh, douyu_current_live, douyu_group_at_all_mark,
  youtube_group_concern_state, youtube_group_concern_config, youtube_fresh, youtube_user_info,
  youtube_info, youtube_video, youtube_group_at_all_mark, huya_group_concern_state,
  huya_group_concern_config, huya_fresh, huya_current_live, huya_group_at_all_mark, acfun_user_info,
  acfun_live_info, acfun_not_live, acfun_uid_first_timestamp, weibo_user_info, weibo_news_info,
  weibo_mark_mblog_id, twitter_user_info, twitter_tweet_list, latest_tweet_ids, twitter_last_fresh,
  twitter_compact_mark, twitter_notify_msg, douyin_user_info, douyin_fresh, douyin_current_live,
  permission, block_list, group_permission, group_enabled, global_enabled, group_message_image,
  group_silence, global_silence, group_mute, group_ux_config, group_invitor, lolicon_pool_store,
  image_cache, mode, new_friend_request, group_invited, version, dd_bot_release, dd_bot_no_update,
  KeyPart, render, family_key,
}

find_family : Text → List KeyFamily → Option KeyFamily
find_family s [] = none
find_family s (f ∷ fs) = if bytes (family_name f) ==ₜ s then some f else find_family s fs

families : List KeyFamily
families =
    bilibili_group_concern_state ∷ bilibili_group_concern_config ∷ bilibli_fresh
    ∷ bilibili_current_live ∷ bilibili_current_news ∷ bilibili_dynamic_id
    ∷ bilibili_uid_first_timestamp ∷ bilibili_user_cookie_info ∷ bilibili_not_live_count
    ∷ bilibili_user_info ∷ bilibili_user_stat ∷ bilibili_group_at_all_mark ∷ bilibili_compact_mark
    ∷ bilibili_notify_msg ∷ bilibili_active_timestamp ∷ bilibili_last_fresh
    ∷ douyu_group_concern_state ∷ douyu_group_concern_config ∷ douyu_fresh ∷ douyu_current_live
    ∷ douyu_group_at_all_mark ∷ youtube_group_concern_state ∷ youtube_group_concern_config
    ∷ youtube_fresh ∷ youtube_user_info ∷ youtube_info ∷ youtube_video ∷ youtube_group_at_all_mark
    ∷ huya_group_concern_state ∷ huya_group_concern_config ∷ huya_fresh ∷ huya_current_live
    ∷ huya_group_at_all_mark ∷ acfun_user_info ∷ acfun_live_info ∷ acfun_not_live
    ∷ acfun_uid_first_timestamp ∷ weibo_user_info ∷ weibo_news_info ∷ weibo_mark_mblog_id
    ∷ twitter_user_info ∷ twitter_tweet_list ∷ latest_tweet_ids ∷ twitter_last_fresh
    ∷ twitter_compact_mark ∷ twitter_notify_msg ∷ douyin_user_info ∷ douyin_fresh
    ∷ douyin_current_live ∷ permission ∷ block_list ∷ group_permission ∷ group_enabled
    ∷ global_enabled ∷ group_message_image ∷ group_silence ∷ global_silence ∷ group_mute
    ∷ group_ux_config ∷ group_invitor ∷ lolicon_pool_store ∷ image_cache ∷ mode ∷ new_friend_request
    ∷ group_invited ∷ version ∷ dd_bot_release ∷ dd_bot_no_update ∷ []

find_family-family_name : (f : KeyFamily) → find_family (bytes (family_name f)) families ≡ some f
unfolding find_family family_name families ◌==ₜ◌
find_family-family_name bilibili_group_concern_state = refl
find_family-family_name _ = refl

pub family_name-lacks : (f : KeyFamily) → lacks b':' (bytes (family_name f)) ≡ true
unfolding family_name
family_name-lacks bilibili_group_concern_state = refl
family_name-lacks _ = refl

-- What stands before the first colon.
first_part : Text → Text
first_part s = elim (split_at b':' s) [ [] ↦ [] | p ∷ ps ↦ p ]

first_part-named_key :
    (name : Text) (keys : List KeyPart)
    → lacks b':' name ≡ true
    → first_part (named_key name keys) ≡ name
unfolding first_part named_key join
first_part-named_key name [] h = rw (first_part, split_at_whole b':' name h)
first_part-named_key name (k ∷ ks) h =
    rw (first_part, split_at-append b':' name (join b':' (map render (k ∷ ks))) h)

-- Keys that two functions of key.go return are different, whatever their parts: no family can read
-- or write the entries of another.
pub family_key-injective :
    (f g : KeyFamily) (keys others : List KeyPart) → family_key f keys ≡ family_key g others → f ≡ g
unfolding family_key
family_key-injective f g keys others e =
    let name : bytes (family_name f) ≡ bytes (family_name g) =
      sym (first_part-named_key (bytes (family_name f)) keys (family_name-lacks f))
      ∙ ap first_part e
      ∙ first_part-named_key (bytes (family_name g)) others (family_name-lacks g) in
    cc (find_family-family_name f, find_family-family_name g, ap (λ s. find_family s families) name)

split-int_key :
    (name : Text) (g i : ℤ)
    → lacks b':' name ≡ true
    → split_at b':' (named_key name (int_part g ∷ int_part i ∷ []))
      ≡ name ∷ format_int g ∷ format_int i ∷ []
unfolding named_key
split-int_key name g i h =
    split_at-join b':' name (format_int g ∷ format_int i ∷ []) h
      (ground (arith, format_int-lacks g, format_int-lacks i))

-- The key of a group and an integer id, under a name with no colon, reads back as the two.
pub parse-int_key :
    (name : Text) (g i : ℤ)
    → lacks b':' name ≡ true
    → IsInt64 g
    → IsInt64 i
    → parse_concern_state_key_with_int64 (named_key name (int_part g ∷ int_part i ∷ []))
      ≡ some (g, i)
unfolding parse_concern_state_key_with_int64
parse-int_key name g i h hg hi =
    rw (split-int_key name g i h, parse_int-format_int g hg, parse_int-format_int i hi)

-- The key of a group and a text id reads back as the two, where name and id hold no colon.
pub parse-text_key :
    (name : Text) (g : ℤ) (i : Text)
    → lacks b':' name ≡ true
    → lacks b':' i ≡ true
    → IsInt64 g
    → parse_concern_state_key_with_string (named_key name (int_part g ∷ text_part i ∷ []))
      ≡ some (g, i)
unfolding parse_concern_state_key_with_string named_key
parse-text_key name g i h hi hg = rw (
  split_at-join b':' name (format_int g ∷ i ∷ []) h (ground (arith, format_int-lacks g)),
  parse_int-format_int g hg,
)

-- The key of a group alone is a prefix of the keys of every number whose digits begin with the
-- group's: the separator does not end it.
pub has_prefix_number :
    (name : Text) (g u : ℤ) (rest : Text)
    → has_prefix (format_int u) (format_int g) ≡ true
    → has_prefix
        (named_key name (int_part u ∷ text_part rest ∷ []))
        (named_key name (int_part g ∷ []))
      ≡ true
unfolding named_key join
has_prefix_number name g u rest h =
    has_prefix_same name (b':' ∷ format_int u ++ b':' ∷ rest) (b':' ∷ format_int g)
    ∙ unfold has_prefix in has_prefix_longer (format_int u) (b':' ∷ rest) (format_int g) h
