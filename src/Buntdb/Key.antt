-- ===== src/Buntdb/Key.antt =====
-- lsp/buntdb/key.go: how database keys are written, and the families of keys of the program.
-- A part of a key is an integer of any size, an unsigned one, a text or a Boolean; other values,
-- on which `Key` panics, have no constructor. A parse of a malformed key, `none` here, is an error
-- there.
pub mod Laws
use ddbot_nexus.Prelude.{
  join, Text, bytes, split_at, ℤ, format_uint, parse_int, format_int, ℕ, String, Bool, true, false,
  Option, none, some, List, [], ◌∷◌, map,
}
use mathlib.Core.Option

pub data KeyPart : Type 0 where
  int_part : ℤ → KeyPart
  uint_part : ℕ → KeyPart
  text_part : Text → KeyPart
  bool_part : Bool → KeyPart

unfoldable pub render : KeyPart → Text
render (int_part n) = format_int n
render (uint_part n) = format_uint n
render (text_part t) = t
render (bool_part true) = bytes "true"
render (bool_part false) = bytes "false"

unfoldable pub key_of : List KeyPart → Text
unfolding render
key_of keys = join b':' (map render keys)

unfoldable pub named_key : Text → List KeyPart → Text
unfolding key_of
named_key name keys = key_of (text_part name ∷ keys)

-- A family for each function of the file that returns `NamedKey(name, keys)`.
pub data KeyFamily : Type 0 where
  bilibili_group_concern_state bilibili_group_concern_config bilibli_fresh : KeyFamily
  bilibili_current_live bilibili_current_news bilibili_dynamic_id : KeyFamily
  bilibili_uid_first_timestamp bilibili_user_cookie_info bilibili_not_live_count : KeyFamily
  bilibili_user_info bilibili_user_stat bilibili_group_at_all_mark : KeyFamily
  bilibili_compact_mark bilibili_notify_msg bilibili_active_timestamp : KeyFamily
  bilibili_last_fresh douyu_group_concern_state douyu_group_concern_config : KeyFamily
  douyu_fresh douyu_current_live douyu_group_at_all_mark : KeyFamily
  youtube_group_concern_state youtube_group_concern_config youtube_fresh : KeyFamily
  youtube_user_info youtube_info youtube_video youtube_group_at_all_mark : KeyFamily
  huya_group_concern_state huya_group_concern_config huya_fresh huya_current_live : KeyFamily
  huya_group_at_all_mark acfun_user_info acfun_live_info acfun_not_live : KeyFamily
  acfun_uid_first_timestamp weibo_user_info weibo_news_info weibo_mark_mblog_id : KeyFamily
  twitter_user_info twitter_tweet_list latest_tweet_ids twitter_last_fresh : KeyFamily
  twitter_compact_mark twitter_notify_msg douyin_user_info douyin_fresh : KeyFamily
  douyin_current_live permission block_list group_permission group_enabled : KeyFamily
  global_enabled group_message_image group_silence global_silence group_mute : KeyFamily
  group_ux_config group_invitor lolicon_pool_store image_cache mode : KeyFamily
  new_friend_request group_invited version dd_bot_release dd_bot_no_update : KeyFamily

unfoldable pub family_name : KeyFamily → String
family_name bilibili_group_concern_state = "ConcernState"
family_name bilibili_group_concern_config = "ConcernConfig"
family_name bilibli_fresh = "fresh"
family_name bilibili_current_live = "CurrentLive"
family_name bilibili_current_news = "CurrentNews"
family_name bilibili_dynamic_id = "DynamicId"
family_name bilibili_uid_first_timestamp = "UidFirstTimestamp"
family_name bilibili_user_cookie_info = "UserCookieInfo"
family_name bilibili_not_live_count = "NotLiveCount"
family_name bilibili_user_info = "UserInfo"
family_name bilibili_user_stat = "UserStat"
family_name bilibili_group_at_all_mark = "GroupAtAll"
family_name bilibili_compact_mark = "CompactMark"
family_name bilibili_notify_msg = "NotifyMsg"
family_name bilibili_active_timestamp = "ActiveTimestamp"
family_name bilibili_last_fresh = "BilibiliLastFresh"
family_name douyu_group_concern_state = "DouyuConcernState"
family_name douyu_group_concern_config = "DouyuConcernConfig"
family_name douyu_fresh = "douyuFresh"
family_name douyu_current_live = "DouyuCurrentLive"
family_name douyu_group_at_all_mark = "DouyuGroupAtAll"
family_name youtube_group_concern_state = "YoutubeConcernState"
family_name youtube_group_concern_config = "YoutubeConcernConfig"
family_name youtube_fresh = "youtubeFresh"
family_name youtube_user_info = "YoutubeUserInfo"
family_name youtube_info = "YoutubeInfo"
family_name youtube_video = "YoutubeVideo"
family_name youtube_group_at_all_mark = "YoutubeGroupAtAll"
family_name huya_group_concern_state = "HuyaConcernState"
family_name huya_group_concern_config = "HuyaConcernConfig"
family_name huya_fresh = "huyaFresh"
family_name huya_current_live = "HuyaCurrentLive"
family_name huya_group_at_all_mark = "HuyaGroupAtAll"
family_name acfun_user_info = "AcfunUserInfo"
family_name acfun_live_info = "AcfunLiveInfo"
family_name acfun_not_live = "AcfunNotLiveCount"
family_name acfun_uid_first_timestamp = "AcfunUidFirstTimestamp"
family_name weibo_user_info = "WeiboUserInfo"
family_name weibo_news_info = "WeiboNewsInfo"
family_name weibo_mark_mblog_id = "WeiboMarkMblogId"
family_name twitter_user_info = "TwitterUserInfo"
family_name twitter_tweet_list = "TwitterTweetList"
family_name latest_tweet_ids = "TwitterLatestTweetIds"
family_name twitter_last_fresh = "TwitterLastFresh"
family_name twitter_compact_mark = "TwitterCompactMark"
family_name twitter_notify_msg = "TwitterNotifyMsg"
family_name douyin_user_info = "DouyinUserInfo"
family_name douyin_fresh = "DouyinFresh"
family_name douyin_current_live = "DouyinCurrentLive"
family_name permission = "Permission"
family_name block_list = "BlockList"
family_name group_permission = "GroupPermission"
family_name group_enabled = "GroupEnable"
family_name global_enabled = "GlobalEnable"
family_name group_message_image = "GroupMessageImage"
family_name group_silence = "GroupSilence"
family_name global_silence = "GlobalSilence"
family_name group_mute = "GroupMute"
family_name group_ux_config = "GroupUXConfig"
family_name group_invitor = "GroupInventor"
family_name lolicon_pool_store = "LoliconPoolStore"
family_name image_cache = "ImageCache"
family_name mode = "Mode"
family_name new_friend_request = "NewFriendRequest"
family_name group_invited = "GroupInvited"
family_name version = "Version"
family_name dd_bot_release = "DDBotReleaseKey"
family_name dd_bot_no_update = "DDBotNoUpdateKey"

unfoldable pub family_key : KeyFamily → List KeyPart → Text
unfolding named_key
family_key f keys = named_key (bytes (family_name f)) keys

group_and_id : Option ℤ → Option ℤ → Option (ℤ × ℤ)
group_and_id (some g) (some i) = some (g, i)
group_and_id _ _ = none

int_id_of : List Text → Option (ℤ × ℤ)
unfolding group_and_id
int_id_of (name ∷ g ∷ i ∷ []) = group_and_id (parse_int g) (parse_int i)
int_id_of _ = none

-- ParseConcernStateKeyWithInt64
unfoldable pub parse_concern_state_key_with_int64 : Text → Option (ℤ × ℤ)
unfolding int_id_of
parse_concern_state_key_with_int64 key = int_id_of (split_at b':' key)

text_id_of : List Text → Option (ℤ × Text)
text_id_of (name ∷ g ∷ i ∷ []) = Option.map (λ n. (n, i)) (parse_int g)
text_id_of _ = none

-- ParseConcernStateKeyWithString
unfoldable pub parse_concern_state_key_with_string : Text → Option (ℤ × Text)
unfolding text_id_of
parse_concern_state_key_with_string key = text_id_of (split_at b':' key)
