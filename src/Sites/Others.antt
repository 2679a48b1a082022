-- ===== src/Sites/Others.antt =====
-- The state managers of lsp/acfun, lsp/weibo, lsp/douyu, lsp/huya and lsp/youtube. An object with its
-- user is a record of its own for each site, of which the key parts are arguments here: `uid` reads
-- the number of a user, `user` the user of an object.
use ddbot_nexus.Prelude.{Text, ℤ, Bool, Option, [], ◌∷◌}
use ddbot_nexus.Sites.{hours, only_error, set_info, delete_info, set_with_user, when_not_nil}
use ddbot_nexus.Buntdb.Interface.{BuntDb}
use ddbot_nexus.Buntdb.Key.{
  family_key, int_part, text_part, douyu_current_live, youtube_info, youtube_video,
  huya_current_live, acfun_user_info, acfun_live_info, acfun_not_live, acfun_uid_first_timestamp,
  weibo_user_info, weibo_news_info, weibo_mark_mblog_id,
}
use ddbot_nexus.Buntdb.Options.{
  no_option, set_expire_opt, set_no_over_write_opt, ignore_not_found_opt,
}
use ddbot_nexus.Buntdb.ShortCut.{Session, Act, set, delete, get_int64, set_int64, seq_next}
use ddbot_nexus.Buntdb.Json.{Codec, get_json}
use ddbot_nexus.Sites.Bilibili.{count_or_zero, was_replaced}

-- The keys of lsp/acfun and lsp/weibo.
unfoldable pub acfun_user_info_key : ℤ → Text
acfun_user_info_key uid = family_key acfun_user_info (int_part uid ∷ [])

unfoldable pub acfun_live_info_key : ℤ → Text
acfun_live_info_key uid = family_key acfun_live_info (int_part uid ∷ [])

unfoldable pub acfun_not_live_key : ℤ → Text
acfun_not_live_key uid = family_key acfun_not_live (int_part uid ∷ [])

unfoldable pub acfun_first_timestamp_key : ℤ → Text
acfun_first_timestamp_key uid = family_key acfun_uid_first_timestamp (int_part uid ∷ [])

unfoldable pub weibo_user_info_key : ℤ → Text
weibo_user_info_key uid = family_key weibo_user_info (int_part uid ∷ [])

unfoldable pub weibo_news_info_key : ℤ → Text
weibo_news_info_key uid = family_key weibo_news_info (int_part uid ∷ [])

unfoldable pub weibo_mark_mblog_id_key : Text → Text
weibo_mark_mblog_id_key id = family_key weibo_mark_mblog_id (text_part id ∷ [])

unfoldable pub douyu_current_live_key : ℤ → Text
douyu_current_live_key id = family_key douyu_current_live (int_part id ∷ [])

unfoldable pub huya_current_live_key : Text → Text
huya_current_live_key id = family_key huya_current_live (text_part id ∷ [])

unfoldable pub youtube_info_key : Text → Text
youtube_info_key channel = family_key youtube_info (text_part channel ∷ [])

unfoldable pub youtube_video_key : Text → Text → Text
youtube_video_key channel video =
    family_key youtube_video (text_part channel ∷ text_part video ∷ [])

module _ ⦃b : BuntDb⦄ {U A : Type 0} (ju : Codec U) (ja : Codec A) (uid : U → ℤ)
    (user : A → U) where
  unfoldable pub add_acfun_user_info : Option U → Act (Unit {0})
  add_acfun_user_info o =
      when_not_nil o (λ u. set_info ju (acfun_user_info_key (uid u)) u no_option)

  unfoldable pub add_acfun_live_info : A → Act (Unit {0})
  add_acfun_live_info a =
      set_with_user ju ja (acfun_user_info_key (uid (user a))) (user a)
        (acfun_live_info_key (uid (user a))) a no_option

  unfoldable pub add_weibo_user_info : Option U → Act (Unit {0})
  add_weibo_user_info o =
      when_not_nil o (λ u. set_info ju (weibo_user_info_key (uid u)) u no_option)

  unfoldable pub add_weibo_news_info : Option A → Act (Unit {0})
  add_weibo_news_info o = when_not_nil o λ a.
      set_with_user ju ja (weibo_user_info_key (uid (user a))) (user a)
        (weibo_news_info_key (uid (user a))) a no_option

module _ ⦃b : BuntDb⦄ where
  unfoldable pub delete_acfun_live_info : ℤ → Act (Unit {0})
  delete_acfun_live_info uid = delete_info (acfun_live_info_key uid)

  unfoldable pub inc_acfun_not_live_count : ℤ → Session → ℤ × Session
  inc_acfun_not_live_count uid s =
      let (r, s') = seq_next (acfun_not_live_key uid) s in (count_or_zero r, s')

  unfoldable pub clear_acfun_not_live_count : ℤ → Act (Unit {0})
  clear_acfun_not_live_count uid =
      only_error (delete (acfun_not_live_key uid) (ignore_not_found_opt no_option))

  unfoldable pub set_acfun_first_timestamp : ℤ → ℤ → Act (Unit {0})
  set_acfun_first_timestamp uid timestamp =
      only_error
        (set_int64 (acfun_first_timestamp_key uid) timestamp (set_no_over_write_opt no_option))

  unfoldable pub get_acfun_first_timestamp : ℤ → Act ℤ
  get_acfun_first_timestamp uid = get_int64 (acfun_first_timestamp_key uid) no_option

  unfoldable pub mark_mblog_id : Text → Act Bool
  mark_mblog_id id s =
      let (r, s') = set (weibo_mark_mblog_id_key id) [] (set_expire_opt (hours 120) no_option) s in
      (was_replaced r, s')

  unfoldable pub remove_weibo_user_info : ℤ → Act (Unit {0})
  remove_weibo_user_info uid = delete_info (weibo_user_info_key uid)

  unfoldable pub remove_weibo_news_info : ℤ → Act (Unit {0})
  remove_weibo_news_info uid = delete_info (weibo_news_info_key uid)

  unfoldable pub delete_douyu_live_info : ℤ → Act (Unit {0})
  delete_douyu_live_info id = delete_info (douyu_current_live_key id)

  unfoldable pub delete_huya_live_info : Text → Act (Unit {0})
  delete_huya_live_info id = delete_info (huya_current_live_key id)

module _ ⦃b : BuntDb⦄ {A : Type 0} (j : Codec A) where
  unfoldable pub get_acfun_user_info : ℤ → Act (Option A)
  get_acfun_user_info uid = get_json j (acfun_user_info_key uid) no_option

  unfoldable pub get_acfun_live_info : ℤ → Act (Option A)
  get_acfun_live_info uid = get_json j (acfun_live_info_key uid) no_option

  unfoldable pub get_weibo_user_info : ℤ → Act (Option A)
  get_weibo_user_info uid = get_json j (weibo_user_info_key uid) no_option

  unfoldable pub get_weibo_news_info : ℤ → Act (Option A)
  get_weibo_news_info uid = get_json j (weibo_news_info_key uid) no_option

  unfoldable pub get_douyu_live_info : ℤ → Act (Option A)
  get_douyu_live_info id = get_json j (douyu_current_live_key id) no_option

  unfoldable pub add_douyu_live_info : (A → ℤ) → Option A → Act (Unit {0})
  add_douyu_live_info room_id o =
      when_not_nil o λ a.
        set_info j (douyu_current_live_key (room_id a)) a (set_expire_opt (hours 168) no_option)

  unfoldable pub get_huya_live_info : Text → Act (Option A)
  get_huya_live_info id = get_json j (huya_current_live_key id) no_option

  unfoldable pub add_huya_live_info : (A → Text) → Option A → Act (Unit {0})
  add_huya_live_info room_id o =
      when_not_nil o
        λ a. set_info j (huya_current_live_key (room_id a)) a (set_expire_opt (hours 168) no_option)

  unfoldable pub get_youtube_info : Text → Act (Option A)
  get_youtube_info channel = get_json j (youtube_info_key channel) no_option

  unfoldable pub add_youtube_info : (A → Text) → A → Act (Unit {0})
  add_youtube_info channel_id a =
      set_info j (youtube_info_key (channel_id a)) a (set_expire_opt (hours 168) no_option)

  unfoldable pub get_youtube_video : Text → Text → Act (Option A)
  get_youtube_video channel video = get_json j (youtube_video_key channel video) no_option

  unfoldable pub add_youtube_video : (A → Text) → (A → Text) → A → Act (Unit {0})
  add_youtube_video channel_id video_id a =
      set_info j (youtube_video_key (channel_id a) (video_id a)) a no_option
