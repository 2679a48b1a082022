-- ===== src/Sites/Bilibili.antt =====
-- lsp/bilibili/stateManager.go
use ddbot_nexus.Prelude.{if◌then◌else◌, Text, ℤ, int_ltb, pos, Bool, false, Option, List, [], ◌∷◌}
use ddbot_nexus.Sites.{hours, only_error, set_info, delete_info, set_with_user, when_not_nil}
use ddbot_nexus.Buntdb.Interface.{Reply, is_not_found, BuntDb, replaced, rollback, ok, err}
use ddbot_nexus.Buntdb.Key.{
  family_key, int_part, text_part, bilibili_current_live, bilibili_current_news,
  bilibili_dynamic_id, bilibili_uid_first_timestamp, bilibili_not_live_count, bilibili_user_info,
  bilibili_user_stat, bilibili_compact_mark, bilibili_active_timestamp, bilibili_last_fresh,
}
use ddbot_nexus.Buntdb.Options.{
  no_option, set_expire_opt, set_no_over_write_opt, ignore_not_found_opt, set_previous_int64,
}
use ddbot_nexus.Buntdb.ShortCut.{
  Session, Act, ◌>>=◌, rw_cover_tx, rw_cover, set, get, delete, get_int64, set_int64, seq_next,
}
use ddbot_nexus.Buntdb.Json.{Codec, get_json}
use ddbot_nexus.Permission.{drop_value}

-- UserInfo, UserStat, LiveInfo and NewsInfo, as far as the state manager reads them.
pub record Infos : Type 1 where
  pub UserInfo : Type 0
  pub UserStat : Type 0
  pub LiveInfo : Type 0
  pub NewsInfo : Type 0
  pub user_codec : Codec UserInfo
  pub stat_codec : Codec UserStat
  pub live_codec : Codec LiveInfo
  pub news_codec : Codec NewsInfo
  pub user_mid : UserInfo → ℤ
  pub stat_mid : UserStat → ℤ
  pub live_user : LiveInfo → UserInfo
  pub news_user : NewsInfo → UserInfo

unfoldable pub user_info_key : ℤ → Text
user_info_key mid = family_key bilibili_user_info (int_part mid ∷ [])

unfoldable pub user_stat_key : ℤ → Text
user_stat_key mid = family_key bilibili_user_stat (int_part mid ∷ [])

unfoldable pub current_live_key : ℤ → Text
current_live_key mid = family_key bilibili_current_live (int_part mid ∷ [])

unfoldable pub current_news_key : ℤ → Text
current_news_key mid = family_key bilibili_current_news (int_part mid ∷ [])

unfoldable pub dynamic_id_key : ℤ → Text
dynamic_id_key id = family_key bilibili_dynamic_id (int_part id ∷ [])

unfoldable pub uid_first_timestamp_key : ℤ → Text
uid_first_timestamp_key uid = family_key bilibili_uid_first_timestamp (int_part uid ∷ [])

unfoldable pub not_live_key : ℤ → Text
not_live_key uid = family_key bilibili_not_live_count (int_part uid ∷ [])

unfoldable pub compact_mark_key : ℤ → Text → Text
compact_mark_key group key = family_key bilibili_compact_mark (int_part group ∷ text_part key ∷ [])

unfoldable pub last_fresh_key : Text
last_fresh_key = family_key bilibili_last_fresh []

unfoldable pub active_timestamp_key : ℤ → Text
active_timestamp_key mid = family_key bilibili_active_timestamp (int_part mid ∷ [])

module _ ⦃b : BuntDb⦄ (i : Infos) where
  open i use {
    UserInfo, UserStat, LiveInfo, NewsInfo, user_codec, stat_codec, live_codec, news_codec,
    user_mid, stat_mid, live_user, news_user,
  }

  unfoldable pub add_user_info : Option UserInfo → Act (Unit {0})
  add_user_info o =
      when_not_nil o (λ u. set_info user_codec (user_info_key (user_mid u)) u no_option)

  unfoldable pub get_user_info : ℤ → Act (Option UserInfo)
  get_user_info mid = get_json user_codec (user_info_key mid) no_option

  unfoldable pub add_user_stat : Option UserStat → ℤ → Act (Unit {0})
  add_user_stat o expire =
      when_not_nil o
        λ u. set_info stat_codec (user_stat_key (stat_mid u)) u (set_expire_opt expire no_option)

  unfoldable pub get_user_stat : ℤ → Act (Option UserStat)
  get_user_stat mid = get_json stat_codec (user_stat_key mid) no_option

  unfoldable pub add_live_info : Option LiveInfo → Act (Unit {0})
  add_live_info o = when_not_nil o λ live.
      let u = live_user live in
      set_with_user user_codec live_codec (user_info_key (user_mid u)) u
        (current_live_key (user_mid u)) live (set_expire_opt (hours 168) no_option)

  unfoldable pub get_live_info : ℤ → Act (Option LiveInfo)
  get_live_info mid = get_json live_codec (current_live_key mid) no_option

  unfoldable pub add_news_info : Option NewsInfo → Act (Unit {0})
  add_news_info o = when_not_nil o λ news.
      let u = news_user news in
      set_with_user user_codec news_codec (user_info_key (user_mid u)) u
        (current_news_key (user_mid u)) news no_option

  unfoldable pub get_news_info : ℤ → Act (Option NewsInfo)
  get_news_info mid = get_json news_codec (current_news_key mid) no_option

module _ ⦃b : BuntDb⦄ where
  open b use {Tx}

  unfoldable pub delete_news_info : ℤ → Act (Unit {0})
  delete_news_info mid = delete_info (current_news_key mid)

  unfoldable pub delete_live_info : ℤ → Act (Unit {0})
  delete_live_info mid = delete_info (current_live_key mid)

  -- A second deletion after a first one, whose absent key is no error.
  abbrev pub then_delete : Reply Text × Tx → Text → Reply (Unit {0}) × Tx
  then_delete (ok v, t) key = let (r, t') = b.delete t key in (drop_value r, t')
  then_delete (err e, t) key =
      let (r, t') = b.delete t key in if is_not_found e then (drop_value r, t') else (err e, t)

  unfoldable pub delete_news_and_live_info : ℤ → Act (Unit {0})
  delete_news_and_live_info mid =
      rw_cover_tx (λ t. then_delete (b.delete t (current_live_key mid)) (current_news_key mid))

  -- The first error that is not that of an absent key.
  abbrev pub first_error : Reply Text → Reply (Unit {0}) → Reply (Unit {0})
  first_error (ok v) rest = rest
  first_error (err e) rest = if is_not_found e then rest else err e

  unfoldable pub delete_each : List Text → Tx → Reply (Unit {0}) × Tx
  delete_each [] t = (ok tt, t)
  delete_each (key ∷ keys) t =
      let (r, t') = b.delete t key in
      let (rest, t'') = delete_each keys t' in (first_error r rest, t'')

  abbrev pub keys_of_mid : ℤ → List Text
  keys_of_mid mid =
      current_live_key mid
      ∷ current_news_key mid
      ∷ uid_first_timestamp_key mid
      ∷ user_info_key mid
      ∷ not_live_key mid
      ∷ []

  unfoldable pub clear_by_mid : ℤ → Act (Unit {0})
  unfolding delete_each
  clear_by_mid mid = rw_cover_tx (delete_each (keys_of_mid mid))

  abbrev pub is_absent : Reply Text → Bool
  is_absent (ok v) = false
  is_absent (err e) = is_not_found e

  unfoldable pub check_dynamic_id : ℤ → Session → Bool × Session
  check_dynamic_id dynamic s =
      let (r, s') = get (dynamic_id_key dynamic) no_option s in (is_absent r, s')

  abbrev pub was_replaced : Reply (Text × Bool) → Reply Bool
  was_replaced (ok (v, replaced)) = ok replaced
  was_replaced (err e) = err e

  unfoldable pub mark_dynamic_id : ℤ → Act Bool
  mark_dynamic_id dynamic s =
      let (r, s') = set (dynamic_id_key dynamic) [] (set_expire_opt (hours 120) no_option) s in
      (was_replaced r, s')

  abbrev pub count_or_zero : Reply ℤ → ℤ
  count_or_zero (ok n) = n
  count_or_zero (err e) = pos 0

  unfoldable pub inc_not_live_count : ℤ → Session → ℤ × Session
  inc_not_live_count uid s = let (r, s') = seq_next (not_live_key uid) s in (count_or_zero r, s')

  unfoldable pub clear_not_live_count : ℤ → Act (Unit {0})
  clear_not_live_count uid = only_error (delete (not_live_key uid) (ignore_not_found_opt no_option))

  unfoldable pub set_uid_first_timestamp_if_not_exist : ℤ → ℤ → Act (Unit {0})
  set_uid_first_timestamp_if_not_exist uid timestamp =
      only_error
        (set_int64 (uid_first_timestamp_key uid) timestamp (set_no_over_write_opt no_option))

  unfoldable pub unset_uid_first_timestamp : ℤ → Act (Unit {0})
  unset_uid_first_timestamp uid = delete_info (uid_first_timestamp_key uid)

  unfoldable pub get_uid_first_timestamp : ℤ → Act ℤ
  get_uid_first_timestamp uid = get_int64 (uid_first_timestamp_key uid) no_option

  -- `expire` is CompactExpireTime.
  unfoldable pub set_group_compact_mark_if_not_exist : ℤ → ℤ → Text → Act (Unit {0})
  set_group_compact_mark_if_not_exist expire group key = only_error (
      set (compact_mark_key group key) [] (set_no_over_write_opt (set_expire_opt expire no_option)))

  unfoldable pub set_last_fresh_time : ℤ → Act (Unit {0})
  set_last_fresh_time ts = only_error (set_int64 last_fresh_key ts no_option)

  unfoldable pub get_last_fresh_time : Act ℤ
  get_last_fresh_time = get_int64 last_fresh_key no_option

  -- A later moment that is stored already is an error, by which the transaction is undone.
  abbrev pub check_later : ℤ → Text × Bool → Act (Unit {0})
  check_later ts (previous, replaced) s =
      if int_ltb ts (set_previous_int64 (pos 0) previous) then (err rollback, s) else (ok tt, s)

  unfoldable pub mark_latest_active : ℤ → ℤ → Act (Unit {0})
  mark_latest_active mid ts =
      rw_cover (set_int64 (active_timestamp_key mid) ts no_option >>= check_later ts)

  unfoldable pub get_latest_active : ℤ → Act ℤ
  get_latest_active mid = get_int64 (active_timestamp_key mid) (ignore_not_found_opt no_option)
