-- ===== src/Tests/Members.antt =====
-- What lsp/bilibili stores of user 8, on databases in memory.
use ddbot_nexus.Prelude.{
  if◌then◌else◌, Text, bytes, ◌==ₜ◌, join, int_ltb, pos, format_int, ◌≡◌, refl, ◌⊎◌, false, ◌||◌,
  some, [], ◌∷◌, arith,
}
use ddbot_nexus.Tests.Bot.{letter_codec, letter_codec-Encodes, empty_table}
use ddbot_nexus.Sites.Bilibili.{
  Infos, current_news_key, active_timestamp_key, get_user_info, add_live_info, get_live_info,
  delete_news_and_live_info, clear_by_mid, mark_latest_active,
}
use ddbot_nexus.Sites.Laws.{
  get_live_info-add_live_info, delete_news_and_live_info_undone, clear_by_mid-read, of_member,
}
use ddbot_nexus.Sites.Activity.{Stored, mark_latest_active_monotone}
use ddbot_nexus.Buntdb.Interface.{Error, not_found, ok, err}
use ddbot_nexus.Buntdb.Memory.{Table, memory, memory_laws, memory_laws-Live, memory-begin, lookup}
use ddbot_nexus.Buntdb.ShortCut.{Session, idle, inside}
use ddbot_nexus.Buntdb.ShortCut.Laws.{read}
use ddbot_nexus.Buntdb.Key.{
  family_name, family_key, bilibili_current_live, bilibili_current_news,
  bilibili_uid_first_timestamp, bilibili_not_live_count, bilibili_user_info,
}

-- All that is stored is a text, of user 8.
abbrev infos : Infos
infos = record {
  UserInfo = Text;
  UserStat = Text;
  LiveInfo = Text;
  NewsInfo = Text;
  user_codec = letter_codec;
  stat_codec = letter_codec;
  live_codec = letter_codec;
  news_codec = letter_codec;
  user_mid = λ u. pos 8;
  stat_mid = λ u. pos 8;
  live_user = λ a. a;
  news_user = λ a. a;
}

abbrev session : Session
session = inside empty_table

live : memory_laws.Live empty_table
live = memory_laws-Live empty_table

get_live_info-add_live_info_test :
    ((add_live_info infos (some (bytes "add")) session).0 ≡ ok tt)
    × ((get_live_info infos (pos 8) (add_live_info infos (some (bytes "add")) session).1).0
        ≡ ok (some (bytes "add")))
    × ((get_user_info infos (pos 8) (add_live_info infos (some (bytes "add")) session).1).0
        ≡ ok (some (bytes "add")))
get_live_info-add_live_info_test =
    get_live_info-add_live_info memory_laws infos (bytes "add") (bytes "radd") (bytes "radd")
      session live letter_codec-Encodes letter_codec-Encodes

-- A database with a live of user 8, and no news.
abbrev living : Table
living = record { entries = (bytes "CurrentLive:8", bytes "radd") ∷ []; indexes = [] }

no_entry : memory.get living (current_news_key (pos 8)) false ≡ err not_found
unfolding ddbot_nexus.Buntdb.Memory.lookup ddbot_nexus.Prelude.◌==ₜ◌ current_news_key
    ddbot_nexus.Buntdb.Key.family_key ddbot_nexus.Prelude.join ddbot_nexus.Buntdb.Key.family_name
no_entry = refl

no_news : memory.get (memory_laws.begin living) (current_news_key (pos 8)) false ≡ err not_found
no_news = rw (memory-begin living) (no_entry)

delete_news_and_live_info_undone_example :
    delete_news_and_live_info (pos 8) (idle living) ≡ (err not_found, idle living)
delete_news_and_live_info_undone_example =
    delete_news_and_live_info_undone memory_laws (pos 8) living no_news

clear_by_mid-read_example :
    ((clear_by_mid (pos 8) (inside living)).0 ≡ ok tt)
    × ((j : Text)
        → read (clear_by_mid (pos 8) (inside living)).1 j ≡ (
            if j ==ₜ of_member bilibili_current_live (pos 8)
              || (j ==ₜ of_member bilibili_current_news (pos 8)
                  || (j ==ₜ of_member bilibili_uid_first_timestamp (pos 8)
                      || (j ==ₜ of_member bilibili_user_info (pos 8)
                          || j ==ₜ of_member bilibili_not_live_count (pos 8))))
            then err not_found
            else read (inside living) j))
clear_by_mid-read_example =
    clear_by_mid-read memory_laws (pos 8) (inside living) (memory_laws-Live living)

-- A database where user 8 was active at moment 100.
abbrev active : Table
active = record { entries = (bytes "ActiveTimestamp:8", bytes "100") ∷ []; indexes = [] }

active_entry : read (inside active) (active_timestamp_key (pos 8)) ≡ ok (format_int (pos 100))
unfolding read ddbot_nexus.Buntdb.Memory.lookup ddbot_nexus.Prelude.◌==ₜ◌ active_timestamp_key
    ddbot_nexus.Buntdb.Key.family_key ddbot_nexus.Prelude.join ddbot_nexus.Buntdb.Key.family_name
    format_int
active_entry = refl

mark_of_100 : Stored memory_laws (pos 8) active (pos 100)
mark_of_100 = rw (memory-begin active) (active_entry)

mark_latest_active_monotone_example :
    ((d' : Table) × (mark_latest_active (pos 8) (pos 60) (idle active) ≡ (ok tt, idle d'))
      × Stored memory_laws (pos 8) d' (pos 60)
      × (int_ltb (pos 60) (pos 100) ≡ false))
    ⊎ ((e : Error) × (mark_latest_active (pos 8) (pos 60) (idle active) ≡ (err e, idle active)))
mark_latest_active_monotone_example =
    mark_latest_active_monotone memory_laws (pos 8) active (pos 100) (pos 60) (omega arith)
      mark_of_100
