-- ===== src/Tests/Bot.antt =====
-- The bot's own state (lsp/stateManager.go) on an empty database in memory.
use ddbot_nexus.Prelude.{
  if◌then◌else◌, Text, bytes, ◌==ₜ◌, pos, ◌≡◌, refl, true, false, ◌||◌, some, List, [], ◌∷◌, arith,
}
use ddbot_nexus.BotState.{
  ImageElement, mute_key, invitor_key, friend_request_key, is_known_mode, save_message_image_url,
  get_message_image_url, muted, is_muted, save_group_invitor, pop_group_invitor, set_mode,
  get_current_mode, save_request, get_request, delete_request, group_image, friend_image,
  other_element, image_urls,
}
use ddbot_nexus.BotState.Laws.{
  get_current_mode-set_mode, is_muted-muted, get_message_image_url-save,
  pop_group_invitor-save_group_invitor, get_request-save_request,
}
use ddbot_nexus.Buntdb.Json.{Codec, Encodes}
use ddbot_nexus.Buntdb.Interface.{Reply, is_ok, not_found, nil_object, ok, err}
use ddbot_nexus.Buntdb.Memory.{Table, memory, memory_laws, memory_laws-Live, lookup}
use ddbot_nexus.Buntdb.ShortCut.{Session, inside}
use ddbot_nexus.Buntdb.ShortCut.Laws.{read}

abbrev pub empty_table : Table
empty_table = record { entries = []; indexes = [] }

abbrev session : Session
session = inside empty_table

live : memory_laws.Live empty_table
live = memory_laws-Live empty_table

-- Requests that are texts, each encoded with a letter before it.
abbrev pub after_letter : Text → Reply Text
after_letter [] = err nil_object
after_letter (c ∷ v) = ok v

abbrev pub letter_codec : Codec Text
letter_codec = record { encode = λ v. ok (b'r' ∷ v); decode = after_letter }

abbrev pictures : List ImageElement
pictures =
    group_image (bytes "http://a/1")
    ∷ other_element
    ∷ friend_image []
    ∷ friend_image (bytes "http://b/2")
    ∷ []

get_current_mode-set_mode_test :
    ((get_current_mode (set_mode (bytes "private") session).1).0
      ≡ (if is_known_mode (bytes "private") then bytes "private" else (get_current_mode session).0))
    × (is_ok (set_mode (bytes "private") session).0 ≡ is_known_mode (bytes "private"))
get_current_mode-set_mode_test =
    get_current_mode-set_mode memory_laws session live (bytes "private")

is_muted-muted_test :
    ((is_muted (pos 5) (pos 9) (muted (pos 5) (pos 9) (pos 60) session).1).0 ≡ true)
    × (is_ok (muted (pos 5) (pos 9) (pos 60) session).0
        ≡ (true || (is_muted (pos 5) (pos 9) session).0))
    × ((j : Text)
        → (mute_key (pos 5) (pos 9) ==ₜ j) ≡ false
        → read (muted (pos 5) (pos 9) (pos 60) session).1 j ≡ read session j)
is_muted-muted_test = is_muted-muted memory_laws session live (pos 5) (pos 9) (pos 60)

get_message_image_url-save_test :
    (get_message_image_url
      (pos 5)
      (pos 1)
      (save_message_image_url (pos 5) (pos 1) pictures session).1).0
    ≡ bytes "http://a/1" ∷ bytes "http://b/2" ∷ []
unfolding ddbot_nexus.BotState.image_urls
get_message_image_url-save_test =
    get_message_image_url-save memory_laws session live (pos 5) (pos 1) pictures refl

pop_group_invitor-save_group_invitor_test :
    ((save_group_invitor (pos 5) (pos 9) session).0 ≡ ok tt)
    × ((pop_group_invitor (pos 5) (save_group_invitor (pos 5) (pos 9) session).1).0 ≡ ok (pos 9))
    × (read
          (pop_group_invitor (pos 5) (save_group_invitor (pos 5) (pos 9) session).1).1
          (invitor_key (pos 5))
        ≡ err not_found)
unfolding read ddbot_nexus.Buntdb.Memory.lookup
pop_group_invitor-save_group_invitor_test =
    pop_group_invitor-save_group_invitor memory_laws session live (pos 5) (pos 9) (omega arith)

pub letter_codec-Encodes : Encodes letter_codec (bytes "add") (bytes "radd")
letter_codec-Encodes = record { encoded = refl; decoded = refl; not_empty = refl }

get_request-save_request_test :
    ((save_request letter_codec friend_request_key (pos 7) (bytes "add") session).0 ≡ ok tt)
    × ((get_request letter_codec friend_request_key
          (pos 7)
          (save_request letter_codec friend_request_key (pos 7) (bytes "add") session).1).0
        ≡ ok (some (bytes "add")))
    × ((get_request letter_codec friend_request_key
          (pos 7)
          (delete_request letter_codec friend_request_key
            (pos 7)
            (save_request letter_codec friend_request_key (pos 7) (bytes "add") session).1).1).0
        ≡ err not_found)
get_request-save_request_test =
    get_request-save_request memory_laws session live letter_codec friend_request_key (pos 7)
      (bytes "add") (bytes "radd") letter_codec-Encodes
