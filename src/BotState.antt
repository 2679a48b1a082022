-- ===== src/BotState.antt =====
-- lsp/stateManager.go: the bot's own state in the database: image URLs of messages, mutes, who
-- invited the bot, the mode, and requests that wait for an answer. What a request is, and its JSON,
-- is a parameter.
pub mod Laws
use ddbot_nexus.Prelude.{
  if◌then◌else◌, is_empty, Text, bytes, ◌==ₜ◌, join, split_at, ℤ, pos, negsuc, ℕ, zero, suc, ◌*◌,
  Bool, ◌||◌, Option, List, [], ◌∷◌,
}
use ddbot_nexus.Buntdb.Interface.{Reply, BuntDb, key_exist, other, ok, err}
use ddbot_nexus.Buntdb.Key.{
  KeyPart, family_key, int_part, group_message_image, group_mute, group_invitor, mode,
  new_friend_request, group_invited,
}
use ddbot_nexus.Buntdb.Options.{no_option, set_expire_opt, set_no_over_write_opt}
use ddbot_nexus.Buntdb.ShortCut.{
  Session, Act, ◌>>=◌, pure, with_tx, rw_cover, r_cover_tx, set, get, delete, exist, delete_int64,
  set_int64, create_pattern_index,
}
use ddbot_nexus.Buntdb.Json.{Codec, get_json, set_json}
use ddbot_nexus.Permission.{rollback_as, drop_value}

-- The elements of a message that SaveMessageImageUrl tells apart; `other_image` is an element of
-- type Image that is neither a group's nor a friend's.
pub data ImageElement : Type 0 where
  group_image friend_image : Text → ImageElement
  other_image other_element : ImageElement

unfoldable pub image_urls : List ImageElement → List Text
image_urls [] = []
image_urls (group_image url ∷ es) =
    let rest = image_urls es in if is_empty url then rest else url ∷ rest
image_urls (friend_image url ∷ es) =
    let rest = image_urls es in if is_empty url then rest else url ∷ rest
image_urls (other_image ∷ es) = image_urls es
image_urls (other_element ∷ es) = image_urls es

-- A duration of so many seconds.
abbrev pub seconds : ℕ → ℤ
seconds n = pos (n * 1000000000)

unfoldable pub image_key : ℤ → ℤ → Text
image_key group message = family_key group_message_image (int_part group ∷ int_part message ∷ [])

unfoldable pub mute_key : ℤ → ℤ → Text
mute_key group uin = family_key group_mute (int_part group ∷ int_part uin ∷ [])

unfoldable pub invitor_key : ℤ → Text
invitor_key group = family_key group_invitor (int_part group ∷ [])

unfoldable pub mode_key : Text
mode_key = family_key mode []

unfoldable pub friend_request_key : List KeyPart → Text
friend_request_key keys = family_key new_friend_request keys

unfoldable pub invited_request_key : List KeyPart → Text
invited_request_key keys = family_key group_invited keys

abbrev pub Mode : Type 0
Mode = Text

abbrev pub public_mode : Mode
public_mode = bytes "public"

abbrev pub private_mode : Mode
private_mode = bytes "private"

abbrev pub protect_mode : Mode
protect_mode = bytes "protect"

abbrev pub is_known_mode : Mode → Bool
is_known_mode m = m ==ₜ public_mode || m ==ₜ private_mode || m ==ₜ protect_mode

unfoldable pub known_mode_or_public : Reply Text → Mode
known_mode_or_public (ok m) = if is_known_mode m then m else public_mode
known_mode_or_public (err e) = public_mode

unfoldable pub urls_of : Reply Text → List Text
urls_of (ok v) = split_at b' ' v
urls_of (err e) = []

module _ ⦃b : BuntDb⦄ where
  unfoldable pub save_urls : Text → List Text → Act (Unit {0})
  save_urls key [] s = (ok tt, s)
  save_urls key (url ∷ urls) s =
      let (r, s') = set key (join b' ' (url ∷ urls)) (set_expire_opt (seconds 28800) no_option) s in
      (drop_value r, s')

  unfoldable pub save_message_image_url : ℤ → ℤ → List ImageElement → Act (Unit {0})
  unfolding save_urls
  save_message_image_url group message msgs = save_urls (image_key group message) (image_urls msgs)

  unfoldable pub get_message_image_url : ℤ → ℤ → Session → List Text × Session
  unfolding urls_of
  get_message_image_url group message s =
      let (r, s') = get (image_key group message) no_option s in (urls_of r, s')

  -- A time of 0 ends the mute, a negative one mutes all members with no end.
  unfoldable pub mute_for : Text → ℤ → Act (Unit {0})
  mute_for key (pos zero) s = let (r, s') = delete key no_option s in (drop_value r, s')
  mute_for key (pos (suc n)) s =
      let (r, s') = set key [] (set_expire_opt (seconds (suc n)) no_option) s in (drop_value r, s')
  mute_for key (negsuc n) s = let (r, s') = set key [] no_option s in (drop_value r, s')

  unfoldable pub muted : ℤ → ℤ → ℤ → Act (Unit {0})
  unfolding mute_for
  muted group uin t = rw_cover (mute_for (mute_key group uin) t)

  unfoldable pub is_muted : ℤ → ℤ → Session → Bool × Session
  is_muted group uin = exist (mute_key group uin) no_option

  unfoldable pub save_group_invitor : ℤ → ℤ → Act (Unit {0})
  save_group_invitor group uin s =
      let (r, s') = set_int64 (invitor_key group) uin (set_no_over_write_opt no_option) s in
      (rollback_as key_exist r, s')

  unfoldable pub pop_group_invitor : ℤ → Act ℤ
  pop_group_invitor group = delete_int64 (invitor_key group) no_option

  unfoldable pub set_mode : Mode → Act (Unit {0})
  set_mode m s =
      if is_known_mode m
      then (let (r, s') = set mode_key m no_option s in (drop_value r, s'))
      else (err (other 0), s)

  unfoldable pub get_current_mode : Session → Mode × Session
  unfolding known_mode_or_public
  get_current_mode s = let (r, s') = get mode_key no_option s in (known_mode_or_public r, s')

  unfoldable pub is_mode : Mode → Session → Bool × Session
  unfolding get_current_mode
  is_mode m s = let (now, s') = get_current_mode s in (now ==ₜ m, s')

  unfoldable pub fresh_index : Session → Session
  fresh_index s =
      (create_pattern_index (family_key group_invited []) []
        (create_pattern_index (family_key new_friend_request []) [] s).1).1

-- Requests; `key_of_request` is the family of their keys.
module _ ⦃b : BuntDb⦄ {A : Type 0} (j : Codec A) (key_of_request : List KeyPart → Text) where
  open b use {Tx}

  unfoldable pub save_request : ℤ → A → Act (Unit {0})
  save_request id request s =
      let (r, s') = set_json j (key_of_request (int_part id ∷ [])) request no_option s in
      (drop_value r, s')

  unfoldable pub get_request : ℤ → Act (Option A)
  get_request id = get_json j (key_of_request (int_part id ∷ [])) no_option

  unfoldable pub delete_request : ℤ → Act (Unit {0})
  delete_request id s =
      let (r, s') = delete (key_of_request (int_part id ∷ [])) no_option s in (drop_value r, s')

  -- The items of an index's entries, each read by its key; the first error ends the walk.
  unfoldable pub read_items : List (Text × Text) → Act (List (Option A))
  read_items [] s = (ok [], s)
  read_items ((key, value) ∷ entries) s =
      (get_json j key no_option >>= λ item. read_items entries >>= λ items. pure (item ∷ items)) s

  -- An index that is not there gives no items, and no error.
  unfoldable pub walk : Reply (List (Text × Text)) → Act (List (Option A))
  unfolding read_items
  walk (err e) s = (ok [], s)
  walk (ok entries) s = read_items entries s

  unfoldable pub list_requests : Act (List (Option A))
  unfolding walk with_tx
  list_requests = r_cover_tx λ t. with_tx (walk (b.ascend t (key_of_request []))) t
