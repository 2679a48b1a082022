-- ===== src/BotState/Laws.antt =====
-- The bot's own state (lsp/stateManager.go) in a live session.
use ddbot_nexus.Prelude.{
  if◌then◌else◌, Bool-cases, all, is_empty, Text, ◌==ₜ◌, ==ₜ_refl, lacks, join, split_at-join, ℤ,
  pos, negsuc, format_int, IsInt64, zero, suc, ◌≡◌, refl, ap, ◌∙◌, inl, inr, Bool, true, false,
  ◌||◌, not, some, List, [], ◌∷◌, arith,
}
use ddbot_nexus.Buntdb.Interface.{
  Reply, is_ok, BuntDb, BuntDbLaws, ok, err, replaced, is_rollback, not_found, key_exist,
}
use ddbot_nexus.Buntdb.ShortCut.{Session, no_over_write_reply, set, delete, delete_int64, set_int64}
use ddbot_nexus.Buntdb.ShortCut.Laws.{
  IsLive, read, get-read, rw_cover-live, exist-read, set-IsLive, set_reply, set_plain_reply,
  read-set, delete-IsLive, delete_reply, read-delete, int64_wrapper-format_int,
}
use ddbot_nexus.BotState.{
  mode_key, Mode, is_known_mode, known_mode_or_public, muted, is_muted, set_mode, get_current_mode,
  seconds, mute_key, mute_for, ImageElement, image_urls, image_key, invitor_key, urls_of, save_urls,
  save_message_image_url, get_message_image_url, save_group_invitor, pop_group_invitor,
  save_request, get_request, delete_request,
}
use ddbot_nexus.Permission.{drop_value, rollback_as}
use ddbot_nexus.Buntdb.Options.{
  Options, no_option, set_expire_opt, set_no_over_write_opt, int64_wrapper,
}
use ddbot_nexus.Buntdb.Json.{
  Codec, Encodes, set_json, set_json-set, get_json-set_json, get_json_absent,
}
use ddbot_nexus.Buntdb.Key.{KeyPart, int_part}

is_ok-drop_value : {A : Type 0} (r : Reply A) → is_ok (drop_value r) ≡ is_ok r
unfolding drop_value
is_ok-drop_value (ok a) = refl
is_ok-drop_value (err e) = refl

abbrev pub is_zero : ℤ → Bool
is_zero (pos zero) = true
is_zero (pos (suc n)) = false
is_zero (negsuc n) = false

-- Whatever the database answers for the mode, it is read as one of the three modes.
pub known_mode-or_public : (r : Reply Text) → is_known_mode (known_mode_or_public r) ≡ true
unfolding known_mode_or_public ◌==ₜ◌
known_mode-or_public (ok m) = elim (Bool-cases (is_known_mode m)) [
  | inl e ↦ rw (e, e)
  | inr e ↦ rw e
]
known_mode-or_public (err e) = refl

module _ ⦃b : BuntDb⦄ (l : BuntDbLaws b) where
  current_mode-read :
      (s : Session) → IsLive l s → get_current_mode s ≡ (known_mode_or_public (read s mode_key), s)
  unfolding get_current_mode
  current_mode-read s live = rw (get-read l s mode_key live)

  is_muted-read :
      (group uin : ℤ) (s : Session)
      → IsLive l s
      → (is_muted group uin s).0 ≡ is_ok (read s (mute_key group uin))
  unfolding is_muted
  is_muted-read group uin s live = rw (exist-read l s (mute_key group uin) live)

module _ ⦃b : BuntDb⦄ (l : BuntDbLaws b) (s : Session) (live : IsLive l s) where
  stored_mode :
      (m : Mode) → is_known_mode m ≡ true → (get_current_mode (set mode_key m no_option s).1).0 ≡ m
  stored_mode m known =
      let s' = (set mode_key m no_option s).1 in
      ap (λ x. x.0) (current_mode-read l s' (set-IsLive l s mode_key m no_option live))
      ∙ ap known_mode_or_public (read-set l s mode_key mode_key m no_option live)
      ∙ rw (==ₜ_refl mode_key) (unfold known_mode_or_public in rw known)

  -- SetMode stores one of the three modes and answers with no error, and is answered with an error
  -- for any other; the mode that GetCurrentMode then finds is the new one, or the old one.
  pub get_current_mode-set_mode :
      (m : Mode)
      → ((get_current_mode (set_mode m s).1).0
          ≡ (if is_known_mode m then m else (get_current_mode s).0))
        × (is_ok (set_mode m s).0 ≡ is_known_mode m)
  unfolding set_mode
  get_current_mode-set_mode m = elim (Bool-cases (is_known_mode m)) [
    | inl e ↦ rw e (
      stored_mode m e,
      is_ok-drop_value (set mode_key m no_option s).0
          ∙ ap is_ok (set_plain_reply l s mode_key m live),
    )
    | inr e ↦ rw e (refl, refl)
  ]

  -- What a mute does: its reply, the member's entry, and the other entries.
  abbrev pub Mutes : Text → ℤ → Type 0
  Mutes key t =
      (is_ok (mute_for key t s).0 ≡ (not (is_zero t) || is_ok (read s key)))
      × (is_ok (read (mute_for key t s).1 key) ≡ not (is_zero t))
      × ((j : Text) → (key ==ₜ j) ≡ false → read (mute_for key t s).1 j ≡ read s j)
      × IsLive l (mute_for key t s).1

  set-Mutes :
      (key : Text) (o : Options)
      → no_over_write_reply o.no_over_write (ok (replaced (read s key)))
        ≡ ok (replaced (read s key))
      → (is_ok (drop_value (set key [] o s).0) ≡ true)
        × (is_ok (read (set key [] o s).1 key) ≡ true)
        × ((j : Text) → (key ==ₜ j) ≡ false → read (set key [] o s).1 j ≡ read s j)
        × IsLive l (set key [] o s).1
  set-Mutes key o plain = (
    is_ok-drop_value (set key [] o s).0 ∙ ap is_ok (set_reply l s key [] o live ∙ plain),
    ap is_ok (read-set l s key key [] o live) ∙ rw (==ₜ_refl key),
    λ j h. read-set l s key j [] o live ∙ rw h,
    set-IsLive l s key [] o live,
  )

  mute_for-Mutes : (key : Text) (t : ℤ) → Mutes key t
  unfolding mute_for
  mute_for-Mutes key (pos zero) = (
    is_ok-drop_value (delete key no_option s).0 ∙ ap is_ok (delete_reply l s key live),
    ap is_ok (read-delete l s key key no_option live) ∙ rw (==ₜ_refl key),
    λ j h. read-delete l s key j no_option live ∙ rw h,
    delete-IsLive l s key no_option live,
  )
  mute_for-Mutes key (pos (suc n)) =
      set-Mutes key (set_expire_opt (seconds (suc n)) no_option)
        (unfold no_over_write_reply in ground arith)
  mute_for-Mutes key (negsuc n) =
      set-Mutes key no_option (unfold no_over_write_reply in ground arith)

  -- After Muted with a time other than 0 the member is muted, and after a time of 0 no longer; Muted
  -- is answered with an error just when the time is 0 and the member was not muted; no other entry of
  -- the database changes.
  pub is_muted-muted :
      (group uin t : ℤ)
      → ((is_muted group uin (muted group uin t s).1).0 ≡ not (is_zero t))
        × (is_ok (muted group uin t s).0 ≡ (not (is_zero t) || (is_muted group uin s).0))
        × ((j : Text)
            → (mute_key group uin ==ₜ j) ≡ false
            → read (muted group uin t s).1 j ≡ read s j)
  unfolding muted
  is_muted-muted group uin t =
      let key = mute_key group uin in
      let (reply, there, others, live') = mute_for-Mutes key t in
      rw (rw_cover-live l (mute_for key t) s live) (
        is_muted-read l group uin (mute_for key t s).1 live' ∙ there,
        rw (is_muted-read l group uin s live) reply,
        others,
      )

read_int64 : (r : Reply Text) (z : ℤ) → IsInt64 z → r ≡ ok (format_int z) → int64_wrapper r ≡ ok z
read_int64 r z small h = rw h (int64_wrapper-format_int z small)

module _ ⦃b : BuntDb⦄ where
  guarded_reply :
      (r : Reply Text)
      → rollback_as key_exist (no_over_write_reply true (ok (replaced r)))
        ≡ (if is_ok r then err key_exist else ok tt)
  unfolding rollback_as no_over_write_reply is_rollback
  guarded_reply (ok v) = refl
  guarded_reply (err e) = refl

module _ ⦃b : BuntDb⦄ (l : BuntDbLaws b) (s : Session) (live : IsLive l s) where
  saved_urls :
      (group message : ℤ) (urls : List Text)
      → all (lacks b' ') urls ≡ true
      → (get_message_image_url group message (save_urls (image_key group message) urls s).1).0
        ≡ (if is_empty urls then (get_message_image_url group message s).0 else urls)
  unfolding save_urls get_message_image_url urls_of
  saved_urls group message [] h = refl
  saved_urls group message (url ∷ urls) h =
      let key = image_key group message in
      let o = set_expire_opt (seconds 28800) no_option in
      let v = join b' ' (url ∷ urls) in
      let s' = (set key v o s).1 in
      ap (λ x. urls_of x.0) (get-read l s' key (set-IsLive l s key v o live))
      ∙ ap urls_of (read-set l s key key v o live)
      ∙ rw (==ₜ_refl key)
          (unfold urls_of in split_at-join b' ' url urls (ground arith) (ground arith))

  -- SaveMessageImageUrl stores the URLs that are not empty of a message's images, and
  -- GetMessageImageUrl then finds them in order, where none holds a space; a message with no such
  -- image leaves what was there.
  pub get_message_image_url-save :
      (group message : ℤ) (msgs : List ImageElement)
      → all (lacks b' ') (image_urls msgs) ≡ true
      → (get_message_image_url group message (save_message_image_url group message msgs s).1).0 ≡ (
          if is_empty (image_urls msgs)
          then (get_message_image_url group message s).0
          else image_urls msgs)
  unfolding save_message_image_url
  get_message_image_url-save group message msgs = saved_urls group message (image_urls msgs)

  -- What SaveGroupInvitor writes, PopGroupInvitor returns, and removes; an entry that is there
  -- already makes SaveGroupInvitor answer that the key exists.
  pub pop_group_invitor-save_group_invitor :
      (group uin : ℤ)
      → IsInt64 uin
      → ((save_group_invitor group uin s).0
          ≡ (if is_ok (read s (invitor_key group)) then err key_exist else ok tt))
        × ((pop_group_invitor group (save_group_invitor group uin s).1).0 ≡ ok uin)
        × (read (pop_group_invitor group (save_group_invitor group uin s).1).1 (invitor_key group)
            ≡ err not_found)
  unfolding save_group_invitor pop_group_invitor delete_int64 set_int64
  pop_group_invitor-save_group_invitor group uin small =
      let key = invitor_key group in
      let o = set_no_over_write_opt no_option in
      let s' = (set key (format_int uin) o s).1 in
      let live' : IsLive l s' = set-IsLive l s key (format_int uin) o live in
      let there : read s' key ≡ ok (format_int uin) =
        read-set l s key key (format_int uin) o live ∙ rw (==ₜ_refl key) in
      (
        ap (rollback_as key_exist) (set_reply l s key (format_int uin) o live)
            ∙ guarded_reply (read s key),
        read_int64 (delete key no_option s').0 uin small (delete_reply l s' key live' ∙ there),
        read-delete l s' key key no_option live' ∙ rw (==ₜ_refl key),
      )

module _ ⦃b : BuntDb⦄ (l : BuntDbLaws b) (s : Session) (live : IsLive l s) {A : Type 0}
    (j : Codec A) (family : List KeyPart → Text) where
  -- A request that is saved, and whose JSON can be read, is the one that is found by its number, and
  -- after its deletion none is found.
  pub get_request-save_request :
      (id : ℤ) (request : A) (v : Text)
      → Encodes j request v
      → ((save_request j family id request s).0 ≡ ok tt)
        × ((get_request j family id (save_request j family id request s).1).0 ≡ ok (some request))
        × ((get_request j family id
              (delete_request j family id (save_request j family id request s).1).1).0
            ≡ err not_found)
  unfolding save_request get_request delete_request
  get_request-save_request id request v e =
      let key = family (int_part id ∷ []) in
      let s' = (set key v no_option s).1 in
      let live' : IsLive l s' = set-IsLive l s key v no_option live in
      let written : set_json j key request no_option s ≡ set key v no_option s =
        set_json-set l j key request no_option s e in
      (
        ap (λ x. drop_value x.0) written
            ∙ ap drop_value (set_plain_reply l s key v live)
            ∙ unfold drop_value in refl,
        get_json-set_json l j key request s live e,
        rw written (
            get_json_absent l j key (delete key no_option s').1
              (delete-IsLive l s' key no_option live')
              (read-delete l s' key key no_option live' ∙ rw (==ₜ_refl key))),
      )
