-- ===== src/Sites/Laws.antt =====
-- What the state manager of lsp/bilibili stores and deletes.
use ddbot_nexus.Prelude.{
  if◌then◌else◌, Bool-cases, Text, ◌==ₜ◌, ==ₜ_refl, ==ₜ_eq, ==ₜ_iff, elem, ℤ, ◌≡◌, refl, sym, ap,
  ◌∙◌, ◌≢◌, inl, inr, Bool, true, false, ◌||◌, some, List, [], ◌∷◌, arith,
}
use ddbot_nexus.Sites.{set_info, set_with_user, hours}
use ddbot_nexus.Sites.Bilibili.{
  Infos, user_info_key, current_live_key, current_news_key, get_user_info, add_live_info,
  get_live_info, delete_news_and_live_info, then_delete, first_error, delete_each, keys_of_mid,
  clear_by_mid, uid_first_timestamp_key, not_live_key,
}
use ddbot_nexus.Buntdb.Interface.{
  BuntDb, BuntDbLaws, not_found, ok, err, Error, Reply, is_not_found, is_ok, replaced, Reply-cases,
}
use ddbot_nexus.Buntdb.Key.{
  int_part, bilibili_current_live, bilibili_user_info, KeyFamily, family_key, bilibili_current_news,
  bilibili_uid_first_timestamp, bilibili_not_live_count,
}
use ddbot_nexus.Buntdb.Key.Laws.{family_key-injective}
use ddbot_nexus.Buntdb.Options.{Options, no_option, set_expire_opt}
use ddbot_nexus.Buntdb.ShortCut.{
  Session, rw_cover_tx, no_over_write_reply, set, idle, ◌>>◌, Act, continue, closed, inside,
}
use ddbot_nexus.Buntdb.ShortCut.Laws.{IsLive, set_reply, read, rw_cover-live, set-IsLive, read-set}
use ddbot_nexus.Buntdb.Json.{Codec, Encodes, set_json-set, get_json-read}
use ddbot_nexus.Permission.{drop_value}

apart : (s t : Text) → s ≢ t → (s ==ₜ t) ≡ false
apart s t h = elim (Bool-cases (s ==ₜ t)) [ inl e ↦ absurd (h (==ₜ_eq s t e)) | inr e ↦ e ]

err_same : (e f : Error) → ◌≡◌ {A = Reply Text} (err e) (err f) → e ≡ f
err_same e f h = cc h

user_live_apart : (m n : ℤ) → (current_live_key m ==ₜ user_info_key n) ≡ false
unfolding current_live_key user_info_key
user_live_apart m n = apart _ _ λ e. cc (
    family_key-injective bilibili_current_live bilibili_user_info (int_part m ∷ [])
      (int_part n ∷ []) e)

-- The key of a family for a member.
abbrev pub of_member : KeyFamily → ℤ → Text
of_member family mid = family_key family (int_part mid ∷ [])

module _ ⦃b : BuntDb⦄ where
  plain_reply :
      (c : Bool) (r : Reply Text)
      → c ≡ false
      → drop_value (no_over_write_reply c (ok (replaced r))) ≡ ok tt
  unfolding drop_value no_over_write_reply
  plain_reply true r h = cc h
  plain_reply false (ok v) h = refl
  plain_reply false (err e) h = refl

  then_delete_missing :
      (p : Reply Text × b.Tx) (key : Text)
      → ((e : Error) → p.0 ≡ err e → is_not_found e ≡ true)
      → (b.delete p.1 key).0 ≡ err not_found
      → (then_delete p key).0 ≡ err not_found
  then_delete_missing (ok v, t) key h g = rw g (unfold drop_value in refl)
  then_delete_missing (err e, t) key h g = rw (h e refl, g) (unfold drop_value in refl)

module _ ⦃b : BuntDb⦄ (l : BuntDbLaws b) where
  open l use {Live}

  set_info-set :
      {A : Type 0} (j : Codec A) (key : Text) (a : A) (o : Options) (s : Session) (v : Text)
      → Encodes j a v
      → IsLive l s
      → o.no_over_write ≡ false
      → set_info j key a o s ≡ (ok tt, (set key v o s).1)
  unfolding set_info
  set_info-set j key a o s v e live plain =
      let s' = (set key v o s).1 in
      rw (set_json-set l j key a o s e) (
        ap (λ r. (drop_value r, s')) (set_reply l s key v o live)
        ∙ ap (λ r. (r, s')) (plain_reply o.no_over_write (read s key) plain))

  then_ok :
      {B : Type 0} (m : Act (Unit {0})) (n : Act B) (s s' : Session)
      → m s ≡ (ok tt, s')
      → (m >> n) s ≡ n s'
  then_ok m n s s' h = ap (λ x. continue x.0 (λ _. n) x.1) h

  set_with_user-set :
      {U A : Type 0} (ju : Codec U) (ja : Codec A) (user_key : Text) (who : U) (key : Text) (a : A)
      (o : Options) (s : Session) (u v : Text)
      → Encodes ju who u
      → Encodes ja a v
      → IsLive l s
      → o.no_over_write ≡ false
      → set_with_user ju ja user_key who key a o s
        ≡ (ok tt, (set key v o (set user_key u no_option s).1).1)
  unfolding set_with_user
  set_with_user-set ju ja user_key who key a o s u v eu ev live plain =
      let s' = (set user_key u no_option s).1 in
      let m = set_info ju user_key who no_option in
      let n = set_info ja key a o in
      rw_cover-live l (m >> n) s live
      ∙ then_ok m n s s' (set_info-set ju user_key who no_option s u eu live refl)
      ∙ set_info-set ja key a o s' v ev (set-IsLive l s user_key u no_option live) plain

  -- In a live session, an object of which the JSON can be read is stored with its user: AddLiveInfo
  -- answers with no error, and GetLiveInfo and GetUserInfo then find the two.
  pub get_live_info-add_live_info :
      (i : Infos) (live : i.LiveInfo) (v u : Text) (s : Session)
      → IsLive l s
      → Encodes i.live_codec live v
      → Encodes i.user_codec (i.live_user live) u
      → ((add_live_info i (some live) s).0 ≡ ok tt)
        × ((get_live_info i (i.user_mid (i.live_user live)) (add_live_info i (some live) s).1).0
            ≡ ok (some live))
        × ((get_user_info i (i.user_mid (i.live_user live)) (add_live_info i (some live) s).1).0
            ≡ ok (some (i.live_user live)))
  unfolding add_live_info get_live_info get_user_info
  get_live_info-add_live_info i live v u s alive ev eu =
      let who = i.live_user live in
      let mid = i.user_mid who in
      let o = set_expire_opt (hours 168) no_option in
      let s₁ = (set (user_info_key mid) u no_option s).1 in
      let s₂ = (set (current_live_key mid) v o s₁).1 in
      let live₁ : IsLive l s₁ = set-IsLive l s (user_info_key mid) u no_option alive in
      let live₂ : IsLive l s₂ = set-IsLive l s₁ (current_live_key mid) v o live₁ in
      let whole =
        set_with_user-set i.user_codec i.live_codec (user_info_key mid) who (current_live_key mid)
          live o s u v eu ev alive refl in
      rw whole (
        refl,
        get_json-read l i.live_codec (current_live_key mid) live s₂ v live₂ ev (
            read-set l s₁ (current_live_key mid) (current_live_key mid) v o live₁
            ∙ rw (==ₜ_refl (current_live_key mid))),
        get_json-read l i.user_codec (user_info_key mid) who s₂ u live₂ eu (
            read-set l s₁ (current_live_key mid) (user_info_key mid) v o live₁
            ∙ rw (user_live_apart mid mid) (
                read-set l s (user_info_key mid) (user_info_key mid) u no_option alive
                ∙ rw (==ₜ_refl (user_info_key mid)))),
      )

  missing_only :
      (t : b.Tx) (key : Text)
      → Live t
      → (e : Error) → (b.delete t key).0 ≡ err e
      → is_not_found e ≡ true
  unfolding is_not_found
  missing_only t key live e h =
      let found : b.get t key false ≡ err e = sym (l.delete_reply t key live) ∙ h in
      let same : err e ≡ err not_found = sym found ∙ l.get_reply t key live (ap is_ok found) in
      rw (err_same e not_found same)

  still_missing :
      (c : Bool) (r : Reply Text)
      → r ≡ err not_found
      → (if c then err not_found else r) ≡ err not_found
  still_missing true r h = refl
  still_missing false r h = h

  -- A member of whom no news is stored keeps his live: DeleteNewsAndLiveInfo, in a transaction of its
  -- own, then answers that the key is not found, and the database is as it was.
  pub delete_news_and_live_info_undone :
      (mid : ℤ) (d : b.Db)
      → b.get (l.begin d) (current_news_key mid) false ≡ err not_found
      → delete_news_and_live_info mid (idle d) ≡ (err not_found, idle d)
  unfolding delete_news_and_live_info rw_cover_tx
  delete_news_and_live_info_undone mid d h =
      let t = l.begin d in
      let live = l.begin-Live d in
      let key = current_live_key mid in
      let news = current_news_key mid in
      let t' = (b.delete t key).1 in
      let gone : b.get t' news false ≡ err not_found =
        l.get-delete t key news live ∙ still_missing (key ==ₜ news) (b.get t news false) h in
      let failed : (then_delete (b.delete t key) news).0 ≡ err not_found =
        then_delete_missing (b.delete t key) news (missing_only t key live)
          (l.delete_reply t' news (l.delete-Live t key live) ∙ gone) in
      ap (λ x. (x.0, idle x.1))
        (l.update_err (Unit {0}) d (λ t. then_delete (b.delete t key) news) not_found failed)

  forgiven :
      (t : b.Tx) (key : Text) (rest : Reply (Unit {0}))
      → Live t
      → first_error (b.delete t key).0 rest ≡ rest
  forgiven t key rest live = elim (Reply-cases (b.delete t key).0) [
    | inl (v, e) ↦ rw e
    | inr (e', e) ↦ rw (e, missing_only t key live e' e)
  ]

  last_or :
      (a b c d e : Bool) → (a || (b || (c || (d || (e || false))))) ≡ (a || (b || (c || (d || e))))
  last_or a b c d e = ground arith

  elem-keys_of_mid :
      (mid : ℤ) (j : Text)
      → elem j (keys_of_mid mid) ≡ (
          j ==ₜ of_member bilibili_current_live mid
          || (j ==ₜ of_member bilibili_current_news mid
              || (j ==ₜ of_member bilibili_uid_first_timestamp mid
                  || (j ==ₜ of_member bilibili_user_info mid
                      || j ==ₜ of_member bilibili_not_live_count mid))))
  unfolding elem current_live_key current_news_key uid_first_timestamp_key user_info_key
      not_live_key
  elem-keys_of_mid mid j =
      last_or (j ==ₜ current_live_key mid) (j ==ₜ current_news_key mid)
        (j ==ₜ uid_first_timestamp_key mid) (j ==ₜ user_info_key mid) (j ==ₜ not_live_key mid)

  delete_each_lem :
      (keys : List Text) (t : b.Tx)
      → Live t
      → ((delete_each keys t).0 ≡ ok tt)
        × Live (delete_each keys t).1
        × ((j : Text)
            → b.get (delete_each keys t).1 j false
              ≡ (if elem j keys then err not_found else b.get t j false))
  unfolding delete_each elem
  delete_each_lem [] t live = (refl, live, λ j. refl)
  delete_each_lem (key ∷ keys) t live =
      let t' = (b.delete t key).1 in
      let (reply, live', gets) = delete_each_lem keys t' (l.delete-Live t key live) in
      (
        forgiven t key (delete_each keys t').0 live ∙ reply,
        live',
        λ j. gets j ∙ ground (arith, l.get-delete t key j live, ==ₜ_iff key j, ==ₜ_iff j key),
      )

  -- In a live session, ClearByMid answers with no error whether or not anything is stored, removes the
  -- live, the news, the first timestamp, the user and the count of offline checks that are stored under
  -- the number of the member, and leaves all other entries as they were.
  pub clear_by_mid-read :
      (mid : ℤ) (s : Session)
      → IsLive l s
      → ((clear_by_mid mid s).0 ≡ ok tt)
        × ((j : Text)
            → read (clear_by_mid mid s).1 j ≡ (
                if j ==ₜ of_member bilibili_current_live mid
                  || (j ==ₜ of_member bilibili_current_news mid
                      || (j ==ₜ of_member bilibili_uid_first_timestamp mid
                          || (j ==ₜ of_member bilibili_user_info mid
                              || j ==ₜ of_member bilibili_not_live_count mid)))
                then err not_found
                else read s j))
  unfolding clear_by_mid rw_cover_tx read
  clear_by_mid-read mid closed live = absurd live
  clear_by_mid-read mid (idle d) live = absurd live
  clear_by_mid-read mid (inside t) live =
      let (reply, live', gets) = delete_each_lem (keys_of_mid mid) t live in
      (
        reply,
        λ j.
            gets j
            ∙ ap (λ x. if x then err not_found else b.get t j false) (elem-keys_of_mid mid j),
      )
