-- ===== src/Concern/Config/Operate.antt =====
-- GetGroupConcernConfig and OperateGroupConcernConfig (lsp/concern/stateManager.go) with Validate
-- (lsp/concern/config.go): the configuration of a group for an id, as it is stored.
use ddbot_nexus.Prelude.{
  if◌then◌else◌, Bool-cases, is_empty, Text, ==ₜ_refl, ℤ, ◌≡◌, refl, ap, ◌∙◌, inl, inr, Bool, false,
  ◌&&◌, not, Option, none, some, [], ◌∷◌,
}
use ddbot_nexus.Buntdb.Interface.{
  Reply, BuntDb, BuntDbLaws, rollback, config_not_supported, ok, err, is_ok, Reply-cases,
}
use ddbot_nexus.Buntdb.Key.{int_part}
use ddbot_nexus.Buntdb.Options.{no_option, ignore_not_found_opt}
use ddbot_nexus.Buntdb.ShortCut.{Session, Act, rw_cover, get, set}
use ddbot_nexus.Buntdb.ShortCut.Laws.{
  IsLive, or_empty, rw_cover-live, get_ignoring-read, set-IsLive, set_plain_reply, read-set,
}
use ddbot_nexus.Buntdb.Json.{set_encoded}
use ddbot_nexus.Concern.KeySet.{ConcernId, id_part, group_concern_config_key}
use ddbot_nexus.Concern.StateManager.{Manager}
use ddbot_nexus.Concern.Config.{GroupConcernAtConfig}
use ddbot_nexus.Concern.Config.Hooks.{GroupConcernNotifyConfig, GroupConcernFilterConfig, validates}
use ddbot_nexus.Permission.{drop_value}

pub record GroupConcernConfig : Type 0 where
  pub group_concern_at : GroupConcernAtConfig
  pub group_concern_notify : GroupConcernNotifyConfig
  pub group_concern_filter : GroupConcernFilterConfig

-- The JSON library, a parameter: the text of a configuration, and the configuration that decoding a
-- text leaves, none where the pointer stays nil.
pub record ConfigJson : Type 0 where
  pub encode : GroupConcernConfig → Reply Text
  pub decoded : Text → Option GroupConcernConfig

abbrev pub new_config : GroupConcernConfig
new_config = record {
  group_concern_at = record { at_all = []; at_someone = [] };
  group_concern_notify = record { title_change_notify = []; offline_notify = [] };
  group_concern_filter = record { kind = []; config = [] };
}

-- Validate of lsp/concern, which a site may override.
unfoldable pub validate_default : GroupConcernConfig → Reply (Unit {0})
validate_default c = if validates c.group_concern_filter then ok tt else err config_not_supported

abbrev pub config_or_new : Option GroupConcernConfig → GroupConcernConfig
config_or_new none = new_config
config_or_new (some c) = c

unfoldable pub config_of : ConfigJson → Reply Text → GroupConcernConfig
config_of j (err e) = new_config
config_of j (ok []) = new_config
config_of j (ok (c ∷ v)) = config_or_new (j.decoded (c ∷ v))

abbrev pub config_key : Manager → ℤ → ConcernId → Text
config_key c g i = group_concern_config_key c.keys (int_part g ∷ id_part i ∷ [])

module _ ⦃b : BuntDb⦄ (j : ConfigJson) (c : Manager) (g : ℤ) (i : ConcernId) where
  unfoldable pub get_group_concern_config : Session → GroupConcernConfig × Session
  unfolding config_of
  get_group_concern_config s =
      let (r, s') = get (config_key c g i) (ignore_not_found_opt no_option) s in (config_of j r, s')

  unfoldable pub save_config : GroupConcernConfig → Act (Unit {0})
  unfolding get_group_concern_config
  save_config cfg s =
      let (stored, s') = get_group_concern_config s in
      let merged : GroupConcernConfig = record stored {
        group_concern_notify = cfg.group_concern_notify;
        group_concern_at = cfg.group_concern_at;
        group_concern_filter = cfg.group_concern_filter;
      } in
      let (r, s'') = set_encoded (config_key c g i) no_option (j.encode merged) s' in
      (drop_value r, s'')

  -- `f` changes the configuration and says whether to save it; `validate` is the configuration's own
  -- Validate.
  unfoldable pub operate_group_concern_config :
      (GroupConcernConfig → Reply (Unit {0}))
      → GroupConcernConfig
      → (GroupConcernConfig → Bool × GroupConcernConfig)
      → Act (Unit {0})
  unfolding save_config
  operate_group_concern_config validate cfg f = rw_cover λ s.
      let (accepted, cfg') = f cfg in
      let saved = save_config cfg' s in
      if not accepted
      then (err rollback, s)
      else elim (validate cfg') [ err e ↦ (err e, s) | ok x ↦ saved ]

module _ ⦃b : BuntDb⦄ (l : BuntDbLaws b) (s : Session) (live : IsLive l s) (j : ConfigJson)
    (c : Manager) (g : ℤ) (i : ConcernId) where
  save_config-set :
      (cfg : GroupConcernConfig) (v : Text)
      → j.encode cfg ≡ ok v
      → let (r, s') = set (config_key c g i) v no_option s in
        save_config j c g i cfg s ≡ (drop_value r, s')
  unfolding save_config
  save_config-set cfg v enc = rw (get_ignoring-read l s (config_key c g i) live) (rw enc refl)

  config_of_text :
      (cfg : GroupConcernConfig) (v : Text)
      → j.decoded v ≡ some cfg
      → is_empty v ≡ false
      → config_of j (ok v) ≡ cfg
  unfolding config_of
  config_of_text cfg [] dec full = cc full
  config_of_text cfg (x ∷ v) dec full = rw dec refl

  get_group_concern_config-set :
      (cfg : GroupConcernConfig) (v : Text)
      → j.decoded v ≡ some cfg
      → is_empty v ≡ false
      → (get_group_concern_config j c g i (set (config_key c g i) v no_option s).1).0 ≡ cfg
  unfolding get_group_concern_config
  get_group_concern_config-set cfg v dec full =
      let key = config_key c g i in
      let s' = (set key v no_option s).1 in
      rw
        (
          get_ignoring-read l s' key (set-IsLive l s key v no_option live),
          read-set l s key key v no_option live,
          ==ₜ_refl key,
        )
        (unfold or_empty in config_of_text cfg v dec full)

  -- In a live session, for a function `f` whose result is encoded as a text that is not empty and that
  -- decodes to it: OperateGroupConcernConfig answers that it rolls back where `f` refuses, else as the
  -- configuration's own Validate does on the result of `f`; the configuration that is read afterwards
  -- is the result of `f` where that is accepted and valid, and what was read before in all other cases.
  pub operate_group_concern_config-get :
      (validate : GroupConcernConfig → Reply (Unit {0})) (cfg : GroupConcernConfig)
      (f : GroupConcernConfig → Bool × GroupConcernConfig) (v : Text)
      → j.encode (f cfg).1 ≡ ok v
      → j.decoded v ≡ some (f cfg).1
      → is_empty v ≡ false
      → ((operate_group_concern_config j c g i validate cfg f s).0
          ≡ (if (f cfg).0 then validate (f cfg).1 else err rollback))
        × ((get_group_concern_config j c g i
              (operate_group_concern_config j c g i validate cfg f s).1).0
            ≡ (if (f cfg).0 && is_ok (validate (f cfg).1)
                then (f cfg).1
                else (get_group_concern_config j c g i s).0))
  unfolding operate_group_concern_config
  operate_group_concern_config-get validate cfg f v enc dec full =
      let cfg' = (f cfg).1 in
      rw (rw_cover-live l _ s live) (elim (Bool-cases (f cfg).0) [
        | inr e ↦ rw e (refl, refl)
        | inl e ↦ elim (Reply-cases (validate cfg')) [
          | inr (x, e') ↦ rw e (rw e' (refl, refl))
          | inl (u, e') ↦ rw e (
              rw e' (
                ap (λ x. x.0) (save_config-set cfg' v enc)
                    ∙ ap drop_value (set_plain_reply l s (config_key c g i) v live)
                    ∙ unfold drop_value in refl,
                ap (λ x. (get_group_concern_config j c g i x.1).0) (save_config-set cfg' v enc)
                    ∙ get_group_concern_config-set cfg' v dec full,
              ))
        ]
      ])
