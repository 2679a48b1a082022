-- ===== src/Sites.antt =====
-- The state managers of the sites: what each stores of its subjects, over the helpers of lsp/buntdb.
-- What a site stores is a type with its JSON, a parameter.
pub mod Bilibili
pub mod Others
pub mod Laws
pub mod Activity
pub mod Config
use ddbot_nexus.Prelude.{Text, ℤ, pos, ℕ, ◌*◌, Option, none, some}
use ddbot_nexus.Buntdb.Interface.{BuntDb, nil_object}
use ddbot_nexus.Buntdb.Options.{Options, no_option}
use ddbot_nexus.Buntdb.ShortCut.{Act, ◌>>◌, throw, rw_cover, delete}
use ddbot_nexus.Buntdb.Json.{Codec, set_json}
use ddbot_nexus.Permission.{drop_value}

-- A duration of so many hours.
abbrev pub hours : ℕ → ℤ
hours n = pos (n * 3600000000000)

module _ ⦃b : BuntDb⦄ where
  -- The error of an action alone.
  abbrev pub only_error : {A : Type 0} → Act A → Act (Unit {0})
  only_error m s = let (r, s') = m s in (drop_value r, s')

  unfoldable pub set_info : {A : Type 0} → Codec A → Text → A → Options → Act (Unit {0})
  set_info j key a o = only_error (set_json j key a o)

  unfoldable pub delete_info : Text → Act (Unit {0})
  delete_info key = only_error (delete key no_option)

  -- An object and, beside it, the user that it is about, in one transaction.
  unfoldable pub set_with_user :
      {U A : Type 0} → Codec U → Codec A → Text → U → Text → A → Options → Act (Unit {0})
  unfolding set_info
  set_with_user ju ja user_key u key a o =
      rw_cover (set_info ju user_key u no_option >> set_info ja key a o)

  abbrev pub when_not_nil : {A : Type 0} → Option A → (A → Act (Unit {0})) → Act (Unit {0})
  when_not_nil none f = throw nil_object
  when_not_nil (some a) f = f a
