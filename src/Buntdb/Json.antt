-- ===== src/Buntdb/Json.antt =====
-- lsp/buntdb/shortcut.go, GetJson and SetJson. The JSON library is not part of the repository: a
-- codec of the values is a parameter.
use ddbot_nexus.Prelude.{
  is_empty, Text, ==ₜ_refl, ◌≡◌, refl, Bool, false, Option, none, some, [], ◌∷◌,
}
use ddbot_nexus.Buntdb.Interface.{Reply, BuntDb, BuntDbLaws, ok, err, not_found}
use ddbot_nexus.Buntdb.Options.{Options, no_option}
use ddbot_nexus.Buntdb.ShortCut.{Session, Act, set, get}
use ddbot_nexus.Buntdb.ShortCut.Laws.{IsLive, get-read, set-IsLive, read-set, read}

-- json.Marshal and json.Unmarshal at a type.
pub record Codec (A : Type 0) : Type 0 where
  pub encode : A → Reply Text
  pub decode : Text → Reply A

-- The value is encoded as a text that is not empty and that decodes to it.
pub record Encodes {A : Type 0} (j : Codec A) (a : A) (v : Text) : Type 0 where
  pub encoded : j.encode a ≡ ok v
  pub decoded : j.decode v ≡ ok a
  pub not_empty : is_empty v ≡ false

abbrev pub given : {A : Type 0} → Reply A → Reply (Option A)
given (ok a) = ok (some a)
given (err e) = err e

module _ {A : Type 0} (j : Codec A) where
  -- No value means that the object that the caller passed stays as it was.
  unfoldable pub unmarshal : Reply Text → Reply (Option A)
  unmarshal (err e) = err e
  unmarshal (ok []) = ok none
  unmarshal (ok (c ∷ v)) = given (j.decode (c ∷ v))

module _ ⦃b : BuntDb⦄ where
  abbrev pub set_encoded : Text → Options → Reply Text → Act (Text × Bool)
  set_encoded key o (err e) s = (err e, s)
  set_encoded key o (ok v) s = set key v o s

module _ ⦃b : BuntDb⦄ {A : Type 0} (j : Codec A) where
  unfoldable pub get_json : Text → Options → Act (Option A)
  unfolding unmarshal
  get_json key o s = let (r, s') = get key o s in (unmarshal j r, s')

  unfoldable pub set_json : Text → A → Options → Act (Text × Bool)
  set_json key a o = set_encoded key o (j.encode a)

module _ ⦃b : BuntDb⦄ (l : BuntDbLaws b) {A : Type 0} (j : Codec A) where
  pub set_json-set :
      (key : Text) (a : A) (o : Options) (s : Session) {v : Text}
      → Encodes j a v
      → set_json j key a o s ≡ set key v o s
  unfolding set_json
  set_json-set key a o s e = rw e.encoded

  unmarshal_encoded : (a : A) (v : Text) → Encodes j a v → unmarshal j (ok v) ≡ ok (some a)
  unfolding unmarshal
  unmarshal_encoded a [] e = cc (e.not_empty)
  unmarshal_encoded a (c ∷ v) e = rw e.decoded

  -- What SetJson writes in a live session, GetJson reads.
  pub get_json-set_json :
      (key : Text) (a : A) (s : Session) {v : Text}
      → IsLive l s
      → Encodes j a v
      → (get_json j key no_option (set_json j key a no_option s).1).0 ≡ ok (some a)
  get_json-set_json key a s {v} live e =
      let s' = (set key v no_option s).1 in
      rw (set_json-set key a no_option s e) (
        unfold get_json in
        rw
          (
            get-read l s' key (set-IsLive l s key v no_option live),
            read-set l s key key v no_option live,
            ==ₜ_refl key,
          )
          (unmarshal_encoded a v e))

  pub get_json_absent :
      (key : Text) (s : Session)
      → IsLive l s
      → read s key ≡ err not_found
      → (get_json j key no_option s).0 ≡ err not_found
  unfolding get_json
  get_json_absent key s live h = rw (get-read l s key live, h) (unfold unmarshal in refl)

  pub get_json-read :
      (key : Text) (a : A) (s : Session) (v : Text)
      → IsLive l s
      → Encodes j a v
      → read s key ≡ ok v
      → (get_json j key no_option s).0 ≡ ok (some a)
  unfolding get_json
  get_json-read key a s v live e h = rw (get-read l s key live, h) (unmarshal_encoded a v e)
