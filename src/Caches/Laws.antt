-- ===== src/Caches/Laws.antt =====
-- What the caches of utils/blockCache and utils/expirable promise.
use ddbot_nexus.Prelude.{Text, ℕ, zero, suc, ◌≡◌, refl, Option, none, some, [], ◌∷◌, ◌++◌}
use ddbot_nexus.Caches.{
  fnv_hasher, Lru, Action, keep_result, look_again, found_or_do, with_cache_do,
}

abbrev pub zeros : ℕ → Text
zeros zero = []
zeros (suc n) = 0 ∷ zeros n

-- Bytes that are 0 at the start of a key do not change its hash, since the hash starts from 0.
pub fnv_hasher-zeros : (n : ℕ) (s : Text) → fnv_hasher (zeros n ++ s) ≡ fnv_hasher s
unfolding fnv_hasher
fnv_hasher-zeros zero s = refl
fnv_hasher-zeros (suc n) s = fnv_hasher-zeros n s

-- A result that is added, or that is found, is found again.
pub record LruLaws {R : Type 0} (u : Lru R) : Type 0 where
  pub get-add : (k : ℕ) (r : R) (c : u.Cache) → (u.get k (u.add k r c)).0 ≡ some r
  pub get-get :
      (k : ℕ) (r : R) (c : u.Cache) → (u.get k c).0 ≡ some r → (u.get k (u.get k c).1).0 ≡ some r

module _ {R : Type 0} (u : Lru R) (l : LruLaws u) where
  -- What is found, is in the cache that is left.
  abbrev Sound : ℕ → Option R × u.Cache → Type 0
  Sound hash found = (r : R) → found.0 ≡ some r → (u.get hash found.1).0 ≡ some r

  look_again-Sound :
      (size hash : ℕ) (found : Option R × u.Cache)
      → Sound hash found
      → Sound hash (look_again u size hash found)
  unfolding look_again
  look_again-Sound zero hash (o, c) h = h
  look_again-Sound (suc size) hash (some r, c) h = h
  look_again-Sound (suc size) hash (none, c) h = λ r e. l.get-get hash r c e

module _ {R S : Type 0} (u : Lru R) (l : LruLaws u) where
  found_or_do-Sound :
      (hash : ℕ) (f : Action R S) (found : Option R × u.Cache) (s : S) (r : R)
      → Sound u l hash found
      → (found_or_do u hash f found s).0 ≡ some r
      → (u.get hash (found_or_do u hash f found s).1).0 ≡ some r
  unfolding found_or_do keep_result
  found_or_do-Sound hash f (some r', c) s r h e = h r e
  found_or_do-Sound hash f (none, c) s r h e = rw e (l.get-add hash r c)

  at_once :
      (hash size : ℕ) (f : Action R S) (found : Option R × u.Cache) (s : S) (r : R)
      → found.0 ≡ some r
      → ((found_or_do u hash f (look_again u size hash found) s).0 ≡ some r)
        × ((found_or_do u hash f (look_again u size hash found) s).2 ≡ s)
  unfolding look_again found_or_do
  at_once hash zero f (some r', c) s r e = (e, refl)
  at_once hash (suc size) f (some r', c) s r e = (e, refl)
  at_once hash size f (none, c) s r e = cc e

  found_result :
      (hash size : ℕ) (f : Action R S) (c : u.Cache) (s : S) (r : R)
      → (u.get hash c).0 ≡ some r
      → ((found_or_do u hash f (look_again u size hash (u.get hash c)) s).0 ≡ some r)
        × ((found_or_do u hash f (look_again u size hash (u.get hash c)) s).2 ≡ s)
  found_result hash size f c s r e = at_once hash size f (u.get hash c) s r e

  -- Once a key has a result, another key of the same hash is answered with that result too, at once:
  -- its action is not run, and the rest of the program is as it was.
  pub with_cache_do_same_hash :
      (block_hash : Text → ℕ) (size : ℕ) (key other : Text) (f g : Action R S) (c : u.Cache)
      (s t : S) (r : R)
      → block_hash other ≡ block_hash key
      → (with_cache_do u block_hash size key f c s).0 ≡ some r
      → ((with_cache_do u block_hash size other g (with_cache_do u block_hash size key f c s).1 t).0
          ≡ some r)
        × ((with_cache_do u block_hash size other g
              (with_cache_do u block_hash size key f c s).1
              t).2
            ≡ t)
  unfolding with_cache_do
  with_cache_do_same_hash block_hash size key other f g c s t r same e =
      let hash = block_hash key in
      let found = look_again u size hash (u.get hash c) in
      let kept =
        found_or_do-Sound hash f found s r
          (look_again-Sound u l size hash (u.get hash c) (λ r' e'. l.get-get hash r' c e')) e in
      rw same (found_result hash size g (found_or_do u hash f found s).1 t r kept)
