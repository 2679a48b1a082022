-- ===== src/Caches.antt =====
-- utils/blockCache and utils/expirable: results that are kept. The ARC cache of the package
-- github.com/hashicorp/golang-lru is a parameter. The lock of a block makes callers of one block wait
-- for one another, so calls are made one after the other here; what a call does to the rest of the
-- program is a state.
pub mod Laws
use ddbot_nexus.Prelude.{
  ltb, if◌then◌else◌, Text, ℕ, zero, suc, ◌+◌, ◌*◌, ◌%◌, ◌^◌, Option, none, some, [], ◌∷◌,
}
use Prim.Native.Nat.{bit_xor}

abbrev pub prime32 : ℕ
prime32 = 16777619

-- Write of sum32: a hash of 32 bits, multiplied and then combined with each byte.
unfoldable pub write_sum32 : ℕ → Text → ℕ
write_sum32 hash [] = hash
write_sum32 hash (c ∷ s) = write_sum32 (bit_xor (hash * prime32 % 2 ^ 32) c) s

-- The hash starts from a new sum32, which is 0.
unfoldable pub fnv_hasher : Text → ℕ
unfolding write_sum32
fnv_hasher b = write_sum32 0 b

-- lru.ARCCache, with results of a type.
pub record Lru (R : Type 0) : Type 1 where
  pub Cache : Type 0
  pub get : ℕ → Cache → Option R × Cache
  pub add : ℕ → R → Cache → Cache

-- What an action answers; none is a nil result, which is not kept.
abbrev pub Action : Type 0 → Type 0 → Type 0
Action R S = S → Option R × S

module _ {R : Type 0} (u : Lru R) where
  open u use {Cache}

  unfoldable pub keep_result : ℕ → Option R → Cache → Cache
  keep_result hash none c = c
  keep_result hash (some r) c = u.add hash r c

  -- A second look, once the block is locked.
  unfoldable pub look_again : ℕ → ℕ → Option R × Cache → Option R × Cache
  look_again zero hash (found, c) = (found, c)
  look_again (suc size) hash (some r, c) = (some r, c)
  look_again (suc size) hash (none, c) = u.get hash c

module _ {R S : Type 0} (u : Lru R) where
  open u use {Cache}

  -- The result that was found, or that of the action.
  unfoldable pub found_or_do : ℕ → Action R S → Option R × Cache → S → Option R × Cache × S
  unfolding keep_result
  found_or_do hash f (some r, c) s = (some r, c, s)
  found_or_do hash f (none, c) s = let (r, s') = f s in (r, keep_result u hash r c, s')

  unfoldable pub with_cache_do :
      (Text → ℕ) → ℕ → Text → Action R S → Cache → S → Option R × Cache × S
  unfolding found_or_do look_again
  with_cache_do block_hash block_size key f c s =
      let hash = block_hash key in
      found_or_do hash f (look_again u block_size hash (u.get hash c)) s

-- utils/expirable: a value with the moment until which it is good.
pub record Expirable (V : Type 0) : Type 0 where
  pub duration : ℕ
  pub deadline : ℕ
  pub val : Option V

module _ {V S : Type 0} where
  -- Do; the deadline of a new Expirable lies before every moment.
  unfoldable pub do_expirable : ℕ → (S → V × S) → Expirable V → S → Option V × Expirable V × S
  do_expirable now f e s =
      let (v, s') = f s in
      if ltb e.deadline now
      then (some v, record e { deadline = now + e.duration; val = some v }, s')
      else (e.val, e, s)
