-- ===== src/Tests/Kept.antt =====
-- Caches (utils/blockCache) on a cache that is a function, and keys that differ in leading zero bytes.
use ddbot_nexus.Prelude.{
  ◌==◌, if◌then◌else◌, bytes, ℕ, suc, ◌≡◌, refl, Option, none, some, ◌++◌, arith,
}
use ddbot_nexus.Caches.{fnv_hasher, Lru, Action, with_cache_do}
use ddbot_nexus.Caches.Laws.{zeros, fnv_hasher-zeros, LruLaws, with_cache_do_same_hash}

abbrev unbounded : Lru ℕ
unbounded = record {
  Cache = ℕ → Option ℕ;
  get = λ k c. (c k, c);
  add = λ k r c j. if j == k then some r else c j;
}

unbounded-LruLaws : LruLaws unbounded
unbounded-LruLaws = record { get-add = λ k r c. ground arith; get-get = λ k r c e. e }

-- An action that answers with a number and counts its runs.
abbrev answer : ℕ → Action ℕ ℕ
answer r runs = (some r, suc runs)

abbrev nothing_kept : ℕ → Option ℕ
nothing_kept k = none

fnv_hasher-zeros_test : fnv_hasher (zeros 2 ++ bytes "a") ≡ fnv_hasher (bytes "a")
fnv_hasher-zeros_test = fnv_hasher-zeros 2 (bytes "a")

first_answer :
    (with_cache_do unbounded fnv_hasher 10 (bytes "a") (answer 1) nothing_kept 0).0 ≡ some 1
unfolding with_cache_do
first_answer = refl

with_cache_do_same_hash_example :
    ((with_cache_do unbounded fnv_hasher 10
        (zeros 2 ++ bytes "a")
        (answer 2)
        (with_cache_do unbounded fnv_hasher 10 (bytes "a") (answer 1) nothing_kept 0).1
        7).0
      ≡ some 1)
    × ((with_cache_do unbounded fnv_hasher 10
          (zeros 2 ++ bytes "a")
          (answer 2)
          (with_cache_do unbounded fnv_hasher 10 (bytes "a") (answer 1) nothing_kept 0).1
          7).2
        ≡ 7)
with_cache_do_same_hash_example =
    with_cache_do_same_hash unbounded unbounded-LruLaws fnv_hasher 10 (bytes "a")
      (zeros 2 ++ bytes "a") (answer 1) (answer 2) nothing_kept 0 7 1
      (fnv_hasher-zeros 2 (bytes "a")) first_answer
