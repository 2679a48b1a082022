-- ===== src/Buntdb/ShortCut/Removal.antt =====
-- RemoveByPrefixAndIndex (lsp/buntdb/shortcut.go): which keys it deletes.
use ddbot_nexus.Prelude.{
  if◌then◌else◌, Bool-cases, any, Text, ◌==ₜ◌, ==ₜ_eq, ==ₜ_iff, has_prefix, elem, ◌≡◌, refl, sym,
  ap, ◌∙◌, inl, inr, false, ◌&&◌, ◌||◌, not, List, [], ◌∷◌, ◌++◌, map, arith,
}
use ddbot_nexus.Buntdb.Interface.{BuntDb, BuntDbLaws, Reply, not_found, ok, err, Reply-cases}
use ddbot_nexus.Buntdb.ShortCut.{
  mark_keys, collect_keys, delete_keys, remove_by_prefix_and_index, inside, delete_collected,
}
use ddbot_nexus.Buntdb.ShortCut.Laws.{read}

abbrev pub keys_of : List (Text × Text) → List Text
keys_of = map (λ e. e.0)

module _ (prefixes : List Text) (k : Text) where
  elem_mark :
      (key : Text) (marked : List Text)
      → elem k
          (if any (has_prefix key) prefixes && not (elem key marked) then key ∷ marked else marked)
        ≡ (elem k marked || (any (has_prefix k) prefixes && k ==ₜ key))
  unfolding elem
  elem_mark key marked = elim (Bool-cases (k ==ₜ key)) [
    | inl e ↦ ground (
      arith,
      ap (λ (x : Text). any (has_prefix x) prefixes) (==ₜ_eq k key e),
      ap (λ (x : Text). elem x marked) (==ₜ_eq k key e),
    )
    | inr ne ↦ ground arith
  ]

  elem-mark_keys :
      (entries : List (Text × Text)) (marked : List Text)
      → elem k (mark_keys prefixes entries marked)
        ≡ (elem k marked || (any (has_prefix k) prefixes && elem k (keys_of entries)))
  unfolding mark_keys elem
  elem-mark_keys [] marked = ground arith
  elem-mark_keys ((key, value) ∷ entries) marked =
      let here = any (has_prefix key) prefixes && not (elem key marked) in
      rw (elem-mark_keys entries (if here then key ∷ marked else marked), elem_mark key marked)
        (ground arith)

append_replies :
    Reply (List (Text × Text)) → Reply (List (Text × Text)) → Reply (List (Text × Text))
append_replies (err e) r = err e
append_replies (ok xs) (err e) = err e
append_replies (ok xs) (ok ys) = ok (xs ++ ys)

module _ ⦃b : BuntDb⦄ where
  -- The entries of all the indexes, one after another.
  unfoldable pub entries_of : b.Tx → List Text → Reply (List (Text × Text))
  unfolding append_replies
  entries_of t [] = ok []
  entries_of t (index ∷ indexes) = append_replies (b.ascend t index) (entries_of t indexes)

  mark_keys-append :
      (prefixes : List Text) (xs ys : List (Text × Text)) (marked : List Text)
      → mark_keys prefixes (xs ++ ys) marked ≡ mark_keys prefixes ys (mark_keys prefixes xs marked)
  unfolding mark_keys
  mark_keys-append prefixes [] ys marked = refl
  mark_keys-append prefixes ((key, value) ∷ xs) ys marked = mark_keys-append prefixes xs ys _

  collect_keys-entries_of :
      (t : b.Tx) (prefixes indexes marked : List Text) (entries : List (Text × Text))
      → entries_of t indexes ≡ ok entries
      → collect_keys t prefixes indexes marked ≡ ok (mark_keys prefixes entries marked)
  unfolding collect_keys entries_of mark_keys
  collect_keys-entries_of t prefixes [] marked [] h = refl
  collect_keys-entries_of t prefixes [] marked (e ∷ es) h = cc
  collect_keys-entries_of t prefixes (index ∷ indexes) marked entries h =
      elim (Reply-cases (b.ascend t index)) [
        | inr (e, p) ↦ cc
        | inl (xs, p) ↦ elim (Reply-cases (entries_of t indexes)) [
          | inr (e, q) ↦ cc
          | inl (ys, q) ↦
              let same : xs ++ ys ≡ entries = cc in
              let rest =
                collect_keys-entries_of t prefixes indexes (mark_keys prefixes xs marked) ys q in
              rw (p, collect_keys)
                (rest
                  ∙ ap ok (
                      sym (mark_keys-append prefixes xs ys marked)
                      ∙ ap (λ es. mark_keys prefixes es marked) same))
        ]
      ]

module _ ⦃b : BuntDb⦄ (l : BuntDbLaws b) where
  get-delete_keys :
      (t : b.Tx) (keys : List Text) (k : Text)
      → l.Live t
      → b.get (delete_keys t keys).1 k false
        ≡ (if elem k keys then err not_found else b.get t k false)
  unfolding delete_keys elem
  get-delete_keys t [] k live = refl
  get-delete_keys t (key ∷ keys) k live = ground (
    arith,
    get-delete_keys (b.delete t key).1 keys k (l.delete-Live t key live),
    l.get-delete t key k live,
    ==ₜ_iff k key,
    ==ₜ_iff key k,
  )

  -- In a live transaction whose indexes hold `entries`, the removal deletes every key of an entry
  -- that begins with one of the prefixes, and leaves every other key as it was.
  pub read-remove_by_prefix_and_index :
      (t : b.Tx) (prefixes indexes : List Text) (entries : List (Text × Text)) (k : Text)
      → l.Live t
      → entries_of t indexes ≡ ok entries
      → read (remove_by_prefix_and_index prefixes indexes (inside t)).1 k ≡ (
          if any (has_prefix k) prefixes && elem k (keys_of entries)
          then err not_found
          else read (inside t) k)
  unfolding remove_by_prefix_and_index read elem
  read-remove_by_prefix_and_index t prefixes indexes entries k live h =
      rw (collect_keys-entries_of t prefixes indexes [] entries h) (
        unfold delete_collected in
        (get-delete_keys t (mark_keys prefixes entries []) k live
          ∙ ap (λ x. if x then err not_found else b.get t k false)
              (elem-mark_keys prefixes k entries [])))
