-- ===== src/Concern/StateManager.antt =====
-- lsp/concern/stateManager.go: adding, removing and listing subscriptions. A manager is its key set,
-- the limit of subscriptions of a group (0 is no limit) and whether it uses an emit queue; the
-- methods are actions on a session. The calls that a method makes of the emit queue come back as a
-- list. The fresh loops are not modelled here.
pub mod Laws
pub mod Limit
pub mod Removal
use ddbot_nexus.Prelude.{
  ltb, leb, ◌==◌, if◌then◌else◌, length, filter, is_empty, Text, ℤ, pos, negsuc, ℕ, Bool, false,
  ◌||◌, not, none, some, List, [], ◌∷◌, map,
}
use ddbot_nexus.Buntdb.Interface.{
  BuntDb, Reply, already_exists, length_mismatch, invalid_key, ok, err, is_ok, not_found,
  max_group_concern_exceed,
}
use ddbot_nexus.Buntdb.Key.{int_part}
use ddbot_nexus.Buntdb.ShortCut.{
  Act, get, pure, ◌>>=◌, ◌>>◌, r_cover_tx, Session, continue, rw_cover, set, delete, exist,
  remove_by_prefix_and_index,
}
use ddbot_nexus.Buntdb.Options.{
  no_option, set_expire_opt, set_no_over_write_opt, ignore_not_found_opt,
}
use ddbot_nexus.Concern.KeySet.{
  PrefixKeySet, ConcernId, id_eq, id_part, group_concern_state_key, parse_group_concern_state_key,
  int_eq, group_concern_config_key, fresh_key, group_at_all_mark_key,
}
use ddbot_nexus.ConcernType.{ConcernType, add, empty_type, contain_all, remove}

pub record Manager : Type 0 where
  pub keys : PrefixKeySet
  pub max_group_concern : ℕ
  pub use_emit : Bool

-- SetMaxGroupConcern
unfoldable pub set_max_group_concern : ℤ → Manager → Manager
set_max_group_concern (pos n) c = record c { max_group_concern = n }
set_max_group_concern (negsuc n) c = record c { max_group_concern = 0 }

pub data EmitCall : Type 0 where
  emit_add : ConcernId → ConcernType → EmitCall
  emit_update : ConcernId → ConcernType → EmitCall
  emit_delete : ConcernId → EmitCall

-- A subscription: the group, the id, and the types.
pub record Subscription : Type 0 where
  pub group : ℤ
  pub id : ConcernId
  pub types : ConcernType

abbrev pub Filter : Type 0
Filter = ℤ → ConcernId → ConcernType → Bool

-- The walk of ListConcernState over the entries of the index; it stops at a key that it cannot parse.
unfoldable pub keep_states : PrefixKeySet → Filter → List (Text × Text) → Reply (List Subscription)
keep_states k filter [] = ok []
keep_states k filter ((key, value) ∷ entries) =
    let rest = keep_states k filter entries in
    elim (parse_group_concern_state_key k key) [
      | none ↦ err invalid_key
      | some (g, i) ↦ elim rest [
        | err e ↦ err e
        | ok subs ↦
            if is_empty value || not (filter g i value)
            then ok subs
            else ok (record { group = g; id = i; types = value } ∷ subs)
      ]
    ]

add_type : ConcernId → ConcernType → List (ConcernId × ConcernType) → List (ConcernId × ConcernType)
add_type i t [] = (i, t) ∷ []
add_type i t ((j, u) ∷ m) = if id_eq j i then (j, add u (t ∷ [])) ∷ m else (j, u) ∷ add_type i t m

-- The map from ids to types, as the loop builds it.
unfoldable pub group_types :
    List ConcernId
    → List ConcernType
    → List (ConcernId × ConcernType)
    → List (ConcernId × ConcernType)
unfolding add_type
group_types (i ∷ is) (t ∷ ts) m = group_types is ts (add_type i t m)
group_types [] ts m = m
group_types (i ∷ is) [] m = m

unfoldable pub group_type_by_id :
    List ConcernId → List ConcernType → Reply (List (ConcernId × ConcernType))
group_type_by_id is ts =
    if length is == length ts then ok (group_types is ts []) else err length_mismatch

unfoldable pub state_key : Manager → ℤ → ConcernId → Text
state_key c g i = group_concern_state_key c.keys (int_part g ∷ id_part i ∷ [])

module _ ⦃b : BuntDb⦄ (c : Manager) where
  unfoldable pub list_concern_state : Filter → Act (List Subscription)
  list_concern_state filter = r_cover_tx λ t. (
    elim (b.ascend t (group_concern_state_key c.keys [])) [
      | err e ↦ err e
      | ok entries ↦ keep_states c.keys filter entries
    ],
    t,
  )

  unfoldable pub get_group_concern : ℤ → ConcernId → Act ConcernType
  get_group_concern g i = get (state_key c g i) no_option

  -- The error of a read is dropped, and the empty type checked in its place.
  type_or_empty : Reply ConcernType → ConcernType
  type_or_empty (ok t) = t
  type_or_empty (err e) = empty_type

  unfoldable pub check_group_concern : ℤ → ConcernId → ConcernType → Act (Unit {0})
  unfolding get_group_concern type_or_empty
  check_group_concern g i ctype s =
      let (r, s') = get_group_concern g i s in
      (if contain_all (type_or_empty r) ctype then err already_exists else ok tt, s')

  unfoldable pub get_concern : ConcernId → Act ConcernType
  get_concern i = do
    subs ← list_concern_state (λ g j p. id_eq i j)
    pure (add empty_type (map (λ x. x.types) subs))

  unfoldable pub check_concern : ConcernId → ConcernType → Act (Unit {0})
  check_concern i ctype = do
    state ← get_concern i
    λ s. (if contain_all state ctype then err already_exists else ok tt, s)

-- Adding and removing.
module _ ⦃b : BuntDb⦄ where
  unfoldable pub upsert_concern_type : Text → ConcernType → Act ConcernType
  upsert_concern_type key ctype = rw_cover do
    val ← get key (ignore_not_found_opt no_option)
    _ ← set key (add val (ctype ∷ [])) no_option
    pure (add val (ctype ∷ []))

  -- What is left of a subscription is written back, and removed if it is nothing.
  unfoldable pub write_back : Text → ConcernType → Act ConcernType
  write_back key t s =
      if is_empty t
      then (let (r, s') = delete key no_option s in continue r (λ _. pure t) s')
      else (let (r, s') = set key t no_option s in continue r (λ _. pure t) s')

  unfoldable pub remove_concern_type : Text → ConcernType → Act ConcernType
  remove_concern_type key ctype = rw_cover do
    val ← get key no_option
    λ s.
        if contain_all val ctype
        then write_back key (remove val (ctype ∷ [])) s
        else (err not_found, s)

module _ ⦃b : BuntDb⦄ (c : Manager) where
  unfoldable pub distinct_ids : List Subscription → ℕ
  distinct_ids subs = elim (group_type_by_id (map (λ x. x.id) subs) (map (λ x. x.types) subs)) [
    | ok m ↦ length m
    | err e ↦ 0
  ]

  -- The check of the limit in AddGroupConcern.
  unfoldable pub check_limit : ℤ → Act (Unit {0})
  check_limit g =
      if ltb 0 c.max_group_concern
      then (do
        subs ← list_concern_state c (λ g' i p. int_eq g' g)
        λ s. (
          if leb c.max_group_concern (distinct_ids subs)
              then err max_group_concern_exceed
              else ok tt,
          s,
        ))
      else pure tt

  -- The transaction of AddGroupConcern.
  unfoldable pub add_in_tx : ℤ → ConcernId → ConcernType → Act ConcernType
  add_in_tx g i ctype = do
    check_group_concern c g i ctype
    check_limit g
    upsert_concern_type (state_key c g i) ctype

  -- The calls of the emit queue after a change, from what GetConcern then finds.
  unfoldable pub emit_after_add : ConcernId → Session → List EmitCall × Session
  emit_after_add i s =
      if c.use_emit
      then (let (r, s') = get_concern c i s in
          (elim r [ ok all_types ↦ emit_add i all_types ∷ [] | err e ↦ [] ], s'))
      else ([], s)

  unfoldable pub emit_after_remove : ConcernId → Session → List EmitCall × Session
  emit_after_remove i s =
      if c.use_emit
      then (let (r, s') = get_concern c i s in
          (
            elim r [
              | ok all_types ↦
                  (if is_empty all_types then emit_delete i else emit_update i all_types) ∷ []
              | err e ↦ []
            ],
            s',
          ))
      else ([], s)

  unfoldable pub after_emit :
      Reply ConcernType
      → (Session → List EmitCall × Session)
      → Session
      → Reply ConcernType × List EmitCall × Session
  after_emit (err e) emit s = (err e, [], s)
  after_emit (ok t) emit s = let (calls, s') = emit s in (ok t, calls, s')

  -- The emit queue is called only after a success.
  unfoldable pub then_emit :
      Act ConcernType
      → (Session → List EmitCall × Session)
      → Session
      → Reply ConcernType × List EmitCall × Session
  unfolding after_emit
  then_emit m emit s = let (r, s') = m s in after_emit r emit s'

  unfoldable pub add_group_concern :
      ℤ → ConcernId → ConcernType → Session → Reply ConcernType × List EmitCall × Session
  add_group_concern g i ctype = then_emit (rw_cover (add_in_tx g i ctype)) (emit_after_add i)

  -- Only what is there already can be removed.
  unfoldable pub when_exists : Reply (Unit {0}) → Act ConcernType → Act ConcernType
  when_exists (ok x) m s = (err not_found, s)
  when_exists (err e) m s = m s

  -- The transaction of RemoveGroupConcern.
  unfoldable pub remove_in_tx : ℤ → ConcernId → ConcernType → Act ConcernType
  unfolding when_exists
  remove_in_tx g i ctype s =
      let (r, s') = check_group_concern c g i ctype s in
      when_exists r (remove_concern_type (state_key c g i) ctype) s'

  unfoldable pub remove_group_concern :
      ℤ → ConcernId → ConcernType → Session → Reply ConcernType × List EmitCall × Session
  remove_group_concern g i ctype =
      then_emit (rw_cover (remove_in_tx g i ctype)) (emit_after_remove i)

  unfoldable pub remove_all_by_group_code : ℤ → Act (List Text)
  remove_all_by_group_code g =
      remove_by_prefix_and_index
        (group_concern_state_key c.keys (int_part g ∷ [])
          ∷ group_concern_config_key c.keys (int_part g ∷ [])
          ∷ [])
        (group_concern_state_key c.keys [] ∷ group_concern_config_key c.keys [] ∷ [])

  -- A mark that is set at most once in two hours, given in nanoseconds.
  unfoldable pub check_and_set_at_all_mark : ℤ → ConcernId → Session → Bool × Session
  check_and_set_at_all_mark g i s =
      let (r, s') =
        set (group_at_all_mark_key c.keys (int_part g ∷ id_part i ∷ [])) []
          (set_no_over_write_opt (set_expire_opt (pos 7_200_000_000_000) no_option)) s in
      (is_ok r, s')

  unfoldable pub check_fresh : ConcernId → Bool → Session → Bool × Session
  check_fresh i set_ttl s =
      let key = fresh_key c.keys (id_part i ∷ []) in
      let (r, s') =
        rw_cover
          (λ s₁.
            let (found, s₂) = exist key no_option s₁ in
            let (w, s₃) = set key [] (set_expire_opt (pos 60_000_000_000) no_option) s₂ in
            if found
            then (err already_exists, s₂)
            else if set_ttl
            then (w, s₃)
            else (ok ([], false), s₂))
          s in
      (is_ok r, s')
