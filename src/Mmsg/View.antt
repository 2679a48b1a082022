-- ===== src/Mmsg/View.antt =====
-- What a message says, whatever its text buffer holds: a sequence of bytes and elements. The
-- operations of lsp/mmsg/writer.go on messages implement those on sequences.
use ddbot_nexus.Prelude.{
  if◌then◌else◌, Bool-cases, all, is_empty, Text, ℕ, ◌≡◌, refl, sym, ap, ◌∙◌, inl, inr, Bool, true,
  false, not, Option, none, some, List, [], ◌∷◌, ◌++◌, map, arith,
}
use mathlib.Core.List.{map-append, append_assoc, append-nil}
use ddbot_nexus.Mmsg.{
  Element, Msg, flush_text, write, text, cut, custom, plain, push, append_one, append, cut_msg,
  new_msg, clear, at_all, at_each, new_at_ids_msg,
}

pub data Atom (C P : Type 0) : Type 0 where
  byte : ℕ → Atom C P
  cut_atom : Atom C P
  custom_atom : C → Atom C P
  plain_atom : P → Atom C P

is_empty_nil : (t : Text) → is_empty t ≡ true → t ≡ []
is_empty_nil [] h = refl
is_empty_nil (c ∷ t) h = cc h

module _ {C P : Type 0} where
  abbrev pub atoms_of_text : Text → List (Atom C P)
  atoms_of_text t = map byte t

  abbrev pub atoms_of : Element C P → List (Atom C P)
  atoms_of (text t) = atoms_of_text t
  atoms_of cut = cut_atom ∷ []
  atoms_of (custom c) = custom_atom c ∷ []
  atoms_of (plain p) = plain_atom p ∷ []

  abbrev pub atoms_of_all : List (Element C P) → List (Atom C P)
  atoms_of_all [] = []
  atoms_of_all (e ∷ es) = atoms_of e ++ atoms_of_all es

  unfoldable pub view : Msg C P → List (Atom C P)
  view m = atoms_of_all m.elements ++ atoms_of_text m.text_buf

  -- No text element is empty.
  abbrev pub is_tidy : Element C P → Bool
  is_tidy (text t) = not (is_empty t)
  is_tidy cut = true
  is_tidy (custom c) = true
  is_tidy (plain p) = true

  abbrev pub IsTidy : Msg C P → Type 0
  IsTidy m = all is_tidy m.elements ≡ true

  atoms_of_all-append :
      (es fs : List (Element C P)) → atoms_of_all (es ++ fs) ≡ atoms_of_all es ++ atoms_of_all fs
  atoms_of_all-append [] fs = refl
  atoms_of_all-append (e ∷ es) fs = simp (atoms_of_all-append es fs, append_assoc)

  is_tidy-append :
      (es fs : List (Element C P))
      → all is_tidy es ≡ true
      → all is_tidy fs ≡ true
      → all is_tidy (es ++ fs) ≡ true
  is_tidy-append [] fs h g = g
  is_tidy-append (e ∷ es) fs h g = ground (arith, is_tidy-append es fs)

  view-write : (t : Text) (m : Msg C P) → view (write t m) ≡ view m ++ atoms_of_text t
  unfolding view write
  view-write t m = simp (map-append, append_assoc)

  view-flush_text : (m : Msg C P) → view (flush_text m) ≡ view m
  unfolding view flush_text
  view-flush_text m = elim (Bool-cases (is_empty m.text_buf)) [
    | inl e ↦ rw e
    | inr e ↦ rw (e, atoms_of_all-append m.elements (text m.text_buf ∷ [])) (simp (append-nil))
  ]

  flush_text-IsTidy : (m : Msg C P) → IsTidy m → IsTidy (flush_text m)
  unfolding flush_text
  flush_text-IsTidy m h = elim (Bool-cases (is_empty m.text_buf)) [
    | inl e ↦ rw e h
    | inr e ↦ rw e (is_tidy-append m.elements (text m.text_buf ∷ []) h (rw e))
  ]

  flush_text-buf : (m : Msg C P) → (flush_text m).text_buf ≡ []
  unfolding flush_text
  flush_text-buf m = elim (Bool-cases (is_empty m.text_buf)) [
    | inl e ↦ rw e (is_empty_nil m.text_buf e)
    | inr e ↦ rw e
  ]

  view-flushed : (m : Msg C P) → atoms_of_all (flush_text m).elements ≡ view m
  view-flushed m =
      sym (append-nil (atoms_of_all (flush_text m).elements))
      ∙ ap (λ t. atoms_of_all (flush_text m).elements ++ atoms_of_text t) (sym (flush_text-buf m))
      ∙ unfold view in view-flush_text m

  view-push :
      (e : Element C P) (m : Msg C P) → m.text_buf ≡ [] → view (push e m) ≡ view m ++ atoms_of e
  unfolding view
  view-push e m h = rw (h, atoms_of_all-append m.elements (e ∷ [])) (simp (append-nil))

  -- What an appended element adds; a nil element adds nothing.
  abbrev pub atoms_of_given : Option (Element C P) → List (Atom C P)
  atoms_of_given none = []
  atoms_of_given (some e) = atoms_of e

  view-push_flushed :
      (e : Element C P) (m : Msg C P) → view (push e (flush_text m)) ≡ view m ++ atoms_of e
  view-push_flushed e m =
      view-push e (flush_text m) (flush_text-buf m) ∙ ap (λ x. x ++ atoms_of e) (view-flush_text m)

  push_flushed-IsTidy :
      (e : Element C P) (m : Msg C P) → is_tidy e ≡ true → IsTidy m → IsTidy (push e (flush_text m))
  push_flushed-IsTidy e m he h =
      is_tidy-append (flush_text m).elements (e ∷ []) (flush_text-IsTidy m h) (rw he)

  view-append_one :
      (e : Option (Element C P)) (m : Msg C P) → view (append_one e m) ≡ view m ++ atoms_of_given e
  unfolding append_one
  view-append_one none m = simp (append-nil)
  view-append_one (some (text t)) m = view-write t m
  view-append_one (some cut) m = view-push_flushed cut m
  view-append_one (some (custom c)) m = view-push_flushed (custom c) m
  view-append_one (some (plain p)) m = view-push_flushed (plain p) m

  append_one-IsTidy : (e : Option (Element C P)) (m : Msg C P) → IsTidy m → IsTidy (append_one e m)
  unfolding append_one write
  append_one-IsTidy none m h = h
  append_one-IsTidy (some (text t)) m h = h
  append_one-IsTidy (some cut) m h = push_flushed-IsTidy cut m refl h
  append_one-IsTidy (some (custom c)) m h = push_flushed-IsTidy (custom c) m refl h
  append_one-IsTidy (some (plain p)) m h = push_flushed-IsTidy (plain p) m refl h

  abbrev pub atoms_of_given_all : List (Option (Element C P)) → List (Atom C P)
  atoms_of_given_all [] = []
  atoms_of_given_all (e ∷ es) = atoms_of_given e ++ atoms_of_given_all es

  view-append :
      (es : List (Option (Element C P))) (m : Msg C P)
      → view (append es m) ≡ view m ++ atoms_of_given_all es
  unfolding append
  view-append [] m = simp (append-nil)
  view-append (e ∷ es) m =
      view-append es (append_one e m) ∙ rw (view-append_one e m) (simp (append_assoc))

  append-IsTidy : (es : List (Option (Element C P))) (m : Msg C P) → IsTidy m → IsTidy (append es m)
  unfolding append
  append-IsTidy [] m h = h
  append-IsTidy (e ∷ es) m h = append-IsTidy es (append_one e m) (append_one-IsTidy e m h)

  is_empty-atoms :
      (es : List (Element C P)) → all is_tidy es ≡ true → is_empty (atoms_of_all es) ≡ is_empty es
  is_empty-atoms [] h = refl
  is_empty-atoms (text [] ∷ es) h = cc h
  is_empty-atoms (text (c ∷ t) ∷ es) h = refl
  is_empty-atoms (cut ∷ es) h = refl
  is_empty-atoms (custom c ∷ es) h = refl
  is_empty-atoms (plain p ∷ es) h = refl

  -- A cut is added to what is not empty.
  abbrev pub cut_atoms : List (Atom C P) → List (Atom C P)
  cut_atoms xs = if is_empty xs then xs else xs ++ cut_atom ∷ []

  view-cut_msg : (m : Msg C P) → IsTidy m → view (cut_msg m) ≡ cut_atoms (view m)
  unfolding cut_msg
  view-cut_msg m h =
      let same : is_empty (view m) ≡ is_empty (flush_text m).elements =
        ap is_empty (sym (view-flushed m))
        ∙ is_empty-atoms (flush_text m).elements (flush_text-IsTidy m h) in
      elim (Bool-cases (is_empty (flush_text m).elements)) [
        | inl e ↦ rw (e, same, e) (view-flush_text m)
        | inr e ↦ rw (e, same, e) (view-push_flushed cut m)
      ]

  cut_msg-IsTidy : (m : Msg C P) → IsTidy m → IsTidy (cut_msg m)
  unfolding cut_msg
  cut_msg-IsTidy m h = elim (Bool-cases (is_empty (flush_text m).elements)) [
    | inl e ↦ rw e (flush_text-IsTidy m h)
    | inr e ↦ rw e (push_flushed-IsTidy cut m refl h)
  ]

-- The calls by which a message is built.
pub data Call (C P : Type 0) : Type 0 where
  write_text : Text → Call C P
  append_all : List (Option (Element C P)) → Call C P
  cut_here : Call C P
  mention_all : C → Bool → Call C P
  mention_each : List C → Call C P
  clear_all : Call C P

module _ {C P : Type 0} where
  unfoldable pub call : Call C P → Msg C P → Msg C P
  unfolding write append cut_msg at_all new_at_ids_msg clear
  call (write_text t) m = write t m
  call (append_all es) m = append es m
  call cut_here m = cut_msg m
  call (mention_all c front) m = at_all c front m
  call (mention_each ats) m = new_at_ids_msg ats m
  call clear_all m = clear m

  -- The same call on a sequence of atoms.
  unfoldable pub meaning : Call C P → List (Atom C P) → List (Atom C P)
  meaning (write_text t) xs = xs ++ atoms_of_text t
  meaning (append_all es) xs = xs ++ atoms_of_given_all es
  meaning cut_here xs = cut_atoms xs
  meaning (mention_all c true) xs = custom_atom c ∷ xs
  meaning (mention_all c false) xs = xs ++ custom_atom c ∷ []
  meaning (mention_each []) xs = xs
  meaning (mention_each (at ∷ ats)) xs = cut_atoms xs ++ map custom_atom (at ∷ ats)
  meaning clear_all xs = []

  unfoldable pub run_calls : List (Call C P) → Msg C P → Msg C P
  unfolding call
  run_calls [] m = m
  run_calls (c ∷ cs) m = run_calls cs (call c m)

  unfoldable pub run_meanings : List (Call C P) → List (Atom C P) → List (Atom C P)
  unfolding meaning
  run_meanings [] xs = xs
  run_meanings (c ∷ cs) xs = run_meanings cs (meaning c xs)

  view-at_each : (ats : List C) (m : Msg C P) → view (at_each ats m) ≡ view m ++ map custom_atom ats
  unfolding at_each
  view-at_each [] m = simp (append-nil)
  view-at_each (at ∷ ats) m =
      view-at_each ats (append_one (some (custom at)) m)
      ∙ rw (view-append_one (some (custom at)) m) (simp (append_assoc))

  at_each-IsTidy : (ats : List C) (m : Msg C P) → IsTidy m → IsTidy (at_each ats m)
  unfolding at_each
  at_each-IsTidy [] m h = h
  at_each-IsTidy (at ∷ ats) m h =
      at_each-IsTidy ats (append_one (some (custom at)) m)
        (append_one-IsTidy (some (custom at)) m h)

  view-call : (c : Call C P) (m : Msg C P) → IsTidy m → view (call c m) ≡ meaning c (view m)
  unfolding call meaning at_all new_at_ids_msg clear
  view-call (write_text t) m h = view-write t m
  view-call (append_all es) m h = view-append es m
  view-call cut_here m h = view-cut_msg m h
  view-call (mention_all c true) m h = unfold view in refl
  view-call (mention_all c false) m h = view-append_one (some (custom c)) m
  view-call (mention_each []) m h = refl
  view-call (mention_each (at ∷ ats)) m h =
      view-at_each (at ∷ ats) (cut_msg m)
      ∙ ap (λ x. x ++ map custom_atom (at ∷ ats)) (view-cut_msg m h)
  view-call clear_all m h = unfold view in rw (flush_text-buf m)

  call-IsTidy : (c : Call C P) (m : Msg C P) → IsTidy m → IsTidy (call c m)
  unfolding call at_all new_at_ids_msg clear write
  call-IsTidy (write_text t) m h = h
  call-IsTidy (append_all es) m h = append-IsTidy es m h
  call-IsTidy cut_here m h = cut_msg-IsTidy m h
  call-IsTidy (mention_all c true) m h = h
  call-IsTidy (mention_all c false) m h = append_one-IsTidy (some (custom c)) m h
  call-IsTidy (mention_each []) m h = h
  call-IsTidy (mention_each (at ∷ ats)) m h =
      at_each-IsTidy (at ∷ ats) (cut_msg m) (cut_msg-IsTidy m h)
  call-IsTidy clear_all m h = refl

  view-run_calls :
      (cs : List (Call C P)) (m : Msg C P)
      → IsTidy m
      → view (run_calls cs m) ≡ run_meanings cs (view m)
  unfolding run_calls run_meanings
  view-run_calls [] m h = refl
  view-run_calls (c ∷ cs) m h =
      view-run_calls cs (call c m) (call-IsTidy c m h) ∙ ap (run_meanings cs) (view-call c m h)

  -- A message built by any sequence of calls says what the same calls make of an empty sequence of
  -- bytes and elements: text is never lost or moved by its buffer, and a mention of all members put
  -- in front stands before text that is still buffered.
  pub view-run_calls_new : (cs : List (Call C P)) → view (run_calls cs new_msg) ≡ run_meanings cs []
  unfolding new_msg view
  view-run_calls_new cs = unfold view in view-run_calls cs new_msg refl
