-- ===== src/Mmsg/Sending.antt =====
-- lsp/mmsg/writer.go, ToMessage: nothing is lost in the split but cuts, elements that pack to nothing
-- and spaces at the end.
use ddbot_nexus.Prelude.{
  if◌then◌else◌, Bool-cases, all, filter, is_empty, Text, is_space, trim_left, ℕ, ◌≡◌, refl, sym,
  ap, ◌∙◌, inl, inr, Bool, true, false, not, Option, List, [], ◌∷◌, ◌++◌, arith,
}
use mathlib.Core.List.{
  append_assoc, append-nil, reverse, reverse-append, reverse-reverse, reverse-cons,
}
use ddbot_nexus.Mmsg.{
  Element, Sent, packed, concat, segments, text, cut, custom, plain, sent_text, sent_plain, Msg,
  flush_text, cut_msg, trim_right, has_text, clean_text, clean_last, to_message, to_combine_message,
}

no_elements : {A : Type 0} (xs : List A) → is_empty xs ≡ true → xs ≡ []
no_elements [] h = refl
no_elements (x ∷ xs) h = cc h

all-is_space-append :
    (s t : Text) → all is_space s ≡ true → all is_space t ≡ true → all is_space (s ++ t) ≡ true
all-is_space-append [] t h g = g
all-is_space-append (c ∷ s) t h g = ground (arith, all-is_space-append s t)

all-is_space-reverse : (s : Text) → all is_space s ≡ true → all is_space (reverse s) ≡ true
all-is_space-reverse [] h = refl
all-is_space-reverse (c ∷ s) h = rw (reverse-cons c s) (
    all-is_space-append (reverse s) (c ∷ []) (all-is_space-reverse s (ground arith)) (ground arith))

-- A text, from its first byte that is no space on, with the spaces before it.
trim_left_rest : (s : Text) → (w : Text) × (all is_space w ≡ true) × (s ≡ w ++ trim_left s)
unfolding trim_left
trim_left_rest [] = ([], refl, refl)
trim_left_rest (c ∷ s) =
    let (w, spaces, e) = trim_left_rest s in
    elim (Bool-cases (is_space c)) [
      | inl h ↦ (c ∷ w, rw h spaces, rw h (ap (λ x. c ∷ x) e))
      | inr h ↦ ([], refl, rw h)
    ]

trim_right_rest : (s : Text) → (w : Text) × (all is_space w ≡ true) × (s ≡ trim_right s ++ w)
unfolding trim_right
trim_right_rest s =
    let (w, spaces, e) = trim_left_rest (reverse s) in
    (
      reverse w,
      all-is_space-reverse w spaces,
      sym (reverse-reverse s) ∙ ap reverse e ∙ reverse-append w (trim_left (reverse s)),
    )

-- What is sent, byte by byte and element by element, in order.
pub data Piece (P : Type 0) : Type 0 where
  byte : ℕ → Piece P
  element : P → Piece P

module _ {P : Type 0} where
  abbrev pub pieces_of_text : Text → List (Piece P)
  pieces_of_text [] = []
  pieces_of_text (c ∷ t) = byte c ∷ pieces_of_text t

  abbrev pub pieces : List (Sent P) → List (Piece P)
  pieces [] = []
  pieces (sent_text t ∷ es) = pieces_of_text t ++ pieces es
  pieces (sent_plain p ∷ es) = element p ∷ pieces es

  abbrev pub elements_only : List P → List (Piece P)
  elements_only [] = []
  elements_only (p ∷ ps) = element p ∷ elements_only ps

  -- The second list is the first in the same order, less some spaces behind which there is no text.
  abbrev pub Trimmed : List (Sent P) → List (Sent P) → Type 0
  Trimmed es fs =
      (front : List (Piece P)) × (spaces : Text) × (back : List P) × (all is_space spaces ≡ true)
      × (pieces es ≡ front ++ (pieces_of_text spaces ++ elements_only back))
      × (pieces fs ≡ front ++ elements_only back)

  pieces_of_text-append :
      (s t : Text) → pieces_of_text (s ++ t) ≡ pieces_of_text s ++ pieces_of_text t
  pieces_of_text-append [] t = refl
  pieces_of_text-append (c ∷ s) t = ap (λ x. byte c ∷ x) (pieces_of_text-append s t)

  pieces-append : (es fs : List (Sent P)) → pieces (es ++ fs) ≡ pieces es ++ pieces fs
  pieces-append [] fs = refl
  pieces-append (sent_text t ∷ es) fs = simp (pieces-append es fs, append_assoc)
  pieces-append (sent_plain p ∷ es) fs = ap (λ x. element p ∷ x) (pieces-append es fs)

  -- What stands before is kept.
  behind :
      (x : List (Piece P)) (es es' fs fs' : List (Sent P))
      → pieces es' ≡ x ++ pieces es
      → pieces fs' ≡ x ++ pieces fs
      → Trimmed es fs
      → Trimmed es' fs'
  behind x es es' fs fs' h g (front, spaces, back, white, e, f) = (
    x ++ front,
    spaces,
    back,
    white,
    h
        ∙ ap (λ l. x ++ l) e
        ∙ sym (append_assoc x front (pieces_of_text spaces ++ elements_only back)),
    g ∙ ap (λ l. x ++ l) f ∙ sym (append_assoc x front (elements_only back)),
  )

  no_texts :
      (es : List (Sent P))
      → has_text es ≡ false
      → (back : List P) × (pieces es ≡ elements_only back)
  unfolding has_text
  no_texts [] h = ([], refl)
  no_texts (sent_text t ∷ es) h = cc h
  no_texts (sent_plain p ∷ es) h =
      let (back, e) = no_texts es h in (p ∷ back, ap (λ x. element p ∷ x) e)

  last_text :
      (t : Text) (es : List (Sent P))
      → has_text es ≡ false
      → Trimmed
          (sent_text t ∷ es)
          (if is_empty (trim_right t) then es else sent_text (trim_right t) ∷ es)
  last_text t es h =
      let (w, spaces, e) = trim_right_rest t in
      let (back, e') = no_texts es h in
      let kept = pieces_of_text (trim_right t) in
      let whole : pieces (sent_text t ∷ es) ≡ kept ++ (pieces_of_text w ++ elements_only back) =
        ap (λ x. pieces_of_text x ++ pieces es) e
        ∙ ap (λ x. x ++ pieces es) (pieces_of_text-append (trim_right t) w)
        ∙ ap (λ x. (kept ++ pieces_of_text w) ++ x) e'
        ∙ append_assoc kept (pieces_of_text w) (elements_only back) in
      elim (Bool-cases (is_empty (trim_right t))) [
        | inl k ↦ rw k (
          kept,
          w,
          back,
          spaces,
          whole,
          e'
              ∙ ap (λ x. pieces_of_text x ++ elements_only back)
                  (sym (no_elements (trim_right t) k)),
        )
        | inr k ↦ rw k (kept, w, back, spaces, whole, ap (λ x. kept ++ x) e')
      ]

  clean_text-Trimmed : (es : List (Sent P)) → Trimmed es (clean_text es)
  unfolding clean_text
  clean_text-Trimmed [] = ([], [], [], refl, refl, refl)
  clean_text-Trimmed (sent_plain p ∷ es) =
      behind (element p ∷ []) es (sent_plain p ∷ es) (clean_text es) (sent_plain p ∷ clean_text es)
        refl refl (clean_text-Trimmed es)
  clean_text-Trimmed (sent_text t ∷ es) = elim (Bool-cases (has_text es)) [
    | inl h ↦ rw h (
        behind (pieces_of_text t) es (sent_text t ∷ es) (clean_text es)
          (sent_text t ∷ clean_text es) refl refl (clean_text-Trimmed es))
    | inr h ↦ rw h (last_text t es h)
  ]

module _ {C P : Type 0} (pack : C → Option (Sent P)) where
  -- What an element is sent as.
  abbrev pub sent_of : Element C P → List (Sent P)
  sent_of (text t) = sent_text t ∷ []
  sent_of cut = []
  sent_of (custom c) = packed (pack c)
  sent_of (plain p) = sent_plain p ∷ []

  abbrev pub sent_of_all : List (Element C P) → List (Sent P)
  sent_of_all [] = []
  sent_of_all (e ∷ es) = sent_of e ++ sent_of_all es

  -- The segments, one after the other, are the elements as they are sent.
  concat-segments :
      (es : List (Element C P)) (sending : List (Sent P))
      → concat (segments pack es sending) ≡ sending ++ sent_of_all es
  unfolding concat segments
  concat-segments [] sending = elim (Bool-cases (is_empty sending)) [
    | inl e ↦ rw e (rw (no_elements sending e))
    | inr e ↦ rw e
  ]
  concat-segments (text t ∷ es) sending =
      concat-segments es (sending ++ sent_text t ∷ []) ∙ simp (append_assoc)
  concat-segments (plain p ∷ es) sending =
      concat-segments es (sending ++ sent_plain p ∷ []) ∙ simp (append_assoc)
  concat-segments (custom c ∷ es) sending =
      concat-segments es (sending ++ packed (pack c)) ∙ simp (append_assoc)
  concat-segments (cut ∷ es) sending = elim (Bool-cases (is_empty sending)) [
    | inl e ↦
        rw e (concat-segments es [] ∙ ap (λ x. x ++ sent_of_all es) (sym (no_elements sending e)))
    | inr e ↦ rw e (ap (λ x. sending ++ x) (concat-segments es []))
  ]

module _ {P : Type 0} where
  clean_last-Trimmed : (xs : List (List (Sent P))) → Trimmed (concat xs) (concat (clean_last xs))
  unfolding concat clean_last
  clean_last-Trimmed [] = ([], [], [], refl, refl, refl)
  clean_last-Trimmed (x ∷ []) = rw (append-nil x, append-nil (clean_text x)) (clean_text-Trimmed x)
  clean_last-Trimmed (x ∷ y ∷ r) =
      let rest = concat (clean_last (y ∷ r)) in
      behind (pieces x) (concat (y ∷ r)) (x ++ concat (y ∷ r)) rest (x ++ rest)
        (pieces-append x (concat (y ∷ r))) (pieces-append x rest) (clean_last-Trimmed (y ∷ r))

  concat-filter :
      (xs : List (List (Sent P))) → concat (filter (λ x. not (is_empty x)) xs) ≡ concat xs
  unfolding concat
  concat-filter [] = refl
  concat-filter ([] ∷ xs) = concat-filter xs
  concat-filter ((e ∷ es) ∷ xs) = ap (λ l. (e ∷ es) ++ l) (concat-filter xs)

  all-filter : (p : List (Sent P) → Bool) (xs : List (List (Sent P))) → all p (filter p xs) ≡ true
  all-filter p [] = refl
  all-filter p (x ∷ xs) = ground (arith, all-filter p xs)

module _ {C P : Type 0} (pack : C → Option (Sent P)) where
  sent-last_cut :
      (es : List (Element C P)) → sent_of_all pack (es ++ cut ∷ []) ≡ sent_of_all pack es
  sent-last_cut [] = refl
  sent-last_cut (e ∷ es) = ap (λ x. sent_of pack e ++ x) (sent-last_cut es)

  sent-cut_msg :
      (m : Msg C P)
      → sent_of_all pack (cut_msg m).elements ≡ sent_of_all pack (flush_text m).elements
  unfolding cut_msg
  sent-cut_msg m = elim (Bool-cases (is_empty (flush_text m).elements)) [
    | inl e ↦ rw e
    | inr e ↦ rw e (sent-last_cut (flush_text m).elements)
  ]

  -- The messages that ToMessage makes hold, one after the other, the message's elements as they are
  -- packed and its text, all in their order, but for spaces at the end of the last text; and none of
  -- them is empty.
  pub to_message_keeps :
      (m : Msg C P)
      → Trimmed (sent_of_all pack (flush_text m).elements) (to_combine_message pack m)
        × (all (λ x. not (is_empty x)) (to_message pack m) ≡ true)
  unfolding to_message to_combine_message
  to_message_keeps m =
      let es = (cut_msg m).elements in
      let parts = segments pack es [] in
      let whole : concat parts ≡ sent_of_all pack (flush_text m).elements =
        concat-segments pack es [] ∙ sent-cut_msg m in
      let kept : Trimmed (concat parts) (concat (clean_last parts)) = clean_last-Trimmed parts in
      (
        rw (concat-filter (clean_last parts), ← whole) kept,
        all-filter (λ x. not (is_empty x)) (clean_last parts),
      )
