-- ===== src/Repository/Leaderboard/Marker.antt =====
-- The marker and the entries of a leaderboard, over the operations of
-- pkg/repository/leaderboard.go.
use autograder_server.Repository.Stored.{read-put_message, delete-other, put_message-other}
use autograder_server.Repository.Decimal.RoundTrip.{bytes_eq-decimal}
use autograder_server.Repository.Keys.{
  bytes_eq-uint64_to_bytes, numbered-append, uint64_to_bytes-IsBytes, bytes_eq-numbered,
  in_range-numbered,
}
use autograder_server.Repository.Prefix.{in_range}
use autograder_server.Repository.Leaderboard.{
  is_stored, get_leaderboard_entry, unmark, delete_leaderboard_entry, Entries, uint64_to_bytes,
  put_message, update_leaderboard_entry, prefix_iter_options, has_leaderboard, numbered, Codec,
  mark, get_marker_id, get_assignment_prefix, get_assignment_user_key,
}
use autograder_server.Repository.Pebble.{found, found, Pebble, Got, failed, not_found, found}
use autograder_server.Base.{
  ==_iff, sym, false≢true, subst, Option, Option, ◌∷◌, some, none, ◌∙◌, Bool-cases, ◌&&◌, codes,
  if◌then◌else◌, ◌==◌, ◌^◌, bytes_eq, ◌<◌, Bool, List, ℕ, arith, [], inr, inl, false, true, refl,
  ◌≡◌,
}

entry_key :
    (a u : ℕ)
    → get_assignment_user_key a u ≡ numbered (codes "leaderboard:assignment:") a (uint64_to_bytes u)
unfolding get_assignment_user_key get_assignment_prefix
entry_key a u = numbered-append (codes "leaderboard:assignment:") (uint64_to_bytes u) a

bytes_eq-entries :
    (a u b v : ℕ)
    → u < 2 ^ 64
    → v < 2 ^ 64
    → bytes_eq (get_assignment_user_key a u) (get_assignment_user_key b v) ≡ (a == b && u == v)
bytes_eq-entries a u b v hu hv = rw (
  entry_key a u,
  entry_key b v,
  bytes_eq-numbered (codes "leaderboard:assignment:") (uint64_to_bytes u) (uint64_to_bytes v) a b,
  bytes_eq-uint64_to_bytes u v hu hv,
)

other_entry :
    (a u b v : ℕ)
    → (a == b) ≡ false
    → bytes_eq (get_assignment_user_key a u) (get_assignment_user_key b v) ≡ false
other_entry a u b v ne = rw (
  entry_key a u,
  entry_key b v,
  bytes_eq-numbered (codes "leaderboard:assignment:") (uint64_to_bytes u) (uint64_to_bytes v) a b,
  ne,
)

bytes_eq-markers : (a b : ℕ) → bytes_eq (get_marker_id a) (get_marker_id b) ≡ (a == b)
unfolding get_marker_id bytes_eq
bytes_eq-markers a b = bytes_eq-decimal a b

marker-entry : (a b v : ℕ) → bytes_eq (get_marker_id a) (get_assignment_user_key b v) ≡ false
unfolding get_marker_id get_assignment_user_key get_assignment_prefix bytes_eq
marker-entry a b v = refl

entry-marker : (a u b : ℕ) → bytes_eq (get_assignment_user_key a u) (get_marker_id b) ≡ false
unfolding get_marker_id get_assignment_user_key get_assignment_prefix bytes_eq
entry-marker a u b = refl

in_range-entry :
    (a u : ℕ)
    → in_range (prefix_iter_options (get_assignment_prefix a)) (get_assignment_user_key a u) ≡ true
unfolding get_assignment_prefix
in_range-entry a u = rw (entry_key a u) (
    in_range-numbered (codes "leaderboard:assignment:") (uint64_to_bytes u) a (omega arith)
      (uint64_to_bytes-IsBytes u))

stored_found : (g : Got) → is_stored g ≡ true → (raw : List ℕ) × (g ≡ found raw)
stored_found (found raw) e = (raw, refl)
stored_found not_found e = cc
stored_found failed e = cc

module _ (p : Pebble) where
  open p use {Db, get, put, delete, scan}

  -- Every assignment with an entry has the marker.
  abbrev pub IsMarked : Db → Type 0
  IsMarked d =
      (b v : ℕ)
      → is_stored (get d (get_assignment_user_key b v)) ≡ true
      → has_leaderboard p d b ≡ true

  -- The marker put after an entry.
  get-mark :
      (r : Db × Bool) (a : ℕ) (j : List ℕ)
      → (mark p r a).1 ≡ true
      → (r.1 ≡ true)
        × (get (mark p r a).0 j ≡ (if bytes_eq (get_marker_id a) j then found [] else get r.0 j))
  get-mark (d, false) a j e = cc
  get-mark (d, true) a j e = (refl, p.get-put d (get_marker_id a) [] j e)

  module _ {A : Type 0} (c : Codec A) where
    marked_by_entry :
        (d : Db) (a u b v : ℕ) (entry : A)
        → (update_leaderboard_entry p c d a u entry).1 ≡ true
        → IsMarked d
        → (a == b) ≡ false
        → is_stored (get (update_leaderboard_entry p c d a u entry).0 (get_assignment_user_key b v))
          ≡ true
        → has_leaderboard p (update_leaderboard_entry p c d a u entry).0 b ≡ true
    unfolding update_leaderboard_entry has_leaderboard
    marked_by_entry d a u b v entry e h ne s =
        let k = get_assignment_user_key a u in
        let first = put_message p c d k (c.marshal entry) in
        let (ok, at_marker) = get-mark first a (get_marker_id b) e in
        let (ok', at_entry) = get-mark first a (get_assignment_user_key b v) e in
        let far = other_entry a u b v ne in
        rw
          (
            at_marker,
            bytes_eq-markers a b,
            ne,
            put_message-other p c d k (get_marker_id b) (c.marshal entry) (entry-marker a u b),
          )
          (h b v (
            rw
              (
                at_entry,
                marker-entry a b v,
                put_message-other p c d k (get_assignment_user_key b v) (c.marshal entry) far,
              )
              at s))

    -- An update of an entry without an error keeps that every leaderboard with an entry is marked.
    pub update_leaderboard_entry-IsMarked :
        (d : Db) (a u : ℕ) (entry : A)
        → (update_leaderboard_entry p c d a u entry).1 ≡ true
        → IsMarked d
        → IsMarked (update_leaderboard_entry p c d a u entry).0
    unfolding update_leaderboard_entry has_leaderboard
    update_leaderboard_entry-IsMarked d a u entry e h b v s = elim (Bool-cases (a == b)) [
      | inl same ↦
          let first = put_message p c d (get_assignment_user_key a u) (c.marshal entry) in
          let (ok, at_marker) = get-mark first a (get_marker_id b) e in
          rw (at_marker, bytes_eq-markers a b, same) refl
      | inr other ↦ marked_by_entry d a u b v entry e h other s
    ]

    -- An entry that is updated without an error is read back, and no other entry changes.
    pub get-update_leaderboard_entry :
        (d : Db) (a u b v : ℕ) (entry : A)
        → u < 2 ^ 64
        → v < 2 ^ 64
        → (update_leaderboard_entry p c d a u entry).1 ≡ true
        → get_leaderboard_entry p c (update_leaderboard_entry p c d a u entry).0 b v
          ≡ (if a == b && u == v then some entry else get_leaderboard_entry p c d b v)
    unfolding update_leaderboard_entry get_leaderboard_entry
    get-update_leaderboard_entry d a u b v entry hu hv e =
        let k = get_assignment_user_key a u in
        let first = put_message p c d k (c.marshal entry) in
        let (ok, at) = get-mark first a (get_assignment_user_key b v) e in
        rw
          (
            at,
            marker-entry a b v,
            read-put_message p c d k (get_assignment_user_key b v) entry ok,
            bytes_eq-entries a u b v hu hv,
          )
          refl

  -- What is stored after a deletion was stored before.
  stored_before :
      (d : Db) (k j : List ℕ) → is_stored (get (delete d k).0 j) ≡ true → is_stored (get d j) ≡ true
  stored_before d k j s = elim (Bool-cases (bytes_eq k j)) [
    | inr other ↦ rw (delete-other p d k j other) at s
    | inl same ↦ elim (Bool-cases (delete d k).1) [
      | inl ok ↦ absurd (false≢true (rw (p.get-delete d k j ok, same) at s))
      | inr bad ↦ elim (p.get-delete_failed d k j bad) [
        | inl kept ↦ rw kept at s
        | inr (at, gone) ↦ absurd (false≢true (rw gone at s))
      ]
    ]
  ]

  unmark-IsMarked :
      (d : Db) (a : ℕ) (o : Option Entries)
      → scan d (prefix_iter_options (get_assignment_prefix a)) ≡ o
      → IsMarked d
      → IsMarked (unmark p d a o).0
  unfolding has_leaderboard
  unmark-IsMarked d a none e h b v s = h b v s
  unmark-IsMarked d a (some (x ∷ r)) e h b v s = h b v s
  unmark-IsMarked d a (some []) e h b v s =
      let there : is_stored (get d (get_assignment_user_key b v)) ≡ true =
        rw (delete-other p d (get_marker_id a) (get_assignment_user_key b v) (marker-entry a b v))
          at s in
      elim (Bool-cases (a == b)) [
        | inl same ↦
            let (raw, found') = stored_found _ there in
            absurd (
              let never : not_found ≡ found raw =
                p.scan-found d (prefix_iter_options (get_assignment_prefix a)) []
                  (get_assignment_user_key b v) raw e found'
                  (subst
                    (λ t.
                      in_range (prefix_iter_options (get_assignment_prefix t))
                        (get_assignment_user_key b v)
                      ≡ true)
                    (sym ((==_iff a b).0 same)) (in_range-entry b v)) in
              cc)
        | inr other ↦
            rw (delete-other p d (get_marker_id a) (get_marker_id b) (bytes_eq-markers a b ∙ other))
              (h b v there)
      ]

  -- If every assignment with an entry has the marker of its leaderboard, deleting an entry keeps it
  -- so, whatever of the deletion fails.
  pub delete_leaderboard_entry-IsMarked :
      (d : Db) (a u : ℕ) → IsMarked d → IsMarked (delete_leaderboard_entry p d a u).0
  unfolding delete_leaderboard_entry has_leaderboard
  delete_leaderboard_entry-IsMarked d a u h =
      let d' = (delete d (get_assignment_user_key a u)).0 in
      unmark-IsMarked d' a (scan d' (prefix_iter_options (get_assignment_prefix a))) refl (λ b v s.
        rw (delete-other p d (get_assignment_user_key a u) (get_marker_id b) (entry-marker a u b))
          (h b v (stored_before d (get_assignment_user_key a u) _ s)))
