-- ===== src/Repository/Submissions/Listed.antt =====
-- A submission that pkg/repository/submission.go creates, as it is read back and listed.
use autograder_server.Repository.Prefix.Words.{big_endian-uint64_to_bytes}
use autograder_server.Repository.Merger.{}
use autograder_server.Repository.Prefix.Bounds.{in_range-prefix_iter_options}
use autograder_server.Repository.Sequencer.{
  get_next_id, next_id, NextId, KvSequencer, out_of_fuel, write_error, next_id,
}
use autograder_server.Repository.Batch.{set_key, writes_at}
use mathlib.Core.List.{append_assoc}
use autograder_server.Repository.Keys.{
  drop-append, has_prefix-append, uint64_to_bytes-IsBytes, IsBytes-append, numbered-IsBytes,
  bytes_eq-numbered,
}
use autograder_server.Repository.Submissions.{
  submission_ids, create_marshalled, get_submissions_by_user_and_assignment, create_submission,
  read_message, create_error, created, create_numbered, get_submission, listings, Batches,
  Submission, numbered, Mergeable, get_user_assignment_prefix, Codec, get_submission_key,
  get_user_assignment_key,
}
use autograder_server.Repository.Prefix.{IsBytes, uint64_to_bytes, prefix_iter_options, in_range}
use autograder_server.Repository.Pebble.{lookup_key, Entries, found, found, Got, Pebble, found}
use autograder_server.Base.{
  eq_of_bytes_eq, eq_of_some, ◌^◌, length, ◌<◌, Option, none, subst, ◌++◌, if◌then◌else◌,
  Bool-cases, ◌∙◌, ap, Bool, arith, inr, inl, some, contains, bytes_eq_refl, codes, ◌==◌, bytes_eq,
  List, ℕ, ◌∷◌, [], false, true, refl, ◌≡◌,
}

user_assignment_key :
    (u a s : ℕ)
    → get_user_assignment_key u a s
      ≡ numbered (codes "submission:user:assignment:") u (numbered [] a (uint64_to_bytes s))
unfolding get_user_assignment_key get_user_assignment_prefix
user_assignment_key u a s = simp append_assoc

bytes_eq-user_assignment :
    (u v a s : ℕ)
    → bytes_eq (get_user_assignment_key u a s) (get_user_assignment_key v a s) ≡ (u == v)
bytes_eq-user_assignment u v a s =
    rw
      (
        user_assignment_key u a s,
        user_assignment_key v a s,
        bytes_eq-numbered (codes "submission:user:assignment:") (numbered [] a (uint64_to_bytes s))
            (numbered [] a (uint64_to_bytes s)) u v,
        bytes_eq_refl (numbered [] a (uint64_to_bytes s)),
      )
      (ground arith)

submission-listing :
    (s v a : ℕ) → bytes_eq (get_submission_key s) (get_user_assignment_key v a s) ≡ false
unfolding get_submission_key get_user_assignment_key get_user_assignment_prefix bytes_eq
submission-listing s v a = refl

listing-submission :
    (s v a : ℕ) → bytes_eq (get_user_assignment_key v a s) (get_submission_key s) ≡ false
unfolding get_submission_key get_user_assignment_key get_user_assignment_prefix bytes_eq
listing-submission s v a = refl

in_range-user_assignment :
    (u a s : ℕ)
    → in_range
        (prefix_iter_options (get_user_assignment_prefix u a))
        (get_user_assignment_key u a s)
      ≡ true
unfolding get_user_assignment_key get_user_assignment_prefix
in_range-user_assignment u a s =
    let prefix = get_user_assignment_prefix u a in
    let bytes =
      numbered-IsBytes (codes "submission:user:assignment:") (numbered [] a []) u (omega arith)
        (numbered-IsBytes [] [] a tt tt) in
    in_range-prefix_iter_options prefix (prefix ++ uint64_to_bytes s) bytes
      (IsBytes-append prefix (uint64_to_bytes s) bytes (uint64_to_bytes-IsBytes s))
    ∙ has_prefix-append prefix (uint64_to_bytes s)

pub user_assignment_key-IsBytes : (u a s : ℕ) → IsBytes (get_user_assignment_key u a s)
unfolding get_user_assignment_key get_user_assignment_prefix
user_assignment_key-IsBytes u a s =
    IsBytes-append (get_user_assignment_prefix u a) (uint64_to_bytes s)
      (numbered-IsBytes (codes "submission:user:assignment:") (numbered [] a []) u (omega arith)
        (numbered-IsBytes [] [] a tt tt))
      (uint64_to_bytes-IsBytes s)

module _ (p : Pebble) (cm : Codec Mergeable) (c : Codec Submission) (b : Batches cm p) where
  open p use {Db, get, scan}

  listings_elsewhere :
      (us : List ℕ) (a s : ℕ) (got : Got)
      → writes_at cm (get_submission_key s) (listings p cm c b us a s) got ≡ got
  listings_elsewhere [] a s got = refl
  listings_elsewhere (u ∷ us) a s got =
      listings_elsewhere us a s _ ∙ rw (listing-submission s u a) refl

  kept_found : (flag : Bool) → (if flag then found [] else found []) ≡ found []
  kept_found true = refl
  kept_found false = refl

  stays_listed :
      (us : List ℕ) (u a s : ℕ)
      → writes_at cm (get_user_assignment_key u a s) (listings p cm c b us a s) (found [])
        ≡ found []
  stays_listed [] u a s = refl
  stays_listed (v ∷ us) u a s =
      ap (writes_at cm (get_user_assignment_key u a s) (listings p cm c b us a s))
        (kept_found (bytes_eq (get_user_assignment_key v a s) (get_user_assignment_key u a s)))
      ∙ stays_listed us u a s

  listed_at :
      (us : List ℕ) (u a s : ℕ) (got : Got)
      → contains u us ≡ true
      → writes_at cm (get_user_assignment_key u a s) (listings p cm c b us a s) got ≡ found []
  listed_at [] u a s got h = cc
  listed_at (v ∷ us) u a s got h = elim (Bool-cases (v == u)) [
    | inl same ↦
        ap (λ t. writes_at cm (get_user_assignment_key u a s) (listings p cm c b us a s) t)
          (rw (bytes_eq-user_assignment v u a s, same) refl)
        ∙ stays_listed us u a s
    | inr other ↦ listed_at us u a s _ (ground arith)
  ]

  abbrev pub Listed : Db → Submission → ℕ → Type 0
  Listed d s id =
      (get_submission p cm c b d id ≡ some s)
      × ((u : ℕ)
          → contains u s.submitters ≡ true
          → get d (get_user_assignment_key u s.assignment_id id) ≡ found [])

  numbered-Listed :
      (r : Db × KvSequencer × NextId) (s : Submission) (id : ℕ) (raw : List ℕ)
      → c.marshal s ≡ some raw
      → (create_numbered p cm c b r s raw).2 ≡ created id
      → Listed (create_numbered p cm c b r s raw).0 s id
  unfolding get_submission
  numbered-Listed (d, q, write_error) s id raw em e = cc
  numbered-Listed (d, q, out_of_fuel) s id raw em e = cc
  numbered-Listed (d, q, next_id n) s id raw em e =
      let ws =
        set_key (get_submission_key n) raw ∷ listings p cm c b s.submitters s.assignment_id n in
      let d' = (b.commit d ws).0 in
      elim (Bool-cases (b.commit d ws).1) [
        | inr bad ↦ absurd (let never : create_error ≡ created id = rw bad at e in cc)
        | inl ok ↦
            let same : n ≡ id = (let h : created n ≡ created id = rw ok at e in cc) in
            let k = get_submission_key n in
            let first : (if bytes_eq k k then found raw else get d k) ≡ found raw =
              rw (bytes_eq_refl k) (refl) in
            let at : get d' k ≡ found raw =
              b.get-commit d ws k ok
              ∙ ap (writes_at cm k (listings p cm c b s.submitters s.assignment_id n)) first
              ∙ listings_elsewhere s.submitters s.assignment_id n (found raw) in
            let stored : read_message p c (get d' k) ≡ some s =
              rw at (c.unmarshal-marshal s raw em) in
            subst (λ t. Listed d' s t) same
              (
                stored,
                λ u h.
                    b.get-commit d ws (get_user_assignment_key u s.assignment_id n) ok
                    ∙ listed_at s.submitters u s.assignment_id n _ h,
              )
      ]

  marshalled-Listed :
      (d : Db) (q : KvSequencer) (s : Submission) (id : ℕ) (o : Option (List ℕ))
      → c.marshal s ≡ o
      → (create_marshalled p cm c b d q s o).2 ≡ created id
      → Listed (create_marshalled p cm c b d q s o).0 s id
  marshalled-Listed d q s id none em e = cc
  marshalled-Listed d q s id (some raw) em e = numbered-Listed (get_next_id p 2 d q) s id raw em e

  -- A submission whose creation returns an id is read back and listed under each submitter.
  pub create_submission-Listed :
      (d : Db) (q : KvSequencer) (s : Submission) (id : ℕ)
      → (create_submission p cm c b d q s).2 ≡ created id
      → Listed (create_submission p cm c b d q s).0 s id
  unfolding create_submission
  create_submission-Listed d q s id e = marshalled-Listed d q s id (c.marshal s) refl e

  contains-ids :
      (prefix : List ℕ) (s : ℕ) (v : List ℕ) (entries : Entries)
      → s < 2 ^ 64
      → lookup_key (prefix ++ uint64_to_bytes s) entries ≡ found v
      → contains s (submission_ids p cm c b (length prefix) entries) ≡ true
  contains-ids prefix s v [] small e = cc
  contains-ids prefix s v ((key, w) ∷ r) small e =
      elim (Bool-cases (bytes_eq key (prefix ++ uint64_to_bytes s))) [
        | inl same ↦
            rw
              (
                eq_of_bytes_eq _ _ same,
                drop-append prefix (uint64_to_bytes s),
                big_endian-uint64_to_bytes s small,
              )
              (ground arith)
        | inr other ↦
            let rest = contains-ids prefix s v r small (rw other at e) in ground (arith, rest)
      ]

  scanned_ids :
      (u a : ℕ) (d : Db) (o : Option Entries) (found_ids : List ℕ)
      → scan d (prefix_iter_options (get_user_assignment_prefix u a)) ≡ o
      → get_submissions_by_user_and_assignment p cm c b d u a ≡ some found_ids
      → (entries : Entries) × (o ≡ some entries)
        × (submission_ids p cm c b (length (get_user_assignment_prefix u a)) entries ≡ found_ids)
  unfolding get_submissions_by_user_and_assignment
  scanned_ids u a d none found_ids eo e =
      absurd (let never : none ≡ some found_ids = rw eo at e in cc)
  scanned_ids u a d (some entries) found_ids eo e = (entries, refl, eq_of_some (rw eo at e))

  -- A submission whose creation returns an id below 2 ^ 64 is read back under it, and is among the
  -- submissions of the assignment that are read for each of its submitters, if the read succeeds.
  pub create_submission-listed :
      (d : Db) (q : KvSequencer) (s : Submission) (id u : ℕ) (found_ids : List ℕ)
      → (create_submission p cm c b d q s).2 ≡ created id
      → id < 2 ^ 64
      → contains u s.submitters ≡ true
      → let d' = (create_submission p cm c b d q s).0 in
        get_submissions_by_user_and_assignment p cm c b d' u s.assignment_id ≡ some found_ids
        → (get_submission p cm c b d' id ≡ some s) × (contains id found_ids ≡ true)
  unfolding create_submission get_user_assignment_key
  create_submission-listed d q s id u found_ids e small h read =
      let a = s.assignment_id in
      let d' = (create_submission p cm c b d q s).0 in
      let (stored, listed) = marshalled-Listed d q s id (c.marshal s) refl e in
      let (entries, opens, same) =
        scanned_ids u a d' (scan d' (prefix_iter_options (get_user_assignment_prefix u a)))
          found_ids refl read in
      let there =
        p.scan-found d' (prefix_iter_options (get_user_assignment_prefix u a)) entries
          (get_user_assignment_key u a id) [] opens (listed u h)
          (in_range-user_assignment u a id) in
      (
        stored,
        subst (λ t. contains id t ≡ true) same
            (contains-ids (get_user_assignment_prefix u a) id [] entries small there),
      )
