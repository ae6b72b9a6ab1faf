-- ===== src/Repository/VerificationCode/Once.antt =====
-- What `Issue` and `Validate` of pkg/repository/verification_code.go promise for one code.
use autograder_server.Repository.Stored.{delete-other, read-put_message}
use autograder_server.Repository.VerificationCode.{
  is_expired, read_error, as_time, get_key, check_read, check_code, delete_code, collect_one,
  read_message, issue, VerificationCodeMetadata, Codec, checked,
}
use autograder_server.Repository.Pebble.{Pebble, not_found}
use autograder_server.Base.{
  if◌then◌else◌, Bool, ◌∷◌, [], ap, ◌∙◌, ◌⊎◌, eq_of_bytes_eq, sym, bytes_eq_refl, Bool-cases,
  bytes_eq, ◌&&◌, ◌≤◌, leb, ◌≢◌, Option, List, ℕ, arith, inr, inl, some, none, false, true, refl,
  ◌≡◌,
}

checked_true : checked true ≢ checked false
checked_true e = cc

module _ (p : Pebble) (c : Codec VerificationCodeMetadata) where
  open p use {Db, get, delete, scan}

  -- The code that is stored for a key, if any can be read.
  abbrev pub stored_code : Db → List ℕ → List ℕ → Option VerificationCodeMetadata
  stored_code d typ key = read_message p c (get d (get_key typ key))

  -- The two steps of a call, and what the sweep does at one entry that it visits; a code that is
  -- issued is no event.
  pub data Event : Type 0 where
    checks : List ℕ → List ℕ → List ℕ → ℕ → Event
    deletes_code : List ℕ → List ℕ → Bool → Event
    collects : List ℕ → List ℕ → ℕ → Event

  unfoldable pub step : Db → Event → Db
  unfolding delete_code
  step d (checks typ key code now) = d
  step d (deletes_code typ key deletes) = delete_code p c d typ key deletes
  step d (collects key raw now) = collect_one p c d key (c.unmarshal raw) now

  unfoldable pub run : Db → List Event → Db
  unfolding step
  run d [] = d
  run d (e ∷ es) = run (step d e) es

  gone_stays : (d : Db) (j k : List ℕ) → get d k ≡ not_found → get (delete d j).0 k ≡ not_found
  gone_stays d j k gone = elim (Bool-cases (bytes_eq j k)) [
    | inr other ↦ delete-other p d j k other ∙ gone
    | inl same ↦ elim (Bool-cases (delete d j).1) [
      | inl ok ↦ p.get-delete d j k ok ∙ rw same refl
      | inr bad ↦ elim (p.get-delete_failed d j k bad) [
        | inl kept ↦ kept ∙ gone
        | inr (_, deleted) ↦ deleted
      ]
    ]
  ]

  collect_one-gone :
      (d : Db) (j k : List ℕ) (o : Option VerificationCodeMetadata) (now : ℕ)
      → get d k ≡ not_found
      → get (collect_one p c d j o now) k ≡ not_found
  collect_one-gone d j k none now gone = gone
  collect_one-gone d j k (some metadata) now gone = elim (Bool-cases (is_expired metadata now)) [
    | inl late ↦ rw late (gone_stays d j k gone)
    | inr live ↦ rw live gone
  ]

  step-gone : (d : Db) (k : List ℕ) (e : Event) → get d k ≡ not_found → get (step d e) k ≡ not_found
  unfolding step delete_code
  step-gone d k (checks typ key code now) gone = gone
  step-gone d k (deletes_code typ key true) gone = gone_stays d (get_key typ key) k gone
  step-gone d k (deletes_code typ key false) gone = gone
  step-gone d k (collects j raw now) gone = collect_one-gone d j k (c.unmarshal raw) now gone

  run-gone :
      (d : Db) (k : List ℕ) (es : List Event) → get d k ≡ not_found → get (run d es) k ≡ not_found
  unfolding run
  run-gone d k [] gone = gone
  run-gone d k (e ∷ es) gone = run-gone (step d e) k es (step-gone d k e gone)

  accepted :
      (code : List ℕ) (now : ℕ) (o : Option VerificationCodeMetadata)
      → (check_read p c code now o).0 ≡ checked true
      → ((metadata : VerificationCodeMetadata) × (o ≡ some metadata)
          × (metadata.code ≡ code)
          × (now ≤ as_time metadata.expired_at))
        × ((check_read p c code now o).1 ≡ true)
  accepted code now none e = cc
  accepted code now (some metadata) e = elim (Bool-cases (is_expired metadata now)) [
    | inl late ↦ absurd (checked_true (sym (rw late at e)))
    | inr live ↦ elim (Bool-cases (bytes_eq metadata.code code)) [
      | inl same ↦ (
        (metadata, refl, eq_of_bytes_eq metadata.code code same, ground arith),
        rw (live, same) refl,
      )
      | inr other ↦ absurd (checked_true (sym (rw (live, other) at e)))
    ]
  ]

  -- A call whose read accepts a code has read that code for its key, not expired, and goes on to
  -- delete it; on whatever store the deletion then finds, either the deletion fails, or after any
  -- later steps of calls and of the sweep, up to the next issue, no read accepts any code for the
  -- key. Calls that have read before the deletion are not excluded.
  pub validate-once :
      (d d' : Db) (typ key code : List ℕ) (now : ℕ)
      → (check_code p c d typ key code now).0 ≡ checked true
      → ((metadata : VerificationCodeMetadata) × (stored_code d typ key ≡ some metadata)
          × (metadata.code ≡ code)
          × (now ≤ as_time metadata.expired_at))
        × (((delete d' (get_key typ key)).1 ≡ false)
            ⊎ ((es : List Event) (other : List ℕ) (later : ℕ)
                → let after = delete_code p c d' typ key (check_code p c d typ key code now).1 in
                  (check_code p c (run after es) typ key other later).0 ≡ read_error))
  unfolding check_code delete_code
  validate-once d d' typ key code now e =
      let k = get_key typ key in
      let (stored, deletes) = accepted code now (stored_code d typ key) e in
      (
        stored,
        elim (Bool-cases (delete d' k).1) [
          | inr bad ↦ inl bad
          | inl ok ↦ inr (λ es other later.
              let after =
                if (check_read p c code now (stored_code d typ key)).1
                then (delete d' k).0
                else d' in
              let gone : get after k ≡ not_found =
                rw deletes (p.get-delete d' k k ok ∙ rw (bytes_eq_refl k) refl) in
              ap (λ got. (check_read p c other later (read_message p c got)).0)
                (run-gone after k es gone))
        ],
      )

  -- Two calls with the stored code that both read before either has deleted it both accept it.
  pub both_accept :
      (d d' : Db) (typ key code : List ℕ) (now later : ℕ)
      → (check_code p c d typ key code now).0 ≡ checked true
      → stored_code d' typ key ≡ stored_code d typ key
      → later ≤ now
      → (check_code p c d' typ key code later).0 ≡ checked true
  unfolding check_code
  both_accept d d' typ key code now later e same le =
      let (stored, _) = accepted code now (stored_code d typ key) e in
      let (metadata, at, right, live) = stored in
      rw (same, at) (ground (arith, bytes_eq_refl code, ap (λ t. bytes_eq t code) right))

  -- A code that is issued without an error is accepted up to the time it expires, and from then on
  -- and with any other code it is not.
  pub check_code-issue :
      (d : Db) (typ key code other : List ℕ) (expire_at now later : ℕ)
      → (issue p c d typ key code expire_at now).1 ≡ true
      → (check_code p c (issue p c d typ key code expire_at now).0 typ key other later).0
        ≡ checked (leb later expire_at && bytes_eq code other)
  unfolding issue check_code
  check_code-issue d typ key code other expire_at now later e =
      let k = get_key typ key in
      let metadata : VerificationCodeMetadata = record {
        code = code;
        issued_at = some now;
        expired_at = some expire_at;
      } in
      rw (read-put_message p c d k k metadata e, bytes_eq_refl k) (ground arith)
