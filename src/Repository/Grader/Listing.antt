-- ===== src/Repository/Grader/Listing.antt =====
-- `GetSubmissionsByGrader` of pkg/repository/grader.go against what is stored under the grader.
use autograder_server.Repository.Keys.{
  has_prefix-append, IsBytes-of-digits, drop-append, IsBytes-append,
}
use autograder_server.Repository.Prefix.Bounds.{in_range-prefix_iter_options}
use autograder_server.Repository.Pebble.{
  not_found, not_found, found, found, lookup_key, failed, not_found,
}
use mathlib.Core.List.{append_assoc}
use autograder_server.Repository.Decimal.{atoi, decimal}
use autograder_server.Repository.Prefix.{in_range, IsBytes}
use autograder_server.Repository.Decimal.RoundTrip.{atoi-decimal, decimal-IsDigits}
use autograder_server.Base.{
  drop, subst, Option, none, eq_of_bytes_eq, bytes_eq, Bool-cases, contains, ◌∙◌, ◌^◌, ◌<◌, codes,
  inr, inl, some, refl, ◌++◌, ◌≡◌, length, List, ℕ, arith, ◌∷◌, [], true,
}
use autograder_server.Repository.Grader.Keys.{
  get_grader_submission_prefix, get_grader_submission_key,
}
use autograder_server.Repository.Grader.Claims.{listed, is_found}
use autograder_server.Repository.Grader.{
  cons_id, Got, prefix_iter_options, Entries, Pebble, get_submissions_by_grader, submission_ids,
  scanned,
}

-- The key is the prefix and the decimal id.
key-prefix : (g s : ℕ) → get_grader_submission_key g s ≡ get_grader_submission_prefix g ++ decimal s
unfolding get_grader_submission_key get_grader_submission_prefix
key-prefix g s = simp append_assoc

prefix-IsBytes : (g : ℕ) → IsBytes (get_grader_submission_prefix g)
unfolding get_grader_submission_prefix
prefix-IsBytes g =
    IsBytes-append (codes "running:grader:submission:") _ (omega arith)
      (IsBytes-append (decimal g) _ (IsBytes-of-digits _ (decimal-IsDigits g)) (omega arith))

in_range-key :
    (g s : ℕ)
    → in_range
        (prefix_iter_options (get_grader_submission_prefix g))
        (get_grader_submission_key g s)
      ≡ true
in_range-key g s = rw (key-prefix g s) (
    in_range-prefix_iter_options _ _ (prefix-IsBytes g)
      (IsBytes-append _ _ (prefix-IsBytes g) (IsBytes-of-digits _ (decimal-IsDigits s)))
    ∙ has_prefix-append _ _)

module _ (p : Pebble) where
  open p use {Db, get, scan}

  contains-cons_id :
      (s : ℕ) (o : Option ℕ) (ids : List ℕ)
      → contains s ids ≡ true
      → contains s (cons_id p o ids) ≡ true
  contains-cons_id s none ids h = h
  contains-cons_id s (some id) ids h = ground arith

  scanned_entries :
      (n : ℕ) (o : Option Entries) (ids : List ℕ)
      → scanned p n o ≡ some ids
      → (entries : Entries) × (o ≡ some entries) × (submission_ids p n entries ≡ ids)
  scanned_entries n none ids e = cc
  scanned_entries n (some entries) ids e = (entries, refl, cc)

  contains-ids :
      (prefix : List ℕ) (s : ℕ) (v : List ℕ) (entries : Entries)
      → s < 2 ^ 63
      → lookup_key (prefix ++ decimal s) entries ≡ found v
      → contains s (submission_ids p (length prefix) entries) ≡ true
  contains-ids prefix s v [] h e = cc
  contains-ids prefix s v ((key, w) ∷ r) h e =
      elim (Bool-cases (bytes_eq key (prefix ++ decimal s))) [
        | inl same ↦
            rw (eq_of_bytes_eq _ _ same, drop-append prefix (decimal s), atoi-decimal s h)
              (ground arith)
        | inr other ↦
            contains-cons_id s (atoi (drop (length prefix) key)) _
              (contains-ids prefix s v r h (rw other at e))
      ]

  is_found_value : (o : Got) → is_found o ≡ true → (v : List ℕ) × (o ≡ found v)
  is_found_value (found v) h = (v, refl)
  is_found_value not_found h = cc
  is_found_value failed h = cc

  listed_value :
      (d : Db) (g s : ℕ)
      → listed p d g s ≡ true
      → (v : List ℕ) × (get d (get_grader_submission_key g s) ≡ found v)
  unfolding listed
  listed_value d g s h = is_found_value _ h

  -- A submission with an id below 2 ^ 63 that is listed under a grader is among the submissions
  -- that the code reads for that grader, when the read succeeds.
  pub contains-get_submissions_by_grader :
      (d : Db) (g s : ℕ) (ids : List ℕ)
      → s < 2 ^ 63
      → listed p d g s ≡ true
      → get_submissions_by_grader p d g ≡ some ids
      → contains s ids ≡ true
  unfolding get_submissions_by_grader
  contains-get_submissions_by_grader d g s ids h l e =
      let prefix = get_grader_submission_prefix g in
      let (entries, opens, reads) =
        scanned_entries (length prefix) (scan d (prefix_iter_options prefix)) ids e in
      let (v, stored) = listed_value d g s l in
      let there =
        p.scan-found d (prefix_iter_options prefix) entries (get_grader_submission_key g s) v opens
          stored (in_range-key g s) in
      subst (λ t. contains s t ≡ true) reads
        (contains-ids prefix s v entries h (rw key-prefix at there))
