-- ===== src/Service/Submitting.antt =====
-- pkg/grpc/submission.go: who may be named as a submitter, the limits on submissions, and their
-- creation.
pub mod Validation
pub mod Limits
pub mod Creating
use autograder_server.Repository.Messages.{SubmissionLimitConfig, as_time, Submission}
use autograder_server.Service.Model.{
  invalid_argument, ErrorCode, Code, code_submission_frequency, code_get_submission,
  code_submission_limit, code_get_submissions, code_not_a_submitter, code_submitter_not_in_course,
  resource_exhausted, internal, permission_denied, invalid_argument,
}
use autograder_server.Base.{
  contains, ◌==◌, ◌-◌, ◌||◌, ◌+◌, ◌++◌, length, ltb, ◌&&◌, ◌^◌, leb, not, ◌%◌, if◌then◌else◌, ◌*◌,
  Bool, Option, List, ℕ, ◌∷◌, [], some, none, false, suc, ◌≡◌,
}

pub data Submitters : Type 0 where
  submitters_are : List ℕ → Submitters
  submitters_refused : Code → ErrorCode → Submitters

-- `is_member` is a membership in the course that `GetCourseMember` finds.
module _ (is_member : ℕ → Bool) where
  -- The loop and the check after it.
  unfoldable pub validate_loop : List ℕ → ℕ → Bool → List ℕ → List ℕ → Bool → Submitters
  validate_loop [] caller staff seen submitters self_included =
      if not self_included && not staff
      then submitters_refused permission_denied code_not_a_submitter
      else submitters_are submitters
  validate_loop (sid ∷ r) caller staff seen submitters self_included =
      let skipped = validate_loop r caller staff seen submitters self_included in
      let kept =
        validate_loop r caller staff (sid ∷ seen) (submitters ++ sid ∷ [])
          (self_included || sid == caller) in
      if contains sid seen
      then skipped
      else if not (is_member sid)
      then submitters_refused invalid_argument code_submitter_not_in_course
      else kept

  abbrev pub or_caller : List ℕ → ℕ → List ℕ
  or_caller [] caller = caller ∷ []
  or_caller (sid ∷ r) caller = sid ∷ r

  unfoldable pub validate_submitters : List ℕ → ℕ → Bool → Submitters
  unfolding validate_loop
  validate_submitters requested caller staff =
      validate_loop (or_caller requested caller) caller staff [] [] false

-- Whether a time in nanoseconds is after the start of a window of minutes that ends now; the
-- duration is an int64 and wraps around.
abbrev pub is_after_start : ℕ → ℕ → ℕ → Bool
is_after_start period now submitted =
    let minutes = 60000000000 * period % 2 ^ 64 in
    if leb minutes (2 ^ 63)
    then ltb now (submitted + minutes)
    else ltb (now + (2 ^ 64 - minutes)) submitted

pub data LimitError : Type 0 where
  limit_error : Code → ErrorCode → LimitError

module _ (get_submission : ℕ → Option Submission) where
  -- The count of the loop; none is an error of `GetSubmission`.
  unfoldable pub window_count : List ℕ → ℕ → ℕ → ℕ → Option ℕ
  window_count [] period now count = some count
  window_count (id ∷ r) period now count = elim (get_submission id) [
    | none ↦ none
    | some s ↦
        if is_after_start period now (as_time s.submitted_at)
        then window_count r period now (suc count)
        else window_count r period now count
  ]

  abbrev within_frequency : Option ℕ → ℕ → Option LimitError
  within_frequency none frequency = some (limit_error internal code_get_submission)
  within_frequency (some count) frequency =
      if leb frequency count
      then some (limit_error resource_exhausted code_submission_frequency)
      else none

  abbrev check_listed : Option (List ℕ) → SubmissionLimitConfig → ℕ → Option LimitError
  unfolding window_count
  check_listed none limit now = some (limit_error internal code_get_submissions)
  check_listed (some ids) limit now =
      if ltb 0 limit.total && leb limit.total (length ids)
      then some (limit_error resource_exhausted code_submission_limit)
      else if ltb 0 limit.frequency && ltb 0 limit.period
      then within_frequency (window_count ids limit.period now 0) limit.frequency
      else none

  -- none is no error. The first argument is what `GetSubmissionsByUserAndAssignment` returns.
  unfoldable pub check_submission_limit :
      Option (List ℕ) → SubmissionLimitConfig → ℕ → Option LimitError
  unfolding check_listed
  check_submission_limit ids limit now = check_listed ids limit now
