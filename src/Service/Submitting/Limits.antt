-- ===== src/Service/Submitting/Limits.antt =====
-- The limits that `checkSubmissionLimit` of pkg/grpc/submission.go enforces.
use autograder_server.Service.Submitting.{is_after_start, check_submission_limit, window_count}
use autograder_server.Repository.Messages.{as_time, SubmissionLimitConfig, Submission}
use autograder_server.Base.{
  ◌<◌, length, ◌∙◌, Bool-cases, ◌⊎◌, ap, ◌↔◌, ◌+◌, if◌then◌else◌, All, Option, List, ℕ, arith, ◌∷◌,
  [], inr, inl, some, none, suc, ◌≡◌,
}

module _ (get_submission : ℕ → Option Submission) where
  -- The submissions of the list that are in the window.
  abbrev pub in_window : List ℕ → ℕ → ℕ → ℕ
  in_window [] period now = 0
  in_window (id ∷ r) period now =
      let rest = in_window r period now in
      elim (get_submission id) [
        | none ↦ rest
        | some s ↦ if is_after_start period now (as_time s.submitted_at) then suc rest else rest
      ]

  abbrev pub AreStored : List ℕ → Type 0
  AreStored = All (λ id. (s : Submission) × (get_submission id ≡ some s))

  window_count_lem :
      (list : List ℕ) (period now count : ℕ)
      → AreStored list
      → window_count get_submission list period now count ≡ some (count + in_window list period now)
  unfolding window_count
  window_count_lem [] period now count h = ap some (omega arith)
  window_count_lem (id ∷ r) period now count h =
      let (s, at) = h.0 in
      elim (Bool-cases (is_after_start period now (as_time s.submitted_at))) [
        | inl e ↦
            rw (window_count, in_window, at, e)
              (window_count_lem r period now (suc count) h.1 ∙ ap some (omega arith))
        | inr e ↦ rw (window_count, in_window, at, e) (window_count_lem r period now count h.1)
      ]

  -- A submitter whose submissions can all be read passes exactly when a total, if there is one, is
  -- not reached, and a frequency for a period, if there is one, is not reached in the window that
  -- ends now.
  pub check_submission_limit_iff :
      (list : List ℕ) (limit : SubmissionLimitConfig) (now : ℕ)
      → AreStored list
      → (check_submission_limit get_submission (some list) limit now ≡ none) ↔ (
          ((limit.total ≡ 0) ⊎ (length list < limit.total))
          × ((limit.frequency ≡ 0)
              ⊎ (limit.period ≡ 0)
              ⊎ (in_window list limit.period now < limit.frequency)))
  unfolding check_submission_limit
  check_submission_limit_iff list limit now h =
      let counted = window_count_lem list limit.period now 0 h in
      rw counted (ground arith, ground arith)
