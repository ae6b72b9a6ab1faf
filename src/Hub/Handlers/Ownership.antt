-- ===== src/Hub/Handlers/Ownership.antt =====
-- `GradeCallback` of pkg/grader/grpc/graderhub_service.go and the submissions that the grader does
-- not own.
use autograder_server.Hub.Handlers.{
  has_ended, take_report, grade_callback, is_owner, stored_report, on_submission_finished,
  stored_brief,
}
use autograder_server.Repository.Grader.{release_submission}
use autograder_server.Hub.Model.{GradeReport}
use autograder_server.Hub.State.{wake_scheduler}
use autograder_server.Hub.State.{Hub}
use autograder_server.Hub.Model.{SubmissionBriefReport}
use autograder_server.Repository.Prefix.{big_endian_uint64}
use autograder_server.Repository.Decimal.RoundTrip.{bytes_eq-decimal}
use autograder_server.Repository.Grader.{read_id, get_grader_id_by_submission_id, release_owned}
use autograder_server.Repository.Codec.{Codec}
use autograder_server.Repository.Pebble.{
  not_found, not_found, found, found, Got, Pebble, failed, not_found,
}
use autograder_server.Base.{
  subst, All, ==_iff, ap, ◌≢◌, ◌∷◌, [], sym, ◌∙◌, Bool-cases, ◌≡◌, ◌==◌, ◌^◌, bytes_eq, ◌<◌, Option,
  List, inr, inl, some, none, false, refl, ℕ,
}
use autograder_server.Repository.Stored.{delete-other, put_message-other, read_message}
use autograder_server.Repository.SubmissionReport
use autograder_server.Repository.SubmissionReport.{get_id_key, get_brief_id_key, get_unfinished_key}
use autograder_server.Repository.Grader.Keys.{
  bytes_eq-submission_grader, get_submission_grader_key, get_grader_submission_key,
  get_submission_grader_prefix,
}

-- The keys under which the owner, the brief and the report of a submission stand.
data Watched (s : ℕ) : List ℕ → Type 0 where
  owner_key : Watched s (get_submission_grader_key s)
  brief_key : Watched s (get_brief_id_key s)
  report_key : Watched s (get_id_key s)

brief-other :
    (i s : ℕ) (k : List ℕ)
    → (i == s) ≡ false
    → Watched s k
    → bytes_eq (get_brief_id_key i) k ≡ false
unfolding get_submission_grader_key get_submission_grader_prefix get_brief_id_key get_id_key
    bytes_eq
brief-other i s _ ne owner_key = refl
brief-other i s _ ne brief_key = bytes_eq-decimal i s ∙ ne
brief-other i s _ ne report_key = refl

report-other :
    (i s : ℕ) (k : List ℕ) → (i == s) ≡ false → Watched s k → bytes_eq (get_id_key i) k ≡ false
unfolding get_submission_grader_key get_submission_grader_prefix get_brief_id_key get_id_key
    bytes_eq
report-other i s _ ne owner_key = refl
report-other i s _ ne brief_key = refl
report-other i s _ ne report_key = bytes_eq-decimal i s ∙ ne

unfinished-other : (i s : ℕ) (k : List ℕ) → Watched s k → bytes_eq (get_unfinished_key i) k ≡ false
unfolding get_submission_grader_key get_submission_grader_prefix get_brief_id_key get_id_key
    get_unfinished_key bytes_eq
unfinished-other i s _ owner_key = refl
unfinished-other i s _ brief_key = refl
unfinished-other i s _ report_key = refl

listing-other :
    (g i s : ℕ) (k : List ℕ) → Watched s k → bytes_eq (get_grader_submission_key g i) k ≡ false
unfolding get_submission_grader_key get_submission_grader_prefix get_grader_submission_key
    get_brief_id_key get_id_key bytes_eq
listing-other g i s _ owner_key = refl
listing-other g i s _ brief_key = refl
listing-other g i s _ report_key = refl

owner-other :
    (i s : ℕ) (k : List ℕ)
    → i < 2 ^ 64
    → s < 2 ^ 64
    → (i == s) ≡ false
    → Watched s k
    → bytes_eq (get_submission_grader_key i) k ≡ false
owner-other i s _ hi hs ne owner_key = bytes_eq-submission_grader i s hi hs ∙ ne
owner-other i s _ hi hs ne brief_key =
    unfold get_submission_grader_key get_submission_grader_prefix get_brief_id_key bytes_eq in refl
owner-other i s _ hi hs ne report_key =
    unfold get_submission_grader_key get_submission_grader_prefix get_id_key bytes_eq in refl

module _ (p : Pebble) where
  open p use {Db, get, put, delete}

  release_owned-other :
      (d : Db) (i s : ℕ) (k : List ℕ) (o : Got)
      → i < 2 ^ 64
      → s < 2 ^ 64
      → (i == s) ≡ false
      → Watched s k
      → get (release_owned p d i o).0 k ≡ get d k
  release_owned-other d i s k (found raw) hi hs ne w =
      delete-other p (delete d (get_submission_grader_key i)).0 _ k
        (listing-other (big_endian_uint64 raw) i s k w)
      ∙ delete-other p d _ k (owner-other i s k hi hs ne w)
  release_owned-other d i s k not_found hi hs ne w = refl
  release_owned-other d i s k failed hi hs ne w = refl

not_owner : (o : Option ℕ) (g : ℕ) → o ≢ some g → is_owner o g ≡ false
not_owner none g ne = refl
not_owner (some j) g ne = elim (Bool-cases (j == g)) [
  | inl same ↦ absurd (ne (ap some ((==_iff j g).0 same)))
  | inr other ↦ other
]

module _ (p : Pebble) {R : Type 0} (briefs : Codec SubmissionBriefReport) (reports : Codec R) where
  open p use {Db, get}

  stored_brief-other :
      (d : Db) (i s : ℕ) (k : List ℕ) (o : Option SubmissionBriefReport)
      → (i == s) ≡ false
      → Watched s k
      → get (stored_brief p briefs d i o) k ≡ get d k
  unfolding SubmissionReport.update_submission_brief_report
  stored_brief-other d i s k none ne w = refl
  stored_brief-other d i s k (some brief) ne w =
      put_message-other p briefs d (get_brief_id_key i) k (briefs.marshal brief)
        (brief-other i s k ne w)

  stored_report-other :
      (d : Db) (i s : ℕ) (k : List ℕ) (o : Option R)
      → (i == s) ≡ false
      → Watched s k
      → get (stored_report p reports d i o) k ≡ get d k
  unfolding SubmissionReport.update_submission_report
  stored_report-other d i s k none ne w = refl
  stored_report-other d i s k (some report) ne w =
      put_message-other p reports d (get_id_key i) k (reports.marshal report)
        (report-other i s k ne w)

  take_report-other :
      (h : Hub Db R) (i s : ℕ) (k : List ℕ) (report : GradeReport R)
      → (i == s) ≡ false
      → Watched s k
      → get (take_report p briefs reports h i report).db k ≡ get h.db k
  unfolding take_report
  take_report-other h i s k report ne w =
      stored_report-other (stored_brief p briefs h.db i report.brief) i s k report.report ne w
      ∙ stored_brief-other h.db i s k report.brief ne w

  finished-other :
      (h : Hub Db R) (i s : ℕ) (k : List ℕ)
      → i < 2 ^ 64
      → s < 2 ^ 64
      → (i == s) ≡ false
      → Watched s k
      → get (on_submission_finished p briefs h i).db k ≡ get h.db k
  unfolding on_submission_finished wake_scheduler release_submission
      SubmissionReport.delete_unfinished_submission
  finished-other h i s k hi hs ne w =
      release_owned-other p (p.delete h.db (get_unfinished_key i)).0 i s k _ hi hs ne w
      ∙ delete-other p h.db (get_unfinished_key i) k (unfinished-other i s k w)

  owner_kept :
      (h : Hub Db R) (i s : ℕ) (report : GradeReport R)
      → (i == s) ≡ false
      → get_grader_id_by_submission_id p (take_report p briefs reports h i report).db s
        ≡ get_grader_id_by_submission_id p h.db s
  unfolding get_grader_id_by_submission_id
  owner_kept h i s report ne =
      ap (read_id p) (take_report-other h i s (get_submission_grader_key s) report ne owner_key)

  callback-other :
      (h : Hub Db R) (g s : ℕ) (k : List ℕ) (messages : List (ℕ × GradeReport R))
      → s < 2 ^ 64
      → All (λ (m : ℕ × GradeReport R). m.0 < 2 ^ 64) messages
      → get_grader_id_by_submission_id p h.db s ≢ some g
      → Watched s k
      → get (grade_callback p briefs reports h g messages).0.db k ≡ get h.db k
  unfolding grade_callback
  callback-other h g s k [] hs small ne w = refl
  callback-other h g s k ((i, report) ∷ r) hs small ne w = elim (Bool-cases (i == s)) [
    | inl same ↦
        let at : i ≡ s = (==_iff i s).0 same in
        rw
          (not_owner (get_grader_id_by_submission_id p h.db i) g
            (subst (λ t. get_grader_id_by_submission_id p h.db t ≢ some g) (sym at) ne))
          refl
    | inr other ↦ elim (Bool-cases (is_owner (get_grader_id_by_submission_id p h.db i) g)) [
      | inr foreign ↦ rw foreign refl
      | inl owned ↦ rw owned (elim (Bool-cases (has_ended report.brief)) [
        | inl ended ↦ rw ended (
            finished-other (take_report p briefs reports h i report) i s k small.0 hs other w
            ∙ take_report-other h i s k report other w)
        | inr goes_on ↦ rw goes_on (
            callback-other (take_report p briefs reports h i report) g s k r hs small.1
              (λ e. ne (sym (owner_kept h i s report other) ∙ e)) w
            ∙ take_report-other h i s k report other w)
      ])
    ]
  ]

  -- Whatever a grader streams, a submission that it does not own when the stream begins keeps its
  -- owner, its brief and its report, if the ids of the submission and of the messages are below 2
  -- ^ 64.
  pub grade_callback-foreign :
      (h : Hub Db R) (g s : ℕ) (messages : List (ℕ × GradeReport R))
      → s < 2 ^ 64
      → All (λ (m : ℕ × GradeReport R). m.0 < 2 ^ 64) messages
      → get_grader_id_by_submission_id p h.db s ≢ some g
      → let d' = (grade_callback p briefs reports h g messages).0.db in
        (get_grader_id_by_submission_id p d' s ≡ get_grader_id_by_submission_id p h.db s)
        × (SubmissionReport.get_submission_brief_report p briefs d' s
            ≡ SubmissionReport.get_submission_brief_report p briefs h.db s)
        × (SubmissionReport.get_submission_report p reports d' s
            ≡ SubmissionReport.get_submission_report p reports h.db s)
  unfolding get_grader_id_by_submission_id SubmissionReport.get_submission_brief_report
      SubmissionReport.get_submission_report
  grade_callback-foreign h g s messages hs small ne = (
    ap (read_id p)
        (callback-other h g s (get_submission_grader_key s) messages hs small ne owner_key),
    ap (read_message p briefs)
        (callback-other h g s (get_brief_id_key s) messages hs small ne brief_key),
    ap (read_message p reports)
        (callback-other h g s (get_id_key s) messages hs small ne report_key),
  )
