-- ===== src/Service/Submitting/Creating/Queued.antt =====
-- What is stored of a submission after its brief is written and its manifest is deleted, as
-- `CreateSubmission` of pkg/grpc/submission.go does.
use autograder_server.Service.Submitting.Creating.{queued_brief}
use autograder_server.Repository.Manifest.{
  delete_manifest, get_files_prefix, get_manifest_key, get_filesize_key,
}
use autograder_server.Repository.Manifest.Deleted.{IsElsewhere, delete_manifest-elsewhere}
use autograder_server.Repository.Submissions.{
  get_submission, get_submission_key, get_user_assignment_key, get_user_assignment_prefix,
}
use autograder_server.Repository.Submissions.Listed.{Listed, user_assignment_key-IsBytes}
use autograder_server.Repository.SubmissionReport.{
  update_submission_brief_report, get_submission_brief_report, get_brief_id_key,
}
use autograder_server.Repository.Stored.{read_message, read-put_message, put_message-other}
use autograder_server.Repository.Prefix.{has_prefix}
use autograder_server.Repository.Decimal.{decimal}
use autograder_server.Repository.Decimal.RoundTrip.{decimal-IsDigits}
use autograder_server.Repository.Keys.{IsBytes-append, IsBytes-of-digits}
use autograder_server.Repository.Batch.{Batches}
use autograder_server.Repository.Codec.{Codec}
use autograder_server.Repository.Merger.{Mergeable}
use autograder_server.Repository.Messages.{Submission, ManifestFileMetadata, ManifestMetadata}
use autograder_server.Repository.Pebble.{Pebble}
use autograder_server.Hub.Model.{SubmissionBriefReport, queued}
use autograder_server.Base.{
  bytes_eq_refl, ◌∙◌, ap, codes, ℕ, arith, some, false, true, refl, ℕ, List, bytes_eq, ◌≡◌,
}

manifest-brief : (m id : ℕ) → IsElsewhere m (get_brief_id_key id)
unfolding get_brief_id_key get_files_prefix get_manifest_key get_filesize_key has_prefix bytes_eq
manifest-brief m id = (
  IsBytes-append (codes "submission_report:brief:") (decimal id) (omega arith)
      (IsBytes-of-digits (decimal id) (decimal-IsDigits id)),
  refl,
  refl,
  refl,
)

manifest-submission : (m id : ℕ) → IsElsewhere m (get_submission_key id)
unfolding get_submission_key get_files_prefix get_manifest_key get_filesize_key has_prefix bytes_eq
manifest-submission m id = (
  IsBytes-append (codes "submission:id:") (decimal id) (omega arith)
      (IsBytes-of-digits (decimal id) (decimal-IsDigits id)),
  refl,
  refl,
  refl,
)

manifest-listing : (m u a id : ℕ) → IsElsewhere m (get_user_assignment_key u a id)
manifest-listing m u a id = (
  user_assignment_key-IsBytes u a id,
  unfold get_user_assignment_key get_user_assignment_prefix get_files_prefix has_prefix in refl,
  unfold get_user_assignment_key get_user_assignment_prefix get_manifest_key bytes_eq in refl,
  unfold get_user_assignment_key get_user_assignment_prefix get_filesize_key bytes_eq in refl,
)

brief-submission : (j id : ℕ) → bytes_eq (get_brief_id_key j) (get_submission_key id) ≡ false
unfolding get_brief_id_key get_submission_key bytes_eq
brief-submission j id = refl

brief-listing :
    (j u a id : ℕ) → bytes_eq (get_brief_id_key j) (get_user_assignment_key u a id) ≡ false
unfolding get_brief_id_key get_user_assignment_key get_user_assignment_prefix bytes_eq
brief-listing j u a id = refl

module _ (p : Pebble) (cm : Codec Mergeable) (md : Codec ManifestMetadata)
    (fm : Codec ManifestFileMetadata) (sc : Codec Submission) (bc : Codec SubmissionBriefReport)
    (b : Batches cm p) where
  open p use {Db, get}

  -- The submission is read back and listed for each of its submitters, and its brief says that it
  -- is queued.
  pub record IsQueued (d : Db) (id : ℕ) (s : Submission) : Type 0 where
    pub listed : Listed p cm sc b d s id
    pub brief :
        get_submission_brief_report p bc d id
        ≡ some (record {
          score = 0;
          max_score = 0;
          exit_code = 0;
          internal_error = 0;
          status = queued;
        })

  -- The brief is written and the manifest is deleted after the submission has been created.
  pub created-IsQueued :
      (d : Db) (manifest id : ℕ) (s : Submission)
      → Listed p cm sc b d s id
      → let w = update_submission_brief_report p bc d id queued_brief in
        w.1 ≡ true → IsQueued (delete_manifest p cm md fm b w.0 manifest).0 id s
  unfolding update_submission_brief_report get_submission_brief_report get_submission
  created-IsQueued d manifest id s (stored, listed) ok =
      let key = get_brief_id_key id in
      let w = update_submission_brief_report p bc d id queued_brief in
      let kept = delete_manifest-elsewhere p cm md fm b w.0 manifest in
      let other = λ (k : List ℕ) (ne : bytes_eq key k ≡ false).
        put_message-other p bc d key k (bc.marshal queued_brief) ne in
      record {
        listed = (
          ap (read_message p sc) (
                kept (get_submission_key id) (manifest-submission manifest id)
                ∙ other (get_submission_key id) (brief-submission id id))
              ∙ stored,
          λ u h.
              let k = get_user_assignment_key u s.assignment_id id in
              kept k (manifest-listing manifest u s.assignment_id id)
              ∙ other k (brief-listing id u s.assignment_id id)
              ∙ listed u h,
        );
        brief =
            ap (read_message p bc) (kept key (manifest-brief manifest id))
            ∙ read-put_message p bc d key key queued_brief ok
            ∙ rw (bytes_eq_refl key) refl;
      }
