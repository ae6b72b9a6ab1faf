-- ===== src/Repository/SubmissionReport/RoundTrip.antt =====
-- Reads after writes through pkg/repository/submission_report.go.
use autograder_server.Repository.Stored.{put_get}
use autograder_server.Repository.Decimal.RoundTrip.{bytes_eq-decimal}
use autograder_server.Base.{if◌then◌else◌, ◌==◌, ◌≡◌, bytes_eq, ℕ, arith, some, false, true, refl}
use autograder_server.Repository.Codec.{Codec}
use autograder_server.Repository.SubmissionReport.{
  Pebble, get_id_key, get_brief_id_key, update_submission_brief_report, get_submission_brief_report,
  get_submission_report,
}

bytes_eq-brief : (a b : ℕ) → bytes_eq (get_brief_id_key a) (get_brief_id_key b) ≡ (a == b)
unfolding get_brief_id_key bytes_eq
bytes_eq-brief a b = bytes_eq-decimal a b

bytes_eq-brief_report : (a b : ℕ) → bytes_eq (get_brief_id_key a) (get_id_key b) ≡ false
unfolding get_brief_id_key get_id_key bytes_eq
bytes_eq-brief_report a b = refl

module _ (p : Pebble) {A B : Type 0} (c : Codec A) (e : Codec B) where
  open p use {Db, get, put}

  -- A brief report that is written without error is read back; the briefs of other submissions and
  -- every full report stay what they were.
  pub get-update_submission_brief_report :
      (d : Db) (id j : ℕ) (brief : A)
      → (update_submission_brief_report p c d id brief).1 ≡ true
      → let d' = (update_submission_brief_report p c d id brief).0 in
        (get_submission_brief_report p c d' j
          ≡ (if id == j then some brief else get_submission_brief_report p c d j))
        × (get_submission_report p e d' j ≡ get_submission_report p e d j)
  unfolding update_submission_brief_report get_submission_brief_report get_submission_report
  get-update_submission_brief_report d id j brief h =
      let (raw, back, at) =
        put_get p c d (get_brief_id_key id) (get_brief_id_key j) brief (c.marshal brief) refl h in
      let (raw', back', at') =
        put_get p c d (get_brief_id_key id) (get_id_key j) brief (c.marshal brief) refl h in
      (
        rw (at, bytes_eq-brief id j) (ground (arith, back)),
        rw (at', bytes_eq-brief_report id j) refl,
      )
