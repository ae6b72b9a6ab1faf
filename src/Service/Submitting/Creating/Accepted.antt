-- ===== src/Service/Submitting/Creating/Accepted.antt =====
-- What a submission that `CreateSubmission` of pkg/grpc/submission.go answers with has passed.
use autograder_server.Repository.Submissions.Listed.{create_submission-Listed, Listed}
use autograder_server.Service.Submitting.{
  validate_submitters, or_caller, LimitError, Submitters, limit_error,
}
use autograder_server.Service.Submitting.Validation.{
  validate_submitters-Decided, Decided, AreDistinct,
}
use autograder_server.Service.Submitting.Creating.Queued.{IsQueued, created-IsQueued}
use autograder_server.Service.Submitting.Creating.{
  decimal, get_manifest_path, delete_manifest, validated, within_limits, with_files, limits_of,
  UserTokenPayload, create_submission_checked, Outcome, create_submission, get_files_in_manifest,
  queued_brief, is_staff, update_submission_brief_report, respond, is_in_course, done, briefed,
  check_one, CreateSubmissionResponse, Caller, CreateSubmissionRequest, check_all,
}
use autograder_server.Repository.Sequencer.{KvSequencer}
use autograder_server.Repository.Batch.{Batches}
use autograder_server.Hub.Model.{SubmissionBriefReport}
use autograder_server.Repository.Messages.{
  SubmissionLimitConfig, Submission, CourseMember, User, ManifestFileMetadata, ManifestMetadata,
}
use autograder_server.Repository.Merger.{Mergeable}
use autograder_server.Repository.Codec.{Codec}
use autograder_server.Repository.Pebble.{Pebble}
use autograder_server.Repository.Stored.{created, created, Created, create_error, created}
use autograder_server.Service.Submitting.Validation.{not_in_course, not_submitting, accepted}
use autograder_server.Base.{
  ◌++◌, codes, eq_of_some, ◌∙◌, sym, subst, ap, Option, refl, ◌≢◌, ◌||◌, contains, Option-cases,
  All, Bool, List, ℕ, ◌∷◌, [], inr, inl, some, none, false, true, ◌≡◌,
}

done_injective :
    (x y : CreateSubmissionResponse)
    → Path (Outcome CreateSubmissionResponse) (done x) (done y)
    → x ≡ y
done_injective x y e = cc

module _ (p : Pebble) (cm : Codec Mergeable) (md : Codec ManifestMetadata)
    (fm : Codec ManifestFileMetadata) (us : Codec User) (ms : Codec CourseMember)
    (sc : Codec Submission) (bc : Codec SubmissionBriefReport) (b : Batches cm p) where
  open p use {Db}

  -- The submission that a request asks for.
  abbrev pub asked :
      CreateSubmissionRequest → UserTokenPayload → List ℕ → List (List ℕ) → ℕ → Submission
  asked req user submitters files now = record {
    assignment_id = req.assignment_id;
    submitted_at = some now;
    submitters = submitters;
    path = codes "uploads/manifests/" ++ decimal req.manifest_id;
    files = files;
    leaderboard_name = user.nickname;
    user_id = user.user_id;
  }

  abbrev pub Queued : Db → ℕ → Submission → Type 0
  Queued d id s = IsQueued p cm md fm sc bc b d id s

  -- With the store before and after: the submitters are members of the course, each once, the
  -- caller among them unless it is staff, and none of them is over a limit unless the caller is
  -- staff; the manifest has files; the submission was created for them and with these files, is
  -- stored and listed for each of them, and its brief is queued.
  pub record IsAccepted (d d' : Db) (q : KvSequencer) (req : CreateSubmissionRequest)
      (caller : Caller) (now : ℕ) (resp : CreateSubmissionResponse) : Type 0 where
    pub submitters : List ℕ
    pub distinct : AreDistinct submitters
    pub in_course :
        All (λ u. is_in_course p cm md fm us ms sc bc b d caller.course_id u ≡ true) submitters
    pub includes : (contains caller.user.user_id submitters || is_staff caller.role) ≡ true
    pub limited :
        (limit : SubmissionLimitConfig)
        → caller.assignment.submission_limit ≡ some limit
        → is_staff caller.role ≡ false
        → All
            (λ u. check_one p cm md fm us ms sc bc b d req.assignment_id limit now u ≡ none)
            submitters
    pub filled : resp.files ≢ []
    pub of_manifest : get_files_in_manifest p cm md fm b d req.manifest_id ≡ some resp.files
    pub made :
        (create_submission p cm sc b d q (asked req caller.user submitters resp.files now)).2
        ≡ created resp.submission_id
    pub is_queued : Queued d' resp.submission_id (asked req caller.user submitters resp.files now)

  all_checked :
      (d : Db) (assignment now : ℕ) (limit : SubmissionLimitConfig) (list : List ℕ)
      → check_all p cm md fm us ms sc bc b d assignment limit now list ≡ none
      → All (λ u. check_one p cm md fm us ms sc bc b d assignment limit now u ≡ none) list
  unfolding check_all
  all_checked d assignment now limit [] e = tt
  all_checked d assignment now limit (u ∷ r) e =
      elim (Option-cases (check_one p cm md fm us ms sc bc b d assignment limit now u)) [
        | inl ok ↦ (ok, all_checked d assignment now limit r (rw (ok, check_all) at e))
        | inr (x, bad) ↦ absurd (let never : some x ≡ none = rw (bad, check_all) at e in cc)
      ]

  responded :
      (w : Db × Bool) (q : KvSequencer) (manifest id : ℕ) (files : List (List ℕ))
      (resp : CreateSubmissionResponse)
      → (respond p cm md fm us ms sc bc b w q manifest id files).2 ≡ done resp
      → (w.1 ≡ true)
        × ((respond p cm md fm us ms sc bc b w q manifest id files).0
            ≡ (delete_manifest p cm md fm b w.0 manifest).0)
        × (id ≡ resp.submission_id)
        × (resp.files ≡ files)
  responded (d', false) q manifest id files resp e = cc
  responded (d', true) q manifest id files resp e =
      let same = done_injective _ resp e in
      (refl, refl, ap (λ x. x.submission_id) same, sym (ap (λ x. x.files) same))

  briefed_created :
      (r : Db × KvSequencer × Created) (s : Submission) (manifest : ℕ) (files : List (List ℕ))
      (resp : CreateSubmissionResponse)
      → ((id : ℕ) → r.2 ≡ created id → Listed p cm sc b r.0 s id)
      → (briefed p cm md fm us ms sc bc b r manifest files).2 ≡ done resp
      → (r.2 ≡ created resp.submission_id)
        × (resp.files ≡ files)
        × Queued (briefed p cm md fm us ms sc bc b r manifest files).0 resp.submission_id s
  briefed_created (d, q, create_error) s manifest files resp h e = cc
  briefed_created (d, q, created id) s manifest files resp h e =
      let w = update_submission_brief_report p bc d id queued_brief in
      let (ok, same_store, same_id, same_files) = responded w q manifest id files resp e in
      (
        ap created same_id,
        same_files,
        subst (λ t. Queued t resp.submission_id s) (sym same_store)
            (subst (λ t. Queued (delete_manifest p cm md fm b w.0 manifest).0 t s) same_id
              (created-IsQueued p cm md fm sc bc b d manifest id s (h id refl) ok)),
      )

  pub record FromFiles (d d' : Db) (q : KvSequencer) (req : CreateSubmissionRequest)
      (user : UserTokenPayload) (submitters : List ℕ) (now : ℕ) (o : Option (List (List ℕ)))
      (resp : CreateSubmissionResponse) : Type 0 where
    pub filled : resp.files ≢ []
    pub of_manifest : o ≡ some resp.files
    pub made :
        (create_submission p cm sc b d q (asked req user submitters resp.files now)).2
        ≡ created resp.submission_id
    pub is_queued : Queued d' resp.submission_id (asked req user submitters resp.files now)

  from_files :
      (d : Db) (q : KvSequencer) (req : CreateSubmissionRequest) (user : UserTokenPayload)
      (submitters : List ℕ) (now : ℕ) (o : Option (List (List ℕ))) (resp : CreateSubmissionResponse)
      → (with_files p cm md fm us ms sc bc b d q req user submitters now o).2 ≡ done resp
      → FromFiles d
          (with_files p cm md fm us ms sc bc b d q req user submitters now o).0
          q
          req
          user
          submitters
          now
          o
          resp
  unfolding get_manifest_path
  from_files d q req user submitters now none resp e = cc
  from_files d q req user submitters now (some []) resp e = cc
  from_files d q req user submitters now (some (f ∷ fs)) resp e =
      let s = asked req user submitters (f ∷ fs) now in
      let r = create_submission p cm sc b d q s in
      let d' = (briefed p cm md fm us ms sc bc b r req.manifest_id (f ∷ fs)).0 in
      let (made, same, stored) =
        briefed_created r s req.manifest_id (f ∷ fs) resp
          (λ id made. create_submission-Listed p cm sc b d q s id made) e in
      record {
        filled = λ empty'. (let never : f ∷ fs ≡ [] = sym same ∙ empty' in cc);
        of_manifest = ap some (sym same);
        made =
            subst
              (λ t.
                (create_submission p cm sc b d q (asked req user submitters t now)).2
                ≡ created resp.submission_id)
              (sym same) made;
        is_queued =
            subst (λ t. Queued d' resp.submission_id (asked req user submitters t now)) (sym same)
              stored;
      }

  from_limits :
      (d : Db) (q : KvSequencer) (req : CreateSubmissionRequest) (user : UserTokenPayload)
      (submitters : List ℕ) (now : ℕ) (o : Option LimitError) (resp : CreateSubmissionResponse)
      → (within_limits p cm md fm us ms sc bc b d q req user submitters now o).2 ≡ done resp
      → (o ≡ none)
        × FromFiles d
            (within_limits p cm md fm us ms sc bc b d q req user submitters now o).0
            q
            req
            user
            submitters
            now
            (get_files_in_manifest p cm md fm b d req.manifest_id)
            resp
  from_limits d q req user submitters now (some (limit_error code error)) resp e = cc
  from_limits d q req user submitters now none resp e =
      (refl, from_files d q req user submitters now _ resp e)

  limits_checked :
      (d : Db) (assignment now : ℕ) (o : Option SubmissionLimitConfig) (staff : Bool)
      (submitters : List ℕ)
      → limits_of p cm md fm us ms sc bc b d assignment o staff now submitters ≡ none
      → (limit : SubmissionLimitConfig) → o ≡ some limit
      → staff ≡ false
      → All (λ u. check_one p cm md fm us ms sc bc b d assignment limit now u ≡ none) submitters
  unfolding limits_of
  limits_checked d assignment now none staff submitters e limit eo es = cc
  limits_checked d assignment now (some l) true submitters e limit eo es = cc
  limits_checked d assignment now (some l) false submitters e limit eo es =
      subst
        (λ t. All (λ u. check_one p cm md fm us ms sc bc b d assignment t now u ≡ none) submitters)
        (eq_of_some eo) (all_checked d assignment now l submitters e)

  decided :
      (d : Db) (q : KvSequencer) (req : CreateSubmissionRequest) (caller : Caller) (now : ℕ)
      (requested : List ℕ) (resp : CreateSubmissionResponse) (s : Submitters)
      → Decided
          (is_in_course p cm md fm us ms sc bc b d caller.course_id)
          requested
          caller.user.user_id
          (is_staff caller.role)
          s
      → (validated p cm md fm us ms sc bc b d q req caller now s).2 ≡ done resp
      → IsAccepted d
          (validated p cm md fm us ms sc bc b d q req caller now s).0
          q
          req
          caller
          now
          resp
  decided d q req caller now requested resp _ (not_in_course sid asked out) e = cc
  decided d q req caller now requested resp _ (not_submitting absent plain) e = cc
  decided d q req caller now requested resp _ (accepted submitters h m same may) e =
      let (ok, files) =
        from_limits d q req caller.user submitters now
          (limits_of p cm md fm us ms sc bc b d req.assignment_id caller.assignment.submission_limit
            (is_staff caller.role) now submitters)
          resp e in
      record {
        submitters = submitters;
        distinct = h;
        in_course = m;
        includes = rw (same caller.user.user_id) may;
        limited =
            limits_checked d req.assignment_id now caller.assignment.submission_limit
              (is_staff caller.role) submitters ok;
        filled = files.filled;
        of_manifest = files.of_manifest;
        made = files.made;
        is_queued = files.is_queued;
      }

  -- A submission that `CreateSubmission` answers with is for distinct members of the course, the
  -- caller among them unless it is staff; no submitter was over a limit, unless the caller is
  -- staff; it has the files of the manifest, at least one, the assignment of the request and the
  -- caller as its user; afterwards it is read back under its id, is listed for each of its
  -- submitters, and its brief says that it is queued.
  pub create_submission_checked-IsAccepted :
      (d : Db) (q : KvSequencer) (req : CreateSubmissionRequest) (caller : Caller) (now : ℕ)
      (resp : CreateSubmissionResponse)
      → (create_submission_checked p cm md fm us ms sc bc b d q req caller now).2 ≡ done resp
      → IsAccepted d
          (create_submission_checked p cm md fm us ms sc bc b d q req caller now).0
          q
          req
          caller
          now
          resp
  unfolding create_submission_checked
  create_submission_checked-IsAccepted d q req caller now resp e =
      let member = is_in_course p cm md fm us ms sc bc b d caller.course_id in
      decided d q req caller now (or_caller member req.submitters caller.user.user_id) resp
        (validate_submitters member req.submitters caller.user.user_id (is_staff caller.role))
        (validate_submitters-Decided member req.submitters caller.user.user_id
          (is_staff caller.role))
        e
