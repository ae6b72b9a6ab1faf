-- ===== src/Service/Access/Reference.antt =====
-- What a call is about, read off its message and token alone: its user, course, submission,
-- assignment and membership, and what each guard asks of them.
use autograder_server.Service.Access.{
  as_time, ManifestMetadata, is_staff, user_of, Assignment, UserTokenPayload, CourseMember,
  MethodAuthFunc, Context, Submission, Request, Collaborators, not_after_due_date,
  require_submission_read, require_course_write, check_manifest, require_admin, require_in_course,
  get_course_id, require_login, require_captcha, noop_auth,
}
use autograder_server.Base.{◌≤◌, contains, ◌≢◌, Option, List, ℕ, ◌∷◌, some, none, true, ◌≡◌}

module _ (w : Collaborators) (req : Request) where
  abbrev pub the_user : Option UserTokenPayload
  the_user = user_of w req.bearer

  abbrev pub submission_named : Option ℕ → Option ℕ → Option ℕ → Option Submission
  submission_named none none (some id) = w.get_submission id
  submission_named none none none = none
  submission_named none (some a) s = none
  submission_named (some c) a s = none

  -- Of a message that names no course and no assignment itself.
  abbrev pub the_submission : Option Submission
  the_submission = submission_named req.course_id req.assignment_id req.submission_id

  abbrev pub assignment_named : Option ℕ → Option ℕ → Option Submission → Option Assignment
  assignment_named none (some id) s = w.get_assignment id
  assignment_named none none (some s) = w.get_assignment s.assignment_id
  assignment_named none none none = none
  assignment_named (some c) a s = none

  -- Of a message that names no course itself.
  abbrev pub the_assignment : Option Assignment
  the_assignment = assignment_named req.course_id req.assignment_id the_submission

  abbrev pub course_named : Option ℕ → Option Assignment → Option ℕ
  course_named (some c) a = some c
  course_named none none = none
  course_named none (some a) = some a.course_id

  abbrev pub the_course : Option ℕ
  the_course = course_named req.course_id the_assignment

  abbrev pub IsMember : CourseMember → Type 0
  IsMember m =
      (user : UserTokenPayload) × (course : ℕ) × (the_user ≡ some user)
      × (the_course ≡ some course)
      × (w.get_course_member user.user_id course ≡ some m)

  abbrev pub IsStaffMember : Type 0
  IsStaffMember = (m : CourseMember) × IsMember m × (is_staff m.role ≡ true)

  -- What an allowed call has shown to each guard.
  pub data Shown : MethodAuthFunc → Type 0 where
    anything : Shown noop_auth
    captcha :
        (c : ℕ) (cs : List ℕ)
        → req.captcha ≡ some (c ∷ cs)
        → w.verify_token (c ∷ cs) ≡ true
        → Shown require_captcha
    user : (u : UserTokenPayload) → the_user ≡ some u → Shown require_login
    course : (c : ℕ) → the_course ≡ some c → c ≢ 0 → Shown get_course_id
    member : (m : CourseMember) → IsMember m → Shown require_in_course
    admin : (u : UserTokenPayload) → the_user ≡ some u → u.is_admin ≡ true → Shown require_admin
    own_manifest :
        (u : UserTokenPayload) (id : ℕ) (m : ManifestMetadata)
        → the_user ≡ some u
        → req.manifest_id ≡ some id
        → w.get_manifest id ≡ some m
        → m.user_id ≡ u.user_id
        → Shown check_manifest
    writer : IsStaffMember → Shown require_course_write
    submitter :
        (s : Submission) (u : UserTokenPayload)
        → the_submission ≡ some s
        → the_user ≡ some u
        → contains u.user_id s.submitters ≡ true
        → Shown require_submission_read
    reading_staff :
        (s : Submission) → the_submission ≡ some s → IsStaffMember → Shown require_submission_read
    untimed : IsStaffMember → Shown not_after_due_date
    timely :
        (m : CourseMember) (a : Assignment)
        → IsMember m
        → the_assignment ≡ some a
        → as_time a.release_date ≤ w.now
        → w.now ≤ as_time a.due_date
        → Shown not_after_due_date

  -- Every value of the context is the one that the call is about.
  pub record Genuine (ctx : Context) : Type 0 where
    pub from_user : (u : UserTokenPayload) → ctx.user ≡ some u → the_user ≡ some u
    pub from_course : (c : ℕ) → ctx.course_id ≡ some c → the_course ≡ some c
    pub from_submission : (s : Submission) → ctx.submission ≡ some s → the_submission ≡ some s
    pub from_assignment : (a : Assignment) → ctx.assignment ≡ some a → the_assignment ≡ some a
    pub from_member : (m : CourseMember) → ctx.member ≡ some m → IsMember m
