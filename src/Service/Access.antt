-- ===== src/Service/Access.antt =====
-- pkg/grpc/interceptor.go: the guards that a call of the service passes before its handler runs.
pub mod Table
pub mod Registered
pub mod Ready
pub mod Panics
pub mod Reference
pub mod Grants
pub mod Rights
use autograder_server.Service.Model.{
  invalid_argument, ErrorCode, UserTokenPayload, Code, code_before_release_date,
  code_after_due_date, code_submission_unauthorized, code_role_unauthorized, code_wrong_user,
  code_manifest_expired, code_manifest_id, code_not_admin, code_not_in_course,
  code_missing_course_id, code_invalid_submission_id, code_invalid_assignment_id,
  code_invalid_token, code_no_bearer, code_invalid_captcha, code_no_captcha, deadline_exceeded,
  permission_denied, not_found, unauthenticated, invalid_argument,
}
use autograder_server.Repository.Messages.{
  as_time, instructor, instructor, ta, ManifestMetadata, Submission, Assignment, CourseMember,
  CourseRole, student, reader, instructor,
}
use autograder_server.Base.{
  ℕ, ℕ, Bool, true, false, Option, none, some, List, [], ◌∷◌, ◌==◌, ltb, not, if◌then◌else◌,
  contains,
}

-- What a call carries: the bearer token that AuthFromMD finds, and the fields that the getter
-- interfaces find in its message, none where the message has no such getter.
pub record Request : Type 0 where
  pub bearer : Option (List ℕ)
  pub course_id : Option ℕ
  pub assignment_id : Option ℕ
  pub submission_id : Option ℕ
  pub manifest_id : Option ℕ
  pub captcha : Option (List ℕ)

-- The values in the context, by their keys, and the renewed token sent in the header.
pub record Context : Type 0 where
  pub user : Option UserTokenPayload
  pub course_id : Option ℕ
  pub submission_id : Option ℕ
  pub submission : Option Submission
  pub assignment : Option Assignment
  pub member : Option CourseMember
  pub header : Option (List ℕ)

-- What the guards call: the repositories' reads, none for an error or a nil result, the captcha
-- service, the tokens of token.go and protobuf, and `grpc.SetHeader`. Reads do not change between
-- the guards of one call, and `now` is one time.
pub record Collaborators : Type 0 where
  pub get_assignment : ℕ → Option Assignment
  pub get_submission : ℕ → Option Submission
  pub get_course_member : ℕ → ℕ → Option CourseMember
  pub get_manifest : ℕ → Option ManifestMetadata
  pub verify_token : List ℕ → Bool
  pub parse_token_payload : List ℕ → Option (List ℕ)
  pub unmarshal_user : List ℕ → Option UserTokenPayload
  pub sign_payload_token : UserTokenPayload → Option (List ℕ)
  pub set_header : List ℕ → Bool
  pub now : ℕ

-- A failed type assertion on a missing context value is a panic.
pub data Guarded : Type 0 where
  allowed : Context → Guarded
  denied : Code → ErrorCode → Guarded
  panicked : Guarded

-- A guard's error ends the loop.
abbrev and_then : Guarded → (Context → Guarded) → Guarded
and_then (allowed ctx) next = next ctx
and_then (denied code error) next = denied code error
and_then panicked next = panicked

-- The functions that `initAuthFuncs` puts in its table.
pub data MethodAuthFunc : Type 0 where
  noop_auth require_captcha require_login get_course_id require_in_course : MethodAuthFunc
  require_admin check_manifest require_course_write require_submission_read : MethodAuthFunc
  not_after_due_date : MethodAuthFunc

abbrev pub is_staff : CourseRole → Bool
is_staff ta = true
is_staff instructor = true
is_staff student = false
is_staff reader = false

module _ (w : Collaborators) where
  open w use {
    get_assignment, get_submission, get_course_member, get_manifest, verify_token,
    parse_token_payload, unmarshal_user, sign_payload_token, set_header, now,
  }

  abbrev captcha_verified : Option (List ℕ) → Context → Guarded
  captcha_verified none ctx = denied invalid_argument code_no_captcha
  captcha_verified (some []) ctx = denied invalid_argument code_no_captcha
  captcha_verified (some (c ∷ captcha)) ctx =
      if not (verify_token (c ∷ captcha))
      then denied invalid_argument code_invalid_captcha
      else allowed ctx

  -- The user that a bearer token names.
  abbrev user_of : Option (List ℕ) → Option UserTokenPayload
  user_of none = none
  user_of (some token) = elim (parse_token_payload token) [
    | none ↦ none
    | some payload ↦ unmarshal_user payload
  ]

  abbrev refreshed : Option (List ℕ) → Option (List ℕ) → Option (List ℕ)
  refreshed none header = header
  refreshed (some ss) header = if set_header ss then some ss else header

  abbrev logged_in : Option UserTokenPayload → Context → Guarded
  logged_in none ctx = denied unauthenticated code_invalid_token
  logged_in (some payload) ctx = allowed (record ctx {
    user = some payload;
    header = refreshed (sign_payload_token payload) ctx.header;
  })

  abbrev login : Option (List ℕ) → Context → Guarded
  login none ctx = denied unauthenticated code_no_bearer
  login (some token) ctx = logged_in (user_of (some token)) ctx

  abbrev with_course : ℕ → Context → Guarded
  with_course id ctx =
      if id == 0
      then denied invalid_argument code_missing_course_id
      else allowed (record ctx { course_id = some id })

  abbrev of_assignment : Option Assignment → Context → Guarded
  of_assignment none ctx = denied not_found code_invalid_assignment_id
  of_assignment (some a) ctx = with_course a.course_id (record ctx { assignment = some a })

  abbrev of_submission : Option Submission → Context → Guarded
  of_submission none ctx = denied not_found code_invalid_submission_id
  of_submission (some s) ctx =
      of_assignment (get_assignment s.assignment_id) (record ctx { submission = some s })

  abbrev course_of : Option ℕ → Option ℕ → Option ℕ → Context → Guarded
  course_of (some course) assignment submission ctx = with_course course ctx
  course_of none (some assignment) submission ctx = of_assignment (get_assignment assignment) ctx
  course_of none none (some submission) ctx =
      of_submission (get_submission submission) (record ctx { submission_id = some submission })
  course_of none none none ctx = with_course 0 ctx

  abbrev in_course : Option CourseMember → Context → Guarded
  in_course none ctx = denied permission_denied code_not_in_course
  in_course (some m) ctx = allowed (record ctx { member = some m })

  abbrev member_of : Option UserTokenPayload → Option ℕ → Context → Guarded
  member_of none course ctx = panicked
  member_of (some user) none ctx = panicked
  member_of (some user) (some course) ctx = in_course (get_course_member user.user_id course) ctx

  abbrev admin_of : Option UserTokenPayload → Context → Guarded
  admin_of none ctx = panicked
  admin_of (some user) ctx =
      if not user.is_admin then denied permission_denied code_not_admin else allowed ctx

  abbrev of_manifest : Option ManifestMetadata → UserTokenPayload → Context → Guarded
  of_manifest none user ctx = denied deadline_exceeded code_manifest_expired
  of_manifest (some m) user ctx =
      if not (m.user_id == user.user_id)
      then denied permission_denied code_wrong_user
      else allowed ctx

  abbrev manifest_checked : Option UserTokenPayload → Option ℕ → Context → Guarded
  manifest_checked none manifest ctx = panicked
  manifest_checked (some user) none ctx = denied invalid_argument code_manifest_id
  manifest_checked (some user) (some manifest) ctx = of_manifest (get_manifest manifest) user ctx

  abbrev may_write : Option CourseMember → Context → Guarded
  may_write none ctx = panicked
  may_write (some m) ctx = elim m.role [
    | reader ↦ denied permission_denied code_role_unauthorized
    | student ↦ denied permission_denied code_role_unauthorized
    | ta ↦ allowed ctx
    | instructor ↦ allowed ctx
  ]

  abbrev staff_reads : Option CourseMember → Context → Guarded
  staff_reads none ctx = panicked
  staff_reads (some m) ctx =
      if is_staff m.role then allowed ctx else denied permission_denied code_submission_unauthorized

  abbrev may_read : Option Submission → Option UserTokenPayload → Context → Guarded
  may_read none user ctx = denied permission_denied code_submission_unauthorized
  may_read (some s) none ctx = panicked
  may_read (some s) (some user) ctx =
      if contains user.user_id s.submitters then allowed ctx else staff_reads ctx.member ctx

  abbrev in_time : Option Assignment → Context → Guarded
  in_time none ctx = panicked
  in_time (some a) ctx =
      if ltb (as_time a.due_date) now
      then denied permission_denied code_after_due_date
      else if ltb now (as_time a.release_date)
      then denied permission_denied code_before_release_date
      else allowed ctx

  abbrev may_submit : Option CourseMember → Context → Guarded
  may_submit none ctx = panicked
  may_submit (some m) ctx = if is_staff m.role then allowed ctx else in_time ctx.assignment ctx

  unfoldable pub run_auth_func : MethodAuthFunc → Request → Context → Guarded
  run_auth_func noop_auth req ctx = allowed ctx
  run_auth_func require_captcha req ctx = captcha_verified req.captcha ctx
  run_auth_func require_login req ctx = login req.bearer ctx
  run_auth_func get_course_id req ctx =
      course_of req.course_id req.assignment_id req.submission_id ctx
  run_auth_func require_in_course req ctx = member_of ctx.user ctx.course_id ctx
  run_auth_func require_admin req ctx = admin_of ctx.user ctx
  run_auth_func check_manifest req ctx = manifest_checked ctx.user req.manifest_id ctx
  run_auth_func require_course_write req ctx = may_write ctx.member ctx
  run_auth_func require_submission_read req ctx = may_read ctx.submission ctx.user ctx
  run_auth_func not_after_due_date req ctx = may_submit ctx.member ctx

  -- The loop of `AuthFunc`.
  unfoldable pub run_auth_funcs : List MethodAuthFunc → Request → Context → Guarded
  run_auth_funcs [] req ctx = allowed ctx
  run_auth_funcs (f ∷ fs) req ctx = and_then (run_auth_func f req ctx) (run_auth_funcs fs req)
