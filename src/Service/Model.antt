-- ===== src/Service/Model.antt =====
-- The payload of a user's token, from proto/api.proto, and the errors of pkg/grpc: the codes of google.golang.org/grpc/codes that it uses and the error codes of errcode.go.
use autograder_server.Base.{ℕ, Bool, List}

pub record UserTokenPayload : Type 0 where
  pub user_id : ℕ
  pub username : List ℕ
  pub nickname : List ℕ
  pub is_admin : Bool

pub data Code : Type 0 where
  invalid_argument unauthenticated not_found permission_denied deadline_exceeded : Code
  internal resource_exhausted already_exists : Code

pub data ErrorCode : Type 0 where
  code_no_captcha code_invalid_captcha code_no_bearer code_invalid_token : ErrorCode
  code_invalid_assignment_id code_invalid_submission_id code_missing_course_id : ErrorCode
  code_not_in_course code_not_admin code_manifest_id code_manifest_expired : ErrorCode
  code_wrong_user code_role_unauthorized code_submission_unauthorized : ErrorCode
  code_after_due_date code_before_release_date code_method_auth : ErrorCode
  code_submitter_not_in_course code_not_a_submitter code_get_submissions : ErrorCode
  code_submission_limit code_get_submission code_submission_frequency : ErrorCode
  code_manifest_files code_create_submission code_update_brief : ErrorCode
  code_invalid_course_id code_invalid_join_code code_already_in_course : ErrorCode
  code_add_course code_add_user code_member_not_found code_get_users : ErrorCode
  code_name code_short_name code_description code_create_course code_get_course : ErrorCode
  code_update_course code_not_found code_queued code_running code_cancelled : ErrorCode
  code_cancelling code_report_not_found code_get_report code_update_entry : ErrorCode
  code_get_user : ErrorCode

-- What a handler returns: a response, or an error.
pub data Outcome (A : Type 0) : Type 0 where
  done : A → Outcome A
  refused : Code → ErrorCode → Outcome A
