-- ===== src/Service/Access/Table.antt =====
-- pkg/grpc/interceptor.go: the table of guards by method, and its use.
use autograder_server.Service.Model.{code_method_auth}
use autograder_server.Service.Access.{
  require_captcha, noop_auth, noop_auth, not_found, Guarded, run_auth_funcs, Request, Context,
  Collaborators, MethodAuthFunc, denied, not_after_due_date, require_submission_read,
  require_course_write, check_manifest, require_admin, require_in_course, get_course_id,
  require_login, require_captcha,
}
use autograder_server.Base.{
  if◌then◌else◌, ℕ, Option, none, some, List, [], ◌∷◌, codes, bytes_eq, String, ◌>>=◌,
}

-- A full method name of the generated code, without the "/AutograderService/" before each.
abbrev pub rpc : String → List ℕ
rpc name = codes name

pub record AuthMap : Type 0 where
  pub methods : List (List ℕ)
  pub auth_funcs : List MethodAuthFunc

-- The methods are those that have a chain.
abbrev pub AuthFuncs : Type 0
AuthFuncs = List (List ℕ × List MethodAuthFunc)

unfoldable pub find_auth_funcs : List ℕ → AuthFuncs → Option (List MethodAuthFunc)
find_auth_funcs name [] = none
find_auth_funcs name ((m, fs) ∷ r) = if bytes_eq m name then some fs else find_auth_funcs name r

-- none is the panic of a method registered twice.
unfoldable pub register_methods : List (List ℕ) → List MethodAuthFunc → AuthFuncs → Option AuthFuncs
unfolding find_auth_funcs
register_methods [] fs table = some table
register_methods (m ∷ ms) fs table = elim (find_auth_funcs m table) [
  | some earlier ↦ none
  | none ↦ register_methods ms fs ((m, fs) ∷ table)
]

unfoldable pub register_all : List AuthMap → AuthFuncs → Option AuthFuncs
unfolding register_methods
register_all [] table = some table
register_all (a ∷ r) table = do
  table' ← register_methods a.methods a.auth_funcs table
  register_all r table'

abbrev pub auth_maps : List AuthMap
auth_maps =
    record {
      methods = rpc "Login" ∷ rpc "SignUp" ∷ rpc "ResetPassword" ∷ rpc "GithubLogin" ∷ [];
      auth_funcs = noop_auth ∷ [];
    }
    ∷ record {
      methods = rpc "RequestPasswordReset" ∷ rpc "RequestSignUpToken" ∷ [];
      auth_funcs = require_captcha ∷ [];
    }
    ∷ record {
      methods =
          rpc "GetCourseList"
          ∷ rpc "GetUser"
          ∷ rpc "BindGithub"
          ∷ rpc "UnbindGithub"
          ∷ rpc "UpdateUser"
          ∷ rpc "UpdatePassword"
          ∷ rpc "JoinCourse"
          ∷ [];
      auth_funcs = require_login ∷ [];
    }
    ∷ record {
      methods = rpc "InitUpload" ∷ rpc "DeleteFileInManifest" ∷ [];
      auth_funcs = require_login ∷ check_manifest ∷ [];
    }
    ∷ record {
      methods =
          rpc "GetAllGraders"
          ∷ rpc "SearchUser"
          ∷ rpc "SetAdmin"
          ∷ rpc "CreateCourse"
          ∷ rpc "GetAllUsers"
          ∷ rpc "GetAllCourses"
          ∷ rpc "RemoveGrader"
          ∷ rpc "GetGradeQueue"
          ∷ [];
      auth_funcs = require_login ∷ require_admin ∷ [];
    }
    ∷ record {
      methods =
          rpc "GetAssignment"
          ∷ rpc "GetAssignmentsInCourse"
          ∷ rpc "GetSubmissionsInAssignment"
          ∷ rpc "GetLeaderboard"
          ∷ rpc "HasLeaderboard"
          ∷ rpc "GetCourse"
          ∷ [];
      auth_funcs = require_login ∷ get_course_id ∷ require_in_course ∷ [];
    }
    ∷ record {
      methods = rpc "CreateSubmission" ∷ rpc "CreateManifest" ∷ [];
      auth_funcs = require_login ∷ get_course_id ∷ require_in_course ∷ not_after_due_date ∷ [];
    }
    ∷ record {
      methods =
          rpc "CreateAssignment"
          ∷ rpc "GetCourseMembers"
          ∷ rpc "RemoveCourseMembers"
          ∷ rpc "AddCourseMembers"
          ∷ rpc "UpdateCourse"
          ∷ rpc "UpdateAssignment"
          ∷ rpc "UpdateCourseMember"
          ∷ rpc "CanWriteCourse"
          ∷ rpc "GenerateJoinCode"
          ∷ rpc "ChangeAllowsJoinCourse"
          ∷ rpc "InspectAllSubmissionsInAssignment"
          ∷ rpc "InspectUserSubmissionHistory"
          ∷ rpc "RegradeSubmission"
          ∷ rpc "RegradeAssignment"
          ∷ rpc "ChangeLeaderboardAnonymous"
          ∷ rpc "ExportAssignmentGrades"
          ∷ rpc "DeleteLeaderboard"
          ∷ [];
      auth_funcs = require_login ∷ get_course_id ∷ require_in_course ∷ require_course_write ∷ [];
    }
    ∷ record {
      methods =
          rpc "InitDownload"
          ∷ rpc "GetFilesInSubmission"
          ∷ rpc "GetSubmissionReport"
          ∷ rpc "SubscribeSubmission"
          ∷ rpc "CancelSubmission"
          ∷ rpc "StreamLog"
          ∷ [];
      auth_funcs = require_login ∷ get_course_id ∷ require_in_course ∷ require_submission_read ∷ [];
    }
    ∷ record {
      methods = rpc "ActivateSubmission" ∷ [];
      auth_funcs =
          require_login ∷ get_course_id ∷ require_in_course ∷ require_submission_read
          ∷ not_after_due_date ∷ [];
    }
    ∷ []

unfoldable pub init_auth_funcs : Option AuthFuncs
unfolding register_all
init_auth_funcs = register_all auth_maps []

abbrev pub empty : Context
empty = record {
  user = none;
  course_id = none;
  submission_id = none;
  submission = none;
  assignment = none;
  member = none;
  header = none;
}

module _ (w : Collaborators) where
  unfoldable pub run_found : Option (List MethodAuthFunc) → Request → Guarded
  unfolding run_auth_funcs
  run_found none req = denied not_found code_method_auth
  run_found (some fs) req = run_auth_funcs w fs req empty

  -- Of a call whose context has no value of the guards.
  unfoldable pub auth_func : AuthFuncs → Request → List ℕ → Guarded
  auth_func table req name = run_found (find_auth_funcs name table) req
