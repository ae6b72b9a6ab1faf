-- ===== src/Tests/Access.antt =====
-- The access rules at a student who submits in time.
use autograder_server.Service.Access.Panics.{auth_func-never_panics}
use autograder_server.Service.Access.Rights.{auth_func-ChainShown, ChainShown}
use autograder_server.Service.Model.{UserTokenPayload}
use autograder_server.Service.Access.Table.{
  run_found, find_auth_funcs, register_methods, rpc, register_all, auth_func, AuthMap,
  init_auth_funcs, AuthFuncs,
}
use autograder_server.Repository.Messages.{student, CourseMember, Assignment}
use autograder_server.Service.Access.{
  allowed, run_auth_func, run_auth_funcs, not_after_due_date, require_in_course, panicked,
  get_course_id, require_login, Collaborators, Context, Request,
}
use mathlib.Core.List.Memᴰ.{head, tail}
use autograder_server.Base.{
  bytes_eq, ◌&&◌, ◌≢◌, ◌==◌, codes, if◌then◌else◌, Option, ◌∷◌, [], some, none, false, true, refl,
  ◌≡◌,
}

abbrev student_payload : UserTokenPayload
student_payload = record {
  user_id = 3;
  username = codes "ada";
  nickname = codes "Ada";
  is_admin = false;
}

abbrev member_of_two : CourseMember
member_of_two = record { user_id = 3; role = student; course_id = 2 }

abbrev timely_assignment : Assignment
timely_assignment = record {
  course_id = 2;
  release_date = some 10;
  due_date = some 100;
  submission_limit = none;
  upload_limit = 1000;
}

abbrev world : Collaborators
world = record {
  get_assignment = λ id. if id == 5 then some timely_assignment else none;
  get_submission = λ id. none;
  get_course_member = λ u c. if u == 3 && c == 2 then some member_of_two else none;
  get_manifest = λ id. none;
  verify_token = λ t. false;
  parse_token_payload = λ t. some t;
  unmarshal_user = λ raw. if bytes_eq raw (codes "token") then some student_payload else none;
  sign_payload_token = λ u. some (codes "renewed");
  set_header = λ t. true;
  now = 50;
}

abbrev submitting : Request
submitting = record {
  bearer = some (codes "token");
  course_id = none;
  assignment_id = some 5;
  submission_id = none;
  manifest_id = some 8;
  captcha = none;
}

abbrev submitted : Context
submitted = record {
  user = some student_payload;
  course_id = some 2;
  submission_id = none;
  submission = none;
  assignment = some timely_assignment;
  member = some member_of_two;
  header = some (codes "renewed");
}

abbrev or_empty : Option AuthFuncs → AuthFuncs
or_empty none = []
or_empty (some table) = table

abbrev the_table : AuthFuncs
the_table = or_empty init_auth_funcs

is_the_table : init_auth_funcs ≡ some the_table
unfolding init_auth_funcs register_all register_methods find_auth_funcs bytes_eq
is_the_table = refl

abbrev submitting_methods : AuthMap
submitting_methods = record {
  methods = rpc "CreateSubmission" ∷ rpc "CreateManifest" ∷ [];
  auth_funcs = require_login ∷ get_course_id ∷ require_in_course ∷ not_after_due_date ∷ [];
}

is_allowed : auth_func world the_table submitting (rpc "CreateSubmission") ≡ allowed submitted
unfolding auth_func init_auth_funcs register_all register_methods find_auth_funcs bytes_eq run_found
    run_auth_funcs run_auth_func
is_allowed = refl

auth_func-ChainShown_example : ChainShown world submitting submitting_methods.auth_funcs submitted
auth_func-ChainShown_example =
    auth_func-ChainShown world the_table submitting submitting_methods (rpc "CreateSubmission")
      submitted is_the_table (tail (tail (tail (tail (tail (tail (head refl))))))) (head refl)
      is_allowed

auth_func-never_panics_example :
    auth_func world the_table submitting (rpc "CreateSubmission") ≢ panicked
auth_func-never_panics_example =
    auth_func-never_panics world the_table submitting (rpc "CreateSubmission") is_the_table
      (λ timed. refl)
