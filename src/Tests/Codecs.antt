-- ===== src/Tests/Codecs.antt =====
-- Codecs of the messages that the repositories store, of the shapes that the runs need; they
-- marshal no others.
use autograder_server.Repository.Codec.{Codec}
use autograder_server.Repository.Messages.{
  CourseRole, User, Submission, CourseMember, Course, reader, instructor, ta, student,
}
use autograder_server.Base.{
  ap, ◌==◌, if◌then◌else◌, eq_of_some, subst, codes, Bool, Option, List, ℕ, ◌∷◌, [], some, none,
  false, true, refl, ◌≡◌,
}

abbrev pub role_code : CourseRole → ℕ
role_code student = 0
role_code ta = 1
role_code instructor = 2
role_code reader = 3

abbrev pub role_of : ℕ → CourseRole
role_of n = if n == 0 then student else if n == 1 then ta else if n == 2 then instructor else reader

pub role_of-role_code : (r : CourseRole) → role_of (role_code r) ≡ r
role_of-role_code student = refl
role_of-role_code ta = refl
role_of-role_code instructor = refl
role_of-role_code reader = refl

abbrev pub member_raw : CourseMember → List ℕ
member_raw m = m.user_id ∷ role_code m.role ∷ m.course_id ∷ []

abbrev pub member_read : List ℕ → Option CourseMember
member_read (u ∷ r ∷ c ∷ []) = some (record { user_id = u; role = role_of r; course_id = c })
member_read _ = none

pub member_back :
    (m : CourseMember) (raw : List ℕ) → some (member_raw m) ≡ some raw → member_read raw ≡ some m
member_back m raw e =
    subst (λ t. member_read t ≡ some m) (eq_of_some e)
      (ap (λ r. some (record m { role = r })) (role_of-role_code m.role))

abbrev pub member_codec : Codec CourseMember
member_codec = record {
  marshal = λ m. some (member_raw m);
  unmarshal = member_read;
  unmarshal-marshal = member_back;
}

-- One submitter, one file and a nickname of one byte each.
abbrev pub submission_raw :
    ℕ → Option ℕ → List ℕ → List ℕ → List (List ℕ) → List ℕ → ℕ → Option (List ℕ)
submission_raw a (some t) (u ∷ []) path ((f ∷ []) ∷ []) (n ∷ []) user =
    some (a ∷ t ∷ u ∷ f ∷ n ∷ user ∷ path)
submission_raw _ _ _ _ _ _ _ = none

abbrev pub submission_read : List ℕ → Option Submission
submission_read (a ∷ t ∷ u ∷ f ∷ n ∷ user ∷ path) = some (record {
  assignment_id = a;
  submitted_at = some t;
  submitters = u ∷ [];
  path = path;
  files = (f ∷ []) ∷ [];
  leaderboard_name = n ∷ [];
  user_id = user;
})
submission_read _ = none

pub submission_back :
    (a : ℕ) (at : Option ℕ) (us path : List ℕ) (fs : List (List ℕ)) (n : List ℕ) (user : ℕ)
    (raw : List ℕ)
    → submission_raw a at us path fs n user ≡ some raw
    → submission_read raw
      ≡ some (record {
        assignment_id = a;
        submitted_at = at;
        submitters = us;
        path = path;
        files = fs;
        leaderboard_name = n;
        user_id = user;
      })
submission_back a (some t) (u ∷ []) path ((f ∷ []) ∷ []) (n ∷ []) user raw e =
    subst (λ x. submission_read x ≡ submission_read (a ∷ t ∷ u ∷ f ∷ n ∷ user ∷ path))
      (eq_of_some e) refl
submission_back _ _ _ _ _ _ _ raw e = cc

abbrev pub submission_codec : Codec Submission
submission_codec = record {
  marshal = λ s.
      submission_raw s.assignment_id s.submitted_at s.submitters s.path s.files s.leaderboard_name
        s.user_id;
  unmarshal = submission_read;
  unmarshal-marshal = λ s raw e.
      submission_back s.assignment_id s.submitted_at s.submitters s.path s.files s.leaderboard_name
        s.user_id raw e;
}

-- A name and an address of one byte each, and nothing else but the time of creation.
abbrev pub plain_user : ℕ → ℕ → Option ℕ → User
plain_user name email at = record {
  username = name ∷ [];
  password = [];
  email = email ∷ [];
  github_id = [];
  nickname = [];
  student_id = [];
  created_at = at;
  is_admin = false;
}

abbrev pub user_raw :
    List ℕ → List ℕ → List ℕ → List ℕ → List ℕ → List ℕ → Option ℕ → Bool → Option (List ℕ)
user_raw (n ∷ []) [] (e ∷ []) [] [] [] (some t) false = some (n ∷ e ∷ t ∷ [])
user_raw _ _ _ _ _ _ _ _ = none

abbrev pub user_read : List ℕ → Option User
user_read (n ∷ e ∷ t ∷ []) = some (plain_user n e (some t))
user_read _ = none

pub user_back :
    (n p e g k s : List ℕ) (t : Option ℕ) (a : Bool) (raw : List ℕ)
    → user_raw n p e g k s t a ≡ some raw
    → user_read raw
      ≡ some (record {
        username = n;
        password = p;
        email = e;
        github_id = g;
        nickname = k;
        student_id = s;
        created_at = t;
        is_admin = a;
      })
user_back (n ∷ []) [] (e ∷ []) [] [] [] (some t) false raw h =
    subst (λ x. user_read x ≡ some (plain_user n e (some t))) (eq_of_some h) refl
user_back _ _ _ _ _ _ _ _ raw h = cc

abbrev pub user_codec : Codec User
user_codec = record {
  marshal = λ u.
      user_raw u.username u.password u.email u.github_id u.nickname u.student_id u.created_at
        u.is_admin;
  unmarshal = user_read;
  unmarshal-marshal = λ u raw e.
      user_back u.username u.password u.email u.github_id u.nickname u.student_id u.created_at
        u.is_admin raw e;
}

-- A course that allows joining by a code; it is only read.
abbrev pub open_course : List ℕ → Course
open_course code = record {
  name = codes "Compilers";
  short_name = codes "C";
  term = [];
  description = codes "A course";
  join_code = code;
  allows_join = true;
}

abbrev pub course_codec : Codec Course
course_codec = record {
  marshal = λ c. none;
  unmarshal = λ raw. some (open_course raw);
  unmarshal-marshal = λ c raw e. cc;
}
