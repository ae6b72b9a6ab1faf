-- ===== src/Repository/Courses/Membership.antt =====
-- The members that pkg/repository/course.go lists under a course.
use autograder_server.Repository.Keys.{bytes_eq-uint64_to_bytes, numbered-append, bytes_eq-numbered}
use autograder_server.Repository.Users.{get_course_prefix, get_course_key}
use autograder_server.Repository.Courses.{uint64_to_bytes, numbered, get_user_prefix, get_user_key}
use autograder_server.Base.{◌&&◌, ◌==◌, codes, bytes_eq, ◌^◌, ◌<◌, ℕ, false, refl, ◌≡◌}

user_key : (c u : ℕ) → get_user_key c u ≡ numbered (codes "course:users:") c (uint64_to_bytes u)
unfolding get_user_key get_user_prefix
user_key c u = numbered-append (codes "course:users:") (uint64_to_bytes u) c

pub bytes_eq-user_keys :
    (c u e v : ℕ)
    → u < 2 ^ 64
    → v < 2 ^ 64
    → bytes_eq (get_user_key c u) (get_user_key e v) ≡ (c == e && u == v)
bytes_eq-user_keys c u e v hu hv = rw (
  user_key c u,
  user_key e v,
  bytes_eq-numbered (codes "course:users:") (uint64_to_bytes u) (uint64_to_bytes v) c e,
  bytes_eq-uint64_to_bytes u v hu hv,
)

-- The keys of the two listings never meet.
pub bytes_eq-listings : (u c e v : ℕ) → bytes_eq (get_course_key u c) (get_user_key e v) ≡ false
unfolding get_course_key get_course_prefix get_user_key get_user_prefix bytes_eq
bytes_eq-listings u c e v = refl

pub bytes_eq-listings' : (u c e v : ℕ) → bytes_eq (get_user_key e v) (get_course_key u c) ≡ false
unfolding get_course_key get_course_prefix get_user_key get_user_prefix bytes_eq
bytes_eq-listings' u c e v = refl
