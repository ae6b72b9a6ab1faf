-- ===== src/Repository/Users/Membership.antt =====
-- The courses that pkg/repository/user.go lists under a user, after members are added and removed.
use autograder_server.Repository.Stored.{read-deleted, read-put_message}
use autograder_server.Repository.Keys.{bytes_eq-uint64_to_bytes, numbered-append, bytes_eq-numbered}
use autograder_server.Repository.Users.{
  get_course_member, remove_course_member, add_course, Batches, CourseMember, uint64_to_bytes, User,
  numbered, Mergeable, Codec, get_course_prefix, get_course_key,
}
use autograder_server.Repository.Pebble.{Pebble}
use autograder_server.Base.{
  if◌then◌else◌, ◌&&◌, ◌==◌, codes, bytes_eq, ◌^◌, ◌<◌, ℕ, some, none, true, refl, ◌≡◌,
}

course_key : (u c : ℕ) → get_course_key u c ≡ numbered (codes "user:courses:") u (uint64_to_bytes c)
unfolding get_course_key get_course_prefix
course_key u c = numbered-append (codes "user:courses:") (uint64_to_bytes c) u

pub bytes_eq-course_keys :
    (u c v e : ℕ)
    → c < 2 ^ 64
    → e < 2 ^ 64
    → bytes_eq (get_course_key u c) (get_course_key v e) ≡ (u == v && c == e)
bytes_eq-course_keys u c v e hc he = rw (
  course_key u c,
  course_key v e,
  bytes_eq-numbered (codes "user:courses:") (uint64_to_bytes c) (uint64_to_bytes e) u v,
  bytes_eq-uint64_to_bytes c e hc he,
)

module _ (p : Pebble) (cm : Codec Mergeable) (us : Codec User) (ms : Codec CourseMember)
    (b : Batches cm p) where
  open p use {Db, delete}

  -- A member that is added without an error is read back for its user and course, and no other
  -- membership changes.
  pub get_course_member-add_course :
      (d : Db) (m : CourseMember) (u c : ℕ)
      → m.course_id < 2 ^ 64
      → c < 2 ^ 64
      → (add_course p cm us ms b d m).1 ≡ true
      → get_course_member p cm us ms b (add_course p cm us ms b d m).0 u c ≡ (
          if m.user_id == u && m.course_id == c
          then some m
          else get_course_member p cm us ms b d u c)
  unfolding add_course get_course_member
  get_course_member-add_course d m u c hm hc ok =
      rw
        (
          read-put_message p ms d (get_course_key m.user_id m.course_id) (get_course_key u c) m ok,
          bytes_eq-course_keys m.user_id m.course_id u c hm hc,
        )
        refl

  -- A member that is removed without an error is gone, and no other membership changes.
  pub get_course_member-remove_course_member :
      (d : Db) (v e u c : ℕ)
      → e < 2 ^ 64
      → c < 2 ^ 64
      → (remove_course_member p cm us ms b d v e).1 ≡ true
      → get_course_member p cm us ms b (remove_course_member p cm us ms b d v e).0 u c
        ≡ (if v == u && e == c then none else get_course_member p cm us ms b d u c)
  unfolding remove_course_member get_course_member
  get_course_member-remove_course_member d v e u c he hc ok =
      rw
        (
          read-deleted p ms d (get_course_key v e) (get_course_key u c) ok,
          bytes_eq-course_keys v e u c he hc,
        )
        refl
