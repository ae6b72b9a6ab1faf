-- ===== src/Service/Access/Ready.antt =====
-- The order of the guards in the table: which context values each reads, and which it has set.
use autograder_server.Repository.Messages.{student, reader, instructor, ta, student}
use autograder_server.Service.Access.{
  captcha_verified, as_time, CourseRole, is_staff, may_read, may_write, of_manifest, may_submit,
  staff_reads, in_time, of_assignment, of_submission, in_course, CourseMember, member_of, admin_of,
  course_of, Assignment, ManifestMetadata, Submission, manifest_checked, user_of, logged_in,
  with_course, Guarded, login, UserTokenPayload, Collaborators, Context, panicked, denied, allowed,
  MethodAuthFunc, not_after_due_date, require_submission_read, require_course_write, check_manifest,
  require_admin, require_in_course, get_course_id, require_login, require_captcha, noop_auth,
}
use autograder_server.Base.{
  contains, ltb, ◌==◌, if◌then◌else◌, ◌≡◌, Option, ℕ, some, none, false, refl, ◌&&◌, not, ◌||◌,
  Bool, List, ◌∷◌, [], true,
}

-- Whether every value that a chain asserts has been set before, starting from the given values of
-- the context; the first Boolean says that the message names its course itself.
abbrev pub is_ready : Bool → Bool → Bool → Bool → Bool → List MethodAuthFunc → Bool
is_ready n user course assignment member [] = true
is_ready n user course assignment member (f ∷ fs) = elim f [
  | noop_auth ↦ is_ready n user course assignment member fs
  | require_captcha ↦ is_ready n user course assignment member fs
  | require_login ↦ is_ready n true course assignment member fs
  | get_course_id ↦ is_ready n user true (not n || assignment) member fs
  | require_in_course ↦ user && (course && is_ready n user course assignment true fs)
  | require_admin ↦ user && is_ready n user course assignment member fs
  | check_manifest ↦ user && is_ready n user course assignment member fs
  | require_course_write ↦ member && is_ready n user course assignment member fs
  | require_submission_read ↦ user && (member && is_ready n user course assignment member fs)
  | not_after_due_date ↦ member && (assignment && is_ready n user course assignment member fs)
]

-- A value said to be set is set.
abbrev pub Covers : {A : Type 0} → Bool → Option A → Type 0
Covers false o = Unit
Covers true none = ⊥
Covers true (some a) = Unit

abbrev pub Known : Bool → Bool → Bool → Bool → Context → Type 0
Known user course assignment member ctx =
    Covers user ctx.user
    × Covers course ctx.course_id
    × Covers assignment ctx.assignment
    × Covers member ctx.member

-- No panic, and of an allowed call a property of its context.
abbrev pub Fine : (Context → Type 0) → Guarded → Type 0
Fine P (allowed ctx) = P ctx
Fine P (denied code error) = Unit
Fine P panicked = ⊥

if-Fine :
    (P : Context → Type 0) (b : Bool) (x y : Guarded)
    → Fine P x
    → Fine P y
    → Fine P (if b then x else y)
if-Fine P true x y hx hy = hx
if-Fine P false x y hx hy = hy

abbrev pub is_set : {A : Type 0} → Option A → Bool
is_set none = false
is_set (some a) = true

true-Covers : {A : Type 0} (o : Option A) → Covers true o → (a : A) × (o ≡ some a)
true-Covers none h = absurd h
true-Covers (some a) h = (a, refl)

module _ (w : Collaborators) (u c a m : Bool) where
  pub captcha-Fine :
      (o : Option (List ℕ)) (ctx : Context)
      → Known u c a m ctx
      → Fine (Known u c a m) (captcha_verified w o ctx)
  captcha-Fine none ctx k = tt
  captcha-Fine (some []) ctx k = tt
  captcha-Fine (some (x ∷ xs)) ctx k = if-Fine _ (not (w.verify_token (x ∷ xs))) _ _ tt k

  logged_in-Fine :
      (o : Option UserTokenPayload) (ctx : Context)
      → Known u c a m ctx
      → Fine (Known true c a m) (logged_in w o ctx)
  logged_in-Fine none ctx k = tt
  logged_in-Fine (some x) ctx k = (tt, k.1, k.2, k.3)

  pub login-Fine :
      (o : Option (List ℕ)) (ctx : Context)
      → Known u c a m ctx
      → Fine (Known true c a m) (login w o ctx)
  login-Fine none ctx k = tt
  login-Fine (some token) ctx k = logged_in-Fine (user_of w (some token)) ctx k

  with_course-Fine :
      (id : ℕ) (ctx : Context) → Known u c a m ctx → Fine (Known u true a m) (with_course w id ctx)
  with_course-Fine id ctx k = if-Fine _ (id == 0) _ _ tt (k.0, tt, k.2, k.3)

  of_assignment-Fine :
      (o : Option Assignment) (ctx : Context)
      → Known u c a m ctx
      → Fine (Known u true true m) (of_assignment w o ctx)
  of_assignment-Fine none ctx k = tt
  of_assignment-Fine (some x) ctx k = if-Fine _ (x.course_id == 0) _ _ tt (k.0, tt, tt, k.3)

  of_submission-Fine :
      (o : Option Submission) (ctx : Context)
      → Known u c a m ctx
      → Fine (Known u true true m) (of_submission w o ctx)
  of_submission-Fine none ctx k = tt
  of_submission-Fine (some s) ctx k =
      of_assignment-Fine (w.get_assignment s.assignment_id) (record ctx { submission = some s }) k

  pub course_of-Fine :
      (course assignment submission : Option ℕ) (ctx : Context)
      → Known u c a m ctx
      → Fine
          (Known u true (not (is_set course) || a) m)
          (course_of w course assignment submission ctx)
  course_of-Fine (some id) o s ctx k = with_course-Fine id ctx k
  course_of-Fine none (some id) s ctx k = of_assignment-Fine (w.get_assignment id) ctx k
  course_of-Fine none none (some id) ctx k =
      of_submission-Fine (w.get_submission id) (record ctx { submission_id = some id }) k
  course_of-Fine none none none ctx k = tt

  in_course-Fine :
      (o : Option CourseMember) (ctx : Context)
      → Known u c a m ctx
      → Fine (Known u c a true) (in_course w o ctx)
  in_course-Fine none ctx k = tt
  in_course-Fine (some x) ctx k = (k.0, k.1, k.2, tt)

  pub member_of-Fine :
      (user : Option UserTokenPayload) (course : Option ℕ) (ctx : Context)
      → Covers true user
      → Covers true course
      → Known u c a m ctx
      → Fine (Known u c a true) (member_of w user course ctx)
  member_of-Fine none course ctx hu hc k = absurd hu
  member_of-Fine (some x) none ctx hu hc k = absurd hc
  member_of-Fine (some x) (some id) ctx hu hc k =
      in_course-Fine (w.get_course_member x.user_id id) ctx k

  pub admin_of-Fine :
      (user : Option UserTokenPayload) (ctx : Context)
      → Covers true user
      → Known u c a m ctx
      → Fine (Known u c a m) (admin_of w user ctx)
  admin_of-Fine none ctx hu k = absurd hu
  admin_of-Fine (some x) ctx hu k = if-Fine _ (not x.is_admin) _ _ tt k

  of_manifest-Fine :
      (o : Option ManifestMetadata) (user : UserTokenPayload) (ctx : Context)
      → Known u c a m ctx
      → Fine (Known u c a m) (of_manifest w o user ctx)
  of_manifest-Fine none x ctx k = tt
  of_manifest-Fine (some d) x ctx k = if-Fine _ (not (d.user_id == x.user_id)) _ _ tt k

  pub manifest_checked-Fine :
      (user : Option UserTokenPayload) (manifest : Option ℕ) (ctx : Context)
      → Covers true user
      → Known u c a m ctx
      → Fine (Known u c a m) (manifest_checked w user manifest ctx)
  manifest_checked-Fine none id ctx hu k = absurd hu
  manifest_checked-Fine (some x) none ctx hu k = tt
  manifest_checked-Fine (some x) (some id) ctx hu k = of_manifest-Fine (w.get_manifest id) x ctx k

  pub may_write-Fine :
      (o : Option CourseMember) (ctx : Context)
      → Covers true o
      → Known u c a m ctx
      → Fine (Known u c a m) (may_write w o ctx)
  may_write-Fine none ctx h k = absurd h
  may_write-Fine (some x) ctx h k = by_role x.role
    where
      by_role :
          (r : CourseRole) → Fine (Known u c a m) (may_write w (some (record x { role = r })) ctx)
      by_role student = tt
      by_role reader = tt
      by_role ta = k
      by_role instructor = k

  staff_reads-Fine :
      (o : Option CourseMember) (ctx : Context)
      → Covers true o
      → Known u c a m ctx
      → Fine (Known u c a m) (staff_reads w o ctx)
  staff_reads-Fine none ctx h k = absurd h
  staff_reads-Fine (some x) ctx h k = if-Fine _ (is_staff x.role) _ _ k tt

  pub may_read-Fine :
      (s : Option Submission) (user : Option UserTokenPayload) (ctx : Context)
      → Covers true user
      → Covers true ctx.member
      → Known u c a m ctx
      → Fine (Known u c a m) (may_read w s user ctx)
  may_read-Fine none user ctx hu hm k = tt
  may_read-Fine (some s) none ctx hu hm k = absurd hu
  may_read-Fine (some s) (some x) ctx hu hm k =
      if-Fine _ (contains x.user_id s.submitters) _ _ k (staff_reads-Fine ctx.member ctx hm k)

  in_time-Fine :
      (o : Option Assignment) (ctx : Context)
      → Covers true o
      → Known u c a m ctx
      → Fine (Known u c a m) (in_time w o ctx)
  in_time-Fine none ctx h k = absurd h
  in_time-Fine (some x) ctx h k =
      if-Fine _ (ltb (as_time x.due_date) w.now) _ _ tt
        (if-Fine _ (ltb w.now (as_time x.release_date)) _ _ tt k)

  pub may_submit-Fine :
      (o : Option CourseMember) (ctx : Context)
      → Covers true o
      → Covers true ctx.assignment
      → Known u c a m ctx
      → Fine (Known u c a m) (may_submit w o ctx)
  may_submit-Fine none ctx h ha k = absurd h
  may_submit-Fine (some x) ctx h ha k =
      if-Fine _ (is_staff x.role) _ _ k (in_time-Fine ctx.assignment ctx ha k)
