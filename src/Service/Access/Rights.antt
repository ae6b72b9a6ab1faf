-- ===== src/Service/Access/Rights.antt =====
-- What the guards that compare users, members and dates have been shown, and every chain.
use autograder_server.Service.Access.Registered.{found-register_all}
use autograder_server.Service.Access.Grants.{
  not-true, course_of-Grants, login-Grants, if-Grants, captcha-Grants, Granted, Grants,
}
use autograder_server.Service.Access.Table.{
  find_auth_funcs, auth_maps, AuthMap, empty, AuthFuncs, run_found, init_auth_funcs, auth_func,
}
use autograder_server.Service.Access.Reference.{
  anything, timely, own_manifest, submitter, admin, reading_staff, untimed, writer, member, Shown,
  IsMember, Genuine, anything,
}
use autograder_server.Repository.Messages.{reader, student, reader, instructor, ta, student}
use autograder_server.Service.Access.{
  allowed, as_time, is_staff, CourseRole, admin_of, member_of, in_course, may_read, and_then,
  of_manifest, manifest_checked, may_submit, in_time, staff_reads, may_write, Context, Guarded,
  MethodAuthFunc, Submission, run_auth_func, ManifestMetadata, CourseMember, UserTokenPayload,
  run_auth_funcs, Assignment, Request, Collaborators, not_after_due_date, require_submission_read,
  require_course_write, check_manifest, require_admin, require_in_course, get_course_id,
  require_login, require_captcha, noop_auth, panicked, denied, allowed,
}
use mathlib.Core.List.{Memᴰ}
use autograder_server.Base.{
  ==_iff, ap, ◌==◌, not, ltb, contains, eq_of_some, All, subst, Option, List, ℕ, arith, ◌∷◌, [],
  some, none, refl, ◌≡◌,
}

module _ (w : Collaborators) (req : Request) where
  in_course-Grants :
      (o : Option CourseMember) (ctx : Context)
      → ((m : CourseMember) → o ≡ some m → IsMember w req m)
      → Genuine w req ctx
      → Grants (Granted w req require_in_course) (in_course w o ctx)
  in_course-Grants none ctx e g = tt
  in_course-Grants (some m) ctx e g = (
    record {
      from_user = g.from_user;
      from_course = g.from_course;
      from_submission = g.from_submission;
      from_assignment = g.from_assignment;
      from_member = λ m' h. e m' h;
    },
    member m (e m refl),
  )

  member_of-Grants :
      (user : Option UserTokenPayload) (course : Option ℕ) (ctx : Context)
      → ctx.user ≡ user
      → ctx.course_id ≡ course
      → Genuine w req ctx
      → Grants (Granted w req require_in_course) (member_of w user course ctx)
  member_of-Grants none course ctx eu ec g = tt
  member_of-Grants (some u) none ctx eu ec g = tt
  member_of-Grants (some u) (some c) ctx eu ec g =
      in_course-Grants (w.get_course_member u.user_id c) ctx
        (λ m h. (u, c, g.from_user u eu, g.from_course c ec, h)) g

  admin_of-Grants :
      (user : Option UserTokenPayload) (ctx : Context)
      → ctx.user ≡ user
      → Genuine w req ctx
      → Grants (Granted w req require_admin) (admin_of w user ctx)
  admin_of-Grants none ctx e g = tt
  admin_of-Grants (some u) ctx e g =
      if-Grants _ (not u.is_admin) _ _ (λ bad. tt)
        (λ ok. (g, admin u (g.from_user u e) (not-true _ ok)))

  of_manifest-Grants :
      (o : Option ManifestMetadata) (u : UserTokenPayload) (id : ℕ) (ctx : Context)
      → w.get_manifest id ≡ o
      → req.manifest_id ≡ some id
      → ctx.user ≡ some u
      → Genuine w req ctx
      → Grants (Granted w req check_manifest) (of_manifest w o u ctx)
  of_manifest-Grants none u id ctx e ei eu g = tt
  of_manifest-Grants (some d) u id ctx e ei eu g =
      if-Grants _ (not (d.user_id == u.user_id)) _ _ (λ bad. tt)
        (λ ok. (
          g,
          own_manifest u id d (g.from_user u eu) ei e
              ((==_iff d.user_id u.user_id).0 (not-true _ ok)),
        ))

  manifest_checked-Grants :
      (user : Option UserTokenPayload) (manifest : Option ℕ) (ctx : Context)
      → ctx.user ≡ user
      → req.manifest_id ≡ manifest
      → Genuine w req ctx
      → Grants (Granted w req check_manifest) (manifest_checked w user manifest ctx)
  manifest_checked-Grants none id ctx eu ei g = tt
  manifest_checked-Grants (some u) none ctx eu ei g = tt
  manifest_checked-Grants (some u) (some id) ctx eu ei g =
      of_manifest-Grants (w.get_manifest id) u id ctx refl ei eu g

  may_write-Grants :
      (o : Option CourseMember) (ctx : Context)
      → ctx.member ≡ o
      → Genuine w req ctx
      → Grants (Granted w req require_course_write) (may_write w o ctx)
  may_write-Grants none ctx e g = tt
  may_write-Grants (some m) ctx e g = by_role m.role refl
    where
      by_role :
          (r : CourseRole)
          → m.role ≡ r
          → Grants
              (Granted w req require_course_write)
              (may_write w (some (record m { role = r })) ctx)
      by_role student at = tt
      by_role reader at = tt
      by_role ta at = (g, writer (m, g.from_member m e, ap is_staff at))
      by_role instructor at = (g, writer (m, g.from_member m e, ap is_staff at))

  staff_reads-Grants :
      (o : Option CourseMember) (s : Submission) (ctx : Context)
      → ctx.member ≡ o
      → ctx.submission ≡ some s
      → Genuine w req ctx
      → Grants (Granted w req require_submission_read) (staff_reads w o ctx)
  staff_reads-Grants none s ctx e es g = tt
  staff_reads-Grants (some m) s ctx e es g =
      if-Grants _ (is_staff m.role) _ _
        (λ ok. (g, reading_staff s (g.from_submission s es) (m, g.from_member m e, ok))) (λ bad. tt)

  may_read-Grants :
      (s : Option Submission) (user : Option UserTokenPayload) (ctx : Context)
      → ctx.submission ≡ s
      → ctx.user ≡ user
      → Genuine w req ctx
      → Grants (Granted w req require_submission_read) (may_read w s user ctx)
  may_read-Grants none user ctx es eu g = tt
  may_read-Grants (some s) none ctx es eu g = tt
  may_read-Grants (some s) (some u) ctx es eu g =
      if-Grants _ (contains u.user_id s.submitters) _ _
        (λ ok. (g, submitter s u (g.from_submission s es) (g.from_user u eu) ok))
        (λ other. staff_reads-Grants ctx.member s ctx refl es g)

  in_time-Grants :
      (o : Option Assignment) (m : CourseMember) (ctx : Context)
      → ctx.assignment ≡ o
      → ctx.member ≡ some m
      → Genuine w req ctx
      → Grants (Granted w req not_after_due_date) (in_time w o ctx)
  in_time-Grants none m ctx e em g = tt
  in_time-Grants (some a) m ctx e em g =
      if-Grants _ (ltb (as_time a.due_date) w.now) _ _ (λ late. tt)
        (λ due.
          if-Grants _ (ltb w.now (as_time a.release_date)) _ _ (λ early. tt)
            (λ released. (
              g,
              timely m a (g.from_member m em) (g.from_assignment a e) (ground arith) (ground arith),
            )))

  may_submit-Grants :
      (o : Option CourseMember) (ctx : Context)
      → ctx.member ≡ o
      → Genuine w req ctx
      → Grants (Granted w req not_after_due_date) (may_submit w o ctx)
  may_submit-Grants none ctx e g = tt
  may_submit-Grants (some m) ctx e g =
      if-Grants _ (is_staff m.role) _ _ (λ ok. (g, untimed (m, g.from_member m e, ok)))
        (λ other. in_time-Grants ctx.assignment m ctx refl e g)

  run_auth_func-Grants :
      (f : MethodAuthFunc) (ctx : Context)
      → Genuine w req ctx
      → Grants (Granted w req f) (run_auth_func w f req ctx)
  unfolding run_auth_func
  run_auth_func-Grants noop_auth ctx g = (g, anything)
  run_auth_func-Grants require_captcha ctx g = captcha-Grants w req req.captcha ctx refl g
  run_auth_func-Grants require_login ctx g = login-Grants w req req.bearer ctx refl g
  run_auth_func-Grants get_course_id ctx g =
      course_of-Grants w req req.course_id req.assignment_id req.submission_id ctx refl refl refl g
  run_auth_func-Grants require_in_course ctx g =
      member_of-Grants ctx.user ctx.course_id ctx refl refl g
  run_auth_func-Grants require_admin ctx g = admin_of-Grants ctx.user ctx refl g
  run_auth_func-Grants check_manifest ctx g =
      manifest_checked-Grants ctx.user req.manifest_id ctx refl refl g
  run_auth_func-Grants require_course_write ctx g = may_write-Grants ctx.member ctx refl g
  run_auth_func-Grants require_submission_read ctx g =
      may_read-Grants ctx.submission ctx.user ctx refl refl g
  run_auth_func-Grants not_after_due_date ctx g = may_submit-Grants ctx.member ctx refl g

  -- What the whole chain has shown.
  abbrev pub ChainShown : List MethodAuthFunc → Context → Type 0
  ChainShown fs ctx = Genuine w req ctx × All (Shown w req) fs

  through :
      (f : MethodAuthFunc) (fs : List MethodAuthFunc) (first : Guarded) (ctx : Context)
      → Grants (Granted w req f) first
      → ((ctx' : Context)
          → Genuine w req ctx'
          → run_auth_funcs w fs req ctx' ≡ allowed ctx
          → ChainShown fs ctx)
      → and_then first (run_auth_funcs w fs req) ≡ allowed ctx
      → ChainShown (f ∷ fs) ctx
  through f fs (allowed ctx') ctx h rest e = let (g, shown) = rest ctx' h.0 e in (g, (h.1, shown))
  through f fs (denied code error) ctx h rest e = cc
  through f fs panicked ctx h rest e = cc

  chain_shown :
      (fs : List MethodAuthFunc) (ctx ctx' : Context)
      → Genuine w req ctx
      → run_auth_funcs w fs req ctx ≡ allowed ctx'
      → ChainShown fs ctx'
  unfolding run_auth_funcs
  chain_shown [] ctx ctx' g e =
      (subst (Genuine w req) (let h : allowed ctx ≡ allowed ctx' = e in cc) g, tt)
  chain_shown (f ∷ fs) ctx ctx' g e =
      through f fs (run_auth_func w f req ctx) ctx' (run_auth_func-Grants f ctx g)
        (λ c gc. chain_shown fs c ctx' gc) e

  empty-Genuine : Genuine w req empty
  empty-Genuine = record {
    from_user = λ u h. cc;
    from_course = λ c h. cc;
    from_submission = λ s h. cc;
    from_assignment = λ a h. cc;
    from_member = λ m h. cc;
  }

  found_shown :
      (o : Option (List MethodAuthFunc)) (fs : List MethodAuthFunc) (ctx : Context)
      → o ≡ some fs
      → run_found w o req ≡ allowed ctx
      → ChainShown fs ctx
  unfolding run_found
  found_shown none fs ctx e h = cc
  found_shown (some gs) fs ctx e h =
      chain_shown fs empty ctx empty-Genuine
        (subst (λ t. run_auth_funcs w t req empty ≡ allowed ctx) (eq_of_some e) h)

-- A call of a method of any entry of the table that is allowed has shown what each guard of the
-- entry asks of its message and token, and its context holds only what the call is about.
pub auth_func-ChainShown :
    (w : Collaborators) (table : AuthFuncs) (req : Request) (a : AuthMap) (name : List ℕ)
    (ctx : Context)
    → init_auth_funcs ≡ some table
    → Memᴰ a auth_maps
    → Memᴰ name a.methods
    → auth_func w table req name ≡ allowed ctx
    → ChainShown w req a.auth_funcs ctx
unfolding auth_func init_auth_funcs
auth_func-ChainShown w table req a name ctx e at own h =
    found_shown w req (find_auth_funcs name table) a.auth_funcs ctx
      (found-register_all auth_maps [] table e a at name own) h
