-- ===== src/Service/Access/Grants.antt =====
-- What each guard of pkg/grpc/interceptor.go has been shown when it allows a call.
use autograder_server.Service.Access.Reference.{
  submission_named, course_named, assignment_named, user, course, captcha, the_course, the_user,
  Shown, the_assignment, the_submission, Genuine,
}
use autograder_server.Service.Access.{
  allowed, with_course, logged_in, user_of, of_assignment, of_submission, login, course_of,
  captcha_verified, Assignment, UserTokenPayload, MethodAuthFunc, Submission, Request, Guarded,
  Context, Collaborators, get_course_id, require_login, require_captcha, panicked, denied, allowed,
}
use autograder_server.Base.{
  arith, ◌∙◌, ap, ◌==◌, sym, if◌then◌else◌, ◌≢◌, false≢true, not, Bool, Option, List, ℕ, ◌∷◌, [],
  some, none, false, true, refl, ◌≡◌,
}

-- Of an allowed call a property of its context.
abbrev pub Grants : (Context → Type 0) → Guarded → Type 0
Grants P (allowed ctx) = P ctx
Grants P (denied code error) = Unit
Grants P panicked = Unit

pub if-Grants :
    (P : Context → Type 0) (b : Bool) (x y : Guarded)
    → (b ≡ true → Grants P x)
    → (b ≡ false → Grants P y)
    → Grants P (if b then x else y)
if-Grants P true x y hx hy = hx refl
if-Grants P false x y hx hy = hy refl

pub not-true : (b : Bool) → not b ≡ false → b ≡ true
not-true true e = refl
not-true false e = absurd (false≢true (sym e))

module _ (w : Collaborators) (req : Request) where
  abbrev pub Granted : MethodAuthFunc → Context → Type 0
  Granted f ctx = Genuine w req ctx × Shown w req f

  pub captcha-Grants :
      (o : Option (List ℕ)) (ctx : Context)
      → req.captcha ≡ o
      → Genuine w req ctx
      → Grants (Granted require_captcha) (captcha_verified w o ctx)
  captcha-Grants none ctx e g = tt
  captcha-Grants (some []) ctx e g = tt
  captcha-Grants (some (x ∷ xs)) ctx e g =
      if-Grants _ (not (w.verify_token (x ∷ xs))) _ _ (λ bad. tt)
        (λ ok. (g, captcha x xs e (not-true _ ok)))

  logged_in-Grants :
      (o : Option UserTokenPayload) (ctx : Context)
      → the_user w req ≡ o
      → Genuine w req ctx
      → Grants (Granted require_login) (logged_in w o ctx)
  logged_in-Grants none ctx e g = tt
  logged_in-Grants (some x) ctx e g = (
    record {
      from_user = λ u h. e ∙ h;
      from_course = g.from_course;
      from_submission = g.from_submission;
      from_assignment = g.from_assignment;
      from_member = g.from_member;
    },
    user x e,
  )

  pub login-Grants :
      (o : Option (List ℕ)) (ctx : Context)
      → req.bearer ≡ o
      → Genuine w req ctx
      → Grants (Granted require_login) (login w o ctx)
  login-Grants none ctx e g = tt
  login-Grants (some token) ctx e g =
      logged_in-Grants (user_of w (some token)) ctx (ap (user_of w) e) g

  with_course-Grants :
      (id : ℕ) (ctx : Context)
      → (id ≢ 0 → the_course w req ≡ some id)
      → Genuine w req ctx
      → Grants (Granted get_course_id) (with_course w id ctx)
  with_course-Grants id ctx e g =
      if-Grants _ (id == 0) _ _ (λ zero'. tt)
        (λ other.
          let filled : id ≢ 0 = (λ z. ground arith) in
          (
            record {
              from_user = g.from_user;
              from_course = λ c h. e filled ∙ h;
              from_submission = g.from_submission;
              from_assignment = g.from_assignment;
              from_member = g.from_member;
            },
            course id (e filled) filled,
          ))

  of_assignment-Grants :
      (o : Option Assignment) (ctx : Context)
      → req.course_id ≡ none
      → the_assignment w req ≡ o
      → Genuine w req ctx
      → Grants (Granted get_course_id) (of_assignment w o ctx)
  of_assignment-Grants none ctx ec e g = tt
  of_assignment-Grants (some a) ctx ec e g =
      with_course-Grants a.course_id (record ctx { assignment = some a })
        (λ filled.
          ap (λ c. course_named w req c (the_assignment w req)) ec ∙ ap (course_named w req none) e)
        (record {
          from_user = g.from_user;
          from_course = g.from_course;
          from_submission = g.from_submission;
          from_assignment = λ c h. e ∙ h;
          from_member = g.from_member;
        })

  of_submission-Grants :
      (o : Option Submission) (ctx : Context)
      → req.course_id ≡ none
      → req.assignment_id ≡ none
      → the_submission w req ≡ o
      → Genuine w req ctx
      → Grants (Granted get_course_id) (of_submission w o ctx)
  of_submission-Grants none ctx ec ea e g = tt
  of_submission-Grants (some s) ctx ec ea e g =
      of_assignment-Grants (w.get_assignment s.assignment_id) (record ctx { submission = some s })
        ec
        (ap (λ c. assignment_named w req c req.assignment_id (the_submission w req)) ec
          ∙ ap (λ c. assignment_named w req none c (the_submission w req)) ea
          ∙ ap (assignment_named w req none none) e)
        (record {
          from_user = g.from_user;
          from_course = g.from_course;
          from_submission = λ c h. e ∙ h;
          from_assignment = g.from_assignment;
          from_member = g.from_member;
        })

  pub course_of-Grants :
      (oc oa os : Option ℕ) (ctx : Context)
      → req.course_id ≡ oc
      → req.assignment_id ≡ oa
      → req.submission_id ≡ os
      → Genuine w req ctx
      → Grants (Granted get_course_id) (course_of w oc oa os ctx)
  course_of-Grants (some id) oa os ctx ec ea es g =
      with_course-Grants id ctx (λ filled. ap (λ c. course_named w req c (the_assignment w req)) ec)
        g
  course_of-Grants none (some id) os ctx ec ea es g =
      of_assignment-Grants (w.get_assignment id) ctx ec
        (ap (λ c. assignment_named w req c req.assignment_id (the_submission w req)) ec
          ∙ ap (λ c. assignment_named w req none c (the_submission w req)) ea)
        g
  course_of-Grants none none (some id) ctx ec ea es g =
      of_submission-Grants (w.get_submission id) (record ctx { submission_id = some id }) ec ea
        (ap (λ c. submission_named w req c req.assignment_id req.submission_id) ec
          ∙ ap (λ c. submission_named w req none c req.submission_id) ea
          ∙ ap (submission_named w req none none) es)
        (record {
          from_user = g.from_user;
          from_course = g.from_course;
          from_submission = g.from_submission;
          from_assignment = g.from_assignment;
          from_member = g.from_member;
        })
  course_of-Grants none none none ctx ec ea es g = tt
