-- ===== src/Service/Access/Panics.antt =====
-- The guards of the table never meet a context value that is missing.
use autograder_server.Service.Access.Registered.{found_in_maps}
use autograder_server.Service.Access.Ready.{
  may_submit-Fine, may_read-Fine, may_write-Fine, manifest_checked-Fine, admin_of-Fine,
  member_of-Fine, course_of-Fine, login-Fine, captcha-Fine, Known, is_set, Covers, is_ready, Fine,
}
use autograder_server.Service.Access.Table.{
  empty, AuthMap, run_found, auth_func, rpc, auth_maps, register_methods, register_all,
  init_auth_funcs, find_auth_funcs, AuthFuncs,
}
use autograder_server.Service.Access.{
  and_then, allowed, Request, Collaborators, Guarded, run_auth_func, Context, MethodAuthFunc,
  run_auth_funcs, not_after_due_date, require_submission_read, require_course_write, check_manifest,
  require_admin, require_in_course, get_course_id, require_login, require_captcha, noop_auth,
  panicked, denied, allowed,
}
use mathlib.Core.List.{Memᴰ}
use mathlib.Core.List.Memᴰ.{tail, append_left}
use autograder_server.Base.{
  subst, All-member, ◌⊎◌, ◌||◌, bytes_eq, All, false≢true, not, ◌&&◌, Bool, Option, List, ℕ, ◌∷◌,
  [], inr, inl, some, none, false, true, refl, ◌≡◌, ◌≢◌,
}

and_then-Fine :
    (P Q : Context → Type 0) (g : Guarded) (next : Context → Guarded)
    → Fine P g
    → ((ctx : Context) → P ctx → Fine Q (next ctx))
    → Fine Q (and_then g next)
and_then-Fine P Q (allowed ctx) next h f = f ctx h
and_then-Fine P Q (denied code error) next h f = tt
and_then-Fine P Q panicked next h f = absurd h

both : (x y : Bool) → (x && y) ≡ true → (x ≡ true) × (y ≡ true)
both true y e = (refl, e)
both false y e = absurd (false≢true e)

covered : {A : Type 0} (b : Bool) (o : Option A) → b ≡ true → Covers b o → Covers true o
covered true o e h = h
covered false o e h = absurd (false≢true e)

run_auth_funcs-Fine :
    (w : Collaborators) (u c a m : Bool) (fs : List MethodAuthFunc) (req : Request) (ctx : Context)
    → is_ready (is_set req.course_id) u c a m fs ≡ true
    → Known u c a m ctx
    → Fine (λ ctx'. Unit) (run_auth_funcs w fs req ctx)
unfolding run_auth_funcs run_auth_func
run_auth_funcs-Fine w u c a m [] req ctx e k = tt
run_auth_funcs-Fine w u c a m (noop_auth ∷ fs) req ctx e k =
    run_auth_funcs-Fine w u c a m fs req ctx e k
run_auth_funcs-Fine w u c a m (require_captcha ∷ fs) req ctx e k =
    and_then-Fine _ _ _ _ (captcha-Fine w u c a m req.captcha ctx k)
      (λ ctx' k'. run_auth_funcs-Fine w u c a m fs req ctx' e k')
run_auth_funcs-Fine w u c a m (require_login ∷ fs) req ctx e k =
    and_then-Fine _ _ _ _ (login-Fine w u c a m req.bearer ctx k)
      (λ ctx' k'. run_auth_funcs-Fine w true c a m fs req ctx' e k')
run_auth_funcs-Fine w u c a m (get_course_id ∷ fs) req ctx e k =
    and_then-Fine _ _ _ _
      (course_of-Fine w u c a m req.course_id req.assignment_id req.submission_id ctx k)
      (λ ctx' k'. run_auth_funcs-Fine w u true (not (is_set req.course_id) || a) m fs req ctx' e k')
run_auth_funcs-Fine w u c a m (require_in_course ∷ fs) req ctx e k =
    let (hu, e') = both u _ e in
    let (hc, e'') = both c _ e' in
    and_then-Fine _ _ _ _
      (member_of-Fine w u c a m ctx.user ctx.course_id ctx (covered u ctx.user hu k.0)
        (covered c ctx.course_id hc k.1) k)
      (λ ctx' k'. run_auth_funcs-Fine w u c a true fs req ctx' e'' k')
run_auth_funcs-Fine w u c a m (require_admin ∷ fs) req ctx e k =
    let (hu, e') = both u _ e in
    and_then-Fine _ _ _ _ (admin_of-Fine w u c a m ctx.user ctx (covered u ctx.user hu k.0) k)
      (λ ctx' k'. run_auth_funcs-Fine w u c a m fs req ctx' e' k')
run_auth_funcs-Fine w u c a m (check_manifest ∷ fs) req ctx e k =
    let (hu, e') = both u _ e in
    and_then-Fine _ _ _ _
      (manifest_checked-Fine w u c a m ctx.user req.manifest_id ctx (covered u ctx.user hu k.0) k)
      (λ ctx' k'. run_auth_funcs-Fine w u c a m fs req ctx' e' k')
run_auth_funcs-Fine w u c a m (require_course_write ∷ fs) req ctx e k =
    let (hm, e') = both m _ e in
    and_then-Fine _ _ _ _ (may_write-Fine w u c a m ctx.member ctx (covered m ctx.member hm k.3) k)
      (λ ctx' k'. run_auth_funcs-Fine w u c a m fs req ctx' e' k')
run_auth_funcs-Fine w u c a m (require_submission_read ∷ fs) req ctx e k =
    let (hu, e') = both u _ e in
    let (hm, e'') = both m _ e' in
    and_then-Fine _ _ _ _
      (may_read-Fine w u c a m ctx.submission ctx.user ctx (covered u ctx.user hu k.0)
        (covered m ctx.member hm k.3) k)
      (λ ctx' k'. run_auth_funcs-Fine w u c a m fs req ctx' e'' k')
run_auth_funcs-Fine w u c a m (not_after_due_date ∷ fs) req ctx e k =
    let (hm, e') = both m _ e in
    let (ha, e'') = both a _ e' in
    and_then-Fine _ _ _ _
      (may_submit-Fine w u c a m ctx.member ctx (covered m ctx.member hm k.3)
        (covered a ctx.assignment ha k.2) k)
      (λ ctx' k'. run_auth_funcs-Fine w u c a m fs req ctx' e'' k')

-- The methods whose guards read the assignment.
abbrev timed_methods : List (List ℕ)
timed_methods = rpc "CreateSubmission" ∷ rpc "CreateManifest" ∷ rpc "ActivateSubmission" ∷ []

abbrev Ready : Bool → AuthMap → Type 0
Ready n a = is_ready n false false false false a.auth_funcs ≡ true

all-Ready : All (Ready false) auth_maps
all-Ready = (refl, (refl, (refl, (refl, (refl, (refl, (refl, (refl, (refl, (refl, tt))))))))))

abbrev ReadyOrTimed : AuthMap → Type 0
ReadyOrTimed a = Ready true a ⊎ ((n : List ℕ) → Memᴰ n a.methods → Memᴰ n timed_methods)

ready_or_timed : All ReadyOrTimed auth_maps
ready_or_timed = (
  inl refl,
  (
    inl refl,
    (
      inl refl,
      (
        inl refl,
        (
          inl refl,
          (
            inl refl,
            (
              inr (λ n h. append_left (rpc "ActivateSubmission" ∷ []) h),
              (inl refl, (inl refl, (inr (λ n h. tail (tail h)), tt))),
            ),
          ),
        ),
      ),
    ),
  ),
)

at-Ready :
    (a : AuthMap) (name : List ℕ) (course : Option ℕ)
    → Memᴰ a auth_maps
    → Memᴰ name a.methods
    → (Memᴰ name timed_methods → course ≡ none)
    → Ready (is_set course) a
at-Ready a name none at own h = All-member (Ready false) a auth_maps all-Ready at
at-Ready a name (some c) at own h = elim (All-member ReadyOrTimed a auth_maps ready_or_timed at) [
  | inl ready ↦ ready
  | inr timed ↦ absurd (let never = h (timed name own) in cc)
]

not_panicked : (P : Context → Type 0) (g : Guarded) → Fine P g → g ≢ panicked
not_panicked P (allowed ctx) h e = cc
not_panicked P (denied code error) h e = cc
not_panicked P panicked h e = absurd h

found-Fine :
    (w : Collaborators) (table : AuthFuncs) (req : Request) (name : List ℕ)
    (o : Option (List MethodAuthFunc))
    → init_auth_funcs ≡ some table
    → (Memᴰ name timed_methods → req.course_id ≡ none)
    → find_auth_funcs name table ≡ o
    → Fine (λ ctx. Unit) (run_found w o req)
unfolding init_auth_funcs run_found
found-Fine w table req name none e h f = tt
found-Fine w table req name (some fs) e h f =
    let (a, at, own, same) = found_in_maps name fs auth_maps table e f in
    run_auth_funcs-Fine w false false false false fs req empty
      (subst (λ t. is_ready (is_set req.course_id) false false false false t ≡ true) same
        (at-Ready a name req.course_id at own h))
      (tt, tt, tt, tt)

-- With the table of `initAuthFuncs`, no call of any method, known or not, asserts a context value
-- that its guards have not set, if the messages of the methods that read the assignment's dates do
-- not name their course themselves.
pub auth_func-never_panics :
    (w : Collaborators) (table : AuthFuncs) (req : Request) (name : List ℕ)
    → init_auth_funcs ≡ some table
    → (Memᴰ name timed_methods → req.course_id ≡ none)
    → auth_func w table req name ≢ panicked
unfolding auth_func
auth_func-never_panics w table req name e h =
    not_panicked _ _ (found-Fine w table req name (find_auth_funcs name table) e h refl)

-- The table is registered without a panic.
is_registered : is_set init_auth_funcs ≡ true
unfolding init_auth_funcs register_all register_methods find_auth_funcs bytes_eq
is_registered = refl
