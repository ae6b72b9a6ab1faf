-- ===== src/Hub/Handlers/Collecting.antt =====
-- The collection of the requests in flight in `onGraderOffline` of
-- pkg/grader/grpc/graderhub_service.go, step by step.
use autograder_server.Hub.Schedule.Walk.{or_true}
use autograder_server.Hub.Subscribers.Delivery.{Distinct-append, contains-append, Distinct}
use autograder_server.Hub.Model.{GradeRequest}
use autograder_server.Hub.Handlers.{collect, collect_running_one, collect_running, Collected}
use autograder_server.Base.{
  ◌∙◌, ◌||◌, lookup-delete_key, ◌⊎◌, sym, delete_key, Bool-cases, ap, ◌==◌, contains, ◌≡◌, ◌++◌,
  lookup, Option, ◌∷◌, [], inr, inl, some, none, false, true, refl, List, ℕ, arith,
}

abbrev pub ids_in : List GradeRequest → List ℕ
ids_in [] = []
ids_in (q ∷ r) = q.submission_id ∷ ids_in r

ids_in-append :
    (q : GradeRequest) (r : List GradeRequest)
    → ids_in (r ++ q ∷ []) ≡ ids_in r ++ q.submission_id ∷ []
ids_in-append q [] = refl
ids_in-append q (p ∷ r) = ap (λ t. p.submission_id ∷ t) (ids_in-append q r)

-- The running list is indexed by the submissions of its requests.
abbrev pub Keyed : List (ℕ × GradeRequest) → Type 0
Keyed m = (s : ℕ) (q : GradeRequest) → lookup s m ≡ some q → q.submission_id ≡ s

-- The submissions seen are those to queue again, once each, and they run no more.
pub record Tracks (c : Collected) : Type 0 where
  pub keyed : Keyed c.running_list
  pub same : (s : ℕ) → contains s c.seen ≡ contains s (ids_in c.requeue)
  pub once : Distinct (ids_in c.requeue)
  pub gone : (s : ℕ) → contains s c.seen ≡ true → lookup s c.running_list ≡ none

pub kept_by_delete :
    (a s : ℕ) (q : GradeRequest) (m : List (ℕ × GradeRequest))
    → lookup s (delete_key a m) ≡ some q
    → lookup s m ≡ some q
kept_by_delete a s q m e = elim (Bool-cases (a == s)) [
  | inl at ↦
      absurd (let never : none ≡ some q = sym (lookup-delete_key a s m ∙ rw at refl) ∙ e in cc)
  | inr off ↦ sym (lookup-delete_key a s m ∙ rw off refl) ∙ e
]

pub collect-Tracks :
    (s : ℕ) (q : GradeRequest) (c : Collected)
    → Tracks c
    → q.submission_id ≡ s
    → contains s c.seen ≡ false
    → Tracks (collect s q c)
collect-Tracks s q c t e new = record {
  keyed = λ j p found'. t.keyed j p (kept_by_delete s j p c.running_list found');
  same = λ j.
      rw
        (
          ids_in-append q c.requeue,
          contains-append j q.submission_id (ids_in c.requeue),
          e,
          t.same j,
        )
        (ground arith);
  once =
      rw (ids_in-append q c.requeue)
        (Distinct-append q.submission_id (ids_in c.requeue) (rw e (sym (t.same s) ∙ new)) t.once);
  gone = λ j seen'. gone_after j (Bool-cases (s == j)) seen';
}
  where
    gone_after :
        (j : ℕ)
        → ((s == j) ≡ true) ⊎ ((s == j) ≡ false)
        → (s == j || contains j c.seen) ≡ true
        → lookup j (delete_key s c.running_list) ≡ none
    gone_after j (inl at) h = lookup-delete_key s j c.running_list ∙ rw at refl
    gone_after j (inr off) h =
        lookup-delete_key s j c.running_list ∙ rw off (t.gone j (rw off at h))

-- No step forgets a submission.
abbrev pub Grows : Collected → Collected → Type 0
Grows c d = (s : ℕ) → contains s c.seen ≡ true → contains s d.seen ≡ true

pub collect-Grows : (s : ℕ) (q : GradeRequest) (c : Collected) → Grows c (collect s q c)
collect-Grows s q c j e = rw e (or_true (s == j))

running_one-Tracks :
    (s : ℕ) (o : Option GradeRequest) (c : Collected)
    → lookup s c.running_list ≡ o
    → Tracks c
    → Tracks (collect_running_one s o c)
running_one-Tracks s none c e t = t
running_one-Tracks s (some q) c e t = elim (Bool-cases (contains s c.seen)) [
  | inl seen' ↦ rw seen' t
  | inr new ↦ rw new (collect-Tracks s q c t (t.keyed s q e) new)
]

pub running_one-Grows :
    (s : ℕ) (o : Option GradeRequest) (c : Collected) → Grows c (collect_running_one s o c)
running_one-Grows s none c j e = e
running_one-Grows s (some q) c j e = elim (Bool-cases (contains s c.seen)) [
  | inl seen' ↦ rw seen' e
  | inr new ↦ rw new (collect-Grows s q c j e)
]

pub collect_running-Tracks :
    (ids : List ℕ) (c : Collected) → Tracks c → Tracks (collect_running ids c)
unfolding collect_running
collect_running-Tracks [] c t = t
collect_running-Tracks (s ∷ r) c t =
    collect_running-Tracks r _ (running_one-Tracks s (lookup s c.running_list) c refl t)

pub collect_running-Grows : (ids : List ℕ) (c : Collected) → Grows c (collect_running ids c)
unfolding collect_running
collect_running-Grows [] c j e = e
collect_running-Grows (s ∷ r) c j e =
    collect_running-Grows r _ j (running_one-Grows s (lookup s c.running_list) c j e)
