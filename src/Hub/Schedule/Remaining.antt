-- ===== src/Hub/Schedule/Remaining.antt =====
-- The loads of `schedulePass` of pkg/grader/grpc/graderhub_service.go when a grader is counted up
-- or taken out.
use autograder_server.Hub.Pick.{GraderLoad, count_running, Loads}
use autograder_server.Base.{
  suc, ==_iff, ap, lookup-delete_key, ◌∙◌, some, true, Bool-cases, sym, ◌<◌, ◌≤◌, lookup,
  delete_key, ◌≡◌, length, ◌==◌, ◌∷◌, [], inr, inl, none, false, refl, ℕ, arith,
}

pub lookup-count_running :
    (id j : ℕ) (loads : Loads)
    → (id == j) ≡ false
    → lookup j (count_running id loads) ≡ lookup j loads
unfolding count_running
lookup-count_running id j [] h = refl
lookup-count_running id j ((i, l) ∷ r) h = ground (arith, lookup-count_running id j r h)

length-delete_key : (id : ℕ) (loads : Loads) → length (delete_key id loads) ≤ length loads
length-delete_key id [] = omega arith
length-delete_key id ((i, l) ∷ r) = ground (arith, length-delete_key id r)

pub length-delete_key-count_running :
    (id : ℕ) (loads : Loads)
    → length (delete_key id (count_running id loads)) ≡ length (delete_key id loads)
unfolding count_running
length-delete_key-count_running id [] = refl
length-delete_key-count_running id ((i, l) ∷ r) = elim (Bool-cases (i == id)) [
  | inl same ↦ rw same (rw same refl)
  | inr other ↦ rw other (rw other (ap suc (length-delete_key-count_running id r)))
]

pub length-delete_key_present :
    (id : ℕ) (k : GraderLoad) (loads : Loads)
    → lookup id loads ≡ some k
    → length (delete_key id loads) < length loads
length-delete_key_present id k [] e = cc
length-delete_key_present id k ((i, l) ∷ r) e = elim (Bool-cases (i == id)) [
  | inl same ↦ rw same (let small = length-delete_key id r in omega arith)
  | inr other ↦
      let below = length-delete_key_present id k r (sym (rw other refl) ∙ e) in
      rw other (omega arith)
]

pub still_there :
    (id j : ℕ) (loads : Loads)
    → (id == j) ≡ false
    → lookup j (delete_key id (count_running id loads)) ≡ lookup j loads
still_there id j loads other =
    rw (lookup-delete_key id j (count_running id loads), other)
      (lookup-count_running id j loads other)

pub gone {ℓ} :
    {A : Type ℓ} (id j : ℕ) (k : GraderLoad) (loads : Loads)
    → (id == j) ≡ true
    → lookup j (delete_key id loads) ≡ some k
    → A
gone id j k loads at e =
    absurd (let never : some k ≡ none = sym e ∙ lookup-delete_key id j loads ∙ rw at refl in cc)

pub not_the_zero :
    (id : ℕ) (k : GraderLoad) (loads : Loads)
    → lookup 0 loads ≡ none
    → lookup id loads ≡ some k
    → (id == 0) ≡ false
not_the_zero id k loads zero_free el = elim (Bool-cases (id == 0)) [
  | inl zero' ↦ absurd (
      let never : none ≡ some k =
        sym zero_free ∙ ap (λ t. lookup t loads) (sym ((==_iff id 0).0 zero')) ∙ el in
      cc)
  | inr other ↦ other
]
