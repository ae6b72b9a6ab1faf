-- ===== src/Hub/Pending/Ranks.antt =====
-- When the pending list of pkg/grader/grpc/graderhub_service.go is valid: ranks, addresses and
-- index. `removePendingGradeRequest` on a valid list.
use autograder_server.Base.{
  lookup-delete_key, delete_key, lookup, eq_of_some, false≢true, ==_iff, ap, ◌∙◌, sym, Option-cases,
  ◌≢◌, if◌then◌else◌, Bool-cases, Option, arith, inr, inl, none, refl, ◌<◌, ◌+◌, ◌≡◌, ◌≤◌, ◌==◌,
  List, ℕ, ◌∷◌, [], some,
}
use autograder_server.Hub.Pending.{
  Element, PendingList, lower_ranks, remove_at, remove_pending_grade_request,
}

abbrev pub Ranked : ℕ → List Element → Type 0
Ranked k [] = Unit {0}
Ranked k (p ∷ r) = (p.rank ≡ k) × Ranked (k + 1) r

-- Addresses rise along the list and are below the next one.
abbrev pub Rising : ℕ → ℕ → List Element → Type 0
Rising lo hi [] = Unit {0}
Rising lo hi (p ∷ r) = (lo ≤ p.address) × (p.address < hi) × Rising (p.address + 1) hi r

-- Every element is what the index has for its submission.
abbrev pub Indexed : List (ℕ × ℕ) → List Element → Type 0
Indexed ix [] = Unit {0}
Indexed ix (p ∷ r) = (lookup p.request.submission_id ix ≡ some p.address) × Indexed ix r

abbrev pub submission_at : ℕ → List Element → Option ℕ
submission_at a [] = none
submission_at a (p ∷ r) = if p.address == a then some p.request.submission_id else submission_at a r

pub record IsValid (l : PendingList) : Type 0 where
  pub ranked : Ranked 1 l.queued_list
  pub rising : Rising 0 l.next_address l.queued_list
  pub indexed : Indexed l.queued_list_index l.queued_list
  pub present :
      (s a : ℕ) → lookup s l.queued_list_index ≡ some a → submission_at a l.queued_list ≡ some s

lower_ranks-Ranked : (k : ℕ) (r : List Element) → Ranked (k + 1) r → Ranked k (lower_ranks r)
lower_ranks-Ranked k [] h = tt
lower_ranks-Ranked k (p ∷ r) h = (omega (arith, h.0), lower_ranks-Ranked (k + 1) r h.1)

remove_at-Ranked : (k a : ℕ) (r : List Element) → Ranked k r → Ranked k (remove_at a r)
remove_at-Ranked k a [] h = tt
remove_at-Ranked k a (p ∷ r) h = elim (Bool-cases (p.address == a)) [
  | inl e ↦ rw e (lower_ranks-Ranked k r h.1)
  | inr e ↦ rw e (h.0, remove_at-Ranked (k + 1) a r h.1)
]

Rising-mono : (lo hi lo' : ℕ) (r : List Element) → lo' ≤ lo → Rising lo hi r → Rising lo' hi r
Rising-mono lo hi lo' [] h k = tt
Rising-mono lo hi lo' (p ∷ r) h k = (omega arith, k.1, k.2)

lower_ranks-Rising : (lo hi : ℕ) (r : List Element) → Rising lo hi r → Rising lo hi (lower_ranks r)
lower_ranks-Rising lo hi [] h = tt
lower_ranks-Rising lo hi (p ∷ r) h = (h.0, h.1, lower_ranks-Rising (p.address + 1) hi r h.2)

remove_at-Rising : (lo hi a : ℕ) (r : List Element) → Rising lo hi r → Rising lo hi (remove_at a r)
remove_at-Rising lo hi a [] h = tt
remove_at-Rising lo hi a (p ∷ r) h = elim (Bool-cases (p.address == a)) [
  | inl e ↦
      rw e (lower_ranks-Rising lo hi r (Rising-mono (p.address + 1) hi lo r (omega arith) h.2))
  | inr e ↦ rw e (h.0, h.1, remove_at-Rising (p.address + 1) hi a r h.2)
]

-- An element at another address belongs to another submission, so its index entry stays.
index_kept :
    (s a : ℕ) (ix : List (ℕ × ℕ)) (p : Element)
    → lookup s ix ≡ some a
    → p.address ≢ a
    → lookup p.request.submission_id ix ≡ some p.address
    → lookup p.request.submission_id (delete_key s ix) ≡ some p.address
index_kept s a ix p e ne h = elim (Bool-cases (s == p.request.submission_id)) [
  | inl same ↦
      absurd (ne (eq_of_some (sym h ∙ ap (λ t. lookup t ix) (sym ((==_iff _ _).0 same)) ∙ e)))
  | inr other ↦ rw (lookup-delete_key s p.request.submission_id ix, other) h
]

lower_ranks-Indexed :
    (s a hi : ℕ) (ix : List (ℕ × ℕ)) (lo : ℕ) (r : List Element)
    → lookup s ix ≡ some a
    → a < lo
    → Rising lo hi r
    → Indexed ix r
    → Indexed (delete_key s ix) (lower_ranks r)
lower_ranks-Indexed s a hi ix lo [] e lt h k = tt
lower_ranks-Indexed s a hi ix lo (p ∷ r) e lt h k = (
  index_kept s a ix p e (omega (arith, h.0)) k.0,
  lower_ranks-Indexed s a hi ix (p.address + 1) r e (omega (arith, h.0)) h.2 k.1,
)

remove_at-Indexed :
    (s a hi : ℕ) (ix : List (ℕ × ℕ)) (lo : ℕ) (r : List Element)
    → lookup s ix ≡ some a
    → Rising lo hi r
    → Indexed ix r
    → Indexed (delete_key s ix) (remove_at a r)
remove_at-Indexed s a hi ix lo [] e h k = tt
remove_at-Indexed s a hi ix lo (p ∷ r) e h k = elim (Bool-cases (p.address == a)) [
  | inl here ↦ rw here (lower_ranks-Indexed s a hi ix (p.address + 1) r e (ground arith) h.2 k.1)
  | inr other ↦ rw other (
    index_kept s a ix p e (ground arith) k.0,
    remove_at-Indexed s a hi ix (p.address + 1) r e h.2 k.1,
  )
]

submission_at-lower_ranks :
    (a : ℕ) (r : List Element) → submission_at a (lower_ranks r) ≡ submission_at a r
submission_at-lower_ranks a [] = refl
submission_at-lower_ranks a (p ∷ r) = ground (arith, submission_at-lower_ranks a r)

pub submission_at-remove_at :
    (a b : ℕ) (r : List Element) → a ≢ b → submission_at b (remove_at a r) ≡ submission_at b r
submission_at-remove_at a b [] ne = refl
submission_at-remove_at a b (p ∷ r) ne =
    ground (arith, submission_at-lower_ranks b r, submission_at-remove_at a b r)

present_kept :
    (l : PendingList) (s a j b : ℕ)
    → IsValid l
    → lookup s l.queued_list_index ≡ some a
    → lookup j (delete_key s l.queued_list_index) ≡ some b
    → submission_at b (remove_at a l.queued_list) ≡ some j
present_kept l s a j b v e h = elim (Bool-cases (s == j)) [
  | inl same ↦ absurd (ground (arith, lookup-delete_key s j l.queued_list_index))
  | inr other ↦
      let h' : lookup j l.queued_list_index ≡ some b =
        ground (arith, lookup-delete_key s j l.queued_list_index) in
      let there = v.present j b h' in
      let mine = v.present s a e in
      let ne : a ≢ b = λ p. false≢true (
        sym other
        ∙ (==_iff s j).1
            (eq_of_some (sym mine ∙ ap (λ t. submission_at t l.queued_list) p ∙ there))) in
      submission_at-remove_at a b l.queued_list ne ∙ there
]

-- A removal keeps a valid list valid: the ranks are the positions 1, 2, … and the index is exact.
pub remove_pending_grade_request-IsValid :
    (l : PendingList) (s : ℕ) → IsValid l → IsValid (remove_pending_grade_request l s).0
unfolding remove_pending_grade_request
remove_pending_grade_request-IsValid l s v = elim (Option-cases (lookup s l.queued_list_index)) [
  | inl e ↦ rw e v
  | inr (a, e) ↦ rw e (record {
    ranked = remove_at-Ranked 1 a l.queued_list v.ranked;
    rising = remove_at-Rising 0 l.next_address a l.queued_list v.rising;
    indexed =
        remove_at-Indexed s a l.next_address l.queued_list_index 0 l.queued_list e v.rising
          v.indexed;
    present = λ j b h. present_kept l s a j b v e h;
  })
]
