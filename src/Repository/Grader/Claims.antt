-- ===== src/Repository/Grader/Claims.antt =====
-- The two copies of a claim of pkg/repository/grader.go.
use autograder_server.Repository.Prefix.Words.{big_endian-uint64_to_bytes}
use autograder_server.Base.{
  ◌∙◌, ◌≢◌, subst, Option, ◌↔◌, none, true, refl, Bool-cases, ◌||◌, bytes_eq, ◌&&◌, ◌==◌,
  if◌then◌else◌, ◌^◌, ◌<◌, ◌≡◌, Bool, List, ℕ, arith, [], inr, inl, some, false,
}
use autograder_server.Repository.Pebble.{failed, found, not_found}
use autograder_server.Repository.Grader.Keys.{
  bytes_eq-grader_submission, bytes_eq-claim_keys, bytes_eq-submission_grader, bytes_eq-claim_keys',
  get_submission_grader_key, get_grader_submission_key,
}
use autograder_server.Repository.Grader.{
  release_owned, big_endian_uint64, read_id, uint64_to_bytes, Got, Pebble,
  get_grader_id_by_submission_id, claim_submission, release_submission,
}

-- An entry that is there.
abbrev pub is_found : Got → Bool
is_found (found raw) = true
is_found not_found = false
is_found failed = false

module _ (p : Pebble) where
  open p use {Db, get, put, delete}

  -- The copy under the grader, which `GetSubmissionsByGrader` scans.
  unfoldable pub listed : Db → ℕ → ℕ → Bool
  listed d g s = is_found (get d (get_grader_submission_key g s))

  both_written :
      (d : Db) (k l v : List ℕ) (j : List ℕ)
      → (put d k v).1 ≡ true
      → (put (put d k v).0 l []).1 ≡ true
      → get (put (put d k v).0 l []).0 j
        ≡ (if bytes_eq l j then found [] else if bytes_eq k j then found v else get d j)
  both_written d k l v j e h = rw (p.get-put (put d k v).0 l [] j h, p.get-put d k v j e)

  claim_get :
      (d : Db) (g s : ℕ) (j : List ℕ)
      → (claim_submission p d g s).1 ≡ true
      → get (claim_submission p d g s).0 j ≡ (
          if bytes_eq (get_grader_submission_key g s) j
          then found []
          else if bytes_eq (get_submission_grader_key s) j
          then found (uint64_to_bytes g)
          else get d j)
  unfolding claim_submission
  claim_get d g s j h =
      elim (Bool-cases (put d (get_submission_grader_key s) (uint64_to_bytes g)).1) [
        | inl e ↦ rw e (both_written d _ _ _ j e (rw e at h))
        | inr e ↦ ground arith
      ]

  -- For ids below 2 ^ 64, a claim without an error makes the grader the owner of the submission,
  -- and changes the owner of no other one.
  pub owner-claim_submission :
      (d : Db) (g s j : ℕ)
      → g < 2 ^ 64
      → s < 2 ^ 64
      → j < 2 ^ 64
      → (claim_submission p d g s).1 ≡ true
      → get_grader_id_by_submission_id p (claim_submission p d g s).0 j
        ≡ (if s == j then some g else get_grader_id_by_submission_id p d j)
  unfolding get_grader_id_by_submission_id
  owner-claim_submission d g s j hg hs hj h =
      rw
        (
          claim_get d g s (get_submission_grader_key j) h,
          bytes_eq-claim_keys' j g s,
          bytes_eq-submission_grader s j hs hj,
        )
        (ground (arith, big_endian-uint64_to_bytes g hg))

  pub listed-claim_submission :
      (d : Db) (g s h j : ℕ)
      → (claim_submission p d g s).1 ≡ true
      → listed (claim_submission p d g s).0 h j ≡ (g == h && s == j || listed d h j)
  unfolding listed
  listed-claim_submission d g s h j e =
      rw
        (
          claim_get d g s (get_grader_submission_key h j) e,
          bytes_eq-claim_keys s h j,
          bytes_eq-grader_submission g s h j,
        )
        (ground arith)

  -- The deletes of a release of a submission that is owned.
  pub record Released (d : Db) (s : ℕ) : Type 0 where
    pub first_ok : (delete d (get_submission_grader_key s)).1 ≡ true
    pub second_ok : (release_submission p d s).1 ≡ true

  owned_raw :
      (o : Got) (g : ℕ)
      → read_id p o ≡ some g
      → (raw : List ℕ) × (o ≡ found raw) × (big_endian_uint64 raw ≡ g)
  owned_raw (found raw) g e = (raw, refl, cc)
  owned_raw not_found g e = cc
  owned_raw failed g e = cc

  both_deleted :
      (d : Db) (k l : List ℕ) (j : List ℕ)
      → (delete d k).1 ≡ true
      → (delete (delete d k).0 l).1 ≡ true
      → get (delete (delete d k).0 l).0 j
        ≡ (if bytes_eq l j then not_found else if bytes_eq k j then not_found else get d j)
  both_deleted d k l j e h = rw (p.get-delete (delete d k).0 l j h, p.get-delete d k j e)

  release_get :
      (d : Db) (g s : ℕ) (j : List ℕ)
      → get_grader_id_by_submission_id p d s ≡ some g
      → Released d s
      → get (release_submission p d s).0 j ≡ (
          if bytes_eq (get_grader_submission_key g s) j
          then not_found
          else if bytes_eq (get_submission_grader_key s) j
          then not_found
          else get d j)
  unfolding get_grader_id_by_submission_id release_submission
  release_get d g s j owned r =
      let (raw, e, id) = owned_raw (get d (get_submission_grader_key s)) g owned in
      rw (e, release_owned, ← id) (both_deleted d _ _ j r.first_ok (rw e at r.second_ok))

  -- For ids below 2 ^ 64, a release of an owned submission whose deletes succeed leaves it with no
  -- owner, and changes the owner of no other one.
  pub owner-release_submission :
      (d : Db) (g s j : ℕ)
      → s < 2 ^ 64
      → j < 2 ^ 64
      → get_grader_id_by_submission_id p d s ≡ some g
      → Released d s
      → get_grader_id_by_submission_id p (release_submission p d s).0 j
        ≡ (if s == j then none else get_grader_id_by_submission_id p d j)
  owner-release_submission d g s j hs hj owned r =
      let e = release_get d g s (get_submission_grader_key j) owned r in
      unfold get_grader_id_by_submission_id in
      rw (e, bytes_eq-claim_keys' j g s, bytes_eq-submission_grader s j hs hj) (ground arith)

  pub listed-release_submission :
      (d : Db) (g s h j : ℕ)
      → get_grader_id_by_submission_id p d s ≡ some g
      → Released d s
      → listed (release_submission p d s).0 h j ≡ (if g == h && s == j then false else listed d h j)
  unfolding listed
  listed-release_submission d g s h j owned r =
      rw
        (
          release_get d g s (get_grader_submission_key h j) owned r,
          bytes_eq-claim_keys s h j,
          bytes_eq-grader_submission g s h j,
        )
        (ground arith)

  -- The two copies agree.
  pub record Consistent (d : Db) : Type 0 where
    pub agree :
        (g s : ℕ)
        → g < 2 ^ 64
        → s < 2 ^ 64
        → (get_grader_id_by_submission_id p d s ≡ some g) ↔ (listed d g s ≡ true)

  iff_claim :
      (o : Option ℕ) (b : Bool) (g s h j : ℕ)
      → (o ≡ some h → b ≡ true)
      → (b ≡ true → o ≡ some h)
      → (s ≡ j → o ≡ none)
      → ((if s == j then some g else o) ≡ some h) ↔ ((g == h && s == j || b) ≡ true)
  iff_claim none true g s h j to from free = ground arith
  iff_claim none false g s h j to from free = (λ e. ground arith, λ e. ground arith)
  iff_claim (some o) true g s h j to from free = (λ e. ground arith, λ e. ground arith)
  iff_claim (some o) false g s h j to from free = (λ e. ground arith, λ e. ground arith)

  agree-claim :
      (d : Db) (g s h j : ℕ)
      → g < 2 ^ 64
      → s < 2 ^ 64
      → h < 2 ^ 64
      → j < 2 ^ 64
      → Consistent d
      → get_grader_id_by_submission_id p d s ≡ none
      → (claim_submission p d g s).1 ≡ true
      → (get_grader_id_by_submission_id p (claim_submission p d g s).0 j ≡ some h)
        ↔ (listed (claim_submission p d g s).0 h j ≡ true)
  agree-claim d g s h j hg hs hh hj c free e =
      rw (owner-claim_submission d g s j hg hs hj e, listed-claim_submission d g s h j e)
        (iff_claim _ _ g s h j (c.agree h j hh hj).0 (c.agree h j hh hj).1
          (λ same. subst (λ t. get_grader_id_by_submission_id p d t ≡ none) same free))

  -- For ids below 2 ^ 64, a claim without an error of a submission that nobody owns keeps the two
  -- copies in agreement.
  pub claim_submission-Consistent :
      (d : Db) (g s : ℕ)
      → g < 2 ^ 64
      → s < 2 ^ 64
      → Consistent d
      → get_grader_id_by_submission_id p d s ≡ none
      → (claim_submission p d g s).1 ≡ true
      → Consistent (claim_submission p d g s).0
  claim_submission-Consistent d g s hg hs c free e = record {
    agree = λ h j hh hj. agree-claim d g s h j hg hs hh hj c free e;
  }

  iff_release :
      (o : Option ℕ) (b : Bool) (g s h j : ℕ)
      → (o ≡ some h → b ≡ true)
      → (b ≡ true → o ≡ some h)
      → (s ≡ j → o ≡ some g)
      → ((if s == j then none else o) ≡ some h) ↔ ((if g == h && s == j then false else b) ≡ true)
  iff_release none true g s h j to from owned = ground arith
  iff_release none false g s h j to from owned = (λ e. ground arith, λ e. ground arith)
  iff_release (some o) true g s h j to from owned = (λ e. ground arith, λ e. ground arith)
  iff_release (some o) false g s h j to from owned = (λ e. ground arith, λ e. ground arith)

  agree-release :
      (d : Db) (g s h j : ℕ)
      → g < 2 ^ 64
      → s < 2 ^ 64
      → h < 2 ^ 64
      → j < 2 ^ 64
      → Consistent d
      → get_grader_id_by_submission_id p d s ≡ some g
      → Released d s
      → (get_grader_id_by_submission_id p (release_submission p d s).0 j ≡ some h)
        ↔ (listed (release_submission p d s).0 h j ≡ true)
  agree-release d g s h j hg hs hh hj c owned r =
      rw
        (
          owner-release_submission d g s j hs hj owned r,
          listed-release_submission d g s h j owned r,
        )
        (iff_release _ _ g s h j (c.agree h j hh hj).0 (c.agree h j hh hj).1
          (λ same. subst (λ t. get_grader_id_by_submission_id p d t ≡ some g) same owned))

  -- For ids below 2 ^ 64, a release of an owned submission whose deletes succeed keeps the two
  -- copies in agreement.
  pub release_submission-Consistent :
      (d : Db) (g s : ℕ)
      → g < 2 ^ 64
      → s < 2 ^ 64
      → Consistent d
      → get_grader_id_by_submission_id p d s ≡ some g
      → Released d s
      → Consistent (release_submission p d s).0
  release_submission-Consistent d g s hg hs c owned r = record {
    agree = λ h j hh hj. agree-release d g s h j hg hs hh hj c owned r;
  }

  -- For ids below 2 ^ 64, a submission that a grader claims, and then a second one while the first
  -- holds it, stays listed under the first grader, also after its release, if no write fails.
  pub reclaimed_stays_listed :
      (d : Db) (g h s : ℕ)
      → g < 2 ^ 64
      → h < 2 ^ 64
      → s < 2 ^ 64
      → g ≢ h
      → (claim_submission p d g s).1 ≡ true
      → (claim_submission p (claim_submission p d g s).0 h s).1 ≡ true
      → Released (claim_submission p (claim_submission p d g s).0 h s).0 s
      → listed
          (release_submission p (claim_submission p (claim_submission p d g s).0 h s).0 s).0
          g
          s
        ≡ true
  reclaimed_stays_listed d g h s hg hh hs ne e e' r =
      let d' = (claim_submission p d g s).0 in
      let d2 = (claim_submission p d' h s).0 in
      let owned = owner-claim_submission d' h s s hh hs hs e' in
      let mine : get_grader_id_by_submission_id p d2 s ≡ some h = owned ∙ ground arith in
      rw
        (
          listed-release_submission d2 h s g s mine r,
          listed-claim_submission d' h s g s e',
          listed-claim_submission d g s g s e,
        )
        (ground arith)
