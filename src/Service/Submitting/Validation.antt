-- ===== src/Service/Submitting/Validation.antt =====
-- The submitters that `validateSubmitters` of pkg/grpc/submission.go lets through.
use autograder_server.Service.Submitting.{
  or_caller, validate_submitters, validate_loop, submitters_are, code_not_a_submitter,
  permission_denied, code_submitter_not_in_course, invalid_argument, Submitters, submitters_refused,
  submitters_are,
}
use autograder_server.Base.{
  ap, ◌&&◌, subst, not, sym, Bool-cases, ==_iff, ◌==◌, if◌then◌else◌, inr, inl, ◌∙◌, ◌||◌, ◌++◌,
  contains, All, Bool, List, ℕ, arith, ◌∷◌, [], false, true, refl, ◌≡◌,
}

-- No id twice.
abbrev pub AreDistinct : List ℕ → Type 0
AreDistinct [] = Unit
AreDistinct (x ∷ r) = (contains x r ≡ false) × AreDistinct r

contains-append :
    (x : ℕ) (xs ys : List ℕ) → contains x (xs ++ ys) ≡ (contains x xs || contains x ys)
contains-append x [] ys = refl
contains-append x (y ∷ xs) ys = ground (arith, contains-append x xs ys)

distinct_end :
    (xs : List ℕ) (x : ℕ) → AreDistinct xs → contains x xs ≡ false → AreDistinct (xs ++ x ∷ [])
distinct_end [] x h new = (refl, tt)
distinct_end (y ∷ xs) x h new = (
  contains-append y xs (x ∷ []) ∙ ground (arith, h.0, new),
  distinct_end xs x h.1 (ground (arith, new)),
)

members_end : (P : ℕ → Type 0) (xs : List ℕ) (x : ℕ) → All P xs → P x → All P (xs ++ x ∷ [])
members_end P [] x h hx = (hx, tt)
members_end P (y ∷ xs) x h hx = (h.0, members_end P xs x h.1 hx)

or_false : (b : Bool) → b ≡ (b || false)
or_false true = refl
or_false false = refl

skip :
    (x sid : ℕ) (submitters r : List ℕ)
    → contains x submitters ≡ true
    → (contains sid submitters || contains sid r)
      ≡ (contains sid submitters || contains sid (x ∷ r))
skip x sid submitters r old = elim (Bool-cases (x == sid)) [
  | inr other ↦ rw other refl
  | inl same ↦ rw (subst (λ t. contains t submitters ≡ true) ((==_iff x sid).0 same) old) refl
]

at_front : (x : ℕ) (submitters r : List ℕ) → (contains x submitters || contains x (x ∷ r)) ≡ true
at_front x submitters r = ground (arith, (==_iff x x).1 refl)

moved_seen :
    (x sid : ℕ) (seen submitters : List ℕ)
    → contains sid seen ≡ contains sid submitters
    → contains sid (x ∷ seen) ≡ contains sid (submitters ++ x ∷ [])
moved_seen x sid seen submitters e = rw (contains-append sid submitters (x ∷ []), e) (ground arith)

moved :
    (x sid : ℕ) (submitters r : List ℕ)
    → (contains sid (submitters ++ x ∷ []) || contains sid r)
      ≡ (contains sid submitters || contains sid (x ∷ r))
moved x sid submitters r = rw (contains-append sid submitters (x ∷ [])) (ground arith)

moved_self :
    (x caller : ℕ) (self : Bool) (submitters : List ℕ)
    → self ≡ contains caller submitters
    → (self || x == caller) ≡ contains caller (submitters ++ x ∷ [])
moved_self x caller self submitters e =
    rw (contains-append caller submitters (x ∷ []), e) (ground arith)

module _ (is_member : ℕ → Bool) where
  -- What the result says of the requested submitters, of whom the caller is the only one when none
  -- is named.
  pub data Decided (requested : List ℕ) (caller : ℕ) (staff : Bool) : Submitters → Type 0 where
    not_in_course :
        (sid : ℕ)
        → contains sid requested ≡ true
        → is_member sid ≡ false
        → Decided requested caller staff
            (submitters_refused invalid_argument code_submitter_not_in_course)
    not_submitting :
        contains caller requested ≡ false
        → staff ≡ false
        → Decided requested caller staff (submitters_refused permission_denied code_not_a_submitter)
    accepted :
        (submitters : List ℕ)
        → AreDistinct submitters
        → All (λ sid. is_member sid ≡ true) submitters
        → ((sid : ℕ) → contains sid submitters ≡ contains sid requested)
        → (contains caller requested || staff) ≡ true
        → Decided requested caller staff (submitters_are submitters)

  at_end :
      (requested : List ℕ) (caller : ℕ) (staff : Bool) (submitters : List ℕ) (self : Bool)
      → AreDistinct submitters
      → All (λ sid. is_member sid ≡ true) submitters
      → ((sid : ℕ) → contains sid submitters ≡ contains sid requested)
      → self ≡ contains caller submitters
      → Decided requested caller staff (
          if not self && not staff
          then submitters_refused permission_denied code_not_a_submitter
          else submitters_are submitters)
  at_end requested caller staff submitters true h m same e =
      accepted submitters h m same (ap (λ t. t || staff) (sym (same caller) ∙ sym e))
  at_end requested caller true submitters false h m same e =
      accepted submitters h m same (ground arith)
  at_end requested caller false submitters false h m same e =
      not_submitting (sym (same caller) ∙ sym e) refl

  -- The request is what was taken and what is left, in any state of the loop.
  loop-Decided :
      (requested r : List ℕ) (caller : ℕ) (staff : Bool) (seen submitters : List ℕ) (self : Bool)
      → ((sid : ℕ) → contains sid seen ≡ contains sid submitters)
      → AreDistinct submitters
      → All (λ sid. is_member sid ≡ true) submitters
      → ((sid : ℕ) → (contains sid submitters || contains sid r) ≡ contains sid requested)
      → self ≡ contains caller submitters
      → Decided requested caller staff (validate_loop is_member r caller staff seen submitters self)
  unfolding validate_loop
  loop-Decided requested [] caller staff seen submitters self hs hd hm hr e =
      at_end requested caller staff submitters self hd hm (λ sid. or_false _ ∙ hr sid) e
  loop-Decided requested (x ∷ r) caller staff seen submitters self hs hd hm hr e =
      elim (Bool-cases (contains x seen)) [
        | inl old ↦ rw old (
            loop-Decided requested r caller staff seen submitters self hs hd hm
              (λ sid. skip x sid submitters r (sym (hs x) ∙ old) ∙ hr sid) e)
        | inr new ↦ elim (Bool-cases (is_member x)) [
          | inr out ↦ rw (new, out) (not_in_course x (sym (hr x) ∙ at_front x submitters r) out)
          | inl inside ↦
              rw (new, inside)
                (loop-Decided requested r caller staff (x ∷ seen) (submitters ++ x ∷ [])
                  (self || x == caller) (λ sid. moved_seen x sid seen submitters (hs sid))
                  (distinct_end submitters x hd (sym (hs x) ∙ new))
                  (members_end (λ sid. is_member sid ≡ true) submitters x hm inside)
                  (λ sid. moved x sid submitters r ∙ hr sid)
                  (moved_self x caller self submitters e))
        ]
      ]

  -- The result of `validateSubmitters` for any request: refused for a submitter outside of the
  -- course, or since the caller is neither a submitter nor staff, or the requested ids, each once,
  -- all in the course, the caller among them unless it is staff.
  pub validate_submitters-Decided :
      (requested : List ℕ) (caller : ℕ) (staff : Bool)
      → Decided
          (or_caller is_member requested caller)
          caller
          staff
          (validate_submitters is_member requested caller staff)
  unfolding validate_submitters
  validate_submitters-Decided requested caller staff =
      let all = or_caller is_member requested caller in
      loop-Decided all all caller staff [] [] false (λ sid. refl) tt tt (λ sid. refl) refl
