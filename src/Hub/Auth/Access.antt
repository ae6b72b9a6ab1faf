-- ===== src/Hub/Auth/Access.antt =====
-- Who is admitted by `authenticate` of pkg/grader/grpc/auth.go, and with which session.
use autograder_server.Repository.Decimal.RoundTrip.{parse_uint-decimal}
use autograder_server.Repository.Decimal.{decimal}
use autograder_server.Hub.Auth.{
  invalid_token, encode_to_string, invalid_registration_token, grader_id_mismatch, refused,
  new_session, admitted, with_session, names_other, check_hub_tokens, parsed_session, authenticate,
  one_session, Call, calls, registers, parse_uint, check_session, is_expected, Metadata,
  session_from_metadata,
}
use autograder_server.Base.{
  ==_iff, bytes_eq_refl, ◌∙◌, sym, ◌^◌, subst, eq_of_some, bytes_eq, ◌<◌, ◌⊎◌, Bool-cases, arith,
  inr, inl, false, refl, eq_of_bytes_eq, ap, lookup, false≢true, ◌≢◌, ◌≡◌, Option, ◌∷◌, [], some,
  none, true, List, ℕ,
}

-- The session that the metadata shows, held by the grader.
pub data Holds (sessions : List (ℕ × List ℕ)) (md : Metadata) (grader_id : ℕ) : Type 0 where
  holds :
      (id token : List ℕ)
      → md.grader_ids ≡ id ∷ []
      → parse_uint id ≡ some grader_id
      → md.session_tokens ≡ token ∷ []
      → token ≢ []
      → lookup grader_id sessions ≡ some token
      → Holds sessions md grader_id

expected_token :
    (o : Option (List ℕ)) (token : List ℕ)
    → is_expected o token ≡ true
    → (token ≢ []) × (o ≡ some token)
expected_token none token e = absurd (false≢true e)
expected_token (some expected) [] e = absurd (false≢true e)
expected_token (some expected) (c ∷ cs) e =
    ((λ h. cc), ap some (eq_of_bytes_eq expected (c ∷ cs) e))

one_session-one :
    (sessions : List (ℕ × List ℕ)) (g : ℕ) (ids tokens : List (List ℕ))
    → one_session sessions ids tokens ≡ some g
    → (id : List ℕ) × (token : List ℕ) × (ids ≡ id ∷ [])
      × (tokens ≡ token ∷ [])
      × (parsed_session sessions (parse_uint id) token ≡ some g)
one_session-one sessions g [] tokens e = cc
one_session-one sessions g (i ∷ []) [] e = cc
one_session-one sessions g (i ∷ []) (t ∷ []) e = (i, t, refl, refl, e)
one_session-one sessions g (i ∷ []) (t ∷ u ∷ r) e = cc
one_session-one sessions g (i ∷ j ∷ r) tokens e = cc

parsed_session-held :
    (sessions : List (ℕ × List ℕ)) (g : ℕ) (o : Option ℕ) (token : List ℕ)
    → parsed_session sessions o token ≡ some g
    → (o ≡ some g) × (token ≢ []) × (lookup g sessions ≡ some token)
unfolding check_session
parsed_session-held sessions g none token e = cc
parsed_session-held sessions g (some id) token e =
    elim (Bool-cases (check_session sessions id token)) [
      | inl ok ↦
          let same : id ≡ g = eq_of_some (rw ok at e) in
          let (filled, found) = expected_token (lookup id sessions) token ok in
          (ap some same, filled, ap (λ t. lookup t sessions) (sym same) ∙ found)
      | inr bad ↦ absurd (let never : none ≡ some g = rw bad at e in cc)
    ]

session_from_metadata-Holds :
    (sessions : List (ℕ × List ℕ)) (md : Metadata) (grader_id : ℕ)
    → session_from_metadata sessions md ≡ some grader_id
    → Holds sessions md grader_id
unfolding session_from_metadata
session_from_metadata-Holds sessions md g e =
    let (id, token, ids, tokens, parsed) =
      one_session-one sessions g md.grader_ids md.session_tokens e in
    let (at, filled, found) = parsed_session-held sessions g (parse_uint id) token parsed in
    holds id token ids at tokens filled found

-- What the caller has shown by the time its call runs.
pub data Shown (hub_token : List ℕ) (sessions : List (ℕ × List ℕ)) (md : Metadata)
    : Call → Option ℕ → Type 0 where
  registration : Shown hub_token sessions md (registers (some hub_token)) none
  renewal :
      (g : ℕ)
      → Holds sessions md g
      → Shown hub_token sessions md (registers (some hub_token)) (some g)
  call :
      (g : ℕ) (body : Option ℕ)
      → md.hub_tokens ≡ hub_token ∷ []
      → Holds sessions md g
      → (body ≡ none) ⊎ (body ≡ some g)
      → Shown hub_token sessions md (calls body) (some g)

by_registration :
    (hub_token : List ℕ) (sessions : List (ℕ × List ℕ)) (md : Metadata) (o : Option ℕ)
    → session_from_metadata sessions md ≡ o
    → Shown hub_token sessions md (registers (some hub_token)) o
by_registration hub_token sessions md none e = registration
by_registration hub_token sessions md (some g) e =
    renewal g (session_from_metadata-Holds sessions md g e)

own_body : (body : Option ℕ) (g : ℕ) → names_other body g ≡ false → (body ≡ none) ⊎ (body ≡ some g)
own_body none g e = inl refl
own_body (some id) g e = inr (ap some (ground arith))

by_call :
    (hub_token : List ℕ) (sessions : List (ℕ × List ℕ)) (md : Metadata) (body o got : Option ℕ)
    → md.hub_tokens ≡ hub_token ∷ []
    → session_from_metadata sessions md ≡ o
    → with_session body o ≡ admitted got
    → Shown hub_token sessions md (calls body) got
by_call hub_token sessions md body none got tokens e h = cc
by_call hub_token sessions md body (some g) got tokens e h =
    elim (Bool-cases (names_other body g)) [
      | inl other ↦
          absurd (let never : refused grader_id_mismatch ≡ admitted got = rw other at h in cc)
      | inr own ↦
          let same : some g ≡ got =
            (let h' : admitted (some g) ≡ admitted got = rw own at h in cc) in
          subst (λ t. Shown hub_token sessions md (calls body) t) same
            (call g body tokens (session_from_metadata-Holds sessions md g e) (own_body body g own))
    ]

the_hub_token :
    (hub_token : List ℕ) (tokens : List (List ℕ))
    → check_hub_tokens hub_token tokens ≡ true
    → tokens ≡ hub_token ∷ []
the_hub_token hub_token [] e = cc
the_hub_token hub_token (t ∷ []) e = ap (λ t. t ∷ []) (eq_of_bytes_eq t hub_token e)
the_hub_token hub_token (t ∷ u ∷ r) e = cc

-- A call that is admitted has shown the hub's token and, but for a registration without a session,
-- the session of the grader that it runs as; the body of a call names that grader or none.
pub authenticate-Shown :
    (hub_token : List ℕ) (sessions : List (ℕ × List ℕ)) (md : Metadata) (c : Call) (got : Option ℕ)
    → authenticate hub_token sessions md c ≡ admitted got
    → Shown hub_token sessions md c got
unfolding authenticate
authenticate-Shown hub_token sessions md (registers none) got e = cc
authenticate-Shown hub_token sessions md (registers (some token)) got e =
    elim (Bool-cases (bytes_eq token hub_token)) [
      | inl ok ↦
          let h : admitted (session_from_metadata sessions md) ≡ admitted got = rw ok at e in
          subst (λ t. Shown hub_token sessions md (registers (some t)) got)
            (sym (eq_of_bytes_eq token hub_token ok)) (by_registration hub_token sessions md got cc)
      | inr bad ↦
          absurd (let never : refused invalid_registration_token ≡ admitted got = rw bad at e in cc)
    ]
authenticate-Shown hub_token sessions md (calls body) got e =
    elim (Bool-cases (check_hub_tokens hub_token md.hub_tokens)) [
      | inl ok ↦
          by_call hub_token sessions md body (session_from_metadata sessions md) got
            (the_hub_token hub_token md.hub_tokens ok) refl (rw ok at e)
      | inr bad ↦ absurd (let never : refused invalid_token ≡ admitted got = rw bad at e in cc)
    ]

-- With the session just issued from at least one random byte, sent with its id below 2 ^ 64 and
-- the hub's token, a grader is admitted as itself, whatever sessions there were.
pub authenticate-new_session :
    (hub_token : List ℕ) (sessions : List (ℕ × List ℕ)) (g b : ℕ) (raw : List ℕ)
    → g < 2 ^ 64
    → authenticate hub_token
        (new_session sessions g (some (b ∷ raw))).0
        (record {
          hub_tokens = hub_token ∷ [];
          grader_ids = decimal g ∷ [];
          session_tokens = encode_to_string (b ∷ raw) ∷ [];
        })
        (calls (some g))
      ≡ admitted (some g)
unfolding authenticate new_session session_from_metadata check_session
authenticate-new_session hub_token sessions g b raw h =
    let same = (==_iff g g).1 refl in
    rw
      (
        bytes_eq_refl hub_token,
        parse_uint-decimal g h,
        same,
        bytes_eq_refl (encode_to_string (b ∷ raw)),
      )
      (rw same refl)
