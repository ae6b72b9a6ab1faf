-- ===== src/Hub/Auth.antt =====
-- pkg/grader/grpc/auth.go: the sessions of graders, and who may call the hub.
pub mod Access
use autograder_server.Repository.Decimal.{parse_uint}
use autograder_server.Base.{
  ◌+◌, ◌==◌, ltb, ◌%◌, insert, bytes_eq, not, lookup, if◌then◌else◌, ◌/◌, Bool, Option, ◌∷◌, [],
  some, none, false, List, ℕ,
}

-- The values of the three metadata keys of a call.
pub record Metadata : Type 0 where
  pub hub_tokens : List (List ℕ)
  pub grader_ids : List (List ℕ)
  pub session_tokens : List (List ℕ)

-- A call of `RegisterGrader`, with the token of its body if the body is a registration; or
-- another call, with the grader id of its body if the body has one.
pub data Call : Type 0 where
  registers : Option (List ℕ) → Call
  calls : Option ℕ → Call

-- INVALID_TOKEN has the code PermissionDenied for a registration, else Unauthenticated.
pub data Refusal : Type 0 where
  invalid_registration_token invalid_token invalid_session grader_id_mismatch : Refusal

-- An admitted call runs with the grader id in its context, if one was authenticated.
pub data Authenticated : Type 0 where
  admitted : Option ℕ → Authenticated
  refused : Refusal → Authenticated

abbrev hex_digit : ℕ → ℕ
hex_digit n = if ltb n 10 then 48 + n else 87 + n

abbrev pub encode_to_string : List ℕ → List ℕ
encode_to_string [] = []
encode_to_string (b ∷ r) = hex_digit (b / 16) ∷ hex_digit (b % 16) ∷ encode_to_string r

-- `raw` is what crypto/rand gives, or none on its error.
unfoldable pub new_session :
    List (ℕ × List ℕ) → ℕ → Option (List ℕ) → List (ℕ × List ℕ) × Option (List ℕ)
new_session sessions grader_id none = (sessions, none)
new_session sessions grader_id (some raw) =
    let token = encode_to_string raw in (insert grader_id token sessions, some token)

abbrev is_expected : Option (List ℕ) → List ℕ → Bool
is_expected none token = false
is_expected (some expected) [] = false
is_expected (some expected) (c ∷ cs) = bytes_eq expected (c ∷ cs)

unfoldable pub check_session : List (ℕ × List ℕ) → ℕ → List ℕ → Bool
check_session sessions grader_id token = is_expected (lookup grader_id sessions) token

abbrev parsed_session : List (ℕ × List ℕ) → Option ℕ → List ℕ → Option ℕ
parsed_session sessions none token = none
parsed_session sessions (some grader_id) token =
    if check_session sessions grader_id token then some grader_id else none

abbrev one_session : List (ℕ × List ℕ) → List (List ℕ) → List (List ℕ) → Option ℕ
one_session sessions (id ∷ []) (token ∷ []) = parsed_session sessions (parse_uint id) token
one_session sessions ids tokens = none

unfoldable pub session_from_metadata : List (ℕ × List ℕ) → Metadata → Option ℕ
session_from_metadata sessions md = one_session sessions md.grader_ids md.session_tokens

abbrev check_hub_tokens : List ℕ → List (List ℕ) → Bool
check_hub_tokens hub_token (token ∷ []) = bytes_eq token hub_token
check_hub_tokens hub_token tokens = false

abbrev names_other : Option ℕ → ℕ → Bool
names_other none grader_id = false
names_other (some id) grader_id = not (id == grader_id)

abbrev with_session : Option ℕ → Option ℕ → Authenticated
with_session body none = refused invalid_session
with_session body (some grader_id) =
    if names_other body grader_id then refused grader_id_mismatch else admitted (some grader_id)

unfoldable pub authenticate : List ℕ → List (ℕ × List ℕ) → Metadata → Call → Authenticated
authenticate hub_token sessions md (registers none) = refused invalid_registration_token
authenticate hub_token sessions md (registers (some token)) =
    if not (bytes_eq token hub_token)
    then refused invalid_registration_token
    else admitted (session_from_metadata sessions md)
authenticate hub_token sessions md (calls body) =
    if not (check_hub_tokens hub_token md.hub_tokens)
    then refused invalid_token
    else with_session body (session_from_metadata sessions md)
