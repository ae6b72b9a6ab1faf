-- ===== src/Tests/Auth.antt =====
-- Runs of pkg/grader/grpc/auth.go.
use autograder_server.Repository.Decimal.{decimal}
use autograder_server.Hub.Auth.{
  admitted, encode_to_string, calls, Metadata, new_session, authenticate,
}
use autograder_server.Hub.Auth.Access.{authenticate-new_session, authenticate-Shown, Shown}
use autograder_server.Base.{◌≡◌, ◌∷◌, [], some, List, ℕ, arith}

-- The hub's token is h; grader 7 holds the session that comes of the byte 5.
abbrev sessions_7 : List (ℕ × List ℕ)
sessions_7 = (new_session [] 7 (some (5 ∷ []))).0

abbrev metadata_7 : Metadata
metadata_7 = record {
  hub_tokens = (b'h' ∷ []) ∷ [];
  grader_ids = decimal 7 ∷ [];
  session_tokens = encode_to_string (5 ∷ []) ∷ [];
}

authenticate-new_session_example :
    authenticate (b'h' ∷ []) sessions_7 metadata_7 (calls (some 7)) ≡ admitted (some 7)
authenticate-new_session_example = authenticate-new_session (b'h' ∷ []) [] 7 5 [] (omega arith)

authenticate-Shown_example : Shown (b'h' ∷ []) sessions_7 metadata_7 (calls (some 7)) (some 7)
authenticate-Shown_example =
    authenticate-Shown (b'h' ∷ []) sessions_7 metadata_7 (calls (some 7)) (some 7)
      (authenticate-new_session (b'h' ∷ []) [] 7 5 [] (omega arith))
