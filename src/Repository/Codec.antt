-- ===== src/Repository/Codec.antt =====
-- google.golang.org/protobuf's Marshal and Unmarshal, which are not part of the repository, at one
-- message type: none is an error, and a marshalled message is read back.
use autograder_server.Base.{Option, List, ℕ, some, ◌≡◌}

pub record Codec {ℓ} (A : Type ℓ) : Type ℓ where
  pub marshal : A → Option (List ℕ)
  pub unmarshal : List ℕ → Option A
  pub unmarshal-marshal : (a : A) (raw : List ℕ) → marshal a ≡ some raw → unmarshal raw ≡ some a
