-- ===== src/Repository/Grader/Keys.antt =====
-- The keys of pkg/repository/grader.go, and their comparison.
use autograder_server.Repository.Keys.{bytes_eq-digits, bytes_eq-uint64_to_bytes}
use autograder_server.Repository.Decimal.RoundTrip.{bytes_eq-decimal, decimal-IsDigits}
use autograder_server.Base.{
  ◌==◌, ◌&&◌, ◌≡◌, ◌^◌, bytes_eq, ◌++◌, codes, ◌<◌, List, ℕ, ◌∷◌, [], false, refl,
}
use autograder_server.Repository.Prefix.{uint64_to_bytes}
use autograder_server.Repository.Decimal.{decimal}

unfoldable pub get_submission_grader_prefix : List ℕ
get_submission_grader_prefix = codes "running:submission:grader:"

unfoldable pub get_grader_submission_prefix : ℕ → List ℕ
get_grader_submission_prefix grader_id =
    codes "running:grader:submission:" ++ (decimal grader_id ++ b':' ∷ [])

unfoldable pub get_grader_submission_key : ℕ → ℕ → List ℕ
get_grader_submission_key grader_id submission_id =
    codes "running:grader:submission:" ++ (decimal grader_id ++ b':' ∷ decimal submission_id)

unfoldable pub get_submission_grader_key : ℕ → List ℕ
unfolding get_submission_grader_prefix
get_submission_grader_key submission_id =
    get_submission_grader_prefix ++ uint64_to_bytes submission_id

unfoldable pub get_grader_id_prefix : List ℕ
get_grader_id_prefix = codes "grader:id:"

unfoldable pub get_grader_id_key : ℕ → List ℕ
unfolding get_grader_id_prefix
get_grader_id_key grader_id = get_grader_id_prefix ++ uint64_to_bytes grader_id

unfoldable pub get_grader_name_key : List ℕ → List ℕ
get_grader_name_key name = codes "grader:name:" ++ name

unfoldable pub get_metadata_prefix : ℕ → List ℕ
get_metadata_prefix grader_id = codes "grader:metadata:id:" ++ (decimal grader_id ++ b':' ∷ [])

unfoldable pub get_metadata_key : ℕ → List ℕ → List ℕ
unfolding get_metadata_prefix
get_metadata_key grader_id key = get_metadata_prefix grader_id ++ key

pub bytes_eq-submission_grader :
    (s j : ℕ)
    → s < 2 ^ 64
    → j < 2 ^ 64
    → bytes_eq (get_submission_grader_key s) (get_submission_grader_key j) ≡ (s == j)
unfolding get_submission_grader_key bytes_eq
bytes_eq-submission_grader s j hs hj = bytes_eq-uint64_to_bytes s j hs hj

pub bytes_eq-grader_submission :
    (g s h j : ℕ)
    → bytes_eq (get_grader_submission_key g s) (get_grader_submission_key h j) ≡ (g == h && s == j)
unfolding get_grader_submission_key bytes_eq
bytes_eq-grader_submission g s h j = rw (
  bytes_eq-digits (decimal g) (decimal h) (decimal s) (decimal j) (decimal-IsDigits g)
      (decimal-IsDigits h),
  bytes_eq-decimal g h,
  bytes_eq-decimal s j,
)

pub bytes_eq-claim_keys :
    (s g j : ℕ) → bytes_eq (get_submission_grader_key s) (get_grader_submission_key g j) ≡ false
unfolding get_submission_grader_key get_grader_submission_key bytes_eq
bytes_eq-claim_keys s g j = refl

pub bytes_eq-claim_keys' :
    (s g j : ℕ) → bytes_eq (get_grader_submission_key g j) (get_submission_grader_key s) ≡ false
unfolding get_submission_grader_key get_grader_submission_key bytes_eq
bytes_eq-claim_keys' s g j = refl
