-- ===== src/Repository/Pebble.antt =====
-- The key-value store github.com/cockroachdb/pebble, which is not part of the repository: its
-- operations as the code calls them, and its documented behaviour as laws.
use autograder_server.Base.{
  ℕ, ◌≡◌, ◌⊎◌, Bool, true, false, Option, some, List, [], ◌∷◌, if◌then◌else◌, bytes_eq,
}
use autograder_server.Repository.Prefix.{IterOptions, in_range}

-- What `Get` returns: a value, `pebble.ErrNotFound`, or another error.
pub data Got : Type 0 where
  found : List ℕ → Got
  not_found failed : Got

abbrev pub Entries : Type 0
Entries = List (List ℕ × List ℕ)

abbrev pub lookup_key : List ℕ → Entries → Got
lookup_key k [] = not_found
lookup_key k ((j, v) ∷ r) = if bytes_eq j k then found v else lookup_key k r

-- A write returns the new store, and whether its error is nil. `scan` visits the entries of
-- `NewIter` with the given options, or fails.
pub record Pebble : Type 1 where
  pub Db : Type 0
  pub get : Db → List ℕ → Got
  pub put : Db → List ℕ → List ℕ → Db × Bool
  pub delete : Db → List ℕ → Db × Bool
  pub scan : Db → IterOptions → Option Entries
  pub get-put :
      (d : Db) (k v j : List ℕ)
      → (put d k v).1 ≡ true
      → get (put d k v).0 j ≡ (if bytes_eq k j then found v else get d j)
  -- A write that reports an error may still have happened.
  pub get-put_failed :
      (d : Db) (k v j : List ℕ)
      → (put d k v).1 ≡ false
      → (get (put d k v).0 j ≡ get d j) ⊎ ((bytes_eq k j ≡ true) × (get (put d k v).0 j ≡ found v))
  pub get-delete :
      (d : Db) (k j : List ℕ)
      → (delete d k).1 ≡ true
      → get (delete d k).0 j ≡ (if bytes_eq k j then not_found else get d j)
  pub get-delete_failed :
      (d : Db) (k j : List ℕ)
      → (delete d k).1 ≡ false
      → (get (delete d k).0 j ≡ get d j)
        ⊎ ((bytes_eq k j ≡ true) × (get (delete d k).0 j ≡ not_found))
  pub scan-found :
      (d : Db) (o : IterOptions) (entries : Entries) (k v : List ℕ)
      → scan d o ≡ some entries
      → get d k ≡ found v
      → in_range o k ≡ true
      → lookup_key k entries ≡ found v
  pub scan-not_found :
      (d : Db) (o : IterOptions) (entries : Entries) (k : List ℕ)
      → scan d o ≡ some entries
      → get d k ≡ not_found
      → lookup_key k entries ≡ not_found
  pub scan-in_range :
      (d : Db) (o : IterOptions) (entries : Entries) (k : List ℕ)
      → scan d o ≡ some entries
      → in_range o k ≡ false
      → lookup_key k entries ≡ not_found
