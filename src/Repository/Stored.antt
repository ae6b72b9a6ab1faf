-- ===== src/Repository/Stored.antt =====
-- Messages under keys, as every repository marshals, puts, gets and unmarshals them.
use autograder_server.Repository.Codec.{Codec}
use autograder_server.Repository.Pebble.{found, found, Got, Pebble, failed, not_found, found}
use autograder_server.Base.{
  sym, false≢true, ◌∙◌, Bool-cases, inr, inl, refl, bytes_eq, if◌then◌else◌, Bool, Option, List, ℕ,
  some, none, false, true, ◌≡◌,
}

-- `Get` without an error, as a Boolean.
abbrev pub is_stored : Got → Bool
is_stored (found raw) = true
is_stored not_found = false
is_stored failed = false

-- What a repository's creation returns: an id, or the first error.
pub data Created : Type 0 where
  created : ℕ → Created
  create_error : Created

module _ (p : Pebble) where
  open p use {Db, get, put, delete}

  module _ {A : Type 0} (c : Codec A) where
    abbrev pub put_message : Db → List ℕ → Option (List ℕ) → Db × Bool
    put_message d key none = (d, false)
    put_message d key (some raw) = put d key raw

    abbrev pub read_message : Got → Option A
    read_message (found raw) = c.unmarshal raw
    read_message not_found = none
    read_message failed = none

    -- A message that is written without error is read back at its key, and no other changes.
    pub put_get :
        (d : Db) (k j : List ℕ) (a : A) (o : Option (List ℕ))
        → c.marshal a ≡ o
        → (put_message d k o).1 ≡ true
        → (raw : List ℕ) × (c.unmarshal raw ≡ some a)
          × (get (put_message d k o).0 j ≡ (if bytes_eq k j then found raw else get d j))
    put_get d k j a none m h = cc
    put_get d k j a (some raw) m h = (raw, c.unmarshal-marshal a raw m, p.get-put d k raw j h)

    pub read-put_message :
        (d : Db) (k j : List ℕ) (a : A)
        → (put_message d k (c.marshal a)).1 ≡ true
        → read_message (get (put_message d k (c.marshal a)).0 j)
          ≡ (if bytes_eq k j then some a else read_message (get d j))
    read-put_message d k j a h =
        let (raw, back, at) = put_get d k j a (c.marshal a) refl h in
        elim (Bool-cases (bytes_eq k j)) [
          | inl same ↦ rw (at, same, back) refl
          | inr other ↦ rw (at, other) refl
        ]

    pub read-deleted :
        (d : Db) (k j : List ℕ)
        → (delete d k).1 ≡ true
        → read_message (get (delete d k).0 j)
          ≡ (if bytes_eq k j then none else read_message (get d j))
    read-deleted d k j ok = elim (Bool-cases (bytes_eq k j)) [
      | inl same ↦ rw (p.get-delete d k j ok, same) refl
      | inr other ↦ rw (p.get-delete d k j ok, other) refl
    ]

  -- A write at one key leaves what is stored at another, failed or not.
  pub put-other : (d : Db) (k v j : List ℕ) → bytes_eq k j ≡ false → get (put d k v).0 j ≡ get d j
  put-other d k v j ne = elim (Bool-cases (put d k v).1) [
    | inl ok ↦ p.get-put d k v j ok ∙ rw ne refl
    | inr bad ↦ elim (p.get-put_failed d k v j bad) [
      | inl same ↦ same
      | inr (at, _) ↦ absurd (false≢true (sym ne ∙ at))
    ]
  ]

  pub delete-other : (d : Db) (k j : List ℕ) → bytes_eq k j ≡ false → get (delete d k).0 j ≡ get d j
  delete-other d k j ne = elim (Bool-cases (delete d k).1) [
    | inl ok ↦ p.get-delete d k j ok ∙ rw ne refl
    | inr bad ↦ elim (p.get-delete_failed d k j bad) [
      | inl same ↦ same
      | inr (at, _) ↦ absurd (false≢true (sym ne ∙ at))
    ]
  ]

  pub put_message-other :
      {A : Type 0} (c : Codec A) (d : Db) (k j : List ℕ) (o : Option (List ℕ))
      → bytes_eq k j ≡ false
      → get (put_message c d k o).0 j ≡ get d j
  put_message-other c d k j none ne = refl
  put_message-other c d k j (some raw) ne = put-other d k raw j ne
