-- ===== src/Repository/Users/Index.antt =====
-- The indexes of pkg/repository/user.go: a user that is created is found by name and by address.
use autograder_server.Repository.Sequencer.{
  next_id, get_next_id, NextId, out_of_fuel, write_error, next_id,
}
use autograder_server.Repository.Prefix.Words.{big_endian-uint64_to_bytes}
use autograder_server.Repository.Users.{
  create_error, create_numbered, create_user, created, create_marshalled, get_email_key,
  uint64_to_bytes, get_username_key, get_user_id_key, KvSequencer, get_user_id_by_email,
  get_user_id_by_username, get_user_by_id, user_at, get_user_by_email, get_user_by_username,
}
use autograder_server.Repository.Batch.{set_key, Batches}
use autograder_server.Repository.Messages.{CourseMember, User}
use autograder_server.Repository.Merger.{Mergeable}
use autograder_server.Repository.Codec.{Codec}
use autograder_server.Repository.Pebble.{not_found, found, Pebble}
use autograder_server.Base.{
  sym, subst, Bool-cases, inr, inl, bytes_eq_refl, ◌∙◌, bytes_eq, Option, none, false, refl, ◌^◌,
  ◌<◌, List, ℕ, ◌∷◌, [], some, true, ◌≡◌,
}

name-id : (name : List ℕ) (id : ℕ) → bytes_eq (get_username_key name) (get_user_id_key id) ≡ false
unfolding get_username_key get_user_id_key bytes_eq
name-id name id = refl

email-id : (email : List ℕ) (id : ℕ) → bytes_eq (get_email_key email) (get_user_id_key id) ≡ false
unfolding get_email_key get_user_id_key bytes_eq
email-id email id = refl

email-name : (email name : List ℕ) → bytes_eq (get_email_key email) (get_username_key name) ≡ false
unfolding get_email_key get_username_key bytes_eq
email-name email name = refl

module _ (p : Pebble) (cm : Codec Mergeable) (us : Codec User) (ms : Codec CourseMember)
    (b : Batches cm p) where
  open p use {Db, get}

  indexed :
      (d : Db) (q : KvSequencer) (id : ℕ) (user : User) (raw : List ℕ)
      → id < 2 ^ 64
      → us.marshal user ≡ some raw
      → let ws =
          set_key (get_user_id_key id) raw
          ∷ set_key (get_username_key user.username) (uint64_to_bytes id)
          ∷ set_key (get_email_key user.email) (uint64_to_bytes id)
          ∷ [] in
        (b.commit d ws).1 ≡ true
        → (get_user_by_username p cm us ms b (b.commit d ws).0 user.username ≡ some (user, id))
          × (get_user_by_email p cm us ms b (b.commit d ws).0 user.email ≡ some (user, id))
  unfolding get_user_by_username get_user_by_email user_at get_user_by_id get_user_id_by_username
      get_user_id_by_email
  indexed d q id user raw small em ok =
      let ws =
        set_key (get_user_id_key id) raw
        ∷ set_key (get_username_key user.username) (uint64_to_bytes id)
        ∷ set_key (get_email_key user.email) (uint64_to_bytes id)
        ∷ [] in
      let d' = (b.commit d ws).0 in
      let back = us.unmarshal-marshal user raw em in
      let id_back = big_endian-uint64_to_bytes id small in
      let id_at : get d' (get_user_id_key id) ≡ found raw =
        b.get-commit d ws (get_user_id_key id) ok
        ∙ rw (email-id user.email id, name-id user.username id, bytes_eq_refl (get_user_id_key id))
            refl in
      let name_at : get d' (get_username_key user.username) ≡ found (uint64_to_bytes id) =
        b.get-commit d ws (get_username_key user.username) ok
        ∙ rw (email-name user.email user.username, bytes_eq_refl (get_username_key user.username))
            refl in
      let email_at : get d' (get_email_key user.email) ≡ found (uint64_to_bytes id) =
        b.get-commit d ws (get_email_key user.email) ok
        ∙ rw (bytes_eq_refl (get_email_key user.email)) (refl) in
      (rw (name_at, id_back, id_at, back) refl, rw (email_at, id_back, id_at, back) refl)

  marshalled_indexed :
      (d : Db) (q : KvSequencer) (id id' : ℕ) (user : User) (o : Option (List ℕ))
      → id' < 2 ^ 64
      → us.marshal user ≡ o
      → (create_marshalled p cm us ms b d q id user o).2 ≡ created id'
      → let d' = (create_marshalled p cm us ms b d q id user o).0 in
        (get_user_by_username p cm us ms b d' user.username ≡ some (user, id'))
        × (get_user_by_email p cm us ms b d' user.email ≡ some (user, id'))
  marshalled_indexed d q id id' user none small em e = cc
  marshalled_indexed d q id id' user (some raw) small em e =
      let ws =
        set_key (get_user_id_key id) raw
        ∷ set_key (get_username_key user.username) (uint64_to_bytes id)
        ∷ set_key (get_email_key user.email) (uint64_to_bytes id)
        ∷ [] in
      let d' = (b.commit d ws).0 in
      elim (Bool-cases (b.commit d ws).1) [
        | inr bad ↦ absurd (let never : create_error ≡ created id' = rw bad at e in cc)
        | inl ok ↦
            let same : id ≡ id' = (let h : created id ≡ created id' = rw ok at e in cc) in
            subst
              (λ t.
                (get_user_by_username p cm us ms b d' user.username ≡ some (user, t))
                × (get_user_by_email p cm us ms b d' user.email ≡ some (user, t)))
              same (indexed d q id user raw (subst (λ t. t < 2 ^ 64) (sym same) small) em ok)
      ]

  numbered_indexed :
      (r : Db × KvSequencer × NextId) (id : ℕ) (user : User)
      → id < 2 ^ 64
      → (create_numbered p cm us ms b r user).2 ≡ created id
      → let d' = (create_numbered p cm us ms b r user).0 in
        (get_user_by_username p cm us ms b d' user.username ≡ some (user, id))
        × (get_user_by_email p cm us ms b d' user.email ≡ some (user, id))
  numbered_indexed (d, q, next_id n) id user small e =
      marshalled_indexed d q n id user (us.marshal user) small refl e
  numbered_indexed (d, q, write_error) id user small e = cc
  numbered_indexed (d, q, out_of_fuel) id user small e = cc

  -- A user whose name is new and whose creation returns an id below 2 ^ 64 is found under that id
  -- by name and by address, as it was given, with the time of its creation.
  pub create_user-found :
      (d : Db) (q : KvSequencer) (user : User) (now id : ℕ)
      → get d (get_username_key user.username) ≡ not_found
      → id < 2 ^ 64
      → (create_user p cm us ms b d q user now).2 ≡ created id
      → let d' = (create_user p cm us ms b d q user now).0 in
        (get_user_by_username p cm us ms b d' user.username
          ≡ some (record user { created_at = some now }, id))
        × (get_user_by_email p cm us ms b d' user.email
            ≡ some (record user { created_at = some now }, id))
  unfolding create_user
  create_user-found d q user now id new small e =
      let user' = record user { created_at = some now } in
      rw new (numbered_indexed (get_next_id p 2 d q) id user' small (rw new at e))
