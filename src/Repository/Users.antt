-- ===== src/Repository/Users.antt =====
-- pkg/repository/user.go: users, the indexes of their names, addresses and GitHub ids, and the
-- courses that they are in. The locks make `CreateUser` and `UpdateUserAtomic` one step each.
pub mod Membership
pub mod Index
use autograder_server.Repository.Stored.{Created, create_error, created, put_message, read_message}
use autograder_server.Repository.Batch.{set_key, Batches}
use autograder_server.Repository.Messages.{CourseMember, User}
use autograder_server.Repository.Merger.{Mergeable}
use autograder_server.Repository.Decimal.{atoi, decimal}
use autograder_server.Repository.Codec.{Codec}
use autograder_server.Repository.Prefix.{prefix_iter_options, big_endian_uint64, uint64_to_bytes}
use autograder_server.Repository.Keys.{numbered}
use autograder_server.Repository.Sequencer.{
  next_id, get_next_id, NextId, KvSequencer, out_of_fuel, write_error, next_id,
}
use autograder_server.Repository.Pebble.{found, Entries, Got, Pebble, failed, not_found, found}
use autograder_server.Base.{
  ◌==◌, drop, length, if◌then◌else◌, codes, ◌++◌, Bool, Option, List, ℕ, ◌∷◌, [], some, none, false,
  true, ◌>>=◌, ◌≡◌,
}

unfoldable pub get_user_id_key : ℕ → List ℕ
get_user_id_key user_id = codes "user:id:" ++ decimal user_id

unfoldable pub get_username_key : List ℕ → List ℕ
get_username_key name = codes "user:name:" ++ name

unfoldable pub get_github_id_key : List ℕ → List ℕ
get_github_id_key github_id = codes "user:github:" ++ github_id

unfoldable pub get_email_key : List ℕ → List ℕ
get_email_key email = codes "user:email:" ++ email

unfoldable pub get_course_prefix : ℕ → List ℕ
get_course_prefix user_id = numbered (codes "user:courses:") user_id []

unfoldable pub get_course_key : ℕ → ℕ → List ℕ
unfolding get_course_prefix
get_course_key user_id course_id = get_course_prefix user_id ++ uint64_to_bytes course_id

-- The value of an index; none is an error of `Get`.
abbrev pub indexed_id : Got → Option ℕ
indexed_id (found raw) = some (big_endian_uint64 raw)
indexed_id not_found = none
indexed_id failed = none

module _ (p : Pebble) (cm : Codec Mergeable) (us : Codec User) (ms : Codec CourseMember)
    (b : Batches cm p) where
  open p use {Db, get, put, delete, scan}
  open b use {commit}

  unfoldable pub get_user_by_id : Db → ℕ → Option User
  get_user_by_id d id = read_message p us (get d (get_user_id_key id))

  unfoldable pub get_user_id_by_username : Db → List ℕ → Option ℕ
  get_user_id_by_username d name = indexed_id (get d (get_username_key name))

  unfoldable pub get_user_id_by_email : Db → List ℕ → Option ℕ
  get_user_id_by_email d email = indexed_id (get d (get_email_key email))

  unfoldable pub get_user_id_by_github_id : Db → List ℕ → Option ℕ
  get_user_id_by_github_id d github_id = indexed_id (get d (get_github_id_key github_id))

  unfoldable pub user_at : Db → ℕ → Option (User × ℕ)
  unfolding get_user_by_id
  user_at d id = do user ← get_user_by_id d id; some (user, id)

  unfoldable pub get_user_by_username : Db → List ℕ → Option (User × ℕ)
  unfolding get_user_id_by_username user_at
  get_user_by_username d name = do id ← get_user_id_by_username d name; user_at d id

  unfoldable pub get_user_by_email : Db → List ℕ → Option (User × ℕ)
  unfolding get_user_id_by_email user_at
  get_user_by_email d email = do id ← get_user_id_by_email d email; user_at d id

  unfoldable pub get_user_by_github_id : Db → List ℕ → Option (User × ℕ)
  unfolding get_user_id_by_github_id user_at
  get_user_by_github_id d github_id = do id ← get_user_id_by_github_id d github_id; user_at d id

  abbrev id_or_zero : Option ℕ → ℕ
  id_or_zero none = 0
  id_or_zero (some id) = id

  -- An id that Atoi cannot read is taken as 0.
  unfoldable pub users_of : Db → Entries → Option (List (ℕ × User))
  unfolding get_user_by_id
  users_of d [] = some []
  users_of d ((key, raw) ∷ r) = do
    let id = id_or_zero (atoi (drop (length (codes "user:id:")) key))
    user ← get_user_by_id d id
    users ← users_of d r
    some ((id, user) ∷ users)

  unfoldable pub get_all_users : Db → Option (List (ℕ × User))
  unfolding users_of
  get_all_users d = do entries ← scan d (prefix_iter_options (codes "user:id:")); users_of d entries

  unfoldable pub remove_course_member : Db → ℕ → ℕ → Db × Bool
  remove_course_member d user_id course_id = delete d (get_course_key user_id course_id)

  unfoldable pub get_course_member : Db → ℕ → ℕ → Option CourseMember
  get_course_member d user_id course_id =
      read_message p ms (get d (get_course_key user_id course_id))

  unfoldable pub members_of : Entries → Option (List CourseMember)
  members_of [] = some []
  members_of ((key, raw) ∷ r) = do
    member ← ms.unmarshal raw
    members ← members_of r
    some (member ∷ members)

  unfoldable pub get_courses_by_user : Db → ℕ → Option (List CourseMember)
  unfolding members_of
  get_courses_by_user d user_id = do
    entries ← scan d (prefix_iter_options (get_course_prefix user_id))
    members_of entries

  unfoldable pub add_course : Db → CourseMember → Db × Bool
  add_course d m = put_message p ms d (get_course_key m.user_id m.course_id) (ms.marshal m)

  abbrev update_read : Db → ℕ → (User → Option User) → Option User → Db × Bool
  update_read d id mutate none = (d, false)
  update_read d id mutate (some user) = elim (mutate user) [
    | none ↦ (d, false)
    | some user' ↦ put_message p us d (get_user_id_key id) (us.marshal user')
  ]

  unfoldable pub update_user_atomic : Db → ℕ → (User → Option User) → Db × Bool
  unfolding get_user_by_id
  update_user_atomic d id mutate = update_read d id mutate (get_user_by_id d id)

  abbrev with_github_id : List ℕ → User → Option User
  with_github_id github_id user = some (record user { github_id = github_id })

  -- The id that the user had is kept by the closure.
  abbrev unbind_index : Db × Bool → Option User → Db × Bool
  unbind_index (d, false) user = (d, false)
  unbind_index (d, true) none = (d, true)
  unbind_index (d, true) (some user) =
      if length user.github_id == 0 then (d, true) else delete d (get_github_id_key user.github_id)

  unfoldable pub unbind_github_id : Db → ℕ → Db × Bool
  unfolding update_user_atomic get_user_by_id
  unbind_github_id d id =
      unbind_index (update_user_atomic d id (with_github_id [])) (get_user_by_id d id)

  abbrev bind_index : Db × Bool → ℕ → List ℕ → Db × Bool
  bind_index (d, false) id github_id = (d, false)
  bind_index (d, true) id github_id = put d (get_github_id_key github_id) (uint64_to_bytes id)

  unfoldable pub bind_github_id : Db → ℕ → List ℕ → Db × Bool
  unfolding update_user_atomic
  bind_github_id d id github_id =
      bind_index (update_user_atomic d id (with_github_id github_id)) id github_id

  abbrev create_marshalled :
      Db → KvSequencer → ℕ → User → Option (List ℕ) → Db × KvSequencer × Created
  create_marshalled d q id user none = (d, q, create_error)
  create_marshalled d q id user (some raw) =
      let (d', ok) = commit d (
        set_key (get_user_id_key id) raw
        ∷ set_key (get_username_key user.username) (uint64_to_bytes id)
        ∷ set_key (get_email_key user.email) (uint64_to_bytes id)
        ∷ []) in
      (d', q, if ok then created id else create_error)

  abbrev create_numbered : Db × KvSequencer × NextId → User → Db × KvSequencer × Created
  create_numbered (d, q, next_id id) user = create_marshalled d q id user (us.marshal user)
  create_numbered (d, q, write_error) user = (d, q, create_error)
  create_numbered (d, q, out_of_fuel) user = (d, q, create_error)

  abbrev create_named : Db → KvSequencer → User → Got → Db × KvSequencer × Created
  create_named d q user (found raw) = (d, q, created (big_endian_uint64 raw))
  create_named d q user failed = (d, q, create_error)
  create_named d q user not_found = create_numbered (get_next_id p 2 d q) user

  unfoldable pub create_user : Db → KvSequencer → User → ℕ → Db × KvSequencer × Created
  create_user d q user now =
      create_named d q (record user { created_at = some now })
        (get d (get_username_key user.username))
