-- ===== src/Repository/VerificationCode.antt =====
-- pkg/repository/verification_code.go: codes that are issued for a key, expire, and are deleted when
-- they are used.
pub mod Once
use autograder_server.Repository.Prefix.{prefix_iter_options}
use autograder_server.Repository.Stored.{read_message, put_message}
use autograder_server.Repository.Codec.{Codec}
use autograder_server.Repository.Messages.{as_time, VerificationCodeMetadata}
use autograder_server.Repository.Pebble.{Entries, Pebble}
use autograder_server.Base.{
  bytes_eq, not, if◌then◌else◌, ltb, ◌++◌, codes, Bool, Option, List, ℕ, ◌∷◌, [], some, none, false,
  true, ◌≡◌,
}

unfoldable pub get_prefix : List ℕ → List ℕ
get_prefix typ = codes "verification_code:" ++ (typ ++ b':' ∷ [])

unfoldable pub get_key : List ℕ → List ℕ → List ℕ
unfolding get_prefix
get_key typ key = get_prefix typ ++ key

-- Whether now is after the time a code expires at.
abbrev pub is_expired : VerificationCodeMetadata → ℕ → Bool
is_expired metadata now = ltb (as_time metadata.expired_at) now

-- An error, or the Boolean result.
pub data Validated : Type 0 where
  read_error : Validated
  checked : Bool → Validated

module _ (p : Pebble) (c : Codec VerificationCodeMetadata) where
  open p use {Db, get, delete, scan}

  unfoldable pub issue : Db → List ℕ → List ℕ → List ℕ → ℕ → ℕ → Db × Bool
  issue d typ key code expire_at now =
      put_message p c d (get_key typ key)
        (c.marshal (record { code = code; issued_at = some now; expired_at = some expire_at }))

  -- The result, and whether the code is deleted before it is returned.
  abbrev check_read : List ℕ → ℕ → Option VerificationCodeMetadata → Validated × Bool
  check_read code now none = (read_error, false)
  check_read code now (some metadata) =
      if is_expired metadata now
      then (checked false, true)
      else if not (bytes_eq metadata.code code)
      then (checked false, false)
      else (checked true, true)

  -- `Validate` takes no lock, so it is two steps between which other calls may run: the read and
  -- what follows from it, and the deletion, whose error is ignored.
  unfoldable pub check_code : Db → List ℕ → List ℕ → List ℕ → ℕ → Validated × Bool
  check_code d typ key code now = check_read code now (read_message p c (get d (get_key typ key)))

  unfoldable pub delete_code : Db → List ℕ → List ℕ → Bool → Db
  delete_code d typ key deletes = if deletes then (delete d (get_key typ key)).0 else d

  abbrev collect_one : Db → List ℕ → Option VerificationCodeMetadata → ℕ → Db
  collect_one d key none now = d
  collect_one d key (some metadata) now = if is_expired metadata now then (delete d key).0 else d

  -- The entries that an iterator of the sweep visits, from a snapshot of the store.
  unfoldable pub collect_all : Db → Entries → ℕ → Db
  collect_all d [] now = d
  collect_all d ((key, raw) ∷ r) now = collect_all (collect_one d key (c.unmarshal raw) now) r now

  -- One tick of `GarbageCollect`; a tick without an iterator changes nothing.
  unfoldable pub garbage_collect : Db → ℕ → Db
  unfolding collect_all
  garbage_collect d now = elim (scan d (prefix_iter_options (codes "verification_code:"))) [
    | none ↦ d
    | some entries ↦ collect_all d entries now
  ]
