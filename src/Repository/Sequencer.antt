-- ===== src/Repository/Sequencer.antt =====
-- pkg/repository/sequencer.go: ids are handed out from batches whose end is persisted first. The
-- mutex makes each call one step, so a call is a function of the store and the sequencer.
pub mod Unique
pub mod Batches
use autograder_server.Base.{
  ℕ, zero, suc, ◌+◌, ◌%◌, ◌^◌, Bool, true, false, Option, none, some, List, ltb, if◌then◌else◌,
}
use autograder_server.Repository.Prefix.{uint64_to_bytes, big_endian_uint64}
use autograder_server.Repository.Pebble.{Pebble, Got, found, not_found, failed}

abbrev pub batch_size : ℕ
batch_size = 10

-- The database handle is passed beside it.
pub record KvSequencer : Type 0 where
  pub key : List ℕ
  pub next : ℕ
  pub limit : ℕ

pub data NextId : Type 0 where
  next_id : ℕ → NextId
  write_error out_of_fuel : NextId

module _ (p : Pebble) where
  open p use {Db, get, put}

  abbrev store_limit : Db × Bool → KvSequencer → ℕ → Db × KvSequencer × Bool
  store_limit (d, true) q next_limit = (d, record q { limit = next_limit }, true)
  store_limit (d, false) q next_limit = (d, q, false)

  -- The Boolean is a nil error.
  unfoldable pub request_next_batch : Db → KvSequencer → Db × KvSequencer × Bool
  request_next_batch d q =
      if ltb q.next q.limit
      then (d, q, true)
      else (let next_limit = (q.limit + batch_size) % 2 ^ 64 in
          store_limit (put d q.key (uint64_to_bytes next_limit)) q next_limit)

  -- The loop of `GetNextId` and what follows it.
  unfoldable pub get_next_id : ℕ → Db → KvSequencer → Db × KvSequencer × NextId
  get_next_id zero d q = (d, q, out_of_fuel)
  get_next_id (suc fuel) d q =
      let (d', q', success) = request_next_batch d q in
      let again = get_next_id fuel d' q' in
      let issued : Db × KvSequencer × NextId =
        (d, record q { next = (q.next + 1) % 2 ^ 64 }, next_id q.next) in
      if ltb q.next q.limit then issued else if success then again else (d', q', write_error)

  -- The sequencer that a stored id gives, and the error of its first batch.
  abbrev opened_at : Db → List ℕ → ℕ → Db × KvSequencer × Bool
  opened_at d key id = request_next_batch d (record { key = key; next = id; limit = id })

  abbrev opened : Db → List ℕ → Got → Option (Db × KvSequencer × Bool)
  opened d key (found raw) = some (opened_at d key (big_endian_uint64 raw))
  opened d key not_found = some (opened_at d key (big_endian_uint64 (uint64_to_bytes 1)))
  opened d key failed = none

  -- none is a nil sequencer with the read's error.
  unfoldable pub new_kv_sequencer : Db → List ℕ → Option (Db × KvSequencer × Bool)
  unfolding request_next_batch
  new_kv_sequencer d key = opened d key (get d key)
