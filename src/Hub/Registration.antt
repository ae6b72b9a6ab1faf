-- ===== src/Hub/Registration.antt =====
-- `RegisterGrader` of pkg/grader/grpc/graderhub_service.go, with the reads of
-- pkg/repository/grader.go whose error it looks at.
pub mod Takeover
use autograder_server.Repository.Grader.Registry.{create_grader}
use autograder_server.Repository.Prefix.{big_endian_uint64}
use autograder_server.Repository.Sequencer.{KvSequencer}
use autograder_server.Hub.Auth.{new_session}
use autograder_server.Repository.Codec.{Codec}
use autograder_server.Hub.State.{Hub}
use autograder_server.Repository.Grader.{
  offline, update_grader, GraderInfo, GraderStatusMetadata, GraderStatus, unknown, online, offline,
}
use autograder_server.Repository.Pebble.{found, Got, Pebble, failed, not_found, found}
use autograder_server.Base.{
  not, ◌&&◌, if◌then◌else◌, insert, codes, ◌==◌, Bool, Option, List, ℕ, some, none, false, true,
  List, ℕ,
}
use autograder_server.Repository.Grader.Keys.{get_grader_name_key, get_grader_id_key}

-- What `GetGraderByName` returns: a grader, `pebble.ErrNotFound`, or another error.
pub data Named : Type 0 where
  named : GraderStatusMetadata → ℕ → Named
  unknown_name lookup_failed : Named

pub data Registered : Type 0 where
  registered : ℕ → List ℕ → Registered
  get_grader_error create_grader_error issue_session_error already_exists : Registered

module _ (p : Pebble) (c : Codec GraderStatusMetadata) where
  abbrev unmarshalled : ℕ → Option GraderStatusMetadata → Named
  unmarshalled id none = lookup_failed
  unmarshalled id (some grader) = named grader id

  abbrev at_id : ℕ → Got → Named
  at_id id (found raw) = unmarshalled id (c.unmarshal raw)
  at_id id not_found = unknown_name
  at_id id failed = lookup_failed

  abbrev at_name : p.Db → Got → Named
  at_name d (found raw) =
      let id = big_endian_uint64 raw in at_id id (p.get d (get_grader_id_key id))
  at_name d not_found = unknown_name
  at_name d failed = lookup_failed

  unfoldable pub named_grader : p.Db → List ℕ → Named
  named_grader d name = at_name d (p.get d (get_grader_name_key name))

-- Whether the store holds the grader as online.
abbrev is_online : GraderStatus → Bool
is_online online = true
is_online offline = false
is_online unknown = false

abbrev is_same : Option ℕ → ℕ → Bool
is_same none grader_id = false
is_same (some id) grader_id = id == grader_id

module _ (p : Pebble) {R : Type 0} where
  abbrev session_issued :
      Hub p.Db R → ℕ → List (ℕ × List ℕ) × Option (List ℕ) → Hub p.Db R × Registered
  session_issued h grader_id (sessions, none) = (h, issue_session_error)
  session_issued h grader_id (sessions, some token) =
      (record h { sessions = sessions }, registered grader_id token)

  -- The grader goes online and gets a session; `raw` is what crypto/rand gives.
  abbrev goes_online :
      Hub p.Db R → ℕ → GraderStatusMetadata → Option (List ℕ) → Hub p.Db R × Registered
  goes_online h grader_id grader raw =
      session_issued (record h { online_graders = insert grader_id grader h.online_graders })
        grader_id (new_session h.sessions grader_id raw)

module _ (p : Pebble) {R : Type 0} (c : Codec GraderStatusMetadata) where
  abbrev created :
      Hub p.Db R
      → KvSequencer
      → GraderStatusMetadata
      → Option (List ℕ)
      → Option ℕ
      → (Hub p.Db R × Registered) × KvSequencer
  created h q grader raw none = ((h, create_grader_error), q)
  created h q grader raw (some id) = (goes_online p h id grader raw, q)

  -- `authenticated` is the grader id in the context; an error of the update is only logged.
  abbrev register_named :
      Hub p.Db R
      → KvSequencer
      → Option ℕ
      → GraderStatusMetadata
      → Option (List ℕ)
      → List ℕ
      → Named
      → (Hub p.Db R × Registered) × KvSequencer
  register_named h q authenticated grader raw name lookup_failed = ((h, get_grader_error), q)
  register_named h q authenticated grader raw name unknown_name =
      let (d, q', id) = create_grader p c h.db q name grader in
      created (record h { db = d }) q' grader raw id
  register_named h q authenticated grader raw name (named old id) =
      if is_online old.status && not (is_same authenticated id)
      then ((h, already_exists), q)
      else (goes_online p (record h { db = (update_grader p c h.db id grader).0 }) id grader raw, q)

  -- `ip` and `now` are the peer's address and the clock.
  unfoldable pub register_grader :
      Hub p.Db R
      → KvSequencer
      → Option ℕ
      → GraderInfo
      → List ℕ
      → ℕ
      → Option (List ℕ)
      → (Hub p.Db R × Registered) × KvSequencer
  register_grader h q authenticated info ip now raw =
      register_named h q authenticated
        (record { info = info; ip = ip; status = online; last_heartbeat = some now }) raw
        info.hostname (named_grader p c h.db info.hostname)
