-- ===== src/Hub/Registration/Takeover.antt =====
-- Who may take over a name with `RegisterGrader` of pkg/grader/grpc/graderhub_service.go.
use autograder_server.Hub.Auth.{encode_to_string, new_session}
use autograder_server.Hub.Registration.{
  online, GraderInfo, goes_online, register_grader, named, created, register_named, is_online,
  create_grader, named_grader, Named, KvSequencer, is_same, Hub, GraderStatusMetadata, Codec,
  Registered, Pebble, already_exists, issue_session_error, create_grader_error, get_grader_error,
  registered, lookup_failed, unknown_name, named,
}
use autograder_server.Base.{
  inr, inl, ==_iff, Bool-cases, ap, insert, false≢true, ◌≡◌, Option, List, some, none, false, true,
  refl, List, ℕ,
}

abbrev pub IsError : Registered → Type 0
IsError (registered id token) = ⊥
IsError get_grader_error = Unit {0}
IsError create_grader_error = Unit {0}
IsError issue_session_error = Unit {0}
IsError already_exists = Unit {0}

is_same-authenticated : (o : Option ℕ) (id : ℕ) → is_same o id ≡ true → o ≡ some id
is_same-authenticated none id e = absurd (false≢true e)
is_same-authenticated (some j) id e = ap some ((==_iff j id).0 e)

module _ (p : Pebble) (c : Codec GraderStatusMetadata) where
  -- A grader may have the name: it is authenticated as the one of that name, or that one is not
  -- online, or the name is new and the id has been made for it.
  pub data Entitled (d : p.Db) (q : KvSequencer) (authenticated : Option ℕ)
      (grader : GraderStatusMetadata) (name : List ℕ) (id : ℕ) : Type 0 where
    authenticated_as :
        (old : GraderStatusMetadata)
        → named_grader p c d name ≡ named old id
        → authenticated ≡ some id
        → Entitled d q authenticated grader name id
    not_online :
        (old : GraderStatusMetadata)
        → named_grader p c d name ≡ named old id
        → is_online old.status ≡ false
        → Entitled d q authenticated grader name id
    new_name :
        named_grader p c d name ≡ unknown_name
        → (create_grader p c d q name grader).2 ≡ some id
        → Entitled d q authenticated grader name id

  module _ {R : Type 0} where
    pub data Outcome (h : Hub p.Db R) (q : KvSequencer) (authenticated : Option ℕ)
        (grader : GraderStatusMetadata) (name : List ℕ) : Hub p.Db R × Registered → Type 0 where
      no_session :
          (h' : Hub p.Db R) (r : Registered)
          → IsError r
          → h'.sessions ≡ h.sessions
          → Outcome h q authenticated grader name (h', r)
      granted :
          (h' : Hub p.Db R) (id : ℕ) (token : List ℕ)
          → Entitled h.db q authenticated grader name id
          → h'.sessions ≡ insert id token h.sessions
          → h'.online_graders ≡ insert id grader h.online_graders
          → Outcome h q authenticated grader name (h', registered id token)

    online-Outcome :
        (h h1 : Hub p.Db R) (q : KvSequencer) (authenticated : Option ℕ)
        (grader : GraderStatusMetadata) (name : List ℕ) (id : ℕ) (raw : Option (List ℕ))
        → h1.sessions ≡ h.sessions
        → h1.online_graders ≡ h.online_graders
        → Entitled h.db q authenticated grader name id
        → Outcome h q authenticated grader name (goes_online p h1 id grader raw)
    unfolding new_session
    online-Outcome h h1 q authenticated grader name id none e1 e2 may =
        no_session _ issue_session_error tt e1
    online-Outcome h h1 q authenticated grader name id (some raw) e1 e2 may =
        granted _ id (encode_to_string raw) may (ap (insert id (encode_to_string raw)) e1)
          (ap (insert id grader) e2)

    created-Outcome :
        (h h1 : Hub p.Db R) (q q' : KvSequencer) (authenticated : Option ℕ)
        (grader : GraderStatusMetadata) (name : List ℕ) (raw : Option (List ℕ)) (o : Option ℕ)
        → h1.sessions ≡ h.sessions
        → h1.online_graders ≡ h.online_graders
        → named_grader p c h.db name ≡ unknown_name
        → (create_grader p c h.db q name grader).2 ≡ o
        → Outcome h q authenticated grader name (created p c h1 q' grader raw o).0
    created-Outcome h h1 q q' authenticated grader name raw none e1 e2 new made =
        no_session _ create_grader_error tt e1
    created-Outcome h h1 q q' authenticated grader name raw (some id) e1 e2 new made =
        online-Outcome h h1 q authenticated grader name id raw e1 e2 (new_name new made)

    named-Outcome :
        (h : Hub p.Db R) (q : KvSequencer) (authenticated : Option ℕ)
        (grader : GraderStatusMetadata) (name : List ℕ) (raw : Option (List ℕ)) (o : Named)
        → named_grader p c h.db name ≡ o
        → Outcome h q authenticated grader name
            (register_named p c h q authenticated grader raw name o).0
    named-Outcome h q authenticated grader name raw lookup_failed e =
        no_session h get_grader_error tt refl
    named-Outcome h q authenticated grader name raw unknown_name e =
        created-Outcome h _ q _ authenticated grader name raw
          (create_grader p c h.db q name grader).2 refl refl e refl
    named-Outcome h q authenticated grader name raw (named old id) e =
        elim (Bool-cases (is_online old.status)) [
          | inr off ↦ rw off (
              online-Outcome h _ q authenticated grader name id raw refl refl
                (not_online old e off))
          | inl on ↦ elim (Bool-cases (is_same authenticated id)) [
            | inl same ↦ rw on (
                rw same (
                  online-Outcome h _ q authenticated grader name id raw refl refl
                    (authenticated_as old e (is_same-authenticated authenticated id same))))
            | inr other ↦ rw on (rw other (no_session h already_exists tt refl))
          ]
        ]

    -- A registration either gives an error and leaves the sessions, or it puts the grader online
    -- under an id, with a new session for that id and all others kept, where the id is the one
    -- stored for its name and it is authenticated as that id or that grader is not online, or the
    -- name is new and the id has been made for it.
    pub register_grader-Outcome :
        (h : Hub p.Db R) (q : KvSequencer) (authenticated : Option ℕ) (info : GraderInfo)
        (ip : List ℕ) (now : ℕ) (raw : Option (List ℕ))
        → Outcome h q authenticated
            (record { info = info; ip = ip; status = online; last_heartbeat = some now })
            info.hostname
            (register_grader p c h q authenticated info ip now raw).0
    unfolding register_grader
    register_grader-Outcome h q authenticated info ip now raw =
        named-Outcome h q authenticated
          (record { info = info; ip = ip; status = online; last_heartbeat = some now })
          info.hostname raw (named_grader p c h.db info.hostname) refl
