-- ===== src/Tests/Store.antt =====
-- A store in memory that behaves as pkg/repository expects of pebble, and a codec of brief reports.
use autograder_server.Repository.Grader.{online, GraderStatus, GraderStatusMetadata, online}
use autograder_server.Repository.Codec.{Codec}
use autograder_server.Hub.Model.{
  queued, queued, SubmissionBriefReport, SubmissionStatus, failed, cancelling, running, cancelled,
  finished, aborted,
}
use autograder_server.Repository.Prefix.{in_range, IterOptions}
use autograder_server.Repository.Pebble.{not_found, lookup_key, Pebble, Entries}
use autograder_server.Base.{
  ◌==◌, bytes_eq_refl, eq_of_some, subst, Bool, Option, none, ◌∙◌, ap, eq_of_bytes_eq, Bool-cases,
  sym, ◌≡◌, bytes_eq, false≢true, if◌then◌else◌, ◌∷◌, [], inr, inl, some, false, true, refl, List,
  ℕ,
}

unfoldable pub remove_key : List ℕ → Entries → Entries
remove_key k [] = []
remove_key k ((j, v) ∷ r) =
    let rest = remove_key k r in if bytes_eq j k then rest else (j, v) ∷ rest

unfoldable pub entries_in : IterOptions → Entries → Entries
entries_in o [] = []
entries_in o ((j, v) ∷ r) =
    let rest = entries_in o r in if in_range o j then (j, v) ∷ rest else rest

pub lookup_key-remove_key :
    (k j : List ℕ) (d : Entries)
    → lookup_key j (remove_key k d) ≡ (if bytes_eq k j then not_found else lookup_key j d)
unfolding remove_key
lookup_key-remove_key k j [] = elim (Bool-cases (bytes_eq k j)) [
  | inl e ↦ rw e refl
  | inr e ↦ rw e refl
]
lookup_key-remove_key k j ((i, v) ∷ r) = elim (Bool-cases (bytes_eq i k)) [
  | inl gone ↦
      let same = eq_of_bytes_eq i k gone in
      rw (gone, lookup_key-remove_key k j r, same)
        (elim (Bool-cases (bytes_eq k j)) [ inl e ↦ rw e (refl) | inr e ↦ rw e (refl) ])
  | inr stays ↦ rw stays (elim (Bool-cases (bytes_eq i j)) [
    | inl at ↦
        let same = eq_of_bytes_eq i j at in
        rw at (elim (Bool-cases (bytes_eq k j)) [
          | inl e ↦ absurd (
              false≢true (
                sym stays
                ∙ subst (λ t. bytes_eq i t ≡ true) (same ∙ sym (eq_of_bytes_eq k j e))
                    (bytes_eq_refl i)))
          | inr e ↦ rw e refl
        ])
    | inr off ↦ rw (off, lookup_key-remove_key k j r) refl
  ])
]

lookup_key-entries_in :
    (o : IterOptions) (k : List ℕ) (d : Entries)
    → lookup_key k (entries_in o d) ≡ (if in_range o k then lookup_key k d else not_found)
unfolding entries_in
lookup_key-entries_in o k [] = elim (Bool-cases (in_range o k)) [
  | inl e ↦ rw e refl
  | inr e ↦ rw e refl
]
lookup_key-entries_in o k ((i, v) ∷ r) = elim (Bool-cases (bytes_eq i k)) [
  | inl at ↦
      let same = eq_of_bytes_eq i k at in
      elim (Bool-cases (in_range o k)) [
        | inl kept ↦
            let kept' : in_range o i ≡ true = ap (in_range o) same ∙ kept in
            rw (kept', kept, at) refl
        | inr lost ↦
            let lost' : in_range o i ≡ false = ap (in_range o) same ∙ lost in
            rw (lost', lost) (lookup_key-entries_in o k r ∙ rw lost refl)
      ]
  | inr off ↦ elim (Bool-cases (in_range o i)) [
    | inl kept ↦ rw (kept, off) (lookup_key-entries_in o k r)
    | inr lost ↦ rw (lost, off) (lookup_key-entries_in o k r)
  ]
]

pub nowhere : (b : Bool) → (if b then not_found else not_found) ≡ not_found
nowhere true = refl
nowhere false = refl

pub scanned :
    (o : IterOptions) (d entries : Entries) (k : List ℕ)
    → some (entries_in o d) ≡ some entries
    → lookup_key k entries ≡ (if in_range o k then lookup_key k d else not_found)
scanned o d entries k e =
    subst (λ t. lookup_key k t ≡ (if in_range o k then lookup_key k d else not_found))
      (eq_of_some e) (lookup_key-entries_in o k d)

abbrev pub in_memory : Pebble
in_memory = record {
  Db = Entries;
  get = λ d k. lookup_key k d;
  put = λ d k v. ((k, v) ∷ d, true);
  delete = λ d k. (remove_key k d, true);
  scan = λ d o. some (entries_in o d);
  get-put = λ d k v j e. refl;
  get-put_failed = λ d k v j e. absurd (false≢true (sym e));
  get-delete = λ d k j e. lookup_key-remove_key k j d;
  get-delete_failed = λ d k j e. absurd (false≢true (sym e));
  scan-found =
      λ d o entries k v e found' inside. scanned o d entries k e ∙ rw (inside, found') refl;
  scan-not_found =
      λ d o entries k e missing. scanned o d entries k e ∙ rw missing (nowhere (in_range o k));
  scan-in_range = λ d o entries k e outside. scanned o d entries k e ∙ rw outside refl;
}

abbrev status_code : SubmissionStatus → ℕ
status_code queued = 0
status_code aborted = 1
status_code finished = 2
status_code cancelled = 3
status_code running = 4
status_code cancelling = 5
status_code failed = 6

abbrev status_of : ℕ → SubmissionStatus
status_of n =
    if n == 0
    then queued
    else if n == 1
    then aborted
    else if n == 2
    then finished
    else if n == 3
    then cancelled
    else if n == 4
    then running
    else if n == 5
    then cancelling
    else failed

status_of-status_code : (s : SubmissionStatus) → status_of (status_code s) ≡ s
status_of-status_code queued = refl
status_of-status_code aborted = refl
status_of-status_code finished = refl
status_of-status_code cancelled = refl
status_of-status_code running = refl
status_of-status_code cancelling = refl
status_of-status_code failed = refl

abbrev written : SubmissionBriefReport → List ℕ
written b = b.score ∷ b.max_score ∷ b.exit_code ∷ b.internal_error ∷ status_code b.status ∷ []

abbrev read : List ℕ → Option SubmissionBriefReport
read (a ∷ b ∷ c ∷ d ∷ s ∷ []) =
    some
      (record { score = a; max_score = b; exit_code = c; internal_error = d; status = status_of s })
read _ = none

pub read-written : (b : SubmissionBriefReport) → read (written b) ≡ some b
read-written b = ap (λ s. some (record b { status = s })) (status_of-status_code b.status)

abbrev pub brief_codec : Codec SubmissionBriefReport
brief_codec = record {
  marshal = λ b. some (written b);
  unmarshal = read;
  unmarshal-marshal = λ b raw e. subst (λ t. read t ≡ some b) (eq_of_some e) (read-written b);
}

-- Of a full report it keeps the bytes.
abbrev pub report_codec : Codec (List ℕ)
report_codec = record {
  marshal = λ r. some r;
  unmarshal = λ raw. some raw;
  unmarshal-marshal = λ r raw e. sym e;
}

-- A grader that is online, with no name, tags and address; the codec marshals no other.
abbrev pub plain_grader : ℕ → Option ℕ → GraderStatusMetadata
plain_grader n heartbeat = record {
  info = record { hostname = []; tags = []; concurrency = n };
  ip = [];
  status = online;
  last_heartbeat = heartbeat;
}

abbrev grader_raw : ℕ → List ℕ → List (List ℕ) → List ℕ → GraderStatus → Option ℕ → Option (List ℕ)
grader_raw n [] [] [] online none = some (n ∷ [])
grader_raw n [] [] [] online (some b) = some (n ∷ b ∷ [])
grader_raw _ _ _ _ _ _ = none

abbrev grader_read : List ℕ → Option GraderStatusMetadata
grader_read (n ∷ []) = some (plain_grader n none)
grader_read (n ∷ b ∷ []) = some (plain_grader n (some b))
grader_read _ = none

pub grader_read_back :
    (n : ℕ) (h : List ℕ) (t : List (List ℕ)) (a : List ℕ) (s : GraderStatus) (b : Option ℕ)
    (raw : List ℕ)
    → grader_raw n h t a s b ≡ some raw
    → grader_read raw
      ≡ some (record {
        info = record { hostname = h; tags = t; concurrency = n };
        ip = a;
        status = s;
        last_heartbeat = b;
      })
grader_read_back n [] [] [] online none raw e =
    subst (λ t. grader_read t ≡ some (plain_grader n none)) (eq_of_some e) refl
grader_read_back n [] [] [] online (some b) raw e =
    subst (λ t. grader_read t ≡ some (plain_grader n (some b))) (eq_of_some e) refl
grader_read_back _ _ _ _ _ _ raw e = cc

abbrev pub grader_codec : Codec GraderStatusMetadata
grader_codec = record {
  marshal =
      λ g. grader_raw g.info.concurrency g.info.hostname g.info.tags g.ip g.status g.last_heartbeat;
  unmarshal = grader_read;
  unmarshal-marshal = λ g raw e.
      grader_read_back g.info.concurrency g.info.hostname g.info.tags g.ip g.status g.last_heartbeat
        raw e;
}
