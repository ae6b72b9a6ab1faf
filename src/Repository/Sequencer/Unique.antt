-- ===== src/Repository/Sequencer/Unique.antt =====
-- Histories of the sequencer of pkg/repository/sequencer.go, with restarts.
use autograder_server.Repository.Sequencer.Batches.{
  request_lem, get_next_id-Issues, Reserved, Issues,
}
use autograder_server.Base.{
  length, ◌*◌, Option, ◌∷◌, [], some, none, ◌^◌, ◌<◌, ◌≤◌, ◌≡◌, ◌+◌, Bool, List, ℕ, arith, inr, inl,
  false, true,
}
use autograder_server.Repository.Pebble.{Pebble, found}
use autograder_server.Repository.Prefix.{uint64_to_bytes}
use autograder_server.Repository.Prefix.Words.{big_endian-uint64_to_bytes}
use autograder_server.Repository.Sequencer.{
  KvSequencer, NextId, next_id, write_error, out_of_fuel, request_next_batch, get_next_id,
  new_kv_sequencer,
}

module _ (p : Pebble) where
  open p use {Db, get, put}

  -- A process that issues ids and is restarted on the same store; a failed open ends it.
  pub data Event : Type 0 where
    issue restart : Event

  abbrev issued : NextId → List ℕ → List ℕ
  issued (next_id i) ids = i ∷ ids
  issued write_error ids = ids
  issued out_of_fuel ids = ids

  abbrev reopen : Option (Db × KvSequencer × Bool) → (Db → KvSequencer → List ℕ) → List ℕ
  reopen none go = []
  reopen (some (d, q, true)) go = go d q
  reopen (some (d, q, false)) go = []

  pub run : List Event → Db → KvSequencer → List ℕ
  run [] d q = []
  run (issue ∷ es) d q = let (d', q', r) = get_next_id p 2 d q in issued r (run es d' q')
  run (restart ∷ es) d q = reopen (new_kv_sequencer p d q.key) (run es)

  abbrev pub Increasing : ℕ → List ℕ → Type 0
  Increasing lo [] = Unit {0}
  Increasing lo (i ∷ is) = (lo ≤ i) × Increasing (i + 1) is

  Reserved-found :
      (bound : ℕ) (d : Db) (key : List ℕ) (s : ℕ)
      → get d key ≡ found (uint64_to_bytes s)
      → s ≤ bound
      → Reserved p bound d (record { key = key; next = s; limit = s })
  Reserved-found bound d key s e below = record {
    stored = s;
    reads = e;
    covers = omega arith;
    ordered = omega arith;
    below = below;
  }

  opened_stored :
      (d : Db) (key : List ℕ) (s : ℕ)
      → get d key ≡ found (uint64_to_bytes s)
      → s < 2 ^ 64
      → new_kv_sequencer p d key
        ≡ some (request_next_batch p d (record { key = key; next = s; limit = s }))
  unfolding new_kv_sequencer
  opened_stored d key s e h = rw (e, big_endian-uint64_to_bytes s h)

  Increasing-mono : (lo hi : ℕ) (is : List ℕ) → lo ≤ hi → Increasing hi is → Increasing lo is
  Increasing-mono lo hi [] h k = tt
  Increasing-mono lo hi (i ∷ is) h k = (omega arith, k.1)

  step_Increasing :
      (q : KvSequencer) (bound : ℕ) (r : Db × KvSequencer × NextId) (ids : List ℕ)
      → Issues p bound q r
      → Increasing r.1.next ids
      → Increasing q.next (issued r.2 ids)
  unfolding Issues
  step_Increasing q bound (d', q', r) ids (held, key, inl (e, n)) inc =
      rw e (omega arith, rw n at inc)
  step_Increasing q bound (d', q', r) ids (held, key, inr (e, n)) inc = rw e (rw n at inc)

  reopen-Increasing :
      (lo : ℕ) (r : Db × KvSequencer × Bool) (go : Db → KvSequencer → List ℕ)
      → Increasing lo (go r.0 r.1)
      → Increasing lo (reopen (some r) go)
  reopen-Increasing lo (d, q, true) go h = h
  reopen-Increasing lo (d, q, false) go h = tt

  -- Over any sequence of calls and restarts on the same store, with writes that may fail, the ids
  -- that are handed out strictly increase from the next id of the sequencer, if its limit is
  -- reserved in the store and the ids reserved meanwhile stay below 2 ^ 64.
  pub run-Increasing :
      (es : List Event) (d : Db) (q : KvSequencer) (bound : ℕ)
      → Reserved p bound d q
      → bound + 10 * length es < 2 ^ 64
      → Increasing q.next (run es d q)
  unfolding run
  run-Increasing [] d q bound h room = tt
  run-Increasing (issue ∷ es) d q bound h room =
      let out = get_next_id-Issues p 0 d q bound h (omega arith) in
      let r = get_next_id p 2 d q in
      step_Increasing q (bound + 10) r _ out
        (run-Increasing es r.0 r.1 (bound + 10) (unfold Issues in out.0) (omega arith))
  run-Increasing (restart ∷ es) d q bound h room =
      let fresh : KvSequencer = record { key = q.key; next = h.stored; limit = h.stored } in
      let (held, next, key, more) =
        request_lem p d fresh bound (Reserved-found bound d q.key h.stored h.reads h.below)
          (omega arith) in
      rw (opened_stored d q.key h.stored h.reads (omega (arith, h.below))) (
        reopen-Increasing q.next (request_next_batch p d fresh) (run es) (
          Increasing-mono q.next _ _ (omega (arith, h.ordered, h.covers, next))
            (run-Increasing es _ _ (bound + 10) held (omega arith))))
