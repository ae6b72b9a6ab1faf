-- ===== src/Repository/Sequencer/Batches.antt =====
-- A call of `GetNextId` of pkg/repository/sequencer.go on a store with the limit reserved.
use autograder_server.Base.{
  ap, ltb→lt, ltb, ◌%◌, lt→ltb, Bool-cases, ◌∙◌, ◌⊎◌, bytes_eq_refl, ◌^◌, ◌<◌, if◌then◌else◌, suc,
  refl, ◌≤◌, ◌≡◌, ◌+◌, Bool, List, ℕ, arith, inr, inl, false, true,
}
use autograder_server.Repository.Pebble.{Pebble, found}
use autograder_server.Repository.Prefix.{uint64_to_bytes}
use autograder_server.Repository.Sequencer.{
  KvSequencer, NextId, next_id, write_error, request_next_batch, get_next_id,
}

module _ (p : Pebble) where
  open p use {Db, get, put}

  -- The stored limit is at or above the sequencer's, which is at or above its next id.
  pub record Reserved (bound : ℕ) (d : Db) (q : KvSequencer) : Type 0 where
    pub stored : ℕ
    pub reads : get d q.key ≡ found (uint64_to_bytes stored)
    pub covers : q.limit ≤ stored
    pub ordered : q.next ≤ q.limit
    pub below : stored ≤ bound

  unfoldable pub Stored : ℕ → ℕ → Db → List ℕ → Type 0
  Stored limit bound d key =
      (s : ℕ) × (get d key ≡ found (uint64_to_bytes s)) × (limit ≤ s) × (s ≤ bound)

  pub put-Stored :
      (l s bound : ℕ) (d : Db) (key : List ℕ) (b : Bool)
      → (put d key (uint64_to_bytes (l + 10))).1 ≡ b
      → get d key ≡ found (uint64_to_bytes s)
      → l ≤ s
      → s ≤ bound
      → Stored (if b then l + 10 else l) (bound + 10) (put d key (uint64_to_bytes (l + 10))).0 key
  unfolding Stored
  put-Stored l s bound d key true e r hl hs = (
    l + 10,
    rw (p.get-put d key (uint64_to_bytes (l + 10)) key e, bytes_eq_refl key) refl,
    omega arith,
    omega arith,
  )
  put-Stored l s bound d key false e r hl hs =
      elim (p.get-put_failed d key (uint64_to_bytes (l + 10)) key e) [
        | inl same ↦ (s, same ∙ r, omega arith, omega arith)
        | inr (_, new) ↦ (l + 10, new, omega arith, omega arith)
      ]

  -- One round of the loop, with the batch used up.
  pub request_lem :
      (d : Db) (q : KvSequencer) (bound : ℕ)
      → Reserved bound d q
      → bound + 10 < 2 ^ 64
      → let r = request_next_batch p d q in
        Reserved (bound + 10) r.0 r.1
        × (r.1.next ≡ q.next)
        × (r.1.key ≡ q.key)
        × (r.2 ≡ true → q.next < r.1.limit)
  unfolding request_next_batch Stored
  request_lem d q bound h room = elim (Bool-cases (ltb q.next q.limit)) [
    | inl ready ↦ rw ready (
      record {
        stored = h.stored;
        reads = h.reads;
        covers = h.covers;
        ordered = h.ordered;
        below = omega arith;
      },
      refl,
      refl,
      λ _. ltb→lt _ _ ready,
    )
    | inr used ↦
        let e : (q.limit + 10) % 2 ^ 64 ≡ q.limit + 10 = omega (arith, h.covers, h.below) in
        rw (used, e)
          (elim (Bool-cases (put d q.key (uint64_to_bytes (q.limit + 10))).1) [
            | inl written ↦
                let (s, reads, covers, below) =
                  put-Stored q.limit h.stored bound d q.key true written h.reads h.covers h.below in
                rw written (
                  record {
                    stored = s;
                    reads = reads;
                    covers = covers;
                    ordered = omega (arith, h.ordered);
                    below = below;
                  },
                  refl,
                  refl,
                  λ _. ground arith,
                )
            | inr failed ↦
                let (s, reads, covers, below) =
                  put-Stored q.limit h.stored bound d q.key false failed h.reads h.covers h.below in
                rw failed (
                  record {
                    stored = s;
                    reads = reads;
                    covers = covers;
                    ordered = h.ordered;
                    below = below;
                  },
                  refl,
                  refl,
                  λ x. cc,
                )
          ])
  ]

  pub get_next_id_ready :
      (fuel : ℕ) (d : Db) (q : KvSequencer)
      → q.next < q.limit
      → q.limit < 2 ^ 64
      → get_next_id p (suc fuel) d q ≡ (d, record q { next = q.next + 1 }, next_id q.next)
  unfolding get_next_id
  get_next_id_ready fuel d q h room =
      rw (lt→ltb _ _ h) (let e : (q.next + 1) % 2 ^ 64 ≡ q.next + 1 = omega arith in rw e)

  -- What a call gives: the next id, or the error of the write, and reserved ids above it.
  unfoldable pub Issues : ℕ → KvSequencer → Db × KvSequencer × NextId → Type 0
  Issues bound q (d', q', r) =
      Reserved bound d' q'
      × (q'.key ≡ q.key)
      × (((r ≡ next_id q.next) × (q'.next ≡ q.next + 1)) ⊎ ((r ≡ write_error) × (q'.next ≡ q.next)))

  pub ready_Issues :
      (d : Db) (q : KvSequencer) (bound : ℕ)
      → Reserved bound d q
      → q.next < q.limit
      → Issues bound q (d, record q { next = q.next + 1 }, next_id q.next)
  unfolding Issues
  ready_Issues d q bound h lt = (
    record {
      stored = h.stored;
      reads = h.reads;
      covers = h.covers;
      ordered = omega arith;
      below = h.below;
    },
    refl,
    inl (refl, refl),
  )

  pub Reserved-mono : (b c : ℕ) (d : Db) (q : KvSequencer) → b ≤ c → Reserved b d q → Reserved c d q
  Reserved-mono b c d q le h = record {
    stored = h.stored;
    reads = h.reads;
    covers = h.covers;
    ordered = h.ordered;
    below = omega (arith, h.below);
  }

  -- A call that has to reserve a batch first.
  pub refill_Issues :
      (fuel bound : ℕ) (d : Db) (q : KvSequencer) (b : Bool)
      → ltb q.next q.limit ≡ false
      → (request_next_batch p d q).2 ≡ b
      → Reserved bound d q
      → bound + 10 < 2 ^ 64
      → Issues (bound + 10) q (get_next_id p (suc (suc fuel)) d q)
  unfolding get_next_id Issues
  refill_Issues fuel bound d q true used e h room =
      let r = request_next_batch p d q in
      let (held, next, key, more) = request_lem d q bound h room in
      let lt : r.1.next < r.1.limit = omega (arith, more e) in
      rw (used, e)
        (rw (get_next_id_ready fuel r.0 r.1 lt (omega (arith, held.covers, held.below))) (
          let (held', key', out) = ready_Issues r.0 r.1 (bound + 10) held lt in
          (held', key, inl (ap next_id next, ap (λ n. n + 1) next))))
  refill_Issues fuel bound d q false used e h room =
      let (held, next, key, more) = request_lem d q bound h room in
      rw (used, e) (held, key, inr (refl, next))

  -- On a store with the sequencer's limit reserved, and room for one batch below 2 ^ 64, a call
  -- with two rounds of fuel or more ends, and gives the next id or a write error; the limit stays
  -- reserved.
  pub get_next_id-Issues :
      (fuel : ℕ) (d : Db) (q : KvSequencer) (bound : ℕ)
      → Reserved bound d q
      → bound + 10 < 2 ^ 64
      → Issues (bound + 10) q (get_next_id p (suc (suc fuel)) d q)
  get_next_id-Issues fuel d q bound h room = elim (Bool-cases (ltb q.next q.limit)) [
    | inl ready ↦
        rw (get_next_id_ready (suc fuel) d q (ltb→lt _ _ ready) (omega (arith, h.covers, h.below)))
          (ready_Issues d q (bound + 10) (Reserved-mono bound (bound + 10) d q (omega arith) h)
            (ltb→lt _ _ ready))
    | inr used ↦ refill_Issues fuel bound d q (request_next_batch p d q).2 used refl h room
  ]
