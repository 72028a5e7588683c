-- ===== src/Fec/Receiver/AirBounds.antt =====
-- `push_air` and `poll_rx` keep the bounds of the receiver.
use vstreamer.Base.{
  ok, err, fault, Outcome, ℕ, zero, suc, ◌+◌, ◌<◌, ◌≤◌, ◌≡◌, arith, List, [], ◌∷◌, true, not, ◌&&◌,
  length, Bool-cases, Option-cases, inl, inr, ltb, ◌==◌, Option, some, ◌||◌, subst, none, ap, ◌-◌,
  leb, refl, ◌∙◌, false,
}
use vstreamer.Fec.Map.{
  AllValues-erase, AllValues-put, AllValues-find, Map, find, contains, erase, put, length-erase,
  length-erase_lt, length-put, length-put_found, find-put,
}
use vstreamer.Fec.Ring.{is_negative, wire_block_id}
use vstreamer.Fec.Header.{ShardHeader, unpack_header, header_len}
use vstreamer.Fec.Codec.{Isal, absent}
use vstreamer.Fec.Decode.{decode_block}
use vstreamer.Fec.Receiver.{
  RxBlock, Receiver, bump, block_max, emit_from, expected_sdus, note_rx_block_output_shortfall,
  abandon_partial_block, try_stream_head_systematic,
}
use vstreamer.Fec.Receiver.Cached.{InCache, unpack_header-small, decode_block-InCache}
use vstreamer.Fec.Receiver.Emit.{run_emit_engine}
use vstreamer.Fec.Receiver.Resync.{dist_from_emit}
use vstreamer.Fec.Receiver.Finished.{Tidy-length}
use vstreamer.Fec.Receiver.Moves.{
  Keeps-Moves, abandon-Moves, mark_done-Moves, advance_head-Moves, shortfall-Keeps,
  stream_frags-Keeps,
}
use vstreamer.Fec.Receiver.Invariant.{
  Sane, IsSmall, stream_frags-IsSmall, Moves-Sane, emit_from-Keeps, run_emit_engine-Sane,
}
use vstreamer.Fec.Receiver.Bounds.{
  note_emit_base-Sane, touch_newest-Sane, resync-Sane, rebase-Sane, ring_evict-Sane, expire_rx-Sane,
  note_later-Sane,
}
use vstreamer.Fec.Receiver.Air.{
  on_block_decoded, oldest_block, make_room, try_decode_block, store_shard, place_shard,
  accept_shard, push_air, oldest_of, stream_or_wait, finish_shard,
}

on_block_decoded-Sane :
    (t id r : ℕ) (ps : List (List ℕ)) (n : ℕ) (s : Receiver)
    → Sane s
    → Sane (on_block_decoded t id r ps n s)
unfolding on_block_decoded
on_block_decoded-Sane t id r ps n s i = elim (Bool-cases (is_negative (dist_from_emit id s))) [
  | inl e ↦
      let late = record s { late_blocks = bump 1 s.late_blocks } in
      rw (e) (
        Moves-Sane (mark_done-Moves t id (emit_from t r n ps late)) (
          Moves-Sane (Keeps-Moves (emit_from-Keeps t r n ps late))
            (record { head = i.head; order = i.order; tidy = i.tidy; sound = i.sound; rx = i.rx })))
  | inr e ↦ elim (Bool-cases (wire_block_id id == s.emit_next)) [
    | inl f ↦
        rw (e, f)
          (run_emit_engine-Sane t _ (
            Moves-Sane (advance_head-Moves t (emit_from t r n ps s))
              (Moves-Sane (Keeps-Moves (emit_from-Keeps t r n ps s)) i)))
    | inr f ↦
        let queued = record s {
          ready_blocks = put id (record { payloads = ps; released = r; sdu_n = n }) s.ready_blocks;
        } in
        rw (e, f)
          (note_later-Sane t id queued
            (record { head = i.head; order = i.order; tidy = i.tidy; sound = i.sound; rx = i.rx }))
  ]
]

-- The block that goes is one of the blocks.
oldest-contained :
    (id : ℕ) (b : RxBlock) (m l : Map RxBlock)
    → contains id l ≡ true
    → ((j : ℕ) → contains j m ≡ true → contains j l ≡ true)
    → contains (oldest_block id b m).0 l ≡ true
unfolding oldest_block
oldest-contained id b [] l here inside = here
oldest-contained id b ((j, c) ∷ m) l here inside = elim (Bool-cases (ltb c.last_seen b.last_seen)) [
  | inl e ↦ rw (oldest_block, e) (oldest-contained j c m l (inside j (ground arith)) deeper)
  | inr e ↦ rw (oldest_block, e) (oldest-contained id b m l here deeper)
]
  where
    deeper : (k : ℕ) → contains k m ≡ true → contains k l ≡ true
    deeper k h = inside k (ground (arith, h))

contained_lt : (i : ℕ) (m : Map RxBlock) → contains i m ≡ true → length (erase i m) < length m
contained_lt i m h = elim (Option-cases (find i m)) [
  | inl e ↦ absurd (ground (arith, e, h))
  | inr (b, e) ↦ length-erase_lt i m b e
]

oldest_of-contained :
    (m : Map RxBlock) (o : ℕ × RxBlock) → oldest_of m ≡ some o → contains o.0 m ≡ true
unfolding oldest_of
oldest_of-contained [] o e = absurd (ground (arith, e))
oldest_of-contained ((id, b) ∷ m) o e =
    subst
      (λ (o : Option (ℕ × RxBlock)). elim o as (λ x. Type 0) [
        | none ↦ Unit
        | some p ↦ contains p.0 ((id, b) ∷ m) ≡ true
      ])
      e (oldest-contained id b m ((id, b) ∷ m) (ground arith) (λ j h. ground (arith, h)))

oldest_of-none : (m : Map RxBlock) → oldest_of m ≡ none → length m ≡ 0
unfolding oldest_of
oldest_of-none [] e = refl
oldest_of-none ((id, b) ∷ m) e = absurd (ground (arith, e))

-- Taking a block out and abandoning it.
abandon-Sane :
    (t : ℕ) (b : RxBlock) (id : ℕ) (s : Receiver) → Sane s → Sane (abandon_partial_block t b id s)
abandon-Sane t b id s i = Moves-Sane (abandon-Moves t b id s) i

-- There is room for a block, whatever the fuel is above what is needed.
make_room-room :
    (fuel t : ℕ) (s : Receiver)
    → length s.rx_blocks ≤ fuel
    → Sane s
    → Sane (make_room fuel t s) × (length (make_room fuel t s).rx_blocks < block_max)
unfolding make_room
make_room-room zero t s h i = (i, omega arith)
make_room-room (suc fuel) t s h i = elim (Option-cases (oldest_of s.rx_blocks)) [
  | inl e ↦ rw (make_room, e) (i, omega (arith, oldest_of-none s.rx_blocks e))
  | inr ((id, b), e) ↦
      let evicted = record s {
        evicted_blocks = bump 1 s.evicted_blocks;
        rx_blocks = erase id s.rx_blocks;
      } in
      let less = contained_lt id s.rx_blocks (oldest_of-contained s.rx_blocks (id, b) e) in
      let m = abandon-Moves t b id evicted in
      let rest =
        make_room-room fuel t (abandon_partial_block t b id evicted)
          (omega (arith, less, ap length m.rx))
          (Moves-Sane m (record {
            head = i.head;
            order = i.order;
            tidy = i.tidy;
            sound = (AllValues-erase IsSmall id s.rx_blocks i.sound.0, i.sound.1);
            rx = omega (arith, less, i.rx);
          })) in
      elim (Bool-cases (leb block_max (length s.rx_blocks))) [
        | inl f ↦ rw (make_room, e, f) rest
        | inr f ↦ rw (make_room, e, f) (i, ground (arith, f))
      ]
]

stream_or_wait-Sane :
    (t id : ℕ) (b : RxBlock) (s : Receiver)
    → Sane s
    → Sane (stream_or_wait t id b s).1 × ((stream_or_wait t id b s).1.rx_blocks ≡ s.rx_blocks)
unfolding stream_or_wait try_stream_head_systematic
stream_or_wait-Sane t id b s i = elim (Bool-cases (wire_block_id id == s.emit_next)) [
  | inl e ↦
      let k = stream_frags-Keeps t (expected_sdus b - b.released) b s in
      rw (e) (Moves-Sane (Keeps-Moves k) i, k.rx)
  | inr e ↦ rw (e) (note_later-Sane t id s i, ground arith)
]

stream_or_wait-IsSmall :
    (t id : ℕ) (b : RxBlock) (s : Receiver) → IsSmall b → IsSmall (stream_or_wait t id b s).0
unfolding stream_or_wait try_stream_head_systematic
stream_or_wait-IsSmall t id b s h = elim (Bool-cases (wire_block_id id == s.emit_next)) [
  | inl e ↦ rw (e) (stream_frags-IsSmall t (expected_sdus b - b.released) b s h)
  | inr e ↦ rw (e) h
]

module _ (isal : Isal) where
  -- The receiver that `try_decode_block` leaves, if it decodes.
  DecodedSane : Option Receiver → Type 0
  DecodedSane none = Unit
  DecodedSane (some s) = Sane s

  try_decode_block-Sane :
      (t id : ℕ) (b : RxBlock) (s : Receiver)
      → Sane s
      → IsSmall b
      → DecodedSane (try_decode_block isal t id b s)
  unfolding try_decode_block DecodedSane InCache
  try_decode_block-Sane t id b s i small =
      elim (Bool-cases (
        ltb (length b.frags) b.sdu_n
        || ltb (length b.frags + absent (b.k - b.sdu_n) b.sdu_n b.frags) b.k)) [
          | inl e ↦ rw (try_decode_block, e) tt
          | inr e ↦
              rw (try_decode_block, e)
                (ended (decode_block isal b.k b.n b.sdu_n b.frags)
                  (decode_block-InCache isal b.k b.n b.sdu_n b.frags small.0 small.1))
        ]
    where
      taken : Receiver
      taken = record s { rx_blocks = erase id s.rx_blocks }

      failed : Receiver
      failed = record taken { rs_failures = bump 1 taken.rs_failures }

      counted : ℕ → Receiver
      counted rec = record taken {
        recovered = bump rec taken.recovered;
        blocks = bump 1 taken.blocks;
      }

      smaller : Sane taken
      smaller = record {
        head = i.head;
        order = i.order;
        tidy = i.tidy;
        sound = (AllValues-erase IsSmall id s.rx_blocks i.sound.0, i.sound.1);
        rx = omega (arith, length-erase id s.rx_blocks, i.rx);
      }

      ended :
          (o : Outcome (List (List ℕ) × ℕ))
          → InCache o
          → DecodedSane (elim o as (λ x. Option Receiver) [
            | fault ↦ some (record taken { faulted = true })
            | err e ↦ some (run_emit_engine t (abandon_partial_block t b id failed))
            | ok (decoded, rec) ↦ some (
                on_block_decoded t id b.released decoded b.sdu_n
                  (note_rx_block_output_shortfall (expected_sdus b) (length decoded) (counted rec)))
          ])
      ended fault inside = absurd inside
      ended (err e) inside = run_emit_engine-Sane t _ (
          abandon-Sane t b id failed (record {
            head = smaller.head;
            order = smaller.order;
            tidy = smaller.tidy;
            sound = smaller.sound;
            rx = smaller.rx;
          }))
      ended (ok (decoded, rec)) inside = on_block_decoded-Sane t id b.released decoded b.sdu_n _ (
          Moves-Sane
            (Keeps-Moves (shortfall-Keeps (expected_sdus b) (length decoded) (counted rec)))
            (record {
              head = smaller.head;
              order = smaller.order;
              tidy = smaller.tidy;
              sound = smaller.sound;
              rx = smaller.rx;
            }))

  finish_shard-Sane :
      (t id : ℕ) (b : RxBlock) (s : Receiver)
      → Sane s
      → IsSmall b
      → Sane (finish_shard isal t id b s)
  unfolding finish_shard DecodedSane
  finish_shard-Sane t id b s i small =
      go (try_decode_block isal t id b s) (try_decode_block-Sane t id b s i small)
    where
      go :
          (o : Option Receiver)
          → DecodedSane o
          → Sane (elim o as (λ x. Receiver) [ none ↦ run_emit_engine t s | some s' ↦ s' ])
      go none j = run_emit_engine-Sane t s i
      go (some s') j = j

  -- The block that the shard goes to is one of the blocks.
  store_shard-Sane :
      (t id index : ℕ) (frag : List ℕ) (b c : RxBlock) (s : Receiver)
      → find id s.rx_blocks ≡ some c
      → Sane s
      → IsSmall b
      → Sane (store_shard isal t id index frag b s)
  unfolding store_shard
  store_shard-Sane t id index frag b c s there i small =
      let stored = record b { frags = put index frag b.frags; last_seen = t } in
      let q = stream_or_wait t id stored s in
      let (j, same) = stream_or_wait-Sane t id stored s i in
      let still = stream_or_wait-IsSmall t id stored s small in
      let count : length (put id q.0 q.1.rx_blocks) ≡ length s.rx_blocks =
        ap (λ m. length (put id q.0 m)) same ∙ length-put_found id q.0 c s.rx_blocks there in
      finish_shard-Sane t id q.0 (record q.1 { rx_blocks = put id q.0 q.1.rx_blocks })
        (record {
          head = j.head;
          order = j.order;
          tidy = j.tidy;
          sound = (AllValues-put IsSmall id q.0 q.1.rx_blocks still j.sound.0, j.sound.1);
          rx = omega (arith, count, i.rx);
        })
        still

  place_shard-Sane :
      (t : ℕ) (h : ShardHeader) (frag : List ℕ) (s : Receiver)
      → (h.k < 16) × (h.n < 16)
      → Sane s
      → Sane (place_shard isal t h frag s)
  unfolding place_shard
  place_shard-Sane t h frag s small i =
      elim (Bool-cases (
        is_negative (dist_from_emit h.block_id s) && contains h.block_id s.done
        || contains h.block_id s.ready_blocks)) [
          | inl e ↦ rw (e) i
          | inr e ↦ elim (Option-cases (find h.block_id s.rx_blocks)) [
            | inl f ↦
                let (j, room) = make_room-room (length s.rx_blocks) t s (omega arith) i in
                let roomy = make_room (length s.rx_blocks) t s in
                rw (e, f)
                  (store_shard-Sane t h.block_id h.index frag fresh fresh
                    (record roomy { rx_blocks = put h.block_id fresh roomy.rx_blocks })
                    (find-put h.block_id fresh roomy.rx_blocks)
                    (record {
                      head = j.head;
                      order = j.order;
                      tidy = j.tidy;
                      sound = (
                        AllValues-put IsSmall h.block_id fresh roomy.rx_blocks small j.sound.0,
                        j.sound.1,
                      );
                      rx = omega (arith, room, length-put h.block_id fresh roomy.rx_blocks);
                    })
                    small)
            | inr (b, f) ↦
                elim (Bool-cases (not (b.k == h.k && b.n == h.n && b.sdu_n == h.sdu_n))) [
                  | inl g ↦
                      rw (e, f, g)
                        (abandon-Sane t b h.block_id
                          (record s {
                            kn_mismatch = bump 1 s.kn_mismatch;
                            rx_blocks = erase h.block_id s.rx_blocks;
                          })
                          (record {
                            head = i.head;
                            order = i.order;
                            tidy = i.tidy;
                            sound = (
                              AllValues-erase IsSmall h.block_id s.rx_blocks i.sound.0,
                              i.sound.1,
                            );
                            rx = omega (arith, length-erase h.block_id s.rx_blocks, i.rx);
                          }))
                  | inr g ↦ elim (Bool-cases (contains h.index b.frags)) [
                    | inl k ↦ rw (e, f, g, k) i
                    | inr k ↦
                        rw (e, f, g, k)
                          (store_shard-Sane t h.block_id h.index frag b b s f i
                            (AllValues-find IsSmall h.block_id b s.rx_blocks f i.sound.0))
                  ]
                ]
          ]
        ]
    where
      fresh : RxBlock
      fresh = record { k = h.k; n = h.n; sdu_n = h.sdu_n; released = 0; frags = []; last_seen = t }

  accept_shard-Sane :
      (t : ℕ) (h : ShardHeader) (frag : List ℕ) (s : Receiver)
      → (h.k < 16) × (h.n < 16)
      → Sane s
      → Sane (accept_shard isal t h frag s)
  unfolding accept_shard
  accept_shard-Sane t h frag s small i =
      let id = h.block_id in
      place_shard-Sane t h frag _ small (
        ring_evict-Sane t _ (
          resync-Sane t id _
            (touch_newest-Sane id _ (rebase-Sane t id _ (note_emit_base-Sane id s i)))))

  push_air-kept : (t : ℕ) (frag : List ℕ) (s : Receiver) → Sane s → Sane (push_air isal t frag s)
  unfolding push_air
  push_air-kept t [] s i = record {
    head = i.head;
    order = i.order;
    tidy = i.tidy;
    sound = i.sound;
    rx = i.rx;
  }
  push_air-kept t (b ∷ bytes) s i = elim (Bool-cases (ltb (length (b ∷ bytes)) header_len)) [
    | inl e ↦ rw (push_air, e) bad
    | inr e ↦ elim (Option-cases (unpack_header (b ∷ bytes))) [
      | inl f ↦ rw (push_air, e, f) (run_emit_engine-Sane t _ (expire_rx-Sane t _ bad))
      | inr (h, f) ↦
          rw (push_air, e, f)
            (run_emit_engine-Sane t _ (
              expire_rx-Sane t _ (
                accept_shard-Sane t h (b ∷ bytes) (record s { out = [] })
                  (unpack_header-small (b ∷ bytes) h f) start)))
    ]
  ]
    where
      start : Sane (record s { out = [] })
      start = record { head = i.head; order = i.order; tidy = i.tidy; sound = i.sound; rx = i.rx }

      bad : Sane (record s { out = []; hdr_errors = bump 1 s.hdr_errors })
      bad = record { head = i.head; order = i.order; tidy = i.tidy; sound = i.sound; rx = i.rx }

  -- A shard keeps the receiver within its bounds, whatever its bytes: the head of the queue is an id
  -- of the ring, the queue of finished ids and the map of them that the receiver asks hold at most
  -- 128 each, at most 256 blocks are held, and decode_block does not leave the cache of its tables.
  pub push_air-Sane :
      (t : ℕ) (frag : List ℕ) (s : Receiver)
      → Sane s
      → let s' = push_air isal t frag s in
        Sane s'
        × (s'.emit_next < 256)
        × (length s'.done_order ≤ 128)
        × (length s'.done ≤ 128)
        × (length s'.rx_blocks ≤ 256)
        × (s'.faulted ≡ false)
  push_air-Sane t frag s i =
      let j = push_air-kept t frag s i in
      (j, j.head, j.order, omega (arith, Tidy-length _ _ j.tidy, j.order), j.rx, j.sound.1)
