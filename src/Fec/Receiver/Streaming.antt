-- ===== src/Fec/Receiver/Streaming.antt =====
-- A second pass over the head of the queue finds nothing more: `run_emit_engine` repeats the pass
-- while it makes progress, and a round of the model makes it once.
use vstreamer.Base.{ℕ, zero, suc, ◌+◌, ◌-◌, ◌≡◌, arith, refl, Option-cases, inl, inr}
use vstreamer.Fec.Map.{find}
use vstreamer.Fec.Receiver.{
  RxBlock, Receiver, stream_frags, try_stream_head_systematic, expected_sdus, frag_to_app,
  emit_payload,
}

-- Streaming twice is streaming once.
Again : ℕ → RxBlock × Receiver → Type 0
Again t r = try_stream_head_systematic t r.0 r.1 ≡ r

stream_frags-Again :
    (t count : ℕ) (b : RxBlock) (s : Receiver)
    → count ≡ expected_sdus b - b.released
    → Again t (stream_frags t count b s)
unfolding stream_frags try_stream_head_systematic Again
stream_frags-Again t zero b s e = rw⁻¹ (e) refl
stream_frags-Again t (suc count) b s e = elim (Option-cases (find b.released b.frags)) [
  | inl f ↦ rw (stream_frags, f, ← e) (rw (stream_frags, f) refl)
  | inr (frag, f) ↦ elim (Option-cases (frag_to_app frag)) [
    | inl g ↦ rw (stream_frags, f, g, ← e) (rw (stream_frags, f, g) refl)
    | inr (app, g) ↦
        rw (stream_frags, f, g)
          (stream_frags-Again t count (record b { released = b.released + 1 })
            (emit_payload t app s) (omega arith))
  ]
]

-- Streaming the head of the queue a second time changes nothing: the block and the receiver are those
-- that the first time left.
pub try_stream_head_systematic_twice :
    (t : ℕ) (b : RxBlock) (s : Receiver)
    → try_stream_head_systematic t
        (try_stream_head_systematic t b s).0
        (try_stream_head_systematic t b s).1
      ≡ try_stream_head_systematic t b s
unfolding try_stream_head_systematic Again
try_stream_head_systematic_twice t b s =
    stream_frags-Again t (expected_sdus b - b.released) b s refl
