-- ===== src/Rtp/Pay/Output.antt =====
-- What the payloader hands out.
use vstreamer.Base.{ℕ, List, ◌≡◌, ◌<◌, ◌∷◌, length, arith, map, ok, some, length-map, refl, ◌∙◌}
use vstreamer.Buffers.{Heap, View, capacity, contents, write_to}
use vstreamer.Buffers.Heap.{IsValid, contents-write_to}
use vstreamer.Buffers.Pool.{acquire}
use vstreamer.Buffers.Loans.{IsConserved}
use vstreamer.Buffers.Lending.{acquire-IsValid}
use vstreamer.Rtp.Pay.{Pay, PendingDatagram, hand_out, output}

hand_out_lem :
    (front : PendingDatagram) (rest : List PendingDatagram) (buf : View) (s : Pay)
    → 0 < capacity s.heap buf
    → buf.len ≡ length front.bytes
    → hand_out front rest buf s ≡ (
      record s { heap = write_to buf.store (map some front.bytes) s.heap; pending = rest },
      ok (front.pts, buf),
    )
unfolding hand_out
hand_out_lem front rest buf s room size = ground (arith, size)

capacity-lower : (h : Heap) (v : View) → IsValid h v → v.off ≡ 0 → 0 < v.len → 0 < capacity h v
unfolding capacity
capacity-lower h v (fits, has) start some_bytes = omega (arith, fits, start)

output_front :
    (front : PendingDatagram) (rest : List PendingDatagram) (s : Pay)
    → s.pending ≡ front ∷ rest
    → let got = acquire (length front.bytes) s.pool s.heap in
      output 0 s ≡ hand_out front rest got.0 (record s { pool = got.1.0; heap = got.1.1 })
unfolding output
output_front front rest s e = ground (arith, e)

-- While datagrams wait, output hands out the oldest one: its pts, and a buffer that shows its bytes.
-- The datagram is not empty, and the pool is in order.
pub output-contents :
    (depth : ℕ) (lent : List ℕ) (front : PendingDatagram) (rest : List PendingDatagram) (s : Pay)
    → IsConserved depth (record { pool = s.pool; heap = s.heap; lent = lent })
    → s.pending ≡ front ∷ rest
    → 0 < length front.bytes
    → (t : Pay) × (buf : View) × (output 0 s ≡ (t, ok (front.pts, buf)))
      × (contents t.heap buf ≡ map some front.bytes)
      × (t.pending ≡ rest)
unfolding output
output-contents depth lent front rest s c e some_bytes =
    let n = length front.bytes in
    let got = acquire n s.pool s.heap in
    let (valid, size, start) =
      acquire-IsValid depth n (record { pool = s.pool; heap = s.heap; lent = lent }) c in
    let s' : Pay = record s { pool = got.1.0; heap = got.1.1 } in
    let long = length-map some front.bytes in
    let room = capacity-lower got.1.1 got.0 valid start (omega (arith, size)) in
    (
      record s' { heap = write_to got.0.store (map some front.bytes) got.1.1; pending = rest },
      got.0,
      output_front front rest s e ∙ hand_out_lem front rest got.0 s' room size,
      contents-write_to (map some front.bytes) got.1.1 got.0 valid start
          (omega (arith, size, long)),
      refl,
    )
