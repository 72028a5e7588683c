-- ===== src/Rtp/Safety.antt =====
-- `parse_rtp` stays inside the datagram.
use vstreamer.Base.{
  ℕ, suc, ◌+◌, ◌<◌, ◌≤◌, ◌≡◌, arith, List, length, read, read_in, Outcome, subst, Bool, bit_or, ok,
  ◌>>=◌, sym, Errno, u64, Bool-cases, bit_and, ◌*◌, err, true, ◌<<<◌, ◌==◌, ◌>>>◌, leb, require,
  inl, fault, zero, ◌>>◌, inr, false, ◌-◌, refl, ltb, einval, ◌&&◌, signed64, u16, leb→le,
  if◌then◌else◌, ℤ, pos, ◌!=◌, take, drop, length-take, length-drop, ltb→lt,
}
use vstreamer.Rtp.Packer.{capture_ext_id, capture_ext_words, capture_ext_len_bytes}
use vstreamer.Rtp.Depacketizer.{
  parse_rtp, read_be, unpadded_len, capture_element, capture_instant, bede_extension, extension,
  profiled_extension, ParsedRtp,
}

-- No access outside an array, and a value that has a property.
abbrev pub Safe : {A : Type 0} → (A → Type 0) → Outcome A → Type 0
Safe P (ok a) = P a
Safe P (err e) = Unit
Safe P fault = ⊥

bind-Safe :
    {A B : Type 0} (P : A → Type 0) (Q : B → Type 0) (m : Outcome A) (f : A → Outcome B)
    → Safe P m
    → ((a : A) → P a → Safe Q (f a))
    → Safe Q (m >>= f)
bind-Safe P Q (ok a) f h k = k a h
bind-Safe P Q (err e) f h k = tt
bind-Safe P Q fault f h k = h

abbrev Any : {A : Type 0} → A → Type 0
Any a = Unit

read-Safe : (d : List ℕ) (i : ℕ) → i < length d → Safe Any (read d i)
read-Safe d i h = let (x, e) = read_in d i h in subst (λ o. Safe Any o) (sym e) tt

require-Safe : (b : Bool) (e : Errno) → Safe (λ u. b ≡ true) (require b e)
require-Safe true e = refl
require-Safe false e = tt

-- Reading a byte of the datagram, and a check.
module _ {B : Type 0} (Q : B → Type 0) where
  read-then :
      (d : List ℕ) (i : ℕ) (f : ℕ → Outcome B)
      → i < length d
      → ((x : ℕ) → Safe Q (f x))
      → Safe Q (read d i >>= f)
  read-then d i f h k = bind-Safe Any Q (read d i) f (read-Safe d i h) (λ x u. k x)

  require-then :
      (b : Bool) (e : Errno) (m : Outcome B) → (b ≡ true → Safe Q m) → Safe Q (require b e >> m)
  require-then true e m k = k refl
  require-then false e m k = tt

read_be-Safe : (n : ℕ) (d : List ℕ) (i acc : ℕ) → i + n ≤ length d → Safe Any (read_be n d i acc)
unfolding read_be
read_be-Safe zero d i acc h = tt
read_be-Safe (suc n) d i acc h =
    read-then Any d i (λ b. read_be n d (i + 1) (bit_or (u64 (acc <<< 8)) b)) (omega arith)
      (λ b. read_be-Safe n d (i + 1) (bit_or (u64 (acc <<< 8)) b) (omega arith))

unpadded_len-Safe :
    (d0 : ℕ) (d : List ℕ) → 12 ≤ length d → Safe (λ n. n ≤ length d) (unpadded_len d0 d)
unfolding unpadded_len
unpadded_len-Safe d0 d h = elim (Bool-cases (bit_and d0 0x20 == 0)) [
  | inl e ↦ rw (unpadded_len, e) (omega arith)
  | inr e ↦
      rw (unpadded_len, e)
        (read-then (λ n. n ≤ length d) d (length d - 1) _ (omega arith)
          (λ pad.
            require-then (λ n. n ≤ length d) (ltb pad (length d)) einval (ok (length d - pad))
              (λ t. omega arith)))
]

capture_element-Safe :
    (d : List ℕ) (pkt_len off id_len : ℕ)
    → off + 16 ≤ length d
    → Safe Any (capture_element d pkt_len off id_len)
unfolding capture_element
capture_element-Safe d pkt_len off id_len h =
    let ext_len = bit_and id_len 0x0f + 1 in
    elim (Bool-cases (
      (id_len >>> 4 == capture_ext_id && ext_len == capture_ext_len_bytes)
      && leb (off + 4 + ext_len) pkt_len)) [
        | inl e ↦
            rw (capture_element, e)
              (bind-Safe Any Any (read_be 8 d (off + 5) 0) (λ rt. ok (signed64 rt))
                (read_be-Safe 8 d (off + 5) 0 (omega arith)) (λ rt u. tt))
        | inr e ↦ rw (capture_element, e) tt
      ]

capture_instant-Safe :
    (d : List ℕ) (pkt_len off words : ℕ)
    → off + (4 + words * 4) ≤ pkt_len
    → pkt_len ≤ length d
    → Safe Any (capture_instant d pkt_len off words)
unfolding capture_instant
capture_instant-Safe d pkt_len off words h l =
    elim (Bool-cases (leb capture_ext_words words && leb (off + 12) pkt_len)) [
      | inl e ↦
          let three : 3 ≤ words = ground (arith, e) in
          rw (capture_instant, e)
            (read-then Any d (off + 4) (λ id_len. capture_element d pkt_len off id_len)
              (omega arith) (λ id_len. capture_element-Safe d pkt_len off id_len (omega arith)))
      | inr e ↦ rw (capture_instant, e) tt
    ]

bede_extension-Safe :
    (d : List ℕ) (pkt_len off : ℕ)
    → off + 4 ≤ pkt_len
    → pkt_len ≤ length d
    → Safe Any (bede_extension d pkt_len off)
unfolding bede_extension
bede_extension-Safe d pkt_len off h l = read-then Any d (off + 2) _ (omega arith) (λ w0.
    read-then Any d (off + 3) _ (omega arith) (λ w1.
      let words = u16 (bit_or (w0 <<< 8) w1) in
      require-then Any (leb (off + (4 + words * 4)) pkt_len) einval _ (λ t.
        bind-Safe Any Any (capture_instant d pkt_len off words)
          (λ rt. ok (rt, off + (4 + words * 4)))
          (capture_instant-Safe d pkt_len off words (leb→le _ _ t) l) (λ rt u. tt))))

extension-Safe :
    (d0 : ℕ) (d : List ℕ) (pkt_len off : ℕ)
    → pkt_len ≤ length d
    → Safe Any (extension d0 d pkt_len off)
unfolding extension profiled_extension
extension-Safe d0 d pkt_len off l = elim (Bool-cases (bit_and d0 0x10 == 0)) [
  | inl e ↦ rw (extension, e) tt
  | inr e ↦
      rw (extension, e)
        (require-then Any (leb (off + 4) pkt_len) einval _ (λ t.
          let room = leb→le (off + 4) pkt_len t in
          read-then Any d off _ (omega arith) (λ p0.
            read-then Any d (off + 1) _ (omega arith)
              (λ p1. by_profile room (u16 (bit_or (p0 <<< 8) p1) == 0xbede)))))
]
  where
    by_profile :
        off + 4 ≤ pkt_len
        → (c : Bool) → Safe Any (if c then bede_extension d pkt_len off else ok (pos 0, off))
    by_profile room true = bede_extension-Safe d pkt_len off room l
    by_profile room false = tt

-- Whatever the bytes of a datagram are, `parse_rtp` reads inside it: it refuses the datagram or it
-- gives a payload that is not empty.
pub parse_rtp-Safe : (d : List ℕ) → Safe (λ rtp. 0 < length rtp.payload) (parse_rtp d)
unfolding parse_rtp
parse_rtp-Safe d =
    let Q : ParsedRtp → Type 0 = λ rtp. 0 < length rtp.payload in
    require-then Q (leb 12 (length d)) einval _ (λ t.
      let long = leb→le 12 (length d) t in
      read-then Q d 0 _ (omega arith) (λ d0. require-then Q (bit_and d0 0xc0 == 0x80) einval _ (λ v.
        bind-Safe (λ n. n ≤ length d) Q (unpadded_len d0 d) _ (unpadded_len-Safe d0 d long)
          (λ pkt_len inside. require-then Q (leb (12 + bit_and d0 0x0f * 4) pkt_len) einval _ (λ w.
            bind-Safe Any Q (extension d0 d pkt_len (12 + bit_and d0 0x0f * 4)) _
              (extension-Safe d0 d pkt_len (12 + bit_and d0 0x0f * 4) inside)
              (λ ext u.
                require-then Q (ltb ext.1 pkt_len) einval _
                  (λ some_left. fields long pkt_len ext inside (ltb→lt _ _ some_left))))))))
  where
    fields :
        12 ≤ length d
        → (pkt_len : ℕ) (ext : ℤ × ℕ) → pkt_len ≤ length d
        → ext.1 < pkt_len
        → Safe
            (λ (rtp : ParsedRtp). 0 < length rtp.payload)
            (do
              d1 ← read d 1
              d2 ← read d 2
              d3 ← read d 3
              d4 ← read d 4
              d5 ← read d 5
              d6 ← read d 6
              d7 ← read d 7
              ok (record {
                seq = u16 (bit_or (d2 <<< 8) d3);
                ts = bit_or (bit_or (bit_or (d4 <<< 24) (d5 <<< 16)) (d6 <<< 8)) d7;
                marker = bit_and d1 0x80 != 0;
                payload = take (pkt_len - ext.1) (drop ext.1 d);
                capture_rt_ns = ext.0;
              }))
    fields long pkt_len ext inside left =
        let Q : ParsedRtp → Type 0 = λ rtp. 0 < length rtp.payload in
        read-then Q d 1 _ (omega arith) (λ d1. read-then Q d 2 _ (omega arith) (λ d2.
          read-then Q d 3 _ (omega arith) (λ d3. read-then Q d 4 _ (omega arith) (λ d4.
            read-then Q d 5 _ (omega arith) (λ d5. read-then Q d 6 _ (omega arith) (λ d6.
              read-then Q d 7 _ (omega arith) (λ d7.
                omega
                  (arith, length-take (pkt_len - ext.1) (drop ext.1 d), length-drop ext.1 d))))))))
