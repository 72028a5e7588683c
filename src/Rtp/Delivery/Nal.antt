-- ===== src/Rtp/Delivery/Nal.antt =====
-- `send_nal`: one datagram, or the fragments of a unit that is too long for one.
use vstreamer.Base.{
  ℕ, Bool, List, if◌then◌else◌, ◌<◌, ◌∷◌, ◌≤◌, [], ◌++◌, ◌+◌, ◌≡◌, length, false, true, ◌^◌, refl,
  arith, suc, zero, ◌&&◌, ok, take, take_all, drop, drop_all, ◌-◌, le→not_ltb, ◌==◌, none, ◌%◌, ◌∙◌,
  dec_lt, ap, subst, sym, length-take, drop-cons, u16, length-drop, append_assoc, take-append-drop,
  dec_le, le→leb, lt→not_leb,
}
use vstreamer.Rtp.Packer.{
  Packer, hdr_extra, rtp_hdr, max_rtp, append_datagram, fu_header, send_fragments, chunk_len,
  datagram, send_nal,
}
use vstreamer.Rtp.Depacketizer.{Depacketizer, feed}
use vstreamer.Rtp.InOrder.{
  At, framed, process_fragment, fragment_open, fragment_close, IsUnitType, process_single,
  append_annexb_nal-At,
}
use vstreamer.Rtp.Delivery.Feed.{Fits}
use vstreamer.Rtp.Delivery.Carried.{
  Carried, Carried-after, append-Carried, feed_unmarked, append_returns,
}

framed-cons : (au nal : List ℕ) → (y : ℕ) × (ys : List ℕ) × (au ++ framed nal ≡ y ∷ ys)
framed-cons [] nal = (0, _, refl)
framed-cons (a ∷ au) nal = (a, _, refl)

-- What has been taken of the unit before a round.
abbrev so_far : Bool → ℕ → List ℕ → List ℕ
so_far first nal0 buf = if first then nal0 ∷ [] else buf

grown_so_far :
    (first : Bool) (nal0 : ℕ) (buf body : List ℕ)
    → (if first then nal0 ∷ body else buf ++ body) ≡ so_far first nal0 buf ++ body
grown_so_far true nal0 buf body = refl
grown_so_far false nal0 buf body = refl

chunk_len_last : (left max_fu : ℕ) → left ≤ max_fu → chunk_len left max_fu ≡ left
unfolding chunk_len
chunk_len_last left max_fu h = ground arith

chunk_len_full : (left max_fu : ℕ) → max_fu < left → chunk_len left max_fu ≡ max_fu
unfolding chunk_len
chunk_len_full left max_fu h = ground arith

is_last : (left chunk : ℕ) → left ≤ chunk → (left - chunk == 0) ≡ true
is_last left chunk h = ground arith

is_not_last : (left chunk : ℕ) → chunk < left → (left - chunk == 0) ≡ false
is_not_last left chunk h = ground arith

nothing_left :
    (fuel max_fu nal0 : ℕ) (first marker : Bool) (ts capture : ℕ) (s : Packer)
    → send_fragments fuel max_fu nal0 [] first marker ts capture s ≡ (s, ok tt)
unfolding send_fragments
nothing_left zero max_fu nal0 first marker ts capture s = refl
nothing_left (suc fuel) max_fu nal0 first marker ts capture s = refl

and_true : (m : Bool) → (m && true) ≡ m
and_true true = refl
and_true false = refl

and_false : (m : Bool) → (m && false) ≡ false
and_false true = refl
and_false false = refl

module _ (fuel max_fu nal0 b : ℕ) (p : List ℕ) (first marker : Bool) (ts capture : ℕ)
    (s s1 : Packer) (fits : max_fu + 2 ≤ max_rtp) where
  -- The round that takes all that is left.
  last_round :
      length (b ∷ p) ≤ max_fu
      → append_datagram (fu_header nal0 first true ++ b ∷ p) marker ts capture s ≡ (s1, ok tt)
      → send_fragments (suc fuel) max_fu nal0 (b ∷ p) first marker ts capture s ≡ (s1, ok tt)
  unfolding send_fragments
  last_round le sent =
      let left = length (b ∷ p) in
      rw
        (
          chunk_len_last left max_fu le,
          le→not_ltb max_rtp (left + 2) (omega arith),
          is_last left left (omega arith),
          take_all (b ∷ p) left (omega arith),
          drop_all (b ∷ p) left (omega arith),
          and_true marker,
          sent,
        )
        (nothing_left fuel max_fu nal0 false marker ts capture s1)

  -- A round with more to follow.
  full_round :
      max_fu < length (b ∷ p)
      → append_datagram (fu_header nal0 first false ++ take max_fu (b ∷ p)) false ts capture s
        ≡ (s1, ok tt)
      → send_fragments (suc fuel) max_fu nal0 (b ∷ p) first marker ts capture s
        ≡ send_fragments fuel max_fu nal0 (drop max_fu (b ∷ p)) false marker ts capture s1
  unfolding send_fragments
  full_round lt sent =
      let left = length (b ∷ p) in
      rw (
        chunk_len_full left max_fu lt,
        le→not_ltb max_rtp (max_fu + 2) fits,
        is_not_last left max_fu lt,
        and_false marker,
        sent,
      )

module _ (max_fu nal0 ts capture : ℕ) (marker : Bool) (au : List ℕ) (clear : nal0 < 128)
    (some_room : 1 ≤ max_fu) (in_packet : rtp_hdr + hdr_extra capture + 2 + max_fu ≤ max_rtp) where
  -- A fragment that is not the last takes a depacketizer from one state to the next.
  middle_fragment :
      (first active : Bool) (buf body : List ℕ) (s : Packer)
      → (first ≡ false → active ≡ true)
      → Fits s.cfg ts capture
      → s.seq < 2 ^ 16
      → rtp_hdr + hdr_extra capture + 2 + max_fu ≤ s.cfg.mtu
      → length body ≤ max_fu
      → (d : Depacketizer) → At s.seq ts au active buf d
      → (d' : Depacketizer) × (feed
            (datagram s.cfg s.seq false ts capture (fu_header nal0 first false ++ body))
            d
          ≡ (d', ok none))
        × At ((s.seq + 1) % 2 ^ 16) ts au true (if first then nal0 ∷ body else buf ++ body) d'
  unfolding fu_header
  middle_fragment first active buf body s live fits small room len =
      feed_unmarked s ts capture _ _ fits small (omega arith) (omega arith) au au buf _ active true
        λ d h. (
          _,
          process_fragment ((s.seq + 1) % 2 ^ 16) ts nal0 au d body clear first false,
          fragment_open _ ts nal0 au d body clear first active buf live h,
        )

  last_fragment :
      (first active : Bool) (buf body : List ℕ) (x : ℕ) (xs : List ℕ) (s : Packer)
      → (first ≡ false → active ≡ true)
      → so_far first nal0 buf ≡ x ∷ xs
      → Fits s.cfg ts capture
      → s.seq < 2 ^ 16
      → rtp_hdr + hdr_extra capture + 2 + max_fu ≤ s.cfg.mtu
      → length body ≤ max_fu
      → Carried s marker ts
          (au ++ framed (x ∷ xs ++ body))
          (At s.seq ts au active buf)
          (append_datagram (fu_header nal0 first true ++ body) marker ts capture s)
  unfolding fu_header
  last_fragment first active buf body x xs s live e fits small room len =
      let whole : (if first then nal0 ∷ body else buf ++ body) ≡ x ∷ xs ++ body =
        grown_so_far first nal0 buf body ∙ ap (λ l. l ++ body) e in
      let (y, ys, cons) = framed-cons au (x ∷ xs ++ body) in
      append-Carried s ts capture _ _ fits small (omega arith) (omega arith) au _ buf ys y active
        cons
        (λ d h. (
          _,
          process_fragment ((s.seq + 1) % 2 ^ 16) ts nal0 au d body clear first true,
          fragment_close _ ts nal0 au d body clear first active buf x (xs ++ body) live whole h,
        ))
        marker

  -- A full round, and what the later rounds give.
  more_fragments :
      (fuel : ℕ) (b : ℕ) (p : List ℕ) (first active : Bool) (buf : List ℕ) (x : ℕ) (xs : List ℕ)
      (s : Packer)
      → (first ≡ false → active ≡ true)
      → so_far first nal0 buf ≡ x ∷ xs
      → Fits s.cfg ts capture
      → s.seq < 2 ^ 16
      → rtp_hdr + hdr_extra capture + 2 + max_fu ≤ s.cfg.mtu
      → max_fu < length (b ∷ p)
      → (y : ℕ) (ys : List ℕ) → drop max_fu (b ∷ p) ≡ y ∷ ys
      → ((buf' xs' : List ℕ) (s' : Packer)
          → buf' ≡ x ∷ xs'
          → Fits s'.cfg ts capture
          → s'.seq < 2 ^ 16
          → rtp_hdr + hdr_extra capture + 2 + max_fu ≤ s'.cfg.mtu
          → Carried s' marker ts
              (au ++ framed (x ∷ xs' ++ y ∷ ys))
              (At s'.seq ts au true buf')
              (send_fragments fuel max_fu nal0 (y ∷ ys) false marker ts capture s'))
      → Carried s marker ts
          (au ++ framed (x ∷ xs ++ b ∷ p))
          (At s.seq ts au active buf)
          (send_fragments (suc fuel) max_fu nal0 (b ∷ p) first marker ts capture s)
  unfolding fu_header
  more_fragments fuel b p first active buf x xs s live e fits small room long y ys rest later =
      let body = take max_fu (b ∷ p) in
      let len : length body ≤ max_fu = omega (arith, length-take max_fu (b ∷ p)) in
      let whole : (if first then nal0 ∷ body else buf ++ body) ≡ x ∷ xs ++ body =
        grown_so_far first nal0 buf body ∙ ap (λ l. l ++ body) e in
      let d = datagram s.cfg s.seq false ts capture (fu_header nal0 first false ++ body) in
      let s1 : Packer = record s { seq = u16 (s.seq + 1); queue = s.queue ++ d ∷ [] } in
      let sent = append_returns s ts capture _ _ fits small (omega arith) (omega arith) false in
      let round : send_fragments (suc fuel) max_fu nal0 (b ∷ p) first marker ts capture s
          ≡ send_fragments fuel max_fu nal0 (y ∷ ys) false marker ts capture s1 =
        full_round fuel max_fu nal0 b p first marker ts capture s s1 (omega arith) long sent
        ∙ ap (λ l. send_fragments fuel max_fu nal0 l false marker ts capture s1) rest in
      let bytes : (xs ++ body) ++ y ∷ ys ≡ xs ++ b ∷ p =
        append_assoc xs body (y ∷ ys)
        ∙ ap (λ l. xs ++ l) (ap (λ l. body ++ l) (sym rest) ∙ take-append-drop max_fu (b ∷ p)) in
      subst
        (λ l.
          Carried s marker ts (au ++ framed (x ∷ l)) (At s.seq ts au active buf)
            (send_fragments (suc fuel) max_fu nal0 (b ∷ p) first marker ts capture s))
        bytes
        (subst (Carried s marker ts _ (At s.seq ts au active buf)) (sym round) (
          Carried-after s s1 d marker ts _ _ (At s1.seq ts au true _) _ refl refl refl refl
            (middle_fragment first active buf body s live fits small room len)
            (later _ (xs ++ body) s1 whole fits (omega arith) room)))

  -- From a round on, with the bytes `b ∷ p` left and `x ∷ xs` taken.
  pub send_fragments-Carried :
      (fuel : ℕ) (b : ℕ) (p : List ℕ) (first active : Bool) (buf : List ℕ) (x : ℕ) (xs : List ℕ)
      (s : Packer)
      → length (b ∷ p) ≤ fuel
      → (first ≡ false → active ≡ true)
      → so_far first nal0 buf ≡ x ∷ xs
      → Fits s.cfg ts capture
      → s.seq < 2 ^ 16
      → rtp_hdr + hdr_extra capture + 2 + max_fu ≤ s.cfg.mtu
      → Carried s marker ts
          (au ++ framed (x ∷ xs ++ b ∷ p))
          (At s.seq ts au active buf)
          (send_fragments fuel max_fu nal0 (b ∷ p) first marker ts capture s)
  send_fragments-Carried zero b p first active buf x xs s le live e fits small room =
      absurd (omega arith)
  send_fragments-Carried (suc fuel) b p first active buf x xs s le live e fits small room =
      elim (dec_lt max_fu (length (b ∷ p))) [
        | yes long ↦
            more_fragments fuel b p first active buf x xs s live e fits small room long
              (drop-cons max_fu (b ∷ p) long).0 (drop-cons max_fu (b ∷ p) long).1
              (drop-cons max_fu (b ∷ p) long).2
              (λ buf' xs' s'.
                send_fragments-Carried fuel (drop-cons max_fu (b ∷ p) long).0
                  (drop-cons max_fu (b ∷ p) long).1 false true buf' x xs' s'
                  (omega (
                    arith,
                    ap length (drop-cons max_fu (b ∷ p) long).2,
                    length-drop max_fu (b ∷ p),
                  ))
                  (λ _. refl))
        | no short ↦
            let done =
              last_fragment first active buf (b ∷ p) x xs s live e fits small room (omega arith) in
            subst (Carried s marker ts _ (At s.seq ts au active buf))
              (done.returns
                ∙ sym (
                    last_round fuel max_fu nal0 b p first marker ts capture s done.after
                      (omega arith) (omega arith) done.returns))
              done
      ]

-- A unit that both ends carry whole: not empty, the forbidden bit clear, of a type that is sent as
-- it is.
abbrev pub Sendable : List ℕ → Type 0
Sendable [] = ⊥
Sendable (b ∷ nal) = (b < 128) × IsUnitType b

module _ (ts capture : ℕ) (marker : Bool) (au : List ℕ) (s : Packer) (fits : Fits s.cfg ts capture)
    (small : s.seq < 2 ^ 16) (room : rtp_hdr + hdr_extra capture + 3 ≤ s.cfg.mtu)
    (standard : s.cfg.mtu ≤ max_rtp) where
  single-Carried :
      (b : ℕ) (nal : List ℕ)
      → Sendable (b ∷ nal)
      → length (b ∷ nal) + (rtp_hdr + hdr_extra capture) ≤ s.cfg.mtu
      → Carried s marker ts
          (au ++ framed (b ∷ nal))
          (At s.seq ts au false [])
          (append_datagram (b ∷ nal) marker ts capture s)
  single-Carried b nal ok' len =
      let (y, ys, cons) = framed-cons au (b ∷ nal) in
      append-Carried s ts capture b nal fits small (omega arith) (omega arith) au _ [] ys y false
        cons
        (λ d h. (
          _,
          process_single ((s.seq + 1) % 2 ^ 16) ts au d b nal ok'.1,
          append_annexb_nal-At _ ts au d false [] b nal h,
        ))
        marker

  fragmented-Carried :
      (b : ℕ) (nal : List ℕ)
      → Sendable (b ∷ nal)
      → s.cfg.mtu < length (b ∷ nal) + (rtp_hdr + hdr_extra capture)
      → Carried s marker ts (au ++ framed (b ∷ nal)) (At s.seq ts au false []) (
          send_fragments
            (length nal)
            (s.cfg.mtu - (rtp_hdr + hdr_extra capture) - 2)
            b
            nal
            true
            marker
            ts
            capture
            s)
  fragmented-Carried b [] ok' len = absurd (omega arith)
  fragmented-Carried b (c ∷ nal) ok' len =
      send_fragments-Carried (s.cfg.mtu - (rtp_hdr + hdr_extra capture) - 2) b ts capture marker au
        ok'.0 (omega arith) (omega arith) (length (c ∷ nal)) c nal true false [] b [] s
        (omega arith) (λ e. cc) refl fits small (omega arith)

  -- The datagrams that `send_nal` queues for a unit, fed in order to a depacketizer that is building
  -- `au`, add the unit to it behind a start code, and hand the whole out if they carry the marker.
  pub send_nal-Carried :
      (nal : List ℕ)
      → Sendable nal
      → Carried s marker ts
          (au ++ framed nal)
          (At s.seq ts au false [])
          (send_nal nal marker ts capture s)
  unfolding send_nal
  send_nal-Carried [] ok' = absurd ok'
  send_nal-Carried (b ∷ nal) ok' =
      let hdr = rtp_hdr + hdr_extra capture in
      elim (dec_le (length (b ∷ nal) + hdr) s.cfg.mtu) [
        | yes one ↦
            rw (le→leb (length (b ∷ nal) + hdr) s.cfg.mtu one) (single-Carried b nal ok' one)
        | no many ↦
            rw
              (
                lt→not_leb (length (b ∷ nal) + hdr) s.cfg.mtu (omega arith),
                le→not_ltb s.cfg.mtu (hdr + 2 + 1) (omega arith),
              )
              (fragmented-Carried b nal ok' (omega arith))
      ]
