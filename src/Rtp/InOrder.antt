-- ===== src/Rtp/InOrder.antt =====
-- The depacketizer while the datagrams of one access unit come in order.
use vstreamer.Base.{
  ℕ, List, Bool, ◌≡◌, false, ◌<◌, [], ◌^◌, true, arith, ◌+◌, ◌%◌, ◌∷◌, ◌≤◌, u8, checked_below,
  checked_at, if◌then◌else◌, bit_and, ◌++◌, ok, bit_or, refl, ◌==◌, ◌&&◌, ◌!=◌,
}
use vstreamer.Rtp.Packer.{fu_header}
use vstreamer.Rtp.Depacketizer.{
  Depacketizer, ParsedRtp, arrive, is_late, append_annexb_nal, process_payload, take_fragment,
}

-- `au` has been built so far, with `buf` the open fragmented unit if `active`; `seq` comes next.
pub record At (seq ts : ℕ) (au : List ℕ) (active : Bool) (buf : List ℕ) (s : Depacketizer)
    : Type 0 where
  pub built : s.building_au ≡ au
  pub unbroken : s.building_damaged ≡ false
  pub fu_state : s.fu_active ≡ active
  pub fu_bytes : s.fu_buf ≡ buf
  pub none_waiting : s.completed_aus ≡ []
  pub follows : s.have_seq ≡ true → (s.last_seq < 2 ^ 16) × (seq ≡ (s.last_seq + 1) % 2 ^ 16)
  pub same_unit : s.have_building_ts ≡ true → s.building_ts ≡ ts

module _ (seq ts : ℕ) (au : List ℕ) (active : Bool) (buf : List ℕ) (rtp : ParsedRtp)
    (s : Depacketizer) (seq_is : rtp.seq ≡ seq) (ts_is : rtp.ts ≡ ts) (small : seq < 2 ^ 16) where
  pub is_late-false : At seq ts au active buf s → is_late rtp.seq s ≡ false
  unfolding is_late
  is_late-false h = ground (arith, h.follows)

  pub arrive-At :
      At seq ts au active buf s → At ((seq + 1) % 2 ^ 16) ts au active buf (arrive rtp s)
  unfolding arrive
  arrive-At h = record {
    built = ground (arith, h.built, h.same_unit);
    unbroken = ground (arith, h.unbroken, h.same_unit, h.follows);
    fu_state = ground (arith, h.fu_state, h.same_unit, h.follows);
    fu_bytes = ground (arith, h.fu_bytes, h.same_unit, h.follows);
    none_waiting = ground (arith, h.none_waiting, h.same_unit);
    follows = λ e. ground (arith);
    same_unit = λ e. ground (arith, h.same_unit);
  }

-- The bytes that start a NAL unit in the output.
abbrev pub framed : List ℕ → List ℕ
framed nal = 0 ∷ 0 ∷ 0 ∷ 1 ∷ nal

-- A type that is sent as it is, not 24 to 31.
abbrev pub IsUnitType : ℕ → Type 0
IsUnitType nal0 = (1 ≤ bit_and nal0 0x1f) × (bit_and nal0 0x1f ≤ 23)

module _ (seq ts : ℕ) (au : List ℕ) (s : Depacketizer) where
  pub append_annexb_nal-At :
      (active : Bool) (buf : List ℕ) (b : ℕ) (nal : List ℕ)
      → At seq ts au active buf s
      → At seq ts (au ++ framed (b ∷ nal)) active buf (append_annexb_nal (b ∷ nal) s)
  unfolding append_annexb_nal
  append_annexb_nal-At active buf b nal h = record {
    built = ground (arith, h.built);
    unbroken = h.unbroken;
    fu_state = h.fu_state;
    fu_bytes = h.fu_bytes;
    none_waiting = h.none_waiting;
    follows = h.follows;
    same_unit = h.same_unit;
  }

  pub process_single :
      (b : ℕ) (nal : List ℕ)
      → IsUnitType b
      → process_payload (b ∷ nal) s ≡ (append_annexb_nal (b ∷ nal) s, ok tt)
  unfolding process_payload
  process_single b nal h = ground arith

-- The header bytes of a fragment, at every first byte of a unit with the forbidden bit clear.
fragment_bits : ℕ → Bool → Bool → Bool
fragment_bits n first last =
    let ind = u8 (bit_or (bit_and n 0x60) 28) in
    let fu =
      u8
        (bit_or (bit_or (bit_and n 0x1f) (if first then 0x80 else 0)) (if last then 0x40 else 0)) in
    (bit_and ind 0x1f == 28)
    && (if first then bit_and fu 0x80 != 0 else bit_and fu 0x80 == 0)
    && (if last then bit_and fu 0x40 != 0 else bit_and fu 0x40 == 0)
    && (u8 (bit_or (bit_and ind 0xe0) (bit_and fu 0x1f)) == n)

fragment_table : (first last : Bool) → checked_below 128 (λ n. fragment_bits n first last) ≡ true
unfolding checked_below fragment_bits
fragment_table true true = refl
fragment_table true false = refl
fragment_table false true = refl
fragment_table false false = refl

module _ (seq ts nal0 : ℕ) (au : List ℕ) (s : Depacketizer) (body : List ℕ)
    (clear : nal0 < 128) where
  fragment_fact : (first last : Bool) → fragment_bits nal0 first last ≡ true
  fragment_fact first last = checked_at 128 _ nal0 (fragment_table first last) clear

  -- The unit so far, with the fragment.
  abbrev pub grown : Bool → List ℕ → List ℕ
  grown first buf = if first then nal0 ∷ body else buf ++ body

  pub process_fragment :
      (first last : Bool)
      → process_payload (fu_header nal0 first last ++ body) s ≡ (
        take_fragment
            (u8 (bit_or (bit_and nal0 0x60) 28))
            (u8 (
              bit_or
                (bit_or (bit_and nal0 0x1f) (if first then 0x80 else 0))
                (if last then 0x40 else 0)))
            body
            s,
        ok tt,
      )
  unfolding process_payload fu_header fragment_bits
  process_fragment first last = let t = fragment_fact first last in ground (arith, t)

  abbrev pub indicator : ℕ
  indicator = u8 (bit_or (bit_and nal0 0x60) 28)

  abbrev pub fu_byte : Bool → Bool → ℕ
  fu_byte first last =
      u8
        (bit_or (bit_or (bit_and nal0 0x1f) (if first then 0x80 else 0)) (if last then 0x40 else 0))

  -- A fragment that is not the last leaves the unit open.
  pub fragment_open :
      (first active : Bool) (buf : List ℕ)
      → (first ≡ false → active ≡ true)
      → At seq ts au active buf s
      → At seq ts au true (grown first buf) (take_fragment indicator (fu_byte first false) body s)
  unfolding take_fragment fragment_bits
  fragment_open true active buf ok' h =
      let t = fragment_fact true false in
      record {
        built = ground (arith, t, h.built);
        unbroken = ground (arith, t, h.unbroken);
        fu_state = ground (arith, t);
        fu_bytes = ground (arith, t);
        none_waiting = ground (arith, t, h.none_waiting);
        follows = ground (arith, t, h.follows);
        same_unit = ground (arith, t, h.same_unit);
      }
  fragment_open false active buf ok' h =
      let t = fragment_fact false false in
      let live = ok' refl in
      record {
        built = ground (arith, t, live, h.built, h.fu_state);
        unbroken = ground (arith, t, live, h.unbroken, h.fu_state);
        fu_state = ground (arith, t, live, h.fu_state);
        fu_bytes = ground (arith, t, live, h.fu_bytes, h.fu_state);
        none_waiting = ground (arith, t, live, h.none_waiting, h.fu_state);
        follows = ground (arith, t, live, h.follows, h.fu_state);
        same_unit = ground (arith, t, live, h.same_unit, h.fu_state);
      }

  -- The last fragment closes it.
  pub fragment_close :
      (first active : Bool) (buf : List ℕ) (x : ℕ) (xs : List ℕ)
      → (first ≡ false → active ≡ true)
      → grown first buf ≡ x ∷ xs
      → At seq ts au active buf s
      → At seq ts
          (au ++ framed (x ∷ xs))
          false
          []
          (take_fragment indicator (fu_byte first true) body s)
  unfolding take_fragment fragment_bits append_annexb_nal
  fragment_close true active buf x xs ok' e h =
      let t = fragment_fact true true in
      record {
        built = ground (arith, t, h.built);
        unbroken = ground (arith, t, h.unbroken);
        fu_state = ground (arith, t);
        fu_bytes = ground (arith, t);
        none_waiting = ground (arith, t, h.none_waiting);
        follows = ground (arith, t, h.follows);
        same_unit = ground (arith, t, h.same_unit);
      }
  fragment_close false active buf x xs ok' e h =
      let t = fragment_fact false true in
      let live = ok' refl in
      record {
        built = ground (arith, t, live, h.built, h.fu_state, h.fu_bytes);
        unbroken = ground (arith, t, live, h.unbroken, h.fu_state, h.fu_bytes);
        fu_state = ground (arith, t, live, h.fu_state, h.fu_bytes);
        fu_bytes = ground (arith, t, live, h.fu_bytes, h.fu_state);
        none_waiting = ground (arith, t, live, h.none_waiting, h.fu_state, h.fu_bytes);
        follows = ground (arith, t, live, h.follows, h.fu_state, h.fu_bytes);
        same_unit = ground (arith, t, live, h.same_unit, h.fu_state, h.fu_bytes);
      }
