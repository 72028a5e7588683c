-- ===== src/Rtp/Bounds.antt =====
-- The size of what the packer queues.
use vstreamer.Base.{
  ℕ, List, ◌≡◌, Bool, Outcome, length, All, if◌then◌else◌, suc, ◌∷◌, ℤ, ◌≤◌, ◌+◌, leb, arith, [],
  true, zero, ltb, false, ◌-◌, Bool-cases, ok, ◌==◌, ◌&&◌, positive_part, inl, ◌||◌, err, ◌++◌,
  bit_and, not, refl, length-append, inr, take, fault, All-append, drop,
}
use vstreamer.Base.Act.{Act, resume, pure, ◌>>=◌, ◌>>◌}
use vstreamer.Rtp.Packer.{
  Config, Packer, UnitScan, rtp_hdr, max_rtp, hdr_extra, rtp_header, capture_ext, datagram,
  append_datagram, fu_header, chunk_len, after_append, send_fragments, send_nal, cache_param,
  scan_units, note_unit, inject_if, inject, send_units, pack_annexb, pts_to_rtp_ts, nals_of,
  is_slice, max_param,
}

-- A datagram of at most `mtu` bytes and of at most 1500.
abbrev pub Small : ℕ → List ℕ → Type 0
Small mtu d = (length d ≤ mtu) × (length d ≤ max_rtp)

pub record Within (mtu : ℕ) (s : Packer) : Type 0 where
  pub same_mtu : s.cfg.mtu ≡ mtu
  pub small : All (Small mtu) s.queue

abbrev Keeps : ℕ → {A : Type 0} → Act Packer A → Type 0
Keeps mtu f = (s : Packer) → Within mtu s → Within mtu (f s).0

length-datagram :
    (cfg : Config) (seq ts capture : ℕ) (marker : Bool) (payload : List ℕ)
    → length (datagram cfg seq marker ts capture payload)
      ≡ rtp_hdr + hdr_extra capture + length payload
unfolding datagram rtp_header capture_ext
length-datagram cfg seq ts capture marker payload = elim (Bool-cases (ltb 0 capture)) [
  | inl e ↦ rw e (omega (arith, length-append (capture_ext capture) payload))
  | inr e ↦ rw e (omega arith)
]

append_datagram-Within :
    (mtu : ℕ) (payload : List ℕ) (marker : Bool) (ts capture : ℕ)
    → Keeps mtu (append_datagram payload marker ts capture)
unfolding append_datagram
append_datagram-Within mtu payload marker ts capture s w =
    let total = rtp_hdr + hdr_extra capture + length payload in
    let d = datagram s.cfg s.seq marker ts capture payload in
    let long = length-datagram s.cfg s.seq ts capture marker payload in
    elim (Bool-cases (ltb s.cfg.mtu total || ltb max_rtp total)) [
      | inl e ↦ rw e w
      | inr e ↦
          let fits : (total ≤ s.cfg.mtu) × (total ≤ max_rtp) = ground arith in
          rw e (record {
            same_mtu = w.same_mtu;
            small =
                All-append (Small mtu) s.queue (d ∷ []) w.small
                  ((omega (arith, long, fits.0, w.same_mtu), omega (arith, long, fits.1)), tt);
          })
    ]

then_Within :
    {A B : Type 0} (mtu : ℕ) (m : Act Packer A) (f : A → Act Packer B)
    → Keeps mtu m
    → ((a : A) → Keeps mtu (f a))
    → Keeps mtu (m >>= f)
then_Within {A = A} mtu m f hm hf s w = resumed (m s).1 (m s).0 (hm s w)
  where
    resumed : (o : Outcome A) (t : Packer) → Within mtu t → Within mtu (resume f t o).0
    resumed (ok a) t w = hf a t w
    resumed (err e) t w = w
    resumed fault t w = w

if_Within :
    {A : Type 0} (mtu : ℕ) (b : Bool) (x y : Packer × Outcome A)
    → Within mtu x.0
    → Within mtu y.0
    → Within mtu (if b then x else y).0
if_Within mtu true x y hx hy = hx
if_Within mtu false x y hx hy = hy

after_append-Within :
    (mtu : ℕ) (next : Packer → Packer × Outcome (Unit {0})) (r : Packer × Outcome (Unit {0}))
    → Keeps mtu next
    → Within mtu r.0
    → Within mtu (after_append next r.0 r.1).0
unfolding after_append
after_append-Within mtu next (s, ok u) h w = h s w
after_append-Within mtu next (s, err e) h w = w
after_append-Within mtu next (s, fault) h w = w

send_fragments-Within :
    (mtu fuel max_fu nal0 : ℕ) (p : List ℕ) (first marker : Bool) (ts capture : ℕ)
    → Keeps mtu (send_fragments fuel max_fu nal0 p first marker ts capture)
unfolding send_fragments
send_fragments-Within mtu zero max_fu nal0 p first marker ts capture s w = w
send_fragments-Within mtu (suc fuel) max_fu nal0 [] first marker ts capture s w = w
send_fragments-Within mtu (suc fuel) max_fu nal0 (b ∷ p) first marker ts capture s w =
    let chunk = chunk_len (length (b ∷ p)) max_fu in
    let last = length (b ∷ p) - chunk == 0 in
    let fu = fu_header nal0 first last ++ take chunk (b ∷ p) in
    if_Within mtu (ltb max_rtp (chunk + 2)) _ _ w (
      after_append-Within mtu
        (λ s'. send_fragments fuel max_fu nal0 (drop chunk (b ∷ p)) false marker ts capture s')
        (append_datagram fu (marker && last) ts capture s)
        (send_fragments-Within mtu fuel max_fu nal0 (drop chunk (b ∷ p)) false marker ts capture)
        (append_datagram-Within mtu fu (marker && last) ts capture s w))

send_nal-Within :
    (mtu : ℕ) (nal : List ℕ) (marker : Bool) (ts capture : ℕ)
    → Keeps mtu (send_nal nal marker ts capture)
unfolding send_nal
send_nal-Within mtu [] marker ts capture s w = w
send_nal-Within mtu (nal0 ∷ body) marker ts capture s w =
    if_Within mtu (leb (length (nal0 ∷ body) + (rtp_hdr + hdr_extra capture)) s.cfg.mtu) _ _
      (append_datagram-Within mtu (nal0 ∷ body) marker ts capture s w)
      (if_Within mtu (ltb s.cfg.mtu (rtp_hdr + hdr_extra capture + 2 + 1)) _ _ w (
        send_fragments-Within mtu (length body) (s.cfg.mtu - (rtp_hdr + hdr_extra capture) - 2) nal0
          body true marker ts capture s w))

cache_param-Within : (mtu : ℕ) (nal : List ℕ) → Keeps mtu (cache_param nal)
unfolding cache_param
cache_param-Within mtu [] s w = w
cache_param-Within mtu (b ∷ nal) s w = if_Within mtu (ltb max_param (length (b ∷ nal))) _ _ w (
    if_Within mtu (bit_and b 0x1f == 7) _ _ (record { same_mtu = w.same_mtu; small = w.small })
      (if_Within mtu (bit_and b 0x1f == 8) _ _ (record { same_mtu = w.same_mtu; small = w.small })
        w))

scan_units-Within : (mtu : ℕ) (nals : List (List ℕ)) (u : UnitScan) → Keeps mtu (scan_units nals u)
unfolding scan_units
scan_units-Within mtu [] u s w = w
scan_units-Within mtu (nal ∷ nals) u s w =
    then_Within mtu (cache_param nal) (λ _. scan_units nals (note_unit nal u))
      (cache_param-Within mtu nal) (λ _. scan_units-Within mtu nals (note_unit nal u)) s w

inject_if-Within :
    (mtu : ℕ) (wanted : Bool) (set : List ℕ) (sent : Bool) (ts capture : ℕ)
    → Keeps mtu (inject_if wanted set sent ts capture)
unfolding inject_if
inject_if-Within mtu true set sent ts capture s w =
    then_Within mtu (send_nal set false ts capture) (λ _. pure true)
      (send_nal-Within mtu set false ts capture) (λ _ t v. v) s w
inject_if-Within mtu false set sent ts capture s w = w

inject-Within :
    (mtu : ℕ) (wanted : Bool) (set : List ℕ) (sent : Bool) (ts capture : ℕ)
    → Keeps mtu (inject wanted set sent ts capture)
unfolding inject
inject-Within mtu wanted set sent ts capture s w =
    inject_if-Within mtu (wanted && not sent && ltb 0 (length set)) set sent ts capture s w

send_units-Within :
    (mtu : ℕ) (u : UnitScan) (nals : List (List ℕ)) (sent_sps sent_pps : Bool) (ts capture : ℕ)
    → Keeps mtu (send_units u nals sent_sps sent_pps ts capture)
unfolding send_units
send_units-Within mtu u [] sent_sps sent_pps ts capture s w = w
send_units-Within mtu u (nal ∷ nals) sent_sps sent_pps ts capture s w =
    let key_slice = u.has_idr && is_slice nal in
    let final : Bool = elim nals as (λ _. Bool) [ [] ↦ true | n ∷ more ↦ false ] in
    let rest : Bool → Bool → Act Packer (Unit {0}) = λ a b. send_units u nals a b ts capture in
    let unit : Bool → Bool → Act Packer (Unit {0}) =
      λ a b. send_nal nal final ts capture >> rest a b in
    let pps : Bool → Act Packer (Unit {0}) =
      λ a. inject (key_slice && not u.has_pps) s.pps sent_pps ts capture >>= unit a in
    then_Within mtu (inject (key_slice && not u.has_sps) s.sps sent_sps ts capture) pps
      (inject-Within mtu (key_slice && not u.has_sps) s.sps sent_sps ts capture)
      (λ a.
        then_Within mtu (inject (key_slice && not u.has_pps) s.pps sent_pps ts capture) (unit a)
          (inject-Within mtu (key_slice && not u.has_pps) s.pps sent_pps ts capture)
          (λ b.
            then_Within mtu (send_nal nal final ts capture) (λ _. rest a b)
              (send_nal-Within mtu nal final ts capture)
              (λ _. send_units-Within mtu u nals a b ts capture)))
      s w

abbrev no_units : UnitScan
no_units = record { has_idr = false; has_sps = false; has_pps = false; emit = [] }

-- Whatever the stream is and however the call ends, each datagram that pack_annexb leaves in the
-- queue is at most as long as the MTU, and at most 1500 bytes.
pub pack_annexb-Small :
    (bytes : List ℕ) (pts capture_rt_ns : ℤ) (s : Packer)
    → All (Small s.cfg.mtu) (pack_annexb bytes pts capture_rt_ns s).0.queue
unfolding pack_annexb
pack_annexb-Small bytes pts capture_rt_ns s =
    let capture = positive_part capture_rt_ns in
    let empty : Within s.cfg.mtu (record s { queue = [] }) = record {
      same_mtu = refl;
      small = tt;
    } in
    let send : ℕ → UnitScan → Act Packer (Unit {0}) =
      λ ts u. send_units u u.emit false false ts capture in
    let sent =
      then_Within s.cfg.mtu (λ t. (t, pts_to_rtp_ts pts t.cfg.fps))
        (λ ts. scan_units (nals_of bytes) no_units >>= send ts) (λ t w. w)
        (λ ts.
          then_Within s.cfg.mtu (scan_units (nals_of bytes) no_units) (send ts)
            (scan_units-Within s.cfg.mtu (nals_of bytes) no_units)
            (λ u. send_units-Within s.cfg.mtu u u.emit false false ts capture))
        (record s { queue = [] }) empty in
    sent.small
