-- ===== src/Rtp/Delivery/Feed.antt =====
-- `feed` on a datagram of the packer.
use vstreamer.Base.{
  ℕ, List, Bool, ◌<◌, Outcome, ◌^◌, ◌∷◌, false, ok, ◌≡◌, pos, [], some, none, true, refl, ◌>>=◌,
  arith, err, fault,
}
use vstreamer.Rtp.Packer.{Config, datagram}
use vstreamer.Rtp.Depacketizer.{
  Depacketizer, ParsedRtp, arrive, settle, process_payload, feed_parsed, feed,
}
use vstreamer.Rtp.Datagram.{parse-datagram}
use vstreamer.Rtp.InOrder.{At, is_late-false}

-- Feeds datagrams in turn, up to an error, and collects the access units.
unfoldable pub feed_all : List (List ℕ) → Depacketizer → Depacketizer × Outcome (List (List ℕ))
feed_all [] s = (s, ok [])
feed_all (d ∷ ds) s =
    let r = feed d s in
    let rest = feed_all ds r.0 in
    elim r.1 [
      | ok none ↦ rest
      | ok (some au) ↦ (rest.0, rest.1 >>= λ aus. ok (au ∷ aus))
      | err e ↦ (r.0, err e)
      | fault ↦ (r.0, fault)
    ]

pub feed_all-quiet :
    (d : List ℕ) (ds : List (List ℕ)) (s s' : Depacketizer)
    → feed d s ≡ (s', ok none)
    → feed_all (d ∷ ds) s ≡ feed_all ds s'
unfolding feed_all
feed_all-quiet d ds s s' e = ground (arith, e)

pub feed_all-last :
    (d au : List ℕ) (s s' : Depacketizer)
    → feed d s ≡ (s', ok (some au))
    → feed_all (d ∷ []) s ≡ (s', ok (au ∷ []))
unfolding feed_all
feed_all-last d au s s' e = ground (arith, e)

-- The fields of a datagram fit their widths.
pub record Fits (cfg : Config) (ts capture : ℕ) : Type 0 where
  pub pt_fits : cfg.payload_type < 128
  pub ts_fits : ts < 2 ^ 32
  pub capture_fits : capture < 2 ^ 63

module _ (seq ts capture b : ℕ) (payload : List ℕ) where
  abbrev pub parsed : Bool → ParsedRtp
  parsed marker = record {
    seq = seq;
    ts = ts;
    marker = marker;
    payload = b ∷ payload;
    capture_rt_ns = pos capture;
  }

module _ (cfg : Config) (seq ts capture b : ℕ) (payload : List ℕ) (s s' : Depacketizer) where
  abbrev packet : Bool → ParsedRtp
  packet = parsed seq ts capture b payload

  pub feed_lem :
      (marker : Bool) (au : List ℕ) (active : Bool) (buf : List ℕ)
      → Fits cfg ts capture
      → seq < 2 ^ 16
      → At seq ts au active buf s
      → process_payload (b ∷ payload) (arrive (packet marker) s) ≡ (s', ok tt)
      → feed (datagram cfg seq marker ts capture (b ∷ payload)) s
        ≡ settle (packet marker) s' (ok tt)
  unfolding feed feed_parsed
  feed_lem marker au active buf fits small h e =
      let pd =
        parse-datagram cfg seq ts b marker payload capture fits.pt_fits small fits.ts_fits
          fits.capture_fits in
      let on_time = is_late-false seq ts au active buf (packet marker) s refl refl small h in
      ground (arith, pd, on_time, e)

  pub settle_open :
      (seq' : ℕ) (au : List ℕ) (active : Bool) (buf : List ℕ)
      → At seq' ts au active buf s'
      → settle (packet false) s' (ok tt) ≡ (s', ok none)
  unfolding settle
  settle_open seq' au active buf h = ground (arith, h.none_waiting)

  pub settle_marked :
      (seq' x : ℕ) (xs au : List ℕ)
      → au ≡ x ∷ xs
      → At seq' ts au false [] s'
      → (r : Depacketizer) × (settle (packet true) s' (ok tt) ≡ (r, ok (some au)))
        × ((ts' : ℕ) → At seq' ts' [] false [] r)
  unfolding settle
  settle_marked seq' x xs au e h =
      let last = settle (packet true) s' (ok tt) in
      (
        last.0,
        ground (arith, h.built, h.none_waiting),
        λ ts'. record {
          built = ground (arith, h.built, h.none_waiting);
          unbroken = ground (arith, h.built, h.none_waiting);
          fu_state = ground (arith, h.built, h.none_waiting, h.fu_state);
          fu_bytes = ground (arith, h.built, h.none_waiting, h.fu_bytes);
          none_waiting = ground (arith, h.built, h.none_waiting);
          follows = ground (arith, h.built, h.none_waiting, h.follows);
          same_unit = ground (arith, h.built, h.none_waiting);
        },
      )
