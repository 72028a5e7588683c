-- ===== src/Rtp/Overrun.antt =====
-- The fragment buffer of `send_nal` against the configured MTU.
use vstreamer.Base.{
  ℕ, ◌+◌, ◌-◌, ◌<◌, ◌≤◌, ◌≡◌, arith, List, [], ◌∷◌, Bool, length, fault, ltb, true, lt→not_leb,
  le→not_ltb, refl,
}
use vstreamer.Rtp.Packer.{Packer, send_nal, send_fragments, chunk_len}

-- Without a capture instant, a unit that has to be split under an MTU of 1513 or more overruns the
-- fragment buffer of 1500 bytes in the first fragment.
pub send_nal-overruns :
    (nal0 : ℕ) (body : List ℕ) (marker : Bool) (ts : ℕ) (s : Packer)
    → 1513 ≤ s.cfg.mtu
    → s.cfg.mtu < 12 + length (nal0 ∷ body)
    → (send_nal (nal0 ∷ body) marker ts 0 s).1 ≡ fault
unfolding send_nal send_fragments chunk_len
send_nal-overruns nal0 [] marker ts s big split = absurd (omega arith)
send_nal-overruns nal0 (b ∷ body) marker ts s big split =
    rw
      (
        lt→not_leb (length (nal0 ∷ b ∷ body) + 12) s.cfg.mtu (omega arith),
        le→not_ltb s.cfg.mtu 15 (omega arith),
        over,
      )
      refl
  where
    over : ltb 1500 (chunk_len (length (b ∷ body)) (s.cfg.mtu - 12 - 2) + 2) ≡ true
    over = ground arith
