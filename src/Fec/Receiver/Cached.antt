-- ===== src/Fec/Receiver/Cached.antt =====
-- Why decode_block stays in the cache of its tables.
use vstreamer.Base.{
  ok, err, fault, Outcome, ℕ, ◌+◌, ◌<◌, ◌≡◌, arith, List, [], ◌∷◌, true, length, ltb, Option, some,
  ◌||◌, none, ◌-◌, Bool, einval, false, lt→ltb, if◌then◌else◌,
}
use vstreamer.Fec.Header.{ShardHeader, unpack_header, accept_header}
use vstreamer.Fec.Codec.{Isal, Frags, absent}
use vstreamer.Fec.Decode.{decode_block, decode_rest, longest_body}

-- A header has 4 bits for `k` and for `n`.
pub unpack_header-small :
    (d : List ℕ) (h : ShardHeader) → unpack_header d ≡ some h → (h.k < 16) × (h.n < 16)
unfolding unpack_header accept_header
unpack_header-small [] h e = absurd (ground (arith, e))
unpack_header-small (a ∷ []) h e = absurd (ground (arith, e))
unpack_header-small (a ∷ b ∷ []) h e = absurd (ground (arith, e))
unpack_header-small (a ∷ b ∷ c ∷ []) h e = absurd (ground (arith, e))
unpack_header-small (a ∷ b ∷ c ∷ d ∷ body) h e = ground (arith, e)

-- The outcome of a decoding that stays in the cache.
unfoldable pub InCache : Outcome (List (List ℕ) × ℕ) → Type 0
InCache (ok decoded) = Unit
InCache (err e) = Unit
InCache fault = ⊥

InCache-if :
    (b : Bool) (x y : Outcome (List (List ℕ) × ℕ))
    → InCache x
    → InCache y
    → InCache (if b then x else y)
InCache-if true x y hx hy = hx
InCache-if false x y hx hy = hy

pub decode_block-InCache :
    (isal : Isal) (k n sdu_n : ℕ) (frags : Frags)
    → k < 16
    → n < 16
    → InCache (decode_block isal k n sdu_n frags)
unfolding decode_block InCache
decode_block-InCache isal k n sdu_n frags hk hn =
    InCache-if (ltb k 1 || ltb n k || ltb 255 n || ltb k sdu_n) _ _ tt (
      InCache-if (ltb (length frags + absent (k - sdu_n) sdu_n frags) k) _ _ tt
        (rw (lt→ltb k 16 hk, lt→ltb n 16 hn) (decoded (longest_body n frags 2))))
  where
    decoded :
        (l : Option ℕ)
        → InCache (elim l as (λ x. Outcome (List (List ℕ) × ℕ)) [
          | none ↦ err einval
          | some len ↦ elim (decode_rest isal k n sdu_n frags len) [
            | none ↦ err einval
            | some r ↦ ok r
          ]
        ])
    decoded none = tt
    decoded (some len) = rest (decode_rest isal k n sdu_n frags len)
      where
        rest :
            (r : Option (List (List ℕ) × ℕ))
            → InCache
                (elim r as (λ x. Outcome (List (List ℕ) × ℕ)) [ none ↦ err einval | some r ↦ ok r ])
        rest none = tt
        rest (some r) = tt
