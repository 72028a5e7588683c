-- ===== src/Rtp/Annexb.antt =====
-- `nal_type` and `parse_annexb_nals`: the NAL units between the start codes of a byte stream.
use vstreamer.Base.{
  ℕ, zero, suc, List, [], ◌∷◌, ◌&&◌, ◌||◌, ◌==◌, if◌then◌else◌, Option, none, some, bit_and, length,
  take, drop,
}

-- `none` is the -1 of an empty unit.
unfoldable pub nal_type : List ℕ → Option ℕ
nal_type [] = none
nal_type (b ∷ nal) = some (bit_and b 0x1f)

-- The length of the start code at the front, 0 if there is none, where at least four bytes are left
-- (`i + 3 < size`).
unfoldable pub start_code : List ℕ → ℕ
start_code (a ∷ b ∷ c ∷ d ∷ rest) =
    if a == 0 && b == 0 && c == 1 then 3 else if a == 0 && b == 0 && c == 0 && d == 1 then 4 else 0
start_code bytes = 0

-- The inner loop, from `j` on: the bytes of the unit, up to the next start code or, with fewer than
-- four bytes left, to the end.
unfoldable pub nal_len : List ℕ → ℕ
nal_len (a ∷ b ∷ c ∷ d ∷ rest) =
    let longer = suc (nal_len (b ∷ c ∷ d ∷ rest)) in
    if a == 0 && b == 0 && (c == 1 || (c == 0 && d == 1)) then 0 else longer
nal_len bytes = length bytes

-- The outer loop from `i` on, with `bytes` what is left there. Each round takes a byte at least.
unfoldable pub scan_nals : ℕ → List ℕ → List (List ℕ)
scan_nals zero bytes = []
scan_nals (suc fuel) (a ∷ b ∷ c ∷ d ∷ rest) =
    let bytes = a ∷ b ∷ c ∷ d ∷ rest in
    let sc = start_code bytes in
    let next = scan_nals fuel (b ∷ c ∷ d ∷ rest) in
    let body = drop sc bytes in
    let len = nal_len body in
    let later = scan_nals fuel (drop len body) in
    if sc == 0 then next else if len == 0 then later else take len body ∷ later
scan_nals (suc fuel) bytes = []

unfoldable pub parse_annexb_nals : List ℕ → List (List ℕ)
unfolding scan_nals start_code nal_len
parse_annexb_nals bytes = scan_nals (length bytes) bytes
