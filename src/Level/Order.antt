-- ===== src/Level/Order.antt =====
-- How the level moves with the picture.
use native.Mathlib.Nat.{mul-le-mul}
use vstreamer.Base.{
  ℕ, List, ◌≤◌, ◌≡◌, ◌+◌, ◌∷◌, All, arith, true, ok, ◌/◌, Bool-cases, ◌*◌, [], inl, inr, bind-ok,
  pos, le→not_ltb, lt→not_leb, le→leb, ◌>>=◌, refl, subst, ◌∙◌, ap₂, ap, sym, ok_injective,
}
use vstreamer.Level.{
  LevelRow, levels, int_max, checked_int, ceil_div16, admits, first_level, h264_level_for_size,
}

-- No row after the first has a lower level, and none has more than the last.
abbrev Ascending : List LevelRow → Type 0
Ascending [] = Unit
Ascending (r ∷ rest) =
    (r.level_idc ≤ 52) × All (λ q. r.level_idc ≤ q.level_idc) rest × Ascending rest

first_level_least :
    (n fs mbps kbps : ℕ) (rows : List LevelRow)
    → n ≤ 52
    → All (λ q. n ≤ q.level_idc) rows
    → n ≤ first_level fs mbps kbps rows
unfolding first_level
first_level_least n fs mbps kbps [] h all = h
first_level_least n fs mbps kbps (r ∷ rest) h (hr, all) =
    let ih = first_level_least n fs mbps kbps rest h all in ground arith

first_level_most :
    (fs mbps kbps : ℕ) (rows : List LevelRow) → Ascending rows → first_level fs mbps kbps rows ≤ 52
unfolding first_level
first_level_most fs mbps kbps [] asc = omega arith
first_level_most fs mbps kbps (r ∷ rest) (h, all, asc) =
    let ih = first_level_most fs mbps kbps rest asc in ground arith

admits_less :
    (fs fs' mbps mbps' kbps kbps' : ℕ) (r : LevelRow)
    → fs ≤ fs'
    → mbps ≤ mbps'
    → kbps ≤ kbps'
    → admits fs' mbps' kbps' r ≡ true
    → admits fs mbps kbps r ≡ true
unfolding admits
admits_less fs fs' mbps mbps' kbps kbps' r hf hm hk e = ground arith

first_level_monotone :
    (fs fs' mbps mbps' kbps kbps' : ℕ) (rows : List LevelRow)
    → fs ≤ fs'
    → mbps ≤ mbps'
    → kbps ≤ kbps'
    → Ascending rows
    → first_level fs mbps kbps rows ≤ first_level fs' mbps' kbps' rows
unfolding first_level
first_level_monotone fs fs' mbps mbps' kbps kbps' [] hf hm hk asc = omega arith
first_level_monotone fs fs' mbps mbps' kbps kbps' (r ∷ rest) hf hm hk (h, all, asc) =
    elim (Bool-cases (admits fs' mbps' kbps' r)) [
      | inl e ↦ rw (e, admits_less fs fs' mbps mbps' kbps kbps' r hf hm hk e) (omega arith)
      | inr e ↦
          let ih = first_level_monotone fs fs' mbps mbps' kbps kbps' rest hf hm hk asc in
          let least = first_level_least r.level_idc fs' mbps' kbps' rest h all in
          elim (Bool-cases (admits fs mbps kbps r)) [
            | inl e' ↦ rw (e, e') least
            | inr e' ↦ rw (e, e') ih
          ]
    ]

levels-Ascending : Ascending levels
unfolding levels
levels-Ascending = ground arith

-- The macroblocks of a picture.
abbrev macroblocks : ℕ → ℕ → ℕ
macroblocks w h = ((w + 15) / 16) * ((h + 15) / 16)

checked_ok : (n m : ℕ) → checked_int n ≡ ok m → (n ≤ int_max) × (m ≡ n)
checked_ok n m e = ground arith

ceil_ok : (v m : ℕ) → ceil_div16 v ≡ ok m → (v + 15 ≤ int_max) × (m ≡ (v + 15) / 16)
unfolding ceil_div16
ceil_ok v m e =
    let (s, es, em) = bind-ok (checked_int (v + 15)) (λ s. ok (s / 16)) m e in
    let (h, d) = checked_ok (v + 15) s es in (h, ground arith)

-- A size that no `int` of the computation overflows, and the rates beside it.
abbrev Fits : ℕ → ℕ → ℕ → Type 0
Fits w h fps = (w + 15 ≤ int_max) × (h + 15 ≤ int_max) × (macroblocks w h * fps ≤ int_max)

level_of_ok :
    (w h fps kbps l : ℕ)
    → 2 ≤ w
    → 2 ≤ h
    → 1 ≤ fps
    → h264_level_for_size (pos w) (pos h) (pos fps) (pos kbps) ≡ ok l
    → Fits w h fps × (l ≡ first_level (macroblocks w h) (macroblocks w h * fps) kbps levels)
unfolding h264_level_for_size
level_of_ok w h fps kbps l hw hh hf e =
    let e' : (ceil_div16 w >>= (λ mb_w. ceil_div16 h >>= (λ mb_h.
      checked_int (mb_w * mb_h) >>= (λ max_fs.
        checked_int (max_fs * fps) >>= (λ mbps. ok (first_level max_fs mbps kbps levels))))))
        ≡ ok l =
      subst (λ b. b ≡ ok l) (rw (le→not_ltb w 2 hw, le→not_ltb h 2 hh, lt→not_leb fps 0 hf) refl)
        e in
    let (mb_w, ew, e1) = bind-ok _ _ l e' in
    let (mb_h, eh, e2) = bind-ok _ _ l e1 in
    let (fs, ef, e3) = bind-ok _ _ l e2 in
    let (mbps, em, e4) = bind-ok _ _ l e3 in
    let (bw, dw) = ceil_ok w mb_w ew in
    let (bh, dh) = ceil_ok h mb_h eh in
    let (bf, df) = checked_ok (mb_w * mb_h) fs ef in
    let (bm, dm) = checked_ok (fs * fps) mbps em in
    let size : fs ≡ macroblocks w h = df ∙ ap₂ (λ x y. x * y) dw dh in
    let rate : mbps ≡ macroblocks w h * fps = dm ∙ ap (λ x. x * fps) size in
    (
      (bw, bh, subst (λ x. x * fps ≤ int_max) size bm),
      sym (ok_injective e4) ∙ ap₂ (λ x y. first_level x y kbps levels) size rate,
    )

-- The rate is at least the size.
macroblocks_rate : (w h fps : ℕ) → 1 ≤ fps → macroblocks w h ≤ macroblocks w h * fps
macroblocks_rate w h fps hf = grind arith

level_of_Fits :
    (w h fps kbps : ℕ)
    → 2 ≤ w
    → 2 ≤ h
    → 1 ≤ fps
    → Fits w h fps
    → h264_level_for_size (pos w) (pos h) (pos fps) (pos kbps)
      ≡ ok (first_level (macroblocks w h) (macroblocks w h * fps) kbps levels)
unfolding h264_level_for_size ceil_div16
level_of_Fits w h fps kbps hw hh hf (fw, fh, fm) =
    let fs : macroblocks w h ≤ int_max = omega (arith, macroblocks_rate w h fps hf, fm) in
    rw
      (
        le→not_ltb w 2 hw,
        le→not_ltb h 2 hh,
        lt→not_leb fps 0 hf,
        le→leb (w + 15) int_max fw,
        le→leb (h + 15) int_max fh,
        le→leb (macroblocks w h) int_max fs,
        le→leb (macroblocks w h * fps) int_max fm,
      )
      refl

macroblocks_monotone : (w w' h h' : ℕ) → w ≤ w' → h ≤ h' → macroblocks w h ≤ macroblocks w' h'
macroblocks_monotone w w' h h' hw hh = mul-le-mul (omega arith) (omega arith)

-- A stream of at least 2 by 2 pixels and one picture a second that is no larger, no faster and of no
-- higher bit rate than one whose level is computed without overflow is given a level too, and it is
-- no higher. A bit rate of 0 is none.
pub h264_level_for_size_monotone :
    (w w' h h' fps fps' kbps kbps' l' : ℕ)
    → 2 ≤ w
    → 2 ≤ h
    → 1 ≤ fps
    → w ≤ w'
    → h ≤ h'
    → fps ≤ fps'
    → kbps ≤ kbps'
    → h264_level_for_size (pos w') (pos h') (pos fps') (pos kbps') ≡ ok l'
    → (l : ℕ) × (h264_level_for_size (pos w) (pos h) (pos fps) (pos kbps) ≡ ok l) × (l ≤ l')
h264_level_for_size_monotone w w' h h' fps fps' kbps kbps' l' hw hh hf kw kh kf kb e =
    let ((bw, bh, bm), el) =
      level_of_ok w' h' fps' kbps' l' (omega arith) (omega arith) (omega arith) e in
    let size = macroblocks_monotone w w' h h' kw kh in
    let rate : macroblocks w h * fps ≤ macroblocks w' h' * fps' = mul-le-mul size kf in
    (
      first_level (macroblocks w h) (macroblocks w h * fps) kbps levels,
      level_of_Fits w h fps kbps hw hh hf (omega arith, omega arith, omega (arith, rate, bm)),
      rw el (
          first_level_monotone (macroblocks w h) (macroblocks w' h') (macroblocks w h * fps)
            (macroblocks w' h' * fps') kbps kbps' levels size rate kb levels-Ascending),
    )

-- From 2 by 2 up to 16384 by 16384 pixels, at 1 up to 1000 pictures a second, no `int` overflows, and
-- the level is between 10 and 52.
pub h264_level_for_size_bounds :
    (w h fps kbps : ℕ)
    → 2 ≤ w
    → 2 ≤ h
    → 1 ≤ fps
    → w ≤ 16384
    → h ≤ 16384
    → fps ≤ 1000
    → (l : ℕ) × (h264_level_for_size (pos w) (pos h) (pos fps) (pos kbps) ≡ ok l)
      × (10 ≤ l)
      × (l ≤ 52)
unfolding levels
h264_level_for_size_bounds w h fps kbps hw hh hf bw bh bf =
    let size : macroblocks w h ≤ macroblocks 16384 16384 =
      macroblocks_monotone w 16384 h 16384 bw bh in
    let rate : macroblocks w h * fps ≤ macroblocks 16384 16384 * 1000 = mul-le-mul size bf in
    (
      first_level (macroblocks w h) (macroblocks w h * fps) kbps levels,
      level_of_Fits w h fps kbps hw hh hf (omega arith, omega arith, omega (arith, rate)),
      first_level_least 10 (macroblocks w h) (macroblocks w h * fps) kbps levels (omega arith)
          (ground arith),
      first_level_most (macroblocks w h) (macroblocks w h * fps) kbps levels levels-Ascending,
    )
