-- ===== src/Business/Executor/Dates/RoundTrip.antt =====
-- business/executor.py: a date's ISO text is read back.
use mathlib.Core.List.{reverse, reverse-reverse}
use bfsi_voice_agent.Prelude.{
  ℕ, ◌+◌, ◌*◌, ◌/◌, ◌%◌, ◌≤◌, ◌≡◌, refl, true, false, ◌&&◌, ◌==◌, leb, some, [], ◌∷◌, Text, lower,
  is_digit, is_space, span_digits, strip, strip_left, arith, FirstBlack,
}
use bfsi_voice_agent.Business.Executor.Dates.{
  days_in_month, Date, is_valid, number, day_number, value_from, read_directive, read_format,
  first_format, ymd, epoch, without_commas, parse_date_string, isoformat,
}

digit_facts :
    (a : ℕ)
    → a ≤ 9
    → (is_digit (48 + a) ≡ true)
      × (is_space (48 + a) ≡ false)
      × ((48 + a == 44) ≡ false)
      × ((leb 65 (48 + a) && leb (48 + a) 90) ≡ false)
      × ((48 + a == 32) ≡ false)
digit_facts a h =
    (ground (arith, h), ground (arith, h), ground (arith, h), ground (arith, h), ground (arith, h))

strip_left-black : (t : Text) → FirstBlack t → strip_left t ≡ t
strip_left-black [] h = refl
strip_left-black (c ∷ t) h = rw h refl

strip-black : (t : Text) → FirstBlack t → FirstBlack (reverse t) → strip t ≡ t
unfolding strip
strip-black t first last =
    rw (strip_left-black t first, strip_left-black (reverse t) last) (reverse-reverse t)

-- The text of a date by its digits.
abbrev iso : ℕ → ℕ → ℕ → ℕ → ℕ → ℕ → ℕ → ℕ → Text
iso a b c e f g h i =
    (48 + a)
    ∷ (48 + b)
    ∷ (48 + c)
    ∷ (48 + e)
    ∷ 45
    ∷ (48 + f)
    ∷ (48 + g)
    ∷ 45
    ∷ (48 + h)
    ∷ (48 + i)
    ∷ []

module _ (a b c e f g h i : ℕ) (ha : a ≤ 9) (hb : b ≤ 9) (hc : c ≤ 9) (he : e ≤ 9) (hf : f ≤ 9)
    (hg : g ≤ 9) (hh : h ≤ 9) (hi : i ≤ 9) where
  iso-clean : lower (without_commas (strip (iso a b c e f g h i))) ≡ iso a b c e f g h i
  unfolding without_commas
  iso-clean =
      let (da, sa, ca, ua, ba) = digit_facts a ha in
      let (db, sb, cb, ub, bb) = digit_facts b hb in
      let (dc, sc, cc_, uc, bc) = digit_facts c hc in
      let (de, se, ce, ue, be) = digit_facts e he in
      let (df, sf, cf, uf, bf) = digit_facts f hf in
      let (dg, sg, cg, ug, bg) = digit_facts g hg in
      let (dh, sh, ch, uh, bh) = digit_facts h hh in
      let (di, si, ci, ui, bi) = digit_facts i hi in
      rw
        (
          strip-black (iso a b c e f g h i) sa si,
          ca,
          cb,
          cc_,
          ce,
          cf,
          cg,
          ch,
          ci,
          ua,
          ub,
          uc,
          ue,
          uf,
          ug,
          uh,
          ui,
        )
        refl

  four_digits :
      (rest : Text)
      → span_digits ((48 + a) ∷ (48 + b) ∷ (48 + c) ∷ (48 + e) ∷ 45 ∷ rest)
        ≡ ((48 + a) ∷ (48 + b) ∷ (48 + c) ∷ (48 + e) ∷ [], 45 ∷ rest)
  four_digits rest =
      rw ((digit_facts a ha).0, (digit_facts b hb).0, (digit_facts c hc).0, (digit_facts e he).0)
        refl

  year_read :
      (y : ℕ) (rest : Text)
      → y ≡ ((a * 10 + b) * 10 + c) * 10 + e
      → number 4 4 0 9999 ((48 + a) ∷ (48 + b) ∷ (48 + c) ∷ (48 + e) ∷ 45 ∷ rest)
        ≡ some (y, 45 ∷ rest)
  unfolding number
  year_read y rest same =
      let n : value_from 0 ((48 + a) ∷ (48 + b) ∷ (48 + c) ∷ (48 + e) ∷ []) ≡ y =
        omega (arith, same) in
      let small : leb y 9999 ≡ true = ground (arith, same, ha, hb, hc, he) in
      let least : leb 0 y ≡ true = ground arith in rw (four_digits rest, n, least, small) refl

  month_read :
      (m : ℕ) (rest : Text)
      → m ≡ f * 10 + g
      → leb 1 m ≡ true
      → leb m 12 ≡ true
      → number 1 2 1 12 ((48 + f) ∷ (48 + g) ∷ 45 ∷ rest) ≡ some (m, 45 ∷ rest)
  unfolding number
  month_read m rest same low high =
      let n : value_from 0 ((48 + f) ∷ (48 + g) ∷ []) ≡ m = omega (arith, same) in
      rw ((digit_facts f hf).0, (digit_facts g hg).0, n, low, high) refl

  day_read :
      (d : ℕ)
      → d ≡ h * 10 + i
      → leb 1 d ≡ true
      → leb d 31 ≡ true
      → day_number ((48 + h) ∷ (48 + i) ∷ []) ≡ some (d, [])
  unfolding number day_number
  day_read d same low high =
      let n : value_from 0 ((48 + h) ∷ (48 + i) ∷ []) ≡ d = omega (arith, same) in
      let (dh, sh, ch, uh, bh) = digit_facts h hh in
      rw (bh, dh, (digit_facts i hi).0, n, low, high) refl

  iso_format :
      (d : Date)
      → is_valid d ≡ true
      → d.year ≡ ((a * 10 + b) * 10 + c) * 10 + e
      → d.month ≡ f * 10 + g
      → d.day ≡ h * 10 + i
      → leb 1 d.month ≡ true
      → leb d.month 12 ≡ true
      → leb 1 d.day ≡ true
      → leb d.day 31 ≡ true
      → read_format ymd epoch (iso a b c e f g h i)
        ≡ some (record epoch { year = d.year; month = d.month; day = d.day })
  unfolding read_format read_directive
  iso_format d valid sy sm sd m1 m12 d1 d31 =
      rw
        (
          read_format,
          read_directive,
          year_read d.year ((48 + f) ∷ (48 + g) ∷ 45 ∷ (48 + h) ∷ (48 + i) ∷ []) sy,
          month_read d.month ((48 + h) ∷ (48 + i) ∷ []) sm m1 m12,
          day_read d.day sd d1 d31,
          valid,
        )
        refl

  iso_parsed :
      (d : Date)
      → read_format ymd epoch (iso a b c e f g h i)
        ≡ some (record epoch { year = d.year; month = d.month; day = d.day })
      → parse_date_string (iso a b c e f g h i) ≡ some d
  unfolding parse_date_string first_format
  iso_parsed d first = rw (parse_date_string, iso-clean, first_format, first) refl

days_at_most : (y m : ℕ) → leb (days_in_month y m) 31 ≡ true
days_at_most y m = ground arith

-- A date's ISO text is read as this date: the text that `isoformat` prints for a date of the
-- calendar is parsed to the same date.
pub iso_round_trip : (d : Date) → is_valid d ≡ true → parse_date_string (isoformat d) ≡ some d
unfolding isoformat
iso_round_trip d valid =
    let y_hi : leb d.year 9999 ≡ true = ground (arith, valid) in
    let m1 : leb 1 d.month ≡ true = ground (arith, valid) in
    let m12 : leb d.month 12 ≡ true = ground (arith, valid) in
    let d1 : leb 1 d.day ≡ true = ground (arith, valid) in
    let dm : leb d.day (days_in_month d.year d.month) ≡ true = ground (arith, valid) in
    let d31 : leb d.day 31 ≡ true = ground (arith, dm, days_at_most d.year d.month) in
    let a = d.year / 1000 in
    let b = d.year / 100 % 10 in
    let c = d.year / 10 % 10 in
    let e = d.year % 10 in
    let f = d.month / 10 % 10 in
    let g = d.month % 10 in
    let h = d.day / 10 % 10 in
    let i = d.day % 10 in
    let ha : a ≤ 9 = ground (arith, y_hi) in
    let hb : b ≤ 9 = omega arith in
    let hc : c ≤ 9 = omega arith in
    let he : e ≤ 9 = omega arith in
    let hf : f ≤ 9 = omega arith in
    let hg : g ≤ 9 = omega arith in
    let hh : h ≤ 9 = omega arith in
    let hi : i ≤ 9 = omega arith in
    iso_parsed a b c e f g h i ha hb hc he hf hg hh hi d (
      iso_format a b c e f g h i ha hb hc he hf hg hh hi d valid (ground (arith, y_hi))
        (ground (arith, m12)) (ground (arith, d31)) m1 m12 d1 d31)
