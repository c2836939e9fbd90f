-- ===== src/Strconv/ParseUint.antt =====
-- What strconv.ParseUint accepts, and what it returns.
use remnanode_exporter.Prelude.{
  ℕ, ◌+◌, ◌-◌, ◌*◌, ◌%◌, ◌≤◌, ◌<◌, ◌≡◌, refl, sym, ap, ◌∙◌, ◌≢◌, ◌↔◌, [], ◌∷◌, arith, Text, All, ok,
}
use remnanode_exporter.Strconv.{u64_mod, scan, parse_uint}

abbrev pub IsDigit : ℕ → Type 0
IsDigit c = (b'0' ≤ c) × (c ≤ b'9')

-- the number that digits spell behind `n`, with no bound
abbrev pub value : ℕ → Text → ℕ
value n [] = n
value n (c ∷ s) = value (n * 10 + (c - b'0')) s

-- `s` is a decimal numeral of a uint64.
pub record Spells (s : Text) (n : ℕ) : Type 0 where
  pub nonempty : s ≢ []
  pub digits : All IsDigit s
  pub exact : value 0 s ≡ n
  pub fits : n < u64_mod

le-value : (digits : Text) (m : ℕ) → m ≤ value m digits
le-value [] m = omega arith
le-value (d ∷ ds) m = let m' = m * 10 + (d - b'0') in omega (arith, le-value ds m')

-- one round on a digit, when the result fits
scan_step :
    (c : ℕ) (s : Text) (n : ℕ)
    → IsDigit c
    → n * 10 + (c - b'0') < u64_mod
    → scan (c ∷ s) n ≡ scan s (n * 10 + (c - b'0'))
unfolding scan
scan_step c s n (lo, hi) fits =
    let e : ((n * 10) % u64_mod + (c - b'0')) % u64_mod ≡ n * 10 + (c - b'0') = omega arith in
    let e' : (n * 10) % u64_mod ≡ n * 10 = omega arith in rw (e, e') (ground arith)

scan_complete : (s : Text) (n : ℕ) → All IsDigit s → value n s < u64_mod → scan s n ≡ ok (value n s)
scan_complete [] n _ _ = unfold scan in refl
scan_complete (c ∷ s) n (hc, hs) fits =
    let m = n * 10 + (c - b'0') in
    scan_step c s n hc (omega (arith, le-value s m)) ∙ scan_complete s m hs fits

-- a round that does not fail read a digit, and nothing wrapped around
scan_step_ok :
    (c : ℕ) (s : Text) (n r : ℕ)
    → n < u64_mod
    → scan (c ∷ s) n ≡ ok r
    → IsDigit c × (n * 10 + (c - b'0') < u64_mod)
unfolding scan
scan_step_ok c s n r h e = ground arith

scan_sound :
    (s : Text) (n r : ℕ)
    → n < u64_mod
    → scan s n ≡ ok r
    → All IsDigit s × (value n s ≡ r) × (r < u64_mod)
scan_sound [] n r fits h = unfold scan in ground arith
scan_sound (c ∷ s) n r fits h =
    let (hc, fits') = scan_step_ok c s n r fits h in
    let (hs, e, b) =
      scan_sound s (n * 10 + (c - b'0')) r fits' (sym (scan_step c s n hc fits') ∙ h) in
    ((hc, hs), e, b)

pub parse_uint_sound : (s : Text) (n : ℕ) → parse_uint s ≡ ok n → Spells s n
unfolding parse_uint
parse_uint_sound [] n h = cc
parse_uint_sound (c ∷ s) n h =
    let (ds, e, b) = scan_sound (c ∷ s) 0 n (omega arith) h in
    record { nonempty = cc; digits = ds; exact = e; fits = b }

pub parse_uint_complete : (s : Text) (n : ℕ) → Spells s n → parse_uint s ≡ ok n
unfolding parse_uint
parse_uint_complete [] n h = absurd (h.nonempty refl)
parse_uint_complete (c ∷ s) n h =
    scan_complete (c ∷ s) 0 h.digits (omega (arith, h.exact, h.fits)) ∙ ap ok h.exact

-- `ParseUint(s, 10, 64)` returns n with no error exactly when s is a nonempty string of digits that
-- spells n without overflow.
pub parse_uint_iff : (s : Text) (n : ℕ) → (parse_uint s ≡ ok n) ↔ Spells s n
parse_uint_iff s n = (parse_uint_sound s n, parse_uint_complete s n)
