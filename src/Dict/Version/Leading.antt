-- ===== src/Dict/Version/Leading.antt =====
-- The number that leadingInt reads at the start of a text.
use remnanode_exporter.Prelude.{
  ℕ, ◌^◌, ◌<◌, ◌≡◌, refl, sym, ◌↔◌, inl, inr, false, ◌&&◌, none, some, [], ◌∷◌, ◌++◌, arith, leb,
  ◌==◌, if◌then◌else◌, Bool-cases, Text, length, All, ok, ◌>>=◌, Result-cases, ℤ, pos,
}
use remnanode_exporter.Strconv.{atoi, parse_uint, signed}
use remnanode_exporter.Strconv.ParseUint.{IsDigit, Spells, parse_uint_iff}
use remnanode_exporter.Dict.Version.{leading_digits, leading_int, ok_option}

-- the text does not start with a digit
abbrev pub EndsDigits : Text → Type 0
EndsDigits [] = Unit {0}
EndsDigits (c ∷ s) = IsDigit c → ⊥

-- The longest run of digits at the start of `s` is a numeral of an int, `z`.
pub record IsLeading (s : Text) (z : ℤ) : Type 0 where
  pub digits : Text
  pub rest : Text
  pub number : ℕ
  pub spelled : s ≡ digits ++ rest
  pub ends : EndsDigits rest
  pub spells : Spells digits number
  pub fits : number < 2 ^ 63
  pub is_number : z ≡ pos number

-- what is behind the digits
abbrev behind : Text → Text
behind [] = []
behind (c ∷ s) = if leb b'0' c && leb c b'9' then behind s else c ∷ s

leading_digits-behind : (s : Text) → s ≡ leading_digits s ++ behind s
unfolding leading_digits
leading_digits-behind [] = refl
leading_digits-behind (c ∷ s) = ground (arith, leading_digits-behind s)

leading_digits-IsDigit : (s : Text) → All IsDigit (leading_digits s)
unfolding leading_digits
leading_digits-IsDigit [] = tt
leading_digits-IsDigit (c ∷ s) =
    let ih = leading_digits-IsDigit s in
    elim (Bool-cases (leb b'0' c && leb c b'9')) [
      | inl e ↦ rw e (ground arith, ih)
      | inr e ↦ rw e tt
    ]

behind-EndsDigits : (s : Text) → EndsDigits (behind s)
behind-EndsDigits [] = tt
behind-EndsDigits (c ∷ s) =
    let ih = behind-EndsDigits s in
    elim (Bool-cases (leb b'0' c && leb c b'9')) [
      | inl e ↦ rw e ih
      | inr e ↦ rw e (λ (lo, hi). ground arith)
    ]

leading_digits-append :
    (ds rest : Text) → All IsDigit ds → EndsDigits rest → leading_digits (ds ++ rest) ≡ ds
unfolding leading_digits
leading_digits-append [] [] h k = refl
leading_digits-append [] (c ∷ rest) h k = elim (Bool-cases (leb b'0' c && leb c b'9')) [
  | inl e ↦ absurd (k (ground arith))
  | inr e ↦ rw e refl
]
leading_digits-append (d ∷ ds) rest (h, hs) k = ground (arith, leading_digits-append ds rest hs k)

-- a text that starts with a digit has no sign
atoi_digits : (c : ℕ) (s : Text) → IsDigit c → atoi (c ∷ s) ≡ (parse_uint (c ∷ s) >>= signed false)
unfolding atoi
atoi_digits c s (lo, hi) = ground arith

signed-pos : (n : ℕ) → n < 2 ^ 63 → signed false n ≡ ok (pos n)
unfolding signed
signed-pos n h = ground arith

signed-pos_sound : (n : ℕ) (z : ℤ) → signed false n ≡ ok z → (n < 2 ^ 63) × (z ≡ pos n)
unfolding signed
signed-pos_sound n z h = ground arith

parsed_sound :
    (c : ℕ) (s : Text) (z : ℤ)
    → ok_option (parse_uint (c ∷ s) >>= signed false) ≡ some z
    → (n : ℕ) × Spells (c ∷ s) n × (n < 2 ^ 63) × (z ≡ pos n)
unfolding ok_option
parsed_sound c s z h = elim (Result-cases (parse_uint (c ∷ s))) [
  | inr (e, f) ↦ let k : ok_option (parse_uint (c ∷ s) >>= signed false) ≡ none = rw f refl in cc
  | inl (n, f) ↦ elim (Result-cases (signed false n)) [
    | inr (e, g) ↦
        let k : ok_option (parse_uint (c ∷ s) >>= signed false) ≡ none = rw (f, g) refl in cc
    | inl (y, g) ↦
        let k : ok_option (parse_uint (c ∷ s) >>= signed false) ≡ some y = rw (f, g) refl in
        let (fits, e) = signed-pos_sound n y g in (n, (parse_uint_iff (c ∷ s) n).0 f, fits, cc)
  ]
]

number_of :
    (ds : Text) (z : ℤ)
    → All IsDigit ds
    → (if length ds == 0 then none else ok_option (atoi ds)) ≡ some z
    → (n : ℕ) × Spells ds n × (n < 2 ^ 63) × (z ≡ pos n)
number_of [] z h e = cc
number_of (c ∷ s) z (h, hs) e = parsed_sound c s z (rw (sym (atoi_digits c s h)) (ground arith))

number_complete :
    (ds : Text) (n : ℕ)
    → Spells ds n
    → n < 2 ^ 63
    → (if length ds == 0 then none else ok_option (atoi ds)) ≡ some (pos n)
unfolding ok_option
number_complete [] n h fits = absurd (h.nonempty refl)
number_complete (c ∷ s) n h fits =
    let (hc, hs) = h.digits in
    let e : (length (c ∷ s) == 0) ≡ false = ground arith in
    rw (e, atoi_digits c s hc, (parse_uint_iff (c ∷ s) n).1 h, signed-pos n fits) refl

pub leading_int_iff : (s : Text) (z : ℤ) → (leading_int s ≡ some z) ↔ IsLeading s z
unfolding leading_int
leading_int_iff s z = (
  λ e.
      let (n, spells, fits, is) = number_of (leading_digits s) z (leading_digits-IsDigit s) e in
      record {
        digits = leading_digits s;
        rest = behind s;
        number = n;
        spelled = leading_digits-behind s;
        ends = behind-EndsDigits s;
        spells = spells;
        fits = fits;
        is_number = is;
      },
  λ h.
      rw (h.spelled, leading_digits-append h.digits h.rest h.spells.digits h.ends, h.is_number)
        (number_complete h.digits h.number h.spells h.fits),
)
