-- ===== src/Strconv.antt =====
-- strconv.ParseUint(s, 10, 64), strconv.Atoi and strconv.FormatUint.
pub mod ParseUint
use remnanode_exporter.Prelude.{
  ℕ, ◌+◌, ◌-◌, ◌*◌, ◌/◌, ◌%◌, ◌^◌, Bool, true, false, ◌||◌, [], ◌∷◌, ltb, leb, ◌==◌, if◌then◌else◌,
  Text, Result, ok, err, ◌>>=◌, ℤ, pos, negsuc,
}

-- strconv.ErrSyntax and strconv.ErrRange
pub data NumError : Type 0 where
  bad_syntax bad_range : NumError

abbrev pub u64_mod : ℕ
u64_mod = 2 ^ 64

-- maxUint64/10 + 1, the smallest n with n*10 out of range
abbrev pub cutoff : ℕ
cutoff = (u64_mod - 1) / 10 + 1

-- the loop of ParseUint: `n*10` and `n + d` are computed in uint64
unfoldable pub scan : Text → ℕ → Result NumError ℕ
scan [] n = ok n
scan (c ∷ s) n =
    let n1 = ((n * 10) % u64_mod + (c - b'0')) % u64_mod in
    let rest = scan s n1 in
    if ltb c b'0' || ltb b'9' c
    then err bad_syntax
    else if leb cutoff n
    then err bad_range
    else if ltb n1 ((n * 10) % u64_mod)
    then err bad_range
    else rest

unfoldable pub parse_uint : Text → Result NumError ℕ
unfolding scan
parse_uint [] = err bad_syntax
parse_uint (c ∷ s) = scan (c ∷ s) 0

-- Atoi is ParseInt(s, 10, 0) with 64-bit ints: a sign, then ParseUint, then the range of int64.
unfoldable pub signed : Bool → ℕ → Result NumError ℤ
signed neg n =
    if neg
    then (if ltb (2 ^ 63) n
        then err bad_range
        else if n == 0
        then ok (pos 0)
        else ok (negsuc (n - 1)))
    else (if leb (2 ^ 63) n then err bad_range else ok (pos n))

unfoldable pub atoi : Text → Result NumError ℤ
unfolding parse_uint signed
atoi [] = err bad_syntax
atoi (c ∷ s) =
    if c == b'+'
    then (parse_uint s >>= signed false)
    else if c == b'-'
    then (parse_uint s >>= signed true)
    else (parse_uint (c ∷ s) >>= signed false)
