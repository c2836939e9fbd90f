-- ===== src/Model/Records.antt =====
-- parseRecords accepts exactly the packings "userId:totalBytes;userId:totalBytes".
use remnanode_exporter.Prelude.{
  ℕ, ◌≡◌, refl, sym, ap, ◌∙◌, ◌≢◌, ◌↔◌, false, Option, none, some, List, [], ◌∷◌, ◌++◌, map, arith,
  Text, text_eq, All, All-append, Result, ok, err, >>=-eq-ok, subst,
}
use remnanode_exporter.Strings.{split, cut}
use remnanode_exporter.Strings.Parts.{Lacks, cut-IsCut, cut-append, join, split-join}
use remnanode_exporter.Strconv.{NumError, parse_uint}
use remnanode_exporter.Strconv.ParseUint.{IsDigit, Spells, parse_uint_sound, parse_uint_complete}
use remnanode_exporter.Model.{
  UsageRecord, ParseError, malformed_record, bad_user_id, bad_total_bytes, or_fail, or_missing,
  parse_pair, parse_pairs, not_empty, parse_records,
}

-- One part of the packing spells one record.
pub record IsPair (pair : Text) (r : UsageRecord) : Type 0 where
  pub user : Text
  pub total : Text
  pub layout : pair ≡ user ++ b':' ∷ total
  pub user_spells : Spells user r.user_id
  pub total_spells : Spells total r.bytes

-- Parts that are empty count for nothing, every other one is a record.
pub data Unpacks : List Text → List UsageRecord → Type 0 where
  done : Unpacks [] []
  skip : {ps : List Text} {rs : List UsageRecord} → Unpacks ps rs → Unpacks ([] ∷ ps) rs
  pair :
      {p : Text} {r : UsageRecord} {ps : List Text} {rs : List UsageRecord}
      → IsPair p r
      → Unpacks ps rs
      → Unpacks (p ∷ ps) (r ∷ rs)

digits-Lacks : (s : Text) → All IsDigit s → Lacks b':' s
digits-Lacks [] h = tt
digits-Lacks (c ∷ s) (hc, h) = (omega arith, digits-Lacks s h)

pub or_fail-eq-ok :
    {A : Type 0} (f : NumError → ParseError) (r : Result NumError A) (a : A)
    → or_fail f r ≡ ok a
    → r ≡ ok a
unfolding or_fail
or_fail-eq-ok f (ok b) a h = ground arith
or_fail-eq-ok f (err e) a h = cc

pub or_missing-eq-ok :
    {A : Type 0} (e : ParseError) (o : Option A) (a : A) → or_missing e o ≡ ok a → o ≡ some a
unfolding or_missing
or_missing-eq-ok e none a h = cc
or_missing-eq-ok e (some b) a h = ground arith

IsCut-eq : (sep : ℕ) (s : Text) {h : Text × Text} → cut sep s ≡ some h → s ≡ h.0 ++ sep ∷ h.1
IsCut-eq sep s {h} e = (rw e at (cut-IsCut sep s)).0

record_of :
    (p : Text) {r : UsageRecord} (halves : Text × Text) (user total : ℕ)
    → p ≡ halves.0 ++ b':' ∷ halves.1
    → parse_uint halves.0 ≡ ok user
    → parse_uint halves.1 ≡ ok total
    → ◌≡◌ {A = Result ParseError UsageRecord} (ok (record { user_id = user; bytes = total })) (ok r)
    → IsPair p r
record_of p {r} halves user total layout eu et h = record {
  user = halves.0;
  total = halves.1;
  layout = layout;
  user_spells = parse_uint_sound halves.0 r.user_id (cc);
  total_spells = parse_uint_sound halves.1 r.bytes (cc);
}

parse_pair_sound : (p : Text) (r : UsageRecord) → parse_pair p ≡ ok r → IsPair p r
unfolding parse_pair
parse_pair_sound p r h =
    let (halves, e1, h1) = >>=-eq-ok (or_missing (malformed_record p) (cut b':' p)) _ h in
    let (user, e2, h2) = >>=-eq-ok (or_fail (λ _. bad_user_id p) (parse_uint halves.0)) _ h1 in
    let (total, e3, h3) = >>=-eq-ok (or_fail (λ _. bad_total_bytes p) (parse_uint halves.1)) _ h2 in
    record_of p halves user total (IsCut-eq b':' p (or_missing-eq-ok _ _ _ e1))
      (or_fail-eq-ok _ _ _ e2) (or_fail-eq-ok _ _ _ e3) h3

parse_pair_complete : (p : Text) (r : UsageRecord) → IsPair p r → parse_pair p ≡ ok r
unfolding parse_pair
parse_pair_complete p r h = rw (
  h.layout,
  cut-append b':' h.user h.total (digits-Lacks h.user h.user_spells.digits),
  parse_uint_complete h.user r.user_id h.user_spells,
  parse_uint_complete h.total r.bytes h.total_spells,
)

nil-ne-append : (a b : Text) → [] ≢ a ++ b':' ∷ b
nil-ne-append [] b h = cc
nil-ne-append (c ∷ a) b h = cc

IsPair-ne-nil : (p : Text) (r : UsageRecord) → IsPair p r → text_eq p [] ≡ false
IsPair-ne-nil [] r h = absurd (nil-ne-append h.user h.total h.layout)
IsPair-ne-nil (c ∷ p) r h = refl

parse_pairs_cons :
    (c : ℕ) (p : Text) (ps : List Text) {rs : List UsageRecord}
    → parse_pairs ((c ∷ p) ∷ ps) ≡ ok rs
    → (r : UsageRecord) × (rest : List UsageRecord) × (parse_pair (c ∷ p) ≡ ok r)
      × (parse_pairs ps ≡ ok rest)
      × (rs ≡ r ∷ rest)
unfolding parse_pairs
parse_pairs_cons c p ps h =
    let (r, e, h1) = >>=-eq-ok (parse_pair (c ∷ p)) _ h in
    let (rest, e', h2) = >>=-eq-ok (parse_pairs ps) _ h1 in (r, rest, e, e', ground arith)

parse_pairs_skip :
    (ps : List Text) {rs : List UsageRecord}
    → parse_pairs ([] ∷ ps) ≡ ok rs
    → parse_pairs ps ≡ ok rs
unfolding parse_pairs
parse_pairs_skip ps h = h

parse_pairs_sound :
    (ps : List Text) (rs : List UsageRecord) → parse_pairs ps ≡ ok rs → Unpacks ps rs
parse_pairs_sound [] rs h = unfold parse_pairs in subst (Unpacks []) (ground (arith, h)) done
parse_pairs_sound ([] ∷ ps) rs h = skip (parse_pairs_sound ps rs (parse_pairs_skip ps h))
parse_pairs_sound ((c ∷ p) ∷ ps) rs h =
    let (r, rest, e, e', q) = parse_pairs_cons c p ps h in
    subst (Unpacks ((c ∷ p) ∷ ps)) (sym q)
      (pair (parse_pair_sound (c ∷ p) r e) (parse_pairs_sound ps rest e'))

parse_pairs_complete :
    {ps : List Text} {rs : List UsageRecord} → Unpacks ps rs → parse_pairs ps ≡ ok rs
unfolding parse_pairs
parse_pairs_complete done = refl
parse_pairs_complete (skip u) = parse_pairs_complete u
parse_pairs_complete (pair {p = p} {r = r} h u) =
    rw (IsPair-ne-nil p r h, parse_pair_complete p r h, parse_pairs_complete u)

not_empty-eq-ok : (rs' rs : List UsageRecord) → not_empty rs' ≡ ok rs → (rs' ≡ rs) × (rs ≢ [])
unfolding not_empty
not_empty-eq-ok [] rs h = cc
not_empty-eq-ok (r ∷ rs') rs h = ground arith

parse_records_sound :
    (raw : Text) (rs : List UsageRecord)
    → parse_records raw ≡ ok rs
    → Unpacks (split b';' raw) rs × (rs ≢ [])
unfolding parse_records
parse_records_sound raw rs h =
    let (rs', e, h1) = >>=-eq-ok (parse_pairs (split b';' raw)) _ h in
    let (q, ne) = not_empty-eq-ok rs' rs h1 in (parse_pairs_sound _ rs (e ∙ ap ok q), ne)

not_empty-ne-nil : (rs : List UsageRecord) → rs ≢ [] → not_empty rs ≡ ok rs
unfolding not_empty
not_empty-ne-nil [] h = absurd (h refl)
not_empty-ne-nil (r ∷ rs) h = refl

parse_records_complete :
    (raw : Text) (rs : List UsageRecord)
    → Unpacks (split b';' raw) rs × (rs ≢ [])
    → parse_records raw ≡ ok rs
unfolding parse_records
parse_records_complete raw rs (u, ne) = rw (parse_pairs_complete u) (not_empty-ne-nil rs ne)

-- A `records` field decodes to `rs` exactly when its parts between semicolons, the empty ones left
-- out, are the records of `rs` in order, each a uint64 numeral, a colon and a uint64 numeral, and
-- there is at least one.
pub parse_records_iff :
    (raw : Text) (rs : List UsageRecord)
    → (parse_records raw ≡ ok rs) ↔ (Unpacks (split b';' raw) rs × (rs ≢ []))
parse_records_iff raw rs = (parse_records_sound raw rs, parse_records_complete raw rs)

abbrev pack_pair : Text × Text → Text
pack_pair (user, total) = user ++ b':' ∷ total

-- "userId:totalBytes;userId:totalBytes", as the panel writes it
unfoldable pub pack : List (Text × Text) → Text
unfolding join
pack ps = join b';' (map pack_pair ps)

abbrev pub SpellsAll : List (Text × Text) → List UsageRecord → Type 0
SpellsAll [] [] = Unit
SpellsAll [] (r ∷ rs) = ⊥
SpellsAll (p ∷ ps) [] = ⊥
SpellsAll (p ∷ ps) (r ∷ rs) = (Spells p.0 r.user_id × Spells p.1 r.bytes) × SpellsAll ps rs

digits-Lacks_semicolon : (s : Text) → All IsDigit s → Lacks b';' s
digits-Lacks_semicolon [] h = tt
digits-Lacks_semicolon (c ∷ s) (hc, h) = (omega arith, digits-Lacks_semicolon s h)

SpellsAll-Unpacks :
    (ps : List (Text × Text)) (rs : List UsageRecord)
    → SpellsAll ps rs
    → Unpacks (map pack_pair ps) rs × All (Lacks b';') (map pack_pair ps)
SpellsAll-Unpacks [] [] h = (done, tt)
SpellsAll-Unpacks [] (r ∷ rs) h = absurd h
SpellsAll-Unpacks (p ∷ ps) [] h = absurd h
SpellsAll-Unpacks ((u, b) ∷ ps) (r ∷ rs) ((hu, hb), h) =
    let (us, ls) = SpellsAll-Unpacks ps rs h in
    (
      pair (record { user = u; total = b; layout = refl; user_spells = hu; total_spells = hb }) us,
      (
        All-append (λ c. c ≢ b';') u (b':' ∷ b) (digits-Lacks_semicolon u hu.digits)
            (omega arith, digits-Lacks_semicolon b hb.digits),
        ls,
      ),
    )

-- A packing of one or more records, whose parts spell uint64 numbers, decodes to those numbers in
-- order.
pub parse_records-pack :
    (ps : List (Text × Text)) (rs : List UsageRecord)
    → ps ≢ []
    → SpellsAll ps rs
    → parse_records (pack ps) ≡ ok rs
unfolding pack
parse_records-pack [] rs h s = absurd (h refl)
parse_records-pack (p ∷ ps) [] h s = absurd s
parse_records-pack (p ∷ ps) (r ∷ rs) h s =
    let (us, ls) = SpellsAll-Unpacks (p ∷ ps) (r ∷ rs) s in
    parse_records_complete (join b';' (map pack_pair (p ∷ ps))) (r ∷ rs)
      (rw (split-join b';' (map pack_pair (p ∷ ps)) (cc) ls) us, cc)
