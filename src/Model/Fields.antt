-- ===== src/Model/Fields.antt =====
-- What the accessors of Fields return: str, firstStr, required, checkVersion, uint and time.
use remnanode_exporter.Prelude.{
  ℕ, String, ◌≡◌, refl, sym, ◌∙◌, ◌≢◌, ◌⊎◌, inl, inr, false, Option, none, some, [], ◌∷◌, arith,
  if◌then◌else◌, Text, text_eq, text_eq_iff, ok, err, >>=-eq-ok, subst,
}
use remnanode_exporter.Strconv.ParseUint.{Spells, parse_uint_sound, parse_uint_complete}
use remnanode_exporter.Model.{
  first_str, Time, Fields, missing_field, unsupported_version, schema_version, field_str, or_empty,
  required, check_version, or_fail, or_missing, uint, Codec, time,
}
use remnanode_exporter.Model.Records.{or_fail-eq-ok, or_missing-eq-ok}

-- The map has a value for the key that prints as `s`, and `s` is not empty.
abbrev pub HasField : Fields → String → Text → Type 0
HasField f key s = (field_str f key ≡ some s) × (s ≢ [])

or_empty-ne-nil : (o : Option Text) (s : Text) → or_empty o ≡ s → s ≢ [] → o ≡ some s
unfolding or_empty
or_empty-ne-nil none s e h = absurd (h (sym e))
or_empty-ne-nil (some t) s e h = cc

pub text_eq-nil : (s : Text) → s ≢ [] → text_eq s [] ≡ false
text_eq-nil [] h = absurd (h refl)
text_eq-nil (c ∷ s) h = refl

pick :
    (key : String) (s : Text) (b : Text)
    → (if text_eq b [] then err (missing_field key) else ok b) ≡ ok s
    → (b ≡ s) × (s ≢ [])
pick key s [] h = cc
pick key s (c ∷ b) h = ground arith

pub required_sound :
    (f : Fields) (key : String) (s : Text) → required f key ≡ ok s → HasField f key s
unfolding required
required_sound f key s h =
    let (e, ne) = pick key s (or_empty (field_str f key)) h in
    (or_empty-ne-nil (field_str f key) s e ne, ne)

pub required_complete :
    (f : Fields) (key : String) (s : Text) → HasField f key s → required f key ≡ ok s
unfolding required or_empty
required_complete f key s (e, ne) = rw (e, text_eq-nil s ne)

pub uint_sound :
    (f : Fields) (key : String) (n : ℕ)
    → uint f key ≡ ok n
    → (s : Text) × HasField f key s × Spells s n
unfolding uint
uint_sound f key n h =
    let (s, e, h1) = >>=-eq-ok (required f key) _ h in
    (s, required_sound f key s e, parse_uint_sound s n (or_fail-eq-ok _ _ _ h1))

pub uint_complete :
    (f : Fields) (key : String) (s : Text) (n : ℕ)
    → HasField f key s
    → Spells s n
    → uint f key ≡ ok n
unfolding uint or_fail
uint_complete f key s n h p = rw (required_complete f key s h, parse_uint_complete s n p)

pub check_version_sound :
    (f : Fields) (v : Text) → check_version f ≡ ok v → HasField f "v" schema_version
unfolding check_version
check_version_sound f v h =
    let (s, e, h1) = >>=-eq-ok (required f "v") _ h in
    subst (HasField f "v") (same s h1) (required_sound f "v" s e)
  where
    same :
        (s : Text)
        → (if text_eq s schema_version then ok s else err (unsupported_version s)) ≡ ok v
        → s ≡ schema_version
    same s h1 = ground (arith, text_eq_iff s schema_version)

pub check_version_complete :
    (f : Fields) → HasField f "v" schema_version → check_version f ≡ ok schema_version
unfolding check_version
check_version_complete f h = rw (required_complete f "v" schema_version h)

-- The value of a key that may be missing or nil, in which case it is the empty text.
abbrev pub IsOptional : Fields → String → Text → Type 0
IsOptional f key s = (field_str f key ≡ some s) ⊎ ((field_str f key ≡ none) × (s ≡ []))

pub or_empty_sound :
    (o : Option Text) (s : Text) → or_empty o ≡ s → (o ≡ some s) ⊎ ((o ≡ none) × (s ≡ []))
unfolding or_empty
or_empty_sound none s h = inr (refl, sym h)
or_empty_sound (some t) s h = inl (cc)

pub or_empty_complete :
    (o : Option Text) (s : Text) → (o ≡ some s) ⊎ ((o ≡ none) × (s ≡ [])) → or_empty o ≡ s
unfolding or_empty
or_empty_complete none s (inl e) = cc
or_empty_complete none s (inr e) = sym e.1
or_empty_complete (some t) s (inl e) = cc
or_empty_complete (some t) s (inr e) = cc

-- The first spelling counts when it carries a text, the second one otherwise.
abbrev pub IsFirst : Fields → String → String → Text → Type 0
IsFirst f a b s = HasField f a s ⊎ (IsOptional f a [] × IsOptional f b s)

first_str_two :
    (f : Fields) (a b : String)
    → first_str f (a ∷ b ∷ []) ≡ (
        if text_eq (or_empty (field_str f a)) []
        then or_empty (field_str f b)
        else or_empty (field_str f a))
unfolding first_str
first_str_two f a b = go (or_empty (field_str f a)) (or_empty (field_str f b))
  where
    inner : (t : Text) → (if text_eq t [] then [] else t) ≡ t
    inner [] = refl
    inner (c ∷ t) = refl

    go :
        (s t : Text)
        → (if text_eq s [] then (if text_eq t [] then [] else t) else s)
          ≡ (if text_eq s [] then t else s)
    go [] t = inner t
    go (c ∷ s) t = refl

choose_sound :
    (r t s : Text)
    → (if text_eq r [] then t else r) ≡ s
    → ((r ≡ s) × (s ≢ [])) ⊎ ((r ≡ []) × (t ≡ s))
choose_sound [] t s h = inr (refl, h)
choose_sound (c ∷ r) t s h = inl (h, cc)

pub first_str_sound :
    (f : Fields) (a b : String) (s : Text) → first_str f (a ∷ b ∷ []) ≡ s → IsFirst f a b s
first_str_sound f a b s h =
    elim (choose_sound (or_empty (field_str f a)) (or_empty (field_str f b)) s
      (sym (first_str_two f a b) ∙ h)) [
        | inl p ↦ inl (or_empty-ne-nil (field_str f a) s p.0 p.1, p.1)
        | inr p ↦ inr (or_empty_sound (field_str f a) [] p.0, or_empty_sound (field_str f b) s p.1)
      ]

pub first_str_complete :
    (f : Fields) (a b : String) (s : Text) → IsFirst f a b s → first_str f (a ∷ b ∷ []) ≡ s
first_str_complete f a b s (inl (e, ne)) =
    first_str_two f a b ∙ rw (or_empty_complete (field_str f a) s (inl e), text_eq-nil s ne)
first_str_complete f a b s (inr (e, h)) =
    first_str_two f a b
    ∙ rw (or_empty_complete (field_str f a) [] e) (or_empty_complete (field_str f b) s h)

module _ (c : Codec) where
  pub time_sound :
      (f : Fields) (key : String) (t : Time)
      → time c f key ≡ ok t
      → (s : Text) × HasField f key s × (c.time_parse s ≡ some t)
  unfolding time
  time_sound f key t h =
      let (s, e, h1) = >>=-eq-ok (required f key) _ h in
      (s, required_sound f key s e, or_missing-eq-ok _ _ _ h1)

  pub time_complete :
      (f : Fields) (key : String) (s : Text) (t : Time)
      → HasField f key s
      → c.time_parse s ≡ some t
      → time c f key ≡ ok t
  unfolding time or_missing
  time_complete f key s t h p = rw (required_complete f key s h, p)
