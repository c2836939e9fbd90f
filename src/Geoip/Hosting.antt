-- ===== src/Geoip/Hosting.antt =====
-- When an address counts as one of a hosting provider.
use remnanode_exporter.Netip.{Addr, Netip}
use remnanode_exporter.Strings.{trim_space, to_lower, contains}
use remnanode_exporter.Strings.Within.{IsWithin, contains_iff}
use remnanode_exporter.Geoip.{
  default_hosting_keywords, keywords_of, lower_all, is_local, AsnRecord, AsnDb, CityDb, add_asn,
  ask, replace_slot, reload, new, lookup_addr, lookup_parsed, lookup, Resolver, any_contained,
  is_hosting,
}
use remnanode_exporter.Prelude.{
  ℕ, ◌≡◌, refl, ◌≢◌, ◌↔◌, inl, inr, true, false, Option, some, List, [], ◌∷◌, map, arith,
  Bool-cases, Text, codes,
}

-- one of the keywords stands in `s` when it is lower-cased
pub data AnyWithin (fold : ℕ → ℕ) (s : Text) : List Text → Type 0 where
  here : {k : Text} {ks : List Text} → IsWithin s (to_lower fold k) → AnyWithin fold s (k ∷ ks)
  there : {k : Text} {ks : List Text} → AnyWithin fold s ks → AnyWithin fold s (k ∷ ks)

module _ (fold : ℕ → ℕ) (s : Text) where
  any_sound : (ks : List Text) → any_contained s (lower_all fold ks) ≡ true → AnyWithin fold s ks
  unfolding any_contained lower_all
  any_sound [] h = cc
  any_sound (k ∷ ks) h = elim (Bool-cases (contains s (to_lower fold k))) [
    | inl b ↦ here ((contains_iff s (to_lower fold k)).0 b)
    | inr b ↦ there (any_sound ks (ground (arith, b, h)))
  ]

  any_complete : (ks : List Text) → AnyWithin fold s ks → any_contained s (lower_all fold ks) ≡ true
  unfolding any_contained lower_all
  any_complete _ (here {k = k} h) = rw ((contains_iff s (to_lower fold k)).1 h) refl
  any_complete _ (there {k = k} {ks = ks} h) = ground (arith, any_complete ks h)

-- The name of an organisation is one of a hosting provider: it is not empty, and one of the keywords
-- that were given stands in it, or one of the default keywords if none was given.
pub data IsHosting (fold : ℕ → ℕ) (org : Text) : List Text → Type 0 where
  given :
      {k : Text} {ks : List Text}
      → org ≢ []
      → AnyWithin fold (to_lower fold org) (k ∷ ks)
      → IsHosting fold org (k ∷ ks)
  default :
      org ≢ []
      → AnyWithin fold (to_lower fold org) (map codes default_hosting_keywords)
      → IsHosting fold org []

module _ (fold : ℕ → ℕ) where
  IsHosting-sound :
      (org : Text) (ks : List Text)
      → (org ≢ []) × AnyWithin fold (to_lower fold org) (keywords_of ks)
      → IsHosting fold org ks
  unfolding keywords_of
  IsHosting-sound org [] (ne, h) = default ne h
  IsHosting-sound org (k ∷ ks) (ne, h) = given ne h

  IsHosting-complete :
      (org : Text) (ks : List Text)
      → IsHosting fold org ks
      → (org ≢ []) × AnyWithin fold (to_lower fold org) (keywords_of ks)
  unfolding keywords_of
  IsHosting-complete org _ (default ne h) = (ne, h)
  IsHosting-complete org _ (given ne h) = (ne, h)

  is_hosting_iff :
      (r : Resolver) (ks : List Text) (org : Text)
      → r.keywords ≡ lower_all fold ks
      → (is_hosting fold r org ≡ true) ↔ ((org ≢ []) × AnyWithin fold (to_lower fold org) ks)
  unfolding is_hosting
  is_hosting_iff r ks [] e = (λ h. cc, λ (ne, h). absurd (ne refl))
  is_hosting_iff r ks (c ∷ org) e = rw e (
    λ h. ((λ z. cc), any_sound fold (to_lower fold (c ∷ org)) ks h),
    λ (ne, h). any_complete fold (to_lower fold (c ∷ org)) ks h,
  )

module _ (ip : Netip) (fold : ℕ → ℕ) where
  -- Lookup marks an address as one of a hosting provider exactly by the name of its organisation: for
  -- a text that parses as an address which is not local, when the second database is open and has a
  -- record for it, the flag is true exactly when the organisation is not empty and one of the keywords
  -- stands in it, both lower-cased: the keywords that New was given, or the default ones when it was
  -- given none.
  pub lookup-IsHosting_iff :
      (keywords : List Text) (city : Option CityDb) (d : AsnDb) (raw : Text) (a : Addr)
      (rec : AsnRecord)
      → ip.parse_addr (trim_space raw) ≡ some a
      → is_local ip a ≡ false
      → d.lookup a ≡ some rec
      → ((lookup ip fold (new fold keywords city (some d)) raw).is_hosting ≡ true)
        ↔ IsHosting fold rec.org keywords
  unfolding lookup lookup_parsed lookup_addr new reload replace_slot ask add_asn
  lookup-IsHosting_iff keywords city d raw a rec e public known =
      let r = new fold keywords city (some d) in
      let marked = is_hosting_iff fold r (keywords_of keywords) rec.org refl in
      rw (e, public, known)
        (
          λ h. IsHosting-sound fold rec.org keywords (marked.0 h),
          λ h. marked.1 (IsHosting-complete fold rec.org keywords h),
        )
