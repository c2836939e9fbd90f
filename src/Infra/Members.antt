-- ===== src/Infra/Members.antt =====
-- What the set of the panel's own addresses contains.
use remnanode_exporter.Strings.{trim_space}
use remnanode_exporter.Netip.{Netip, unmap, Addr}
use remnanode_exporter.Prelude.{
  ◌≡◌, refl, sym, ◌∙◌, ◌↔◌, inl, inr, Bool, true, false, ◌||◌, some, List, [], ◌∷◌, ◌++◌, arith,
  Bool-cases, Option-cases, Text, text_eq_iff, subst,
}
use remnanode_exporter.Netip.{no_addr, v4, v6}
use remnanode_exporter.Infra.{IpSet, holds, replace, contains, put_all, put_addr, addr_eq, has_addr}

addr_eq_iff : (a b : Addr) → (addr_eq a b ≡ true) ↔ (a ≡ b)
unfolding addr_eq
addr_eq_iff no_addr no_addr = ground arith
addr_eq_iff no_addr (v4 n) = ground arith
addr_eq_iff no_addr (v6 n z) = ground arith
addr_eq_iff (v4 m) no_addr = ground arith
addr_eq_iff (v4 m) (v4 n) = ground arith
addr_eq_iff (v4 m) (v6 n z) = ground arith
addr_eq_iff (v6 m y) no_addr = ground arith
addr_eq_iff (v6 m y) (v4 n) = ground arith
addr_eq_iff (v6 m y) (v6 n z) = ground (arith, text_eq_iff y z)

has_addr-append :
    (a : Addr) (xs ys : List Addr) → has_addr a (xs ++ ys) ≡ (has_addr a xs || has_addr a ys)
unfolding has_addr
has_addr-append a [] ys = refl
has_addr-append a (x ∷ xs) ys = ground (arith, has_addr-append a xs ys)

has_addr-put_addr :
    (a b : Addr) (xs : List Addr) → has_addr a (put_addr b xs) ≡ (addr_eq b a || has_addr a xs)
unfolding put_addr
has_addr-put_addr a b xs = elim (Bool-cases (has_addr b xs)) [
  | inr new ↦ rw new (has_addr-append a xs (b ∷ []) ∙ unfold has_addr in ground arith)
  | inl known ↦ rw known (elim (Bool-cases (addr_eq b a)) [
    | inl same ↦ rw same (subst (λ x. has_addr x xs ≡ true) ((addr_eq_iff b a).0 same) known)
    | inr other ↦ rw other refl
  ])
]

-- some address of the list is `a` once it is unmapped
any_unmaps : Addr → List Addr → Bool
any_unmaps a [] = false
any_unmaps a (x ∷ xs) = addr_eq (unmap x) a || any_unmaps a xs

has_addr-put_all :
    (a : Addr) (xs set : List Addr)
    → has_addr a (put_all xs set) ≡ (any_unmaps a xs || has_addr a set)
unfolding put_all any_unmaps
has_addr-put_all a [] set = refl
has_addr-put_all a (x ∷ xs) set =
    ground
      (arith, has_addr-put_all a xs (put_addr (unmap x) set), has_addr-put_addr a (unmap x) set)

-- `a` is an address of the list once that is unmapped.
pub data IsMember (a : Addr) : List Addr → Type 0 where
  here : {x : Addr} {xs : List Addr} → unmap x ≡ a → IsMember a (x ∷ xs)
  there : {x : Addr} {xs : List Addr} → IsMember a xs → IsMember a (x ∷ xs)

any_unmaps_sound : (a : Addr) (xs : List Addr) → any_unmaps a xs ≡ true → IsMember a xs
unfolding any_unmaps
any_unmaps_sound a [] h = cc
any_unmaps_sound a (x ∷ xs) h = elim (Bool-cases (addr_eq (unmap x) a)) [
  | inl e ↦ here ((addr_eq_iff (unmap x) a).0 e)
  | inr e ↦ there (any_unmaps_sound a xs (rw e at h))
]

any_unmaps_complete : (a : Addr) (xs : List Addr) → IsMember a xs → any_unmaps a xs ≡ true
unfolding any_unmaps
any_unmaps_complete a _ (here {x = x} e) =
    let same : addr_eq (unmap x) a ≡ true = (addr_eq_iff (unmap x) a).1 e in rw same refl
any_unmaps_complete a _ (there {x = x} {xs = xs} h) = ground (arith, any_unmaps_complete a xs h)

has_addr-put_all_nil :
    (a : Addr) (xs : List Addr) → (has_addr a (put_all xs []) ≡ true) ↔ (any_unmaps a xs ≡ true)
has_addr-put_all_nil a xs = rw (has_addr-put_all a xs []) (unfold has_addr in ground arith)

module _ (ip : Netip) where
  -- the text is that of an address of the list
  abbrev pub Names : Text → List Addr → Type 0
  Names text addrs =
      (a : Addr) × (ip.parse_addr (trim_space text) ≡ some a) × IsMember (unmap a) addrs

  -- Behind a replace, Contains is true of exactly the texts that parse to one of the new addresses,
  -- where an IPv4-mapped IPv6 address counts as the IPv4 address; nothing of the old set is left.
  pub replace-contains_iff :
      (addrs : List Addr) (s : IpSet) (text : Text)
      → (contains ip (some (replace addrs s)) text ≡ true) ↔ Names text addrs
  unfolding contains replace holds
  replace-contains_iff addrs s text = elim (Option-cases (ip.parse_addr (trim_space text))) [
    | inl e ↦ rw e (λ h. cc, λ (a, e', m). cc)
    | inr (b, e) ↦ rw e (
      λ h. (b, refl, any_unmaps_sound (unmap b) addrs ((has_addr-put_all_nil (unmap b) addrs).0 h)),
      λ (a, e', m).
          let same : b ≡ a = cc in
          (has_addr-put_all_nil (unmap b) addrs).1 (
            any_unmaps_complete (unmap b) addrs
              (subst (λ x. IsMember (unmap x) addrs) (sym same) m)),
    )
  ]
