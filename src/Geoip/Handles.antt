-- ===== src/Geoip/Handles.antt =====
-- Every database file that is opened is closed exactly once.
use remnanode_exporter.Prelude.{
  ℕ, suc, ◌+◌, ◌≡◌, refl, ap, Option, none, some, List, [], ◌∷◌, ◌++◌, arith, ◌==◌, if◌then◌else◌,
  Text,
}
use remnanode_exporter.Geoip.{
  new, replace_slot, closed_slot, Resolver, open_handle, AsnDb, CityDb, reload, close,
}

-- how often a handle stands in a list
unfoldable pub count : ℕ → List ℕ → ℕ
count h [] = 0
count h (x ∷ xs) = if x == h then suc (count h xs) else count h xs

pub count-append : (h : ℕ) (xs ys : List ℕ) → count h (xs ++ ys) ≡ count h xs + count h ys
unfolding count
count-append h [] ys = omega arith
count-append h (x ∷ xs) ys = ground (arith, count-append h xs ys)

abbrev pub city_handle : CityDb → ℕ
city_handle d = d.handle

abbrev pub asn_handle : AsnDb → ℕ
asn_handle d = d.handle

-- what openDB returns for the two files at one reload
abbrev pub Files : Type 0
Files = Option CityDb × Option AsnDb

abbrev pub opened : List Files → List ℕ
opened [] = []
opened (o ∷ os) = (open_handle city_handle o.0 ++ open_handle asn_handle o.1) ++ opened os

-- the handles that reloads close, and those that the Close behind them does
abbrev pub closed : List Files → Resolver → List ℕ
closed [] r = (close r).1
closed (o ∷ os) r = (reload o.0 o.1 r).1 ++ closed os (reload o.0 o.1 r).0

-- one slot: what is closed and what stands in it afterwards is what stood in it and what was opened
pub slot_count :
    {A : Type 0} (handle : A → ℕ) (h : ℕ) (new old : Option A)
    → count h (closed_slot handle new old) + count h (open_handle handle (replace_slot new old))
      ≡ count h (open_handle handle old) + count h (open_handle handle new)
unfolding closed_slot replace_slot open_handle count
slot_count handle h none old = omega arith
slot_count handle h (some d) none = omega arith
slot_count handle h (some d) (some e) = ground arith

abbrev held : ℕ → Resolver → ℕ
held h r = count h (open_handle city_handle r.city) + count h (open_handle asn_handle r.asn)

closed-opened :
    (h : ℕ) (os : List Files) (r : Resolver)
    → count h (closed os r) ≡ held h r + count h (opened os)
unfolding reload close
closed-opened h [] r =
    let e = count-append h (open_handle city_handle r.city) (open_handle asn_handle r.asn) in
    unfold count in omega (arith, e)
closed-opened h (o ∷ os) r =
    let r' = (reload o.0 o.1 r).0 in
    let slots = closed_slot city_handle o.0 r.city ++ closed_slot asn_handle o.1 r.asn in
    let e : count h (closed (o ∷ os) r) ≡ count h slots + count h (closed os r') =
      count-append h slots (closed os r') in
    let e' =
      count-append h (closed_slot city_handle o.0 r.city) (closed_slot asn_handle o.1 r.asn) in
    let new = open_handle city_handle o.0 ++ open_handle asn_handle o.1 in
    let o1 : count h (opened (o ∷ os)) ≡ count h new + count h (opened os) =
      count-append h new (opened os) in
    let o2 = count-append h (open_handle city_handle o.0) (open_handle asn_handle o.1) in
    let ih = closed-opened h os r' in
    let city : count h (closed_slot city_handle o.0 r.city)
          + count h (open_handle city_handle r'.city)
        ≡ count h (open_handle city_handle r.city) + count h (open_handle city_handle o.0) =
      slot_count city_handle h o.0 r.city in
    let asn : count h (closed_slot asn_handle o.1 r.asn) + count h (open_handle asn_handle r'.asn)
        ≡ count h (open_handle asn_handle r.asn) + count h (open_handle asn_handle o.1) =
      slot_count asn_handle h o.1 r.asn in
    omega (arith, e, e', o1, o2, ih, city, asn)

first_slot :
    {A : Type 0} (handle : A → ℕ) (new : Option A)
    → open_handle handle (replace_slot new none) ≡ open_handle handle new
unfolding replace_slot
first_slot handle none = refl
first_slot handle (some d) = refl

-- Over the life of a Resolver, from New over any number of reloads to Close, every handle is closed
-- exactly as often as openDB returned it: nothing leaks and nothing is closed twice.
pub new-closed-opened :
    (fold : ℕ → ℕ) (keywords : List Text) (first : Files) (os : List Files) (h : ℕ)
    → count h (closed os (new fold keywords first.0 first.1)) ≡ count h (opened (first ∷ os))
unfolding new reload
new-closed-opened fold keywords first os h =
    let r = new fold keywords first.0 first.1 in
    let both = open_handle city_handle first.0 ++ open_handle asn_handle first.1 in
    let o1 : count h (opened (first ∷ os)) ≡ count h both + count h (opened os) =
      count-append h both (opened os) in
    let o2 = count-append h (open_handle city_handle first.0) (open_handle asn_handle first.1) in
    let c : count h (open_handle city_handle r.city) ≡ count h (open_handle city_handle first.0) =
      ap (count h) (first_slot city_handle first.0) in
    let a : count h (open_handle asn_handle r.asn) ≡ count h (open_handle asn_handle first.1) =
      ap (count h) (first_slot asn_handle first.1) in
    let e = closed-opened h os r in omega (arith, e, o1, o2, c, a)
