-- ===== src/Geoip/Rotation/Closing.antt =====
-- Which readers are closed while lookups run.
use remnanode_exporter.Prelude.{
  ℕ, ◌+◌, ◌≤◌, ◌≡◌, refl, ap, ◌∙◌, ◌≢◌, inl, inr, true, false, Option, none, some, List, [], ◌∷◌,
  ◌++◌, arith, ◌==◌, if◌then◌else◌, Bool-cases, Text, text_eq, text_eq_iff,
}
use remnanode_exporter.Netip.{Addr}
use remnanode_exporter.Geoip.{
  CityDb, Resolver, CityRecord, AsnRecord, reload, open_handle, closed_slot, replace_slot,
}
use remnanode_exporter.Geoip.Handles.{count, count-append, city_handle, asn_handle, slot_count}
use remnanode_exporter.Geoip.Rotation.{
  done, asks_asn, asks_city, copies, copied, closes, later, reloads, first, Steps, move, Step,
  Machine, Found, swap, city_db, asn_db, open_db,
}

-- the readers of the resolver
abbrev pub held : Machine → List ℕ
held m = open_handle city_handle m.resolver.city ++ open_handle asn_handle m.resolver.asn

abbrev total : ℕ → Machine → ℕ
total h m = count h (held m) + count h m.to_close + count h m.closed

-- No reader is twice among those in use, those to be closed and those closed, and none has a number
-- that was not given out yet.
record IsOnce (m : Machine) : Type 0 where
  once : (h : ℕ) → total h m ≤ 1
  given_only : (h : ℕ) → m.given ≤ h → total h m ≡ 0

count_city :
    (h n : ℕ) (o : Option (Addr → Option CityRecord))
    → count h (open_handle city_handle (city_db n o)) ≤ (if n == h then 1 else 0)
unfolding count open_handle city_db
count_city h n none = ground arith
count_city h n (some d) = ground arith

count_asn :
    (h n : ℕ) (o : Option (Addr → Option AsnRecord))
    → count h (open_handle asn_handle (asn_db n o)) ≤ (if n == h then 1 else 0)
unfolding count open_handle asn_db
count_asn h n none = ground arith
count_asn h n (some d) = ground arith

count_nil : (h : ℕ) → count h [] ≡ 0
unfolding count
count_nil h = refl

-- the arithmetic of a reload, for one handle
once_lem :
    (h n t c a u : ℕ)
    → t ≤ 1
    → (n ≤ h → t ≡ 0)
    → u ≡ t + (c + a)
    → c ≤ (if n == h then 1 else 0)
    → a ≤ (if (n + 1) == h then 1 else 0)
    → u ≤ 1
once_lem h n t c a u b g e hc ha = ground arith

given_lem :
    (h n t c a u : ℕ)
    → n + 2 ≤ h
    → (n ≤ h → t ≡ 0)
    → u ≡ t + (c + a)
    → c ≤ (if n == h then 1 else 0)
    → a ≤ (if (n + 1) == h then 1 else 0)
    → u ≡ 0
given_lem h n t c a u le g e hc ha = ground arith

count_cons : (j h : ℕ) (hs : List ℕ) → count j (h ∷ hs) ≡ count j hs + (if h == j then 1 else 0)
unfolding count
count_cons j h hs = ground arith

count_self : (h : ℕ) (hs : List ℕ) → count h (h ∷ hs) ≢ 0
count_self h hs e = let k = count_cons h h hs in ground arith

-- closing a reader moves it from one list to the other
total_close :
    (h : ℕ) (hs : List ℕ) (m : Machine)
    → m.to_close ≡ h ∷ hs
    → (j : ℕ) → total j (record m { to_close = hs; closed = h ∷ m.closed }) ≡ total j m
total_close h hs m e j =
    let a = ap (count j) e ∙ count_cons j h hs in
    let b = count_cons j h m.closed in omega (arith, a, b)

module _ (city_path asn_path : Text) where
  -- a reload adds the readers that it opens
  total-swap :
      (h : ℕ) (f : Found) (m : Machine)
      → m.to_close ≡ []
      → total h (swap city_path asn_path f m)
        ≡ total h m
          + (count h (
                open_handle city_handle
                  (city_db m.given (open_db city_path f.city_stats f.city_file)))
              + count h (
                  open_handle asn_handle
                    (asn_db (m.given + 1) (open_db asn_path f.asn_stats f.asn_file))))
  unfolding swap reload
  total-swap h f m e =
      let city = city_db m.given (open_db city_path f.city_stats f.city_file) in
      let asn = asn_db (m.given + 1) (open_db asn_path f.asn_stats f.asn_file) in
      let r = m.resolver in
      let c1 = slot_count city_handle h city r.city in
      let c2 = slot_count asn_handle h asn r.asn in
      let a1 = count-append h (open_handle city_handle r.city) (open_handle asn_handle r.asn) in
      let a2 =
        count-append h (open_handle city_handle (replace_slot city r.city))
          (open_handle asn_handle (replace_slot asn r.asn)) in
      let a3 =
        count-append h (closed_slot city_handle city r.city) (closed_slot asn_handle asn r.asn) in
      let z : count h m.to_close ≡ 0 = ap (count h) e ∙ count_nil h in
      omega (arith, c1, c2, a1, a2, a3, z)

  swap-IsOnce :
      (f : Found) (m : Machine) → m.to_close ≡ [] → IsOnce m → IsOnce (swap city_path asn_path f m)
  swap-IsOnce f m e k =
      let o = open_db city_path f.city_stats f.city_file in
      let o' = open_db asn_path f.asn_stats f.asn_file in
      record {
        once = λ h.
            once_lem h m.given (total h m) _ _ _ (k.once h) (k.given_only h) (total-swap h f m e)
              (count_city h m.given o) (count_asn h (m.given + 1) o');
        given_only = λ h le.
            unfold swap in
            given_lem h m.given (total h m) _ _ _ le (k.given_only h) (total-swap h f m e)
              (count_city h m.given o) (count_asn h (m.given + 1) o');
      }

  closes-IsOnce :
      (h : ℕ) (hs : List ℕ) (m : Machine)
      → m.to_close ≡ h ∷ hs
      → IsOnce m
      → IsOnce (record m { to_close = hs; closed = h ∷ m.closed })
  closes-IsOnce h hs m e k = record {
    once = λ j. rw (total_close h hs m e j) (k.once j);
    given_only = λ j le. total_close h hs m e j ∙ k.given_only j le;
  }

  Step-IsOnce : (m n : Machine) → Step city_path asn_path m n → IsOnce m → IsOnce n
  unfolding move
  Step-IsOnce m _ (reloads f e) k = swap-IsOnce f m e k
  Step-IsOnce m _ (closes h hs e) k = closes-IsOnce h hs m e k
  Step-IsOnce m _ (copies i e) k = record { once = k.once; given_only = k.given_only }
  Step-IsOnce m _ (asks_city i r e) k = record { once = k.once; given_only = k.given_only }
  Step-IsOnce m _ (asks_asn i r e) k = record { once = k.once; given_only = k.given_only }

  Steps-IsOnce : (m n : Machine) → IsOnce m → Steps city_path asn_path m n → IsOnce n
  Steps-IsOnce m _ k done = k
  Steps-IsOnce m n k (later {n = l} st s) = Step-IsOnce l n s (Steps-IsOnce m l k st)

  first-IsOnce : (keywords : List Text) → IsOnce (first city_path asn_path keywords)
  unfolding first open_handle count
  first-IsOnce keywords = record { once = λ h. omega arith; given_only = λ h le. refl }

  -- However the lookups and the reloads of Watch interleave, a reader stands at most once among those
  -- that the Resolver holds, those that a reload has yet to close, and those that were closed: the
  -- Resolver never holds a closed reader, and none is closed twice.
  pub Steps-close_once :
      (keywords : List Text) (m : Machine) (h : ℕ)
      → Steps city_path asn_path (first city_path asn_path keywords) m
      → count h (held m) + count h m.to_close + count h m.closed ≤ 1
  Steps-close_once keywords m h st = (Steps-IsOnce _ m (first-IsOnce keywords) st).once h

  -- a reload that finds the City file only
  abbrev city_only : (Addr → Option CityRecord) → Found
  city_only lookup = record {
    city_stats = true;
    city_file = some lookup;
    asn_stats = false;
    asn_file = none;
  }

  not_empty : city_path ≢ [] → text_eq city_path [] ≡ false
  not_empty ne = elim (Bool-cases (text_eq city_path [])) [
    | inl e ↦ absurd (ne ((text_eq_iff city_path []).0 e))
    | inr e ↦ e
  ]

  to_close-swap :
      (m : Machine) (d : CityDb) (lookup : Addr → Option CityRecord)
      → m.resolver.city ≡ some d
      → city_path ≢ []
      → (swap city_path asn_path (city_only lookup) m).to_close ≡ d.handle ∷ []
  unfolding swap reload closed_slot open_db city_db asn_db
  to_close-swap m d lookup e ne = elim (Bool-cases (text_eq asn_path [])) [
    | inl a ↦ rw (not_empty ne, e, a) refl
    | inr a ↦ rw (not_empty ne, e, a) refl
  ]

  -- A reader that a lookup has copied is not safe: in any state in which a lookup stands before its
  -- call on the City reader that the Resolver holds, no reload is going on and the City path is not
  -- empty, a reload that opens the file leads to a state in which that reader is closed and the lookup
  -- still stands before the call.
  pub Steps-close_in_lookup :
      (m : Machine) (i : ℕ) (r : Resolver) (d : CityDb) (lookup : Addr → Option CityRecord)
      → m.lookups i ≡ copied r
      → r.city ≡ some d
      → m.resolver.city ≡ some d
      → m.to_close ≡ []
      → city_path ≢ []
      → (n : Machine) × Steps city_path asn_path m n
        × (n.lookups i ≡ copied r)
        × (count d.handle n.closed ≢ 0)
  Steps-close_in_lookup m i r d lookup e er em idle path =
      let f = city_only lookup in
      let next = swap city_path asn_path f m in
      let last = record next { to_close = []; closed = d.handle ∷ next.closed } in
      (
        last,
        later (later done (reloads f idle)) (closes d.handle [] (to_close-swap m d lookup em path)),
        unfold swap in e,
        count_self d.handle next.closed,
      )
