-- ===== src/Infra.antt =====
-- internal/dict/infra.go: the set of the panel's own node addresses.
pub mod Members
pub mod Nodes
use remnanode_exporter.Prelude.{
  ℕ, Bool, true, false, ◌&&◌, ◌||◌, Option, none, some, List, [], ◌∷◌, ◌++◌, ◌==◌, if◌then◌else◌,
  Text, text_eq, length,
}
use remnanode_exporter.Strings.{trim_space}
use remnanode_exporter.Netip.{Addr, no_addr, v4, v6, Netip, unmap}
use remnanode_exporter.Panel.{ApiNode}

-- IPSet: the map that the atomic pointer holds, if it holds one; each address is in it once
pub record IpSet : Type 0 where
  pub addrs : Option (List Addr)

abbrev pub empty : IpSet
empty = record { addrs = none }

unfoldable pub addr_eq : Addr → Addr → Bool
addr_eq no_addr no_addr = true
addr_eq no_addr (v4 n) = false
addr_eq no_addr (v6 n z) = false
addr_eq (v4 m) no_addr = false
addr_eq (v4 m) (v4 n) = m == n
addr_eq (v4 m) (v6 n z) = false
addr_eq (v6 m y) no_addr = false
addr_eq (v6 m y) (v4 n) = false
addr_eq (v6 m y) (v6 n z) = m == n && text_eq y z

unfoldable pub has_addr : Addr → List Addr → Bool
unfolding addr_eq
has_addr a [] = false
has_addr a (x ∷ xs) = if addr_eq x a then true else has_addr a xs

-- set[a] = struct{}{}
unfoldable pub put_addr : Addr → List Addr → List Addr
put_addr a xs = if has_addr a xs then xs else xs ++ a ∷ []

unfoldable pub put_all : List Addr → List Addr → List Addr
unfolding put_addr
put_all [] set = set
put_all (a ∷ as') set = put_all as' (put_addr (unmap a) set)

-- replace
unfoldable pub replace : List Addr → IpSet → IpSet
unfolding put_all
replace addrs s = record { addrs = some (put_all addrs []) }

unfoldable pub holds : Option (List Addr) → Option Addr → Bool
holds none a = false
holds (some set) none = false
holds (some set) (some a) = has_addr (unmap a) set

module _ (ip : Netip) where
  -- Contains; `none` is a nil receiver
  unfoldable pub contains : Option IpSet → Text → Bool
  unfolding holds
  contains none text = false
  contains (some s) text = holds s.addrs (ip.parse_addr (trim_space text))

  -- the closure `add` of nodeAddresses, on the list that it appends to
  unfoldable pub put_parsed : Option Addr → List Addr → List Addr
  put_parsed none out = out
  put_parsed (some a) out = out ++ a ∷ []

  unfoldable pub add : Text → List Addr → List Addr
  unfolding put_parsed
  add raw out = put_parsed (ip.parse_addr (trim_space raw)) out

  unfoldable pub parses : Text → Bool
  parses raw = elim (ip.parse_addr (trim_space raw)) [ none ↦ false | some a ↦ true ]

  unfoldable pub add_all : List Text → List Addr → List Addr
  add_all [] out = out
  add_all (t ∷ ts) out = add_all ts (add t out)

  unfoldable pub add_resolved : Option (List Text) → List Addr → List Addr
  add_resolved none out = out
  add_resolved (some ts) out = add_all ts out

  -- nodeAddresses; `resolve` is the DNS lookup, `none` an error
  unfoldable pub node_loop : (Text → Option (List Text)) → List ApiNode → List Addr → List Addr
  unfolding add_resolved
  node_loop resolve [] out = out
  node_loop resolve (n ∷ ns) out =
      let out' = add_all n.ips out in
      let host = trim_space n.address in
      node_loop resolve ns (
        if text_eq host [] || parses host
        then (if text_eq host [] then out' else add host out')
        else add_resolved (resolve host) out')

  unfoldable pub node_addresses : List ApiNode → (Text → Option (List Text)) → List Addr
  node_addresses nodes resolve = node_loop resolve nodes []

-- Len
unfoldable pub len : IpSet → ℕ
len s = elim s.addrs [ none ↦ 0 | some set ↦ length set ]
