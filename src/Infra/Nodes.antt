-- ===== src/Infra/Nodes.antt =====
-- The addresses of the nodes, from the texts that the panel and the resolver of names give.
use remnanode_exporter.Infra.Members.{IsMember, here, there}
use remnanode_exporter.Infra.{
  node_loop, node_addresses, add, add_all, add_resolved, put_parsed, parses,
}
use remnanode_exporter.Netip.{unmap, Netip, Addr}
use remnanode_exporter.Panel.{ApiNode}
use remnanode_exporter.Strings.{trim_space}
use remnanode_exporter.Prelude.{
  ◌≡◌, refl, sym, ap, ◌∙◌, ◌↔◌, inl, inr, ◌||◌, Option, none, some, List, [], ◌∷◌, ◌++◌,
  append_assoc, append-nil, if◌then◌else◌, Bool-cases, Text, text_eq, concat_map, concat_map-append,
}

module _ (ip : Netip) where
  abbrev parsed : Option Addr → List Addr
  parsed none = []
  parsed (some a) = a ∷ []

  -- the addresses among some texts
  abbrev pub parsed_all : List Text → List Addr
  parsed_all ts = concat_map (λ t. parsed (ip.parse_addr (trim_space t))) ts

  add-eq-append : (o : Option Addr) (out : List Addr) → put_parsed ip o out ≡ out ++ parsed o
  unfolding put_parsed
  add-eq-append none out = sym (append-nil out)
  add-eq-append (some a) out = refl

  add_all-eq-append : (ts : List Text) (out : List Addr) → add_all ip ts out ≡ out ++ parsed_all ts
  unfolding add_all add
  add_all-eq-append [] out = sym (append-nil out)
  add_all-eq-append (t ∷ ts) out =
      add_all-eq-append ts _
      ∙ (ap (λ l. l ++ parsed_all ts) (add-eq-append (ip.parse_addr (trim_space t)) out)
          ∙ simp append_assoc)

  module _ (resolve : Text → Option (List Text)) where
    abbrev or_none : Option (List Text) → List Text
    or_none none = []
    or_none (some ts) = ts

    -- an address that parses is taken as it is, and any other that is not empty is resolved
    abbrev pub host_texts : Text → List Text
    host_texts host =
        if text_eq host [] then [] else if parses ip host then host ∷ [] else or_none (resolve host)

    -- what the panel and the resolver give for a node
    abbrev pub texts_of : ApiNode → List Text
    texts_of n = n.ips ++ host_texts (trim_space n.address)

    resolved-eq-append :
        (o : Option (List Text)) (out : List Addr)
        → add_resolved ip o out ≡ out ++ parsed_all (or_none o)
    unfolding add_resolved
    resolved-eq-append none out = sym (append-nil out)
    resolved-eq-append (some ts) out = add_all-eq-append ts out

    host-eq-append :
        (host : Text) (out : List Addr)
        → (if text_eq host [] || parses ip host
            then (if text_eq host [] then out else add ip host out)
            else add_resolved ip (resolve host) out)
          ≡ out ++ parsed_all (host_texts host)
    unfolding add
    host-eq-append host out = elim (Bool-cases (text_eq host [])) [
      | inl e ↦ rw e (sym (append-nil out))
      | inr e ↦ elim (Bool-cases (parses ip host)) [
        | inl p ↦ rw (e, p) (add-eq-append (ip.parse_addr (trim_space host)) out ∙ simp append-nil)
        | inr p ↦ rw (e, p) (resolved-eq-append (resolve host) out)
      ]
    ]

    node_loop-eq-append :
        (ns : List ApiNode) (out : List Addr)
        → node_loop ip resolve ns out ≡ out ++ parsed_all (concat_map texts_of ns)
    unfolding node_loop
    node_loop-eq-append [] out = sym (append-nil out)
    node_loop-eq-append (n ∷ ns) out =
        node_loop-eq-append ns _
        ∙ (ap (λ l. l ++ parsed_all (concat_map texts_of ns))
              (host-eq-append (trim_space n.address) (add_all ip n.ips out)
                ∙ ap (λ l. l ++ parsed_all (host_texts (trim_space n.address)))
                    (add_all-eq-append n.ips out))
            ∙ simp (concat_map-append, append_assoc))

    node_addresses-eq-parsed :
        (ns : List ApiNode) → node_addresses ip ns resolve ≡ parsed_all (concat_map texts_of ns)
    unfolding node_addresses
    node_addresses-eq-parsed ns = node_loop-eq-append ns []

  -- one of the texts is an address that is `b` once it is unmapped
  pub data IsNamed (b : Addr) : List Text → Type 0 where
    named :
        {t : Text} {ts : List Text} (a : Addr)
        → ip.parse_addr (trim_space t) ≡ some a
        → unmap a ≡ b
        → IsNamed b (t ∷ ts)
    later : {t : Text} {ts : List Text} → IsNamed b ts → IsNamed b (t ∷ ts)

  IsNamed-cons :
      (b : Addr) (t : Text) (ts : List Text) (o : Option Addr)
      → ip.parse_addr (trim_space t) ≡ o
      → (IsMember b (parsed_all ts) → IsNamed b ts)
      → IsMember b (parsed o ++ parsed_all ts)
      → IsNamed b (t ∷ ts)
  IsNamed-cons b t ts none e rest h = later (rest h)
  IsNamed-cons b t ts (some a) e rest (here u) = named a e u
  IsNamed-cons b t ts (some a) e rest (there h) = later (rest h)

  IsNamed-of_member : (b : Addr) (ts : List Text) → IsMember b (parsed_all ts) → IsNamed b ts
  IsNamed-of_member b [] h = elim h [ ]
  IsNamed-of_member b (t ∷ ts) h =
      IsNamed-cons b t ts (ip.parse_addr (trim_space t)) refl (IsNamed-of_member b ts) h

  behind :
      (b : Addr) (o : Option Addr) (xs : List Addr) → IsMember b xs → IsMember b (parsed o ++ xs)
  behind b none xs h = h
  behind b (some a) xs h = there h

  IsMember-of_named : (b : Addr) (ts : List Text) → IsNamed b ts → IsMember b (parsed_all ts)
  IsMember-of_named b _ (named a e u) = rw e (here u)
  IsMember-of_named b _ (later {t = t} {ts = ts} h) =
      behind b (ip.parse_addr (trim_space t)) (parsed_all ts) (IsMember-of_named b ts h)

  -- the addresses that nodeAddresses finds are those that the texts of the nodes name
  pub node_addresses_iff :
      (resolve : Text → Option (List Text)) (b : Addr) (ns : List ApiNode)
      → IsMember b (node_addresses ip ns resolve) ↔ IsNamed b (concat_map (texts_of resolve) ns)
  node_addresses_iff resolve b ns = rw (node_addresses-eq-parsed resolve ns) (
    IsNamed-of_member b (concat_map (texts_of resolve) ns),
    IsMember-of_named b (concat_map (texts_of resolve) ns),
  )
