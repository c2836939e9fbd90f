-- ===== src/Geoip/Blocks.antt =====
-- Prefix names the block that an address lies in.
use remnanode_exporter.Geoip.{prefix}
use remnanode_exporter.Prelude.{ℕ, ◌/◌, ◌≡◌, refl, sym, ap, ◌∙◌, ◌↔◌, some, [], arith}
use mathlib.Core.List.{append_cancel_right}
use remnanode_exporter.Netip.{mask, bit_len, is_valid, is_4in6, is_6, v6, v4, ReadsBack, Netip}

module _ (ip : Netip) (reads : ReadsBack ip) where
  show_v4-injective : (m n : ℕ) → ip.show_addr (v4 m) ≡ ip.show_addr (v4 n) → m ≡ n
  show_v4-injective m n h =
      let e : some (v4 m) ≡ some (v4 n) =
        sym (reads (v4 m) (λ z. cc)) ∙ ap ip.parse_addr h ∙ reads (v4 n) (λ z. cc) in
      cc

  show_v6-injective : (m n : ℕ) → ip.show_addr (v6 m []) ≡ ip.show_addr (v6 n []) → m ≡ n
  show_v6-injective m n h =
      let e : some (v6 m []) ≡ some (v6 n []) =
        sym (reads (v6 m []) (λ z. cc)) ∙ ap ip.parse_addr h ∙ reads (v6 n []) (λ z. cc) in
      cc

  -- Two IPv4 addresses have the same Prefix exactly when they agree in their first three bytes, if
  -- netip.ParseAddr reads back what Addr.String prints.
  pub prefix_v4_iff : (m n : ℕ) → (prefix ip (v4 m) ≡ prefix ip (v4 n)) ↔ (m / 256 ≡ n / 256)
  unfolding prefix is_6 is_4in6 is_valid bit_len mask
  prefix_v4_iff m n =
      (λ h. omega (arith, show_v4-injective _ _ (append_cancel_right _ _ _ h)), λ e. rw e refl)
