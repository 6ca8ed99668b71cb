-- ===== src/Options/Gateway.antt =====
-- `ValidateHostAndGateway` (internal/options/options.go).
use stprov.Prelude.{
  Bool, true, false, [], ◌∷◌, Text, Bytes, ok, Result-cases, inl, inr, ◌≡◌, ◌≢◌, refl, arith,
}
use stprov.Net.{Net, IpNet, ip_equal, net_contains}
use stprov.Options.{append_prefix_length, choose_gateway, validate_host_and_gateway}

module _ (net : Net) where
  open net use {parse_cidr}

  -- Without the force flag, a gateway that is accepted, given or chosen, parses, and is another
  -- address than the host's, which parses too.
  pub validate_host_and_gateway-distinct :
      (host gateway : Text) (try_last : Bool) {chosen : Text}
      → validate_host_and_gateway net host gateway false try_last ≡ ok chosen
      → (h : Bytes × IpNet) × (g : Bytes × IpNet) × (parse_cidr host ≡ ok h)
        × (parse_cidr (append_prefix_length chosen) ≡ ok g)
        × (ip_equal h.0 g.0 ≡ false)
  unfolding validate_host_and_gateway
  validate_host_and_gateway-distinct [] gateway try_last p = cc
  validate_host_and_gateway-distinct (c ∷ host) gateway try_last {chosen} p =
      elim (Result-cases (parse_cidr (c ∷ host))) [
        | inr (e, q) ↦ ground arith
        | inl (h, q) ↦ elim (Result-cases (choose_gateway net h.1 gateway false try_last)) [
          | inr (e, r) ↦ ground arith
          | inl (g, r) ↦ elim (Result-cases (parse_cidr (append_prefix_length g))) [
            | inr (e, t) ↦ ground arith
            | inl (w, t) ↦ (h, w, q, ground arith, ground arith)
          ]
        ]
      ]

  -- Without the force flag, a gateway that is given and accepted is used as given, and lies in the
  -- network of the host.
  pub validate_host_and_gateway-within :
      (host gateway : Text) (try_last : Bool) {chosen : Text}
      → gateway ≢ []
      → validate_host_and_gateway net host gateway false try_last ≡ ok chosen
      → (h : Bytes × IpNet) × (g : Bytes × IpNet) × (parse_cidr host ≡ ok h)
        × (parse_cidr (append_prefix_length gateway) ≡ ok g)
        × (net_contains h.1 g.0 ≡ true)
        × (chosen ≡ gateway)
  unfolding validate_host_and_gateway choose_gateway
  validate_host_and_gateway-within host [] try_last ne p = absurd (ne refl)
  validate_host_and_gateway-within [] (b ∷ gateway) try_last ne p = cc
  validate_host_and_gateway-within (c ∷ host) (b ∷ gateway) try_last {chosen} ne p =
      elim (Result-cases (parse_cidr (c ∷ host))) [
        | inr (e, q) ↦ ground arith
        | inl (h, q) ↦ elim (Result-cases (parse_cidr (append_prefix_length (b ∷ gateway)))) [
          | inr (e, t) ↦ ground arith
          | inl (w, t) ↦ (h, w, q, t, ground arith, ground arith)
        ]
      ]
