-- ===== src/Examples/Options.antt =====
-- Examples for internal/options, internal/hexify and internal/network.
use stprov.Prelude.{
  ◌<◌, true, false, none, [], ◌∷◌, Bytes, codes, length, text_eq, if◌then◌else◌, msg, ok, err, ◌≡◌,
  refl, arith,
}
use stprov.Net.{Net, IpNet, mask_size, ip_equal, net_contains, uint_be}
use stprov.Options.{
  decode_safe_cidr, append_prefix_length, construct_url, validate_host_and_gateway, max_host_ip,
  last_ip_int,
}
use stprov.Options.MaxHost.{uint_be-max_host_ip, max_host_ip_short}
use stprov.Options.Gateway.{validate_host_and_gateway-distinct, validate_host_and_gateway-within}

abbrev ten_net : IpNet
ten_net = record { ip = 10 ∷ 0 ∷ 0 ∷ 0 ∷ []; mask = 255 ∷ 255 ∷ 255 ∷ 0 ∷ [] }

uint_be-max_host_ip_example : uint_be (max_host_ip ten_net) 0 ≡ 0x0a0000fe
unfolding uint_be mask_size
uint_be-max_host_ip_example = uint_be-max_host_ip ten_net 24 32 0x0a0000 refl (omega arith) refl

abbrev zero_net : IpNet
zero_net = record { ip = 0 ∷ 0 ∷ 0 ∷ 0 ∷ []; mask = 255 ∷ 0 ∷ 0 ∷ 0 ∷ [] }

max_host_ip_short_example : length (max_host_ip zero_net) < 4
unfolding mask_size last_ip_int
max_host_ip_short_example =
    max_host_ip_short zero_net 8 32 0 refl (omega arith) refl 3 (omega arith) (omega arith)

abbrev lab : Net
lab = record {
  parse_ip = λ t. none;
  parse_cidr = λ t.
      if text_eq t (codes "10.0.0.7/24")
      then ok (10 ∷ 0 ∷ 0 ∷ 7 ∷ [], ten_net)
      else if text_eq t (codes "10.0.0.1/32")
      then ok (
        10 ∷ 0 ∷ 0 ∷ 1 ∷ [],
        record { ip = 10 ∷ 0 ∷ 0 ∷ 1 ∷ []; mask = 255 ∷ 255 ∷ 255 ∷ 255 ∷ [] },
      )
      else err (msg (codes "invalid CIDR address"));
  ip_string = λ ip. [];
  net_string = λ n. [];
  next_of = λ t. err (msg []);
}

validate_host_and_gateway-within_example :
    (h : Bytes × IpNet) × (g : Bytes × IpNet) × (lab.parse_cidr (codes "10.0.0.7/24") ≡ ok h)
    × (lab.parse_cidr (append_prefix_length (codes "10.0.0.1")) ≡ ok g)
    × (net_contains h.1 g.0 ≡ true)
    × (codes "10.0.0.1" ≡ codes "10.0.0.1")
unfolding validate_host_and_gateway net_contains ip_equal stprov.Options.choose_gateway
validate_host_and_gateway-within_example =
    validate_host_and_gateway-within lab (codes "10.0.0.7/24") (codes "10.0.0.1") false
      (ground arith) refl

validate_host_and_gateway-distinct_example :
    (h : Bytes × IpNet) × (g : Bytes × IpNet) × (lab.parse_cidr (codes "10.0.0.7/24") ≡ ok h)
    × (lab.parse_cidr (append_prefix_length (codes "10.0.0.1")) ≡ ok g)
    × (ip_equal h.0 g.0 ≡ false)
unfolding validate_host_and_gateway net_contains ip_equal stprov.Options.choose_gateway
validate_host_and_gateway-distinct_example =
    validate_host_and_gateway-distinct lab (codes "10.0.0.7/24") (codes "10.0.0.1") false refl
