-- ===== src/Options.antt =====
-- internal/options/options.go: the values of options, and their checks.
pub mod Cidr
pub mod Gateway
pub mod MaxHost
pub mod Url
pub mod SliceFlag
pub mod Interfaces
pub mod Default
pub mod Flags
use stprov.Prelude.{
  ℕ, zero, suc, ◌+◌, ◌-◌, ◌^◌, Bool, true, false, ◌&&◌, List, [], ◌∷◌, ◌++◌, Text, Bytes, codes,
  length, get_or, set, is_empty, text_eq, has_prefix, has_suffix, contains, replace_first, ◌==◌,
  not, if◌then◌else◌, Error, msg, wrap, Result, ok, err, ◌≡◌, refl,
}
use stprov.Prelude.Bits.{bit_or}
use stprov.Prelude.Errors.{context, fail_if, ◌>>=◌, ◌>>◌}
use stprov.Net.{Net, IpNet, uint_be, int_bytes, mask_size, ip_equal, net_contains}

-- The integer whose bytes `MaxHost` takes for an address.
unfoldable pub last_ip_int : IpNet → ℕ → ℕ → ℕ
unfolding uint_be
last_ip_int network prefix_len bits =
    let host_len = bits - prefix_len in
    let last = bit_or (2 ^ host_len - 1) (uint_be network.ip 0) in
    if not (prefix_len == 31 && length network.ip == 4) then last - 1 else last

-- The address that `MaxHost` writes as text.
unfoldable pub max_host_ip : IpNet → Bytes
max_host_ip network =
    let (prefix_len, bits) = mask_size network.mask in
    if prefix_len == bits then network.ip else int_bytes (last_ip_int network prefix_len bits)

unfoldable pub max_host : Net → IpNet → Text
max_host net network = net.ip_string (max_host_ip network)

unfoldable pub verify_web_prefix : Text → Result Text
verify_web_prefix url =
    if has_prefix url (codes "http://")
    then ok url
    else if has_prefix url (codes "https://")
    then ok url
    else err (msg (codes "provisioning URL must start with http:// or https://"))

unfoldable pub construct_url : Text → Text → Text → Result Text
unfolding verify_web_prefix replace_first
construct_url url user password =
    verify_web_prefix (replace_first url (codes "user:password") (user ++ codes ":" ++ password))

-- The loop of `DecodeSafeCIDR` from index `i - 1` down.
unfoldable pub decode_loop : Text → ℕ → Text
decode_loop runes zero = runes
decode_loop runes (suc i) =
    let rest = decode_loop runes i in if get_or runes i 0 == b'm' then set runes i b'/' else rest

unfoldable pub decode_safe_cidr : Text → Text
unfolding contains decode_loop
decode_safe_cidr cidr = if contains cidr (codes "/") then cidr else decode_loop cidr (length cidr)

unfoldable pub append_prefix_length : Text → Text
unfolding contains has_suffix
append_prefix_length addr =
    if contains addr (codes ":")
    then (if has_suffix addr (codes "/128") then addr else addr ++ codes "/128")
    else (if has_suffix addr (codes "/32") then addr else addr ++ codes "/32")

module _ (net : Net) where
  open net use {parse_cidr, ip_string, net_string, next_of}

  -- The gateway to use: the option, checked, or one from the host's network.
  unfoldable pub choose_gateway : IpNet → Text → Bool → Bool → Result Text
  unfolding append_prefix_length
  choose_gateway host_ip_prefix gateway force try_last =
      if not (is_empty gateway)
      then (do
        (gw_ip_addr, _) ←
            context (gateway ++ codes ": parsing gateway address")
              (parse_cidr (append_prefix_length gateway))
        fail_if (not (net_contains host_ip_prefix gw_ip_addr) && not force) (
            msg (
              ip_string gw_ip_addr
              ++ codes ": gateway not within host IP network ("
              ++ net_string host_ip_prefix
              ++ codes ")"))
        ok gateway)
      else if try_last
      then ok (max_host net host_ip_prefix)
      else context (codes "parsing host prefix") (next_of (ip_string host_ip_prefix.ip))

  unfoldable pub validate_host_and_gateway : Text → Text → Bool → Bool → Result Text
  validate_host_and_gateway host_ip gateway force try_last = do
    fail_if (is_empty host_ip) (msg (codes "host ip is a required option"))
    (host_ip_addr, host_ip_prefix) ← context (codes "parsing host address") (parse_cidr host_ip)
    chosen ← choose_gateway host_ip_prefix gateway force try_last
    (gw_ip_addr, _) ←
        context (chosen ++ codes ": parsing gateway address")
          (parse_cidr (append_prefix_length chosen))
    fail_if (ip_equal host_ip_addr gw_ip_addr && not force) (
        msg
          (ip_string host_ip_addr ++ codes ": host address must be distinct from gateway address"))
    ok chosen

decode_two : decode_safe_cidr (codes "mm2") ≡ codes "m/2"
unfolding decode_safe_cidr
decode_two = refl
