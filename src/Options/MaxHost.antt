-- ===== src/Options/MaxHost.antt =====
-- `MaxHost` (internal/options/options.go) and the big integers that it goes by.
use stprov.Prelude.{
  ℕ, suc, ◌+◌, ◌-◌, ◌*◌, ◌^◌, ◌≤◌, ◌<◌, ◌&&◌, length, ◌==◌, if◌then◌else◌, ◌≡◌, ◌∙◌, arith,
}
use stprov.Prelude.Bits.{bit_or, bit_or_ones}
use stprov.Net.{IpNet, uint_be, int_bytes, mask_size}
use stprov.Net.BigInt.{uint_be-int_bytes, length-int_bytes, length-int_bytes-le}
use stprov.Options.{last_ip_int, max_host_ip}

-- The last integer of a network whose host bits are zero: all ones in the host part, less one for
-- the broadcast address, but on an IPv4 /31.
last_ip_int-eq :
    (network : IpNet) (p bits q : ℕ)
    → uint_be network.ip 0 ≡ q * 2 ^ (bits - p)
    → last_ip_int network p bits
      ≡ uint_be network.ip 0
        + (2 ^ (bits - p) - 1)
        - (if p == 31 && length network.ip == 4 then 0 else 1)
unfolding last_ip_int
last_ip_int-eq network p bits q e =
    let ones : bit_or (2 ^ (bits - p) - 1) (uint_be network.ip 0)
        ≡ uint_be network.ip 0 + (2 ^ (bits - p) - 1) =
      rw e (bit_or_ones (bits - p) q) in
    ground (arith, ones)

module _ (network : IpNet) (p bits q : ℕ) (size : mask_size network.mask ≡ (p, bits))
    (room : p < bits) (e : uint_be network.ip 0 ≡ q * 2 ^ (bits - p)) where
  max_host_ip-int_bytes : max_host_ip network ≡ int_bytes (last_ip_int network p bits)
  unfolding max_host_ip
  max_host_ip-int_bytes = rw size (ground arith)

  -- For a network address with zero host bits and a mask shorter than the address, the bytes of the
  -- result stand for the last address of the network, one less than the broadcast address but on
  -- an IPv4 /31.
  pub uint_be-max_host_ip :
      uint_be (max_host_ip network) 0
      ≡ uint_be network.ip 0
        + (2 ^ (bits - p) - 1)
        - (if p == 31 && length network.ip == 4 then 0 else 1)
  uint_be-max_host_ip =
      rw max_host_ip-int_bytes (uint_be-int_bytes _ ∙ last_ip_int-eq network p bits q e)

  -- For such a network, if the integer of the last address needs k + 1 bytes, the result of `MaxHost`
  -- has k + 1 bytes.
  pub length-max_host_ip :
      (k : ℕ)
      → 256 ^ k ≤ last_ip_int network p bits
      → last_ip_int network p bits < 256 ^ suc k
      → length (max_host_ip network) ≡ suc k
  length-max_host_ip k low high = rw max_host_ip-int_bytes (length-int_bytes k _ low high)

  -- For such a network, if the integer of the last address fits fewer bytes than the network's address
  -- has, the result of `MaxHost` is shorter than that: the leading zero bytes are lost.
  pub max_host_ip_short :
      (k : ℕ)
      → last_ip_int network p bits < 256 ^ k
      → k < length network.ip
      → length (max_host_ip network) < length network.ip
  max_host_ip_short k high lt =
      rw max_host_ip-int_bytes
        (omega (arith, length-int_bytes-le k (last_ip_int network p bits) high))
