-- ===== src/Net.antt =====
-- What the code uses of Go's packages net, net/netip and math/big. Addresses, networks, masks and
-- big integers are concrete; the functions that read or write an address as text are the
-- parameter `Net`.
pub mod BigInt
use stprov.Prelude.{
  ℕ, zero, suc, ◌+◌, ◌*◌, ◌/◌, ◌%◌, Bool, true, false, ◌&&◌, Option, none, some, List, [], ◌∷◌,
  ◌++◌, Text, Bytes, length, text_eq, replicate, drop, take, is_empty, ◌==◌, not, if◌then◌else◌,
  Result, ◌≡◌, refl,
}
use stprov.Prelude.Bits.{bit_and}

-- net.IPNet; net.IP and net.IPMask are byte slices
pub record IpNet : Type 0 where
  pub ip : Bytes
  pub mask : Bytes

pub record Net : Type 0 where
  -- net.ParseIP
  pub parse_ip : Text → Option Bytes
  -- net.ParseCIDR
  pub parse_cidr : Text → Result (Bytes × IpNet)
  -- IP.String
  pub ip_string : Bytes → Text
  -- IPNet.String
  pub net_string : IpNet → Text
  -- netip.ParseAddr, and then Next and String
  pub next_of : Text → Result Text

-- big.Int's SetBytes
unfoldable pub uint_be : Bytes → ℕ → ℕ
uint_be [] acc = acc
uint_be (b ∷ bs) acc = uint_be bs (acc * 256 + b)

bytes_loop : ℕ → ℕ → Bytes → Bytes
bytes_loop zero n acc = acc
bytes_loop (suc f) n acc =
    let rest = bytes_loop f (n / 256) ((n % 256) ∷ acc) in if n == 0 then acc else rest

-- big.Int's Bytes: big-endian, with no leading zero byte. The number is fuel enough.
unfoldable pub int_bytes : ℕ → Bytes
unfolding bytes_loop
int_bytes n = bytes_loop n n []

-- The leading ones of a byte, if what follows them is zeros.
unfoldable pub byte_ones : ℕ → Option ℕ
byte_ones b =
    if b == 0
    then some 0
    else if b == 0x80
    then some 1
    else if b == 0xc0
    then some 2
    else if b == 0xe0
    then some 3
    else if b == 0xf0
    then some 4
    else if b == 0xf8
    then some 5
    else if b == 0xfc
    then some 6
    else if b == 0xfe
    then some 7
    else none

unfoldable pub all_zero : Bytes → Bool
all_zero [] = true
all_zero (b ∷ bs) = b == 0 && all_zero bs

abbrev ones_then : Option ℕ → Bytes → Option ℕ
ones_then none bs = none
ones_then (some n) bs = if all_zero bs then some n else none

abbrev plus_eight : Option ℕ → Option ℕ
plus_eight none = none
plus_eight (some n) = some (8 + n)

-- The length of a mask of the form 1…10…0.
unfoldable pub mask_length : Bytes → Option ℕ
unfolding byte_ones all_zero
mask_length [] = some 0
mask_length (b ∷ bs) = if b == 0xff then plus_eight (mask_length bs) else ones_then (byte_ones b) bs

abbrev size_or : Option ℕ → ℕ → ℕ × ℕ
size_or none bits = (0, 0)
size_or (some n) bits = (n, bits)

-- IPMask.Size
unfoldable pub mask_size : Bytes → ℕ × ℕ
unfolding mask_length
mask_size m = size_or (mask_length m) (8 * length m)

abbrev v4_prefix : Bytes
v4_prefix = replicate 10 0 ++ 0xff ∷ 0xff ∷ []

-- IP.To4
unfoldable pub to4 : Bytes → Option Bytes
to4 ip =
    if length ip == 4
    then some ip
    else if length ip == 16 && text_eq (take 12 ip) v4_prefix
    then some (drop 12 ip)
    else none

-- IP.To16
unfoldable pub to16 : Bytes → Option Bytes
to16 ip =
    if length ip == 4 then some (v4_prefix ++ ip) else if length ip == 16 then some ip else none

abbrev or_self : Option Bytes → Bytes → Bytes
or_self none ip = ip
or_self (some v4) ip = v4

-- IP.Equal: an IPv4 address and its IPv4-in-IPv6 form are the same
unfoldable pub ip_equal : Bytes → Bytes → Bool
unfolding to4
ip_equal a b = text_eq (or_self (to4 a) a) (or_self (to4 b) b)

-- nn[i] & m[i] == ip[i] & m[i] for every i
unfoldable pub masked_equal : Bytes → Bytes → Bytes → Bool
masked_equal (n ∷ nn) (m ∷ ms) (i ∷ ip) = bit_and n m == bit_and i m && masked_equal nn ms ip
masked_equal _ _ _ = true

-- networkNumberAndMask, by the lengths of the mask and of the address: of a mask of 16 bytes an IPv4
-- address takes the last four
unfoldable pub number_and_mask : Bytes → Bytes → Bytes × Bytes
number_and_mask ip mask =
    if length mask == 4
    then if length ip == 4 then (ip, mask) else ([], [])
    else if length mask == 16
    then if length ip == 4
      then (ip, drop 12 mask)
      else if length ip == 16
      then (ip, mask)
      else ([], [])
    else ([], [])

-- IPNet.Contains
unfoldable pub net_contains : IpNet → Bytes → Bool
unfolding to4 masked_equal number_and_mask
net_contains n ip =
    let x = or_self (to4 ip) ip in
    let (nn, m) = number_and_mask (or_self (to4 n.ip) n.ip) n.mask in
    length x == length nn && masked_equal nn m x

-- An IPv4-mapped network contains the IPv4 addresses of its last bits.
mapped_net :
    net_contains
      (record { ip = v4_prefix ++ 10 ∷ 0 ∷ 0 ∷ 0 ∷ []; mask = replicate 15 255 ++ 0 ∷ [] })
      (10 ∷ 0 ∷ 0 ∷ 5 ∷ [])
    ≡ true
unfolding net_contains
mapped_net = refl
