-- ===== src/Network.antt =====
-- internal/network/network.go and device.go: the choice of links by speed. `Link` is netlink.Link.
pub mod Netlink
pub mod Interfaces
pub mod Speed
pub mod Device
pub mod Testing
use stprov.Prelude.{
  ℕ, ◌+◌, ◌*◌, Bool, true, false, List, [], ◌∷◌, ◌++◌, map, Text, codes, ◌==◌, if◌then◌else◌,
  Result, ok, err,
}
use stprov.Prelude.Int.{ℤ, pos, negsuc, int_ltb, int_decimal}

-- linkWithSpeed
pub record LinkWithSpeed {ℓ} (Link : Type ℓ) : Type ℓ where
  pub link : Link
  pub bits_per_second : ℤ

module _ {ℓ} {Link : Type ℓ} where
  -- The comparison of `linksByDescendingSpeed` as slices.SortStableFunc uses it: `b` goes in front
  -- of `a` if it is faster.
  abbrev pub slower : LinkWithSpeed Link → LinkWithSpeed Link → Bool
  slower a b = int_ltb a.bits_per_second b.bits_per_second

  -- Inserts a link in front of a sorted rest, behind no link that is as fast.
  unfoldable pub insert : LinkWithSpeed Link → List (LinkWithSpeed Link) → List (LinkWithSpeed Link)
  insert a [] = a ∷ []
  insert a (b ∷ bs) = if slower a b then b ∷ insert a bs else a ∷ b ∷ bs

  -- slices.SortStableFunc: a stable sort has one result, which this computes.
  unfoldable pub sort_stable : List (LinkWithSpeed Link) → List (LinkWithSpeed Link)
  unfolding insert
  sort_stable [] = []
  sort_stable (a ∷ as') = insert a (sort_stable as')

  unfoldable pub links_by_descending_speed : List (LinkWithSpeed Link) → List Link
  unfolding sort_stable
  links_by_descending_speed devices = map (λ d. d.link) (sort_stable devices)

unfoldable pub speed_to_str : ℤ → Text
speed_to_str (negsuc n) =
    if n == 0
    then codes "Unknown"
    else codes "Unknown " ++ int_decimal (negsuc n) ++ codes " Mbps (update stprov)"
speed_to_str (pos n) =
    if n == 10
    then codes "10Mbps"
    else if n == 100
    then codes "100Mbps"
    else if n == 1000
    then codes "1Gbps"
    else if n == 2500
    then codes "2.5Gbps"
    else if n == 5000
    then codes "5Gbps"
    else if n == 10000
    then codes "10Gbps"
    else if n == 14000
    then codes "14Gbps"
    else if n == 20000
    then codes "20Gbps"
    else if n == 25000
    then codes "25Gbps"
    else if n == 40000
    then codes "40Gbps"
    else if n == 50000
    then codes "50Gbps"
    else if n == 56000
    then codes "56Gbps"
    else if n == 100000
    then codes "100Gbps"
    else codes "Unknown " ++ int_decimal (pos n) ++ codes " Mbps (update stprov)"
