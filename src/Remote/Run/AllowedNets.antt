-- ===== src/Remote/Run/AllowedNets.antt =====
-- `parseAllowedNets` (subcmd/remote/run/run.go).
use stprov.Prelude.{
  true, false, some, List, [], ◌∷◌, ◌++◌, Text, Bytes, codes, contains, ok, Result-cases,
  Option-cases, Bool-cases, ◌⊎◌, inl, inr, ◌≡◌, refl, arith,
}
use stprov.Net.{Net, IpNet, to4, to16}
use stprov.Remote.Run.{is_some, with_length, parse_allowed_net, parse_allowed_nets}

module _ (net : Net) where
  -- The text that is parsed for an address: the address, or with the longest prefix of its family.
  abbrev pub Completed : Text → Text → Type 0
  Completed addr full =
      ((contains addr (codes "/") ≡ true) × (full ≡ addr))
      ⊎ ((contains addr (codes "/") ≡ false)
          × (ip : Bytes) × (net.parse_ip addr ≡ some ip)
          × (((is_some (to4 ip) ≡ true) × (full ≡ addr ++ codes "/32"))
              ⊎ ((is_some (to4 ip) ≡ false)
                  × (is_some (to16 ip) ≡ true)
                  × (full ≡ addr ++ codes "/128"))
              ⊎ ((is_some (to4 ip) ≡ false) × (is_some (to16 ip) ≡ false) × (full ≡ addr))))

  abbrev pub Parsed : Text → IpNet → Type 0
  Parsed addr n =
      (full : Text) × (ip : Bytes) × (net.parse_cidr full ≡ ok (ip, n)) × Completed addr full

  abbrev pub AllParsed : List Text → List IpNet → Type 0
  AllParsed [] [] = Unit
  AllParsed [] (n ∷ ns) = ⊥
  AllParsed (a ∷ as') [] = ⊥
  AllParsed (a ∷ as') (n ∷ ns) = Parsed a n × AllParsed as' ns

  with_length-cases :
      (addr : Text) {full : Text}
      → with_length addr (net.parse_ip addr) ≡ ok full
      → (ip : Bytes) × (net.parse_ip addr ≡ some ip)
        × (((is_some (to4 ip) ≡ true) × (full ≡ addr ++ codes "/32"))
            ⊎ ((is_some (to4 ip) ≡ false)
                × (is_some (to16 ip) ≡ true)
                × (full ≡ addr ++ codes "/128"))
            ⊎ ((is_some (to4 ip) ≡ false) × (is_some (to16 ip) ≡ false) × (full ≡ addr)))
  with_length-cases addr h = elim (Option-cases (net.parse_ip addr)) [
    | inl e ↦ absurd (ground arith)
    | inr (ip, e) ↦ (ip, e, ground arith)
  ]

  parse_allowed_net-eq_ok :
      (addr : Text) {n : IpNet} → parse_allowed_net net addr ≡ ok n → Parsed addr n
  unfolding parse_allowed_net
  parse_allowed_net-eq_ok addr {n} h = elim (Bool-cases (contains addr (codes "/"))) [
    | inl t ↦ elim (Result-cases (net.parse_cidr addr)) [
      | inr (e, q) ↦ absurd (ground arith)
      | inl (c, q) ↦ (addr, c.0, ground arith, inl (t, refl))
    ]
    | inr f ↦ elim (Result-cases (with_length addr (net.parse_ip addr))) [
      | inr (e, q) ↦ absurd (ground arith)
      | inl (full, q) ↦ elim (Result-cases (net.parse_cidr full)) [
        | inr (e, r) ↦ absurd (ground arith)
        | inl (c, r) ↦
            let (ip, is_ip, rest) = with_length-cases addr q in
            (full, c.0, ground arith, inr (f, ip, is_ip, rest))
      ]
    ]
  ]

  -- The networks are what net.ParseCIDR makes of the addresses, one for each and in order: of the text
  -- as it is if it has a slash; or else of a text that net.ParseIP reads, with /32 behind it if the
  -- address has an IPv4 form, also for the text of an IPv4-mapped IPv6 address, or with /128.
  pub parse_allowed_nets-AllParsed :
      (addresses : List Text) (nets : List IpNet)
      → parse_allowed_nets net addresses ≡ ok nets
      → AllParsed addresses nets
  unfolding parse_allowed_nets
  parse_allowed_nets-AllParsed [] [] h = tt
  parse_allowed_nets-AllParsed [] (n ∷ nets) h = cc
  parse_allowed_nets-AllParsed (a ∷ as') nets h = elim (Result-cases (parse_allowed_net net a)) [
    | inr (e, q) ↦ absurd (ground arith)
    | inl (n, q) ↦ elim (Result-cases (parse_allowed_nets net as')) [
      | inr (e, r) ↦ absurd (ground arith)
      | inl (ns, r) ↦
          let same : nets ≡ n ∷ ns = ground arith in
          rw (same) (parse_allowed_net-eq_ok a q, parse_allowed_nets-AllParsed as' ns r)
    ]
  ]
