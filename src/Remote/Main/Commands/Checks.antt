-- ===== src/Remote/Main/Commands/Checks.antt =====
-- The command lines that `stprov remote` refuses before it does anything (subcmd/remote/remote.go).
use stprov.Prelude.{
  ℕ, zero, suc, Bool, ◌<◌, true, false, some, List, [], ◌∷◌, Text, is_empty, lt→ltb, not, Error,
  err, Bool-cases, ◌⊎◌, inl, inr, ◌≡◌, ◌≢◌, refl, arith, wrap, msg, codes, ◌++◌, ◌&&◌, text_eq,
}
use stprov.Options.Flags.{new, redefines, add_bool, add_string, add_slice, add_int}
use stprov.Remote.Main.{RemoteOptions, prepare, count_true, interface_choices, fmt_err, set_options}
use stprov.Remote.Main.Commands.{Machine, State, dispatch, main}
use stprov.Remote.Run.{Session}

fmt_err-err :
    {A : Type 0} (name : Text) (e : Error) → (f : Error) × (fmt_err {A = A} name (err e) ≡ err f)
unfolding fmt_err
fmt_err-err [] e = (wrap [] e, refl)
fmt_err-err (c ∷ name) e = (wrap (codes " " ++ c ∷ name) e, refl)

-- The ways to choose the interface, -A, -m, -I, -B and -b, and their places in that order.
pub data Way : Type 0 where
  detection : Way
  address : Way
  name : Way
  bonding_detection : Way
  bonding_names : Way

abbrev pub place : Way → ℕ
place detection = 0
place address = 1
place name = 2
place bonding_detection = 3
place bonding_names = 4

-- The command line takes that way.
abbrev pub Takes : RemoteOptions → Way → Type 0
Takes o detection = o.autodetect ≡ true
Takes o address = o.mac ≢ []
Takes o name = o.interface ≢ []
Takes o bonding_detection = o.bonding_auto ≡ true
Takes o bonding_names = o.bonding_interfaces ≢ []

-- A command line that gives both kinds of host name, or takes two ways to choose the interface.
abbrev pub IsAmbiguous : RemoteOptions → Type 0
IsAmbiguous o =
    ((o.host_name ≢ []) × (o.full_host_name ≢ []))
    ⊎ ((a : Way) × (b : Way) × (place a < place b) × Takes o a × Takes o b)

-- The Boolean at a place of a list.
abbrev at_place : List Bool → ℕ → Bool
at_place [] i = false
at_place (v ∷ vs) zero = v
at_place (v ∷ vs) (suc i) = at_place vs i

Takes-at_place :
    (o : RemoteOptions) (a : Way) → Takes o a → at_place (interface_choices o) (place a) ≡ true
Takes-at_place o detection h = h
Takes-at_place o address h = ground arith
Takes-at_place o name h = ground arith
Takes-at_place o bonding_detection h = h
Takes-at_place o bonding_names h = ground arith

count_true-some : (vs : List Bool) (i : ℕ) → at_place vs i ≡ true → 0 < count_true vs
unfolding count_true
count_true-some [] i h = absurd (ground arith)
count_true-some (v ∷ vs) zero h = ground arith
count_true-some (v ∷ vs) (suc i) h = ground (arith, count_true-some vs i h)

count_true-two :
    (vs : List Bool) (i j : ℕ)
    → i < j
    → at_place vs i ≡ true
    → at_place vs j ≡ true
    → 1 < count_true vs
unfolding count_true
count_true-two [] i j less h g = absurd (ground arith)
count_true-two (v ∷ vs) i zero less h g = absurd (ground arith)
count_true-two (v ∷ vs) zero (suc j) less h g = ground (arith, count_true-some vs j g)
count_true-two (v ∷ vs) (suc i) (suc j) less h g =
    let rest : 1 < count_true vs = count_true-two vs i j (omega arith) h g in ground (arith, rest)

module _ (m : Machine) where
  open m use {p, nl, stboot}

  ambiguous :
      (o : RemoteOptions) (s : nl.State)
      → IsAmbiguous o
      → (e : Error) × (prepare p.net nl p.efi stboot.host m.parse_duration o s ≡ err e)
  unfolding prepare
  ambiguous o s (inl (h, f)) =
      let both : not (is_empty o.host_name) && not (is_empty o.full_host_name) ≡ true =
        ground arith in
      (msg (codes "-h and -H options are mutually exclusive"), rw both refl)
  ambiguous o s (inr (a, b, less, takes_a, takes_b)) =
      let many =
        count_true-two (interface_choices o) (place a) (place b) less (Takes-at_place o a takes_a)
          (Takes-at_place o b takes_b) in
      elim (Bool-cases (not (is_empty o.host_name) && not (is_empty o.full_host_name))) [
        | inl t ↦ (msg (codes "-h and -H options are mutually exclusive"), rw t refl)
        | inr f ↦ (
          msg (codes "-A, -m, -I, -B, and -b options are mutually exclusive"),
          rw (f, lt→ltb 1 (count_true (interface_choices o)) many) refl,
        )
      ]

  -- A command line with both kinds of host name, or with two of -A, -m, -I, -B and -b, is an error,
  -- whatever the command, and nothing is done.
  pub main-IsAmbiguous :
      (o : RemoteOptions) (session : Session p) (s : State m)
      → IsAmbiguous o
      → (e : Error) × (main m o session s ≡ some (err e, s))
  unfolding main dispatch
  main-IsAmbiguous o session s h =
      let (e, q) = ambiguous o s.0 h in
      let (f, r) = fmt_err-err {A = Unit {0}} o.command e in (f, rw (q, r) refl)

-- Whatever the command is called, `Main` defines no flag twice, which package flag panics at.
pub set_options-redefines : (args : List Text) → redefines (new args set_options).0.flags ≡ false
unfolding new set_options redefines add_bool add_string add_slice add_int
set_options-redefines args =
    let name = (new args (λ fs. fs)).0.name in
    elim (Bool-cases (text_eq name (codes "static"))) [
      | inl t ↦ rw t refl
      | inr f ↦ elim (Bool-cases (text_eq name (codes "dhcp"))) [
        | inl t ↦ rw (f, t) refl
        | inr g ↦ elim (Bool-cases (text_eq name (codes "run"))) [
          | inl t ↦ rw (f, g, t) refl
          | inr h ↦ rw (f, g, h) refl
        ]
      ]
    ]
