-- ===== src/Ssh/Padding.antt =====
-- The padding of a private key: `addPad`, and the check of it in `read` (internal/ssh/ssh.go).
use stprov.Prelude.{ℕ, zero, suc, ◌+◌, ◌-◌, ◌%◌, ◌≤◌, ◌<◌, true, [], length, ◌≡◌, arith}
use stprov.Ssh.{pad_loop, add_pad, pad_ok}
use stprov.Crypto.{Ed25519KeyBody}

-- From index `i`, with fuel for the rounds up to a multiple of eight, the padding is accepted from
-- `i` on and ends at that multiple.
pad_loop_lem :
    (fuel i n : ℕ)
    → i + fuel ≤ 255
    → (r : ℕ) → r < fuel
    → (119 + 4 + n + (i + r)) % 8 ≡ 0
    → (pad_ok (pad_loop fuel i n) i ≡ true)
      × ((119 + 4 + n + (i + length (pad_loop fuel i n))) % 8 ≡ 0)
      × (length (pad_loop fuel i n) ≤ r)
unfolding pad_loop pad_ok
pad_loop_lem zero i n room r lt e = absurd (omega arith)
pad_loop_lem (suc fuel) i n room zero lt e = ground arith
pad_loop_lem (suc fuel) i n room (suc r) lt e =
    ground (arith, pad_loop_lem fuel (i + 1) n (omega arith) r (omega arith) (omega arith))

-- The padding of a key that had none is accepted by the check of `read`, completes 119 bytes and
-- the comment with its length field to a multiple of eight, and is at most seven bytes long: the
-- loop ends by its own test.
pub add_pad-pad_ok :
    (b : Ed25519KeyBody)
    → b.pad ≡ []
    → (pad_ok (add_pad b).pad 0 ≡ true)
      × ((119 + 4 + length b.comment + length (add_pad b).pad) % 8 ≡ 0)
      × (length (add_pad b).pad ≤ 7)
unfolding add_pad
add_pad-pad_ok b e =
    let n = length b.comment in
    let r = (8 - (119 + 4 + n) % 8) % 8 in
    let (accepted, full, short) = pad_loop_lem 8 0 n (omega arith) r (omega arith) (omega arith) in
    rw e (accepted, omega arith, omega arith)
