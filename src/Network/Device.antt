-- ===== src/Network/Device.antt =====
-- internal/network/device.go: link events, and the speed and the duplex mode of a device.
use stprov.Prelude.{
  ℕ, ◌+◌, ◌*◌, ◌-◌, ◌%◌, ◌^◌, ltb, Option, none, some, ◌++◌, Text, Bytes, codes, ◌==◌,
  if◌then◌else◌, Error, msg, Result, ok, err,
}
use stprov.Prelude.Int.{ℤ, pos, negsuc}
use stprov.Prelude.Exec.{Exec, pure, raise, context, ◌>>◌}
use stprov.Network.{speed_to_str}
use stprov.Network.Netlink.{Netlink, LinkUpdate}

-- linkSpeed
pub record LinkSpeed : Type 0 where
  pub str : Text
  pub bits_per_second : ℤ

-- A number of 64 bits, read as a signed one.
abbrev signed : ℕ → ℤ
signed r = if ltb r (2 ^ 63) then pos r else negsuc (2 ^ 64 - 1 - r)

-- 1000000 * i in an int64, which wraps around
unfoldable pub million_times : ℤ → ℤ
million_times (pos n) = signed (1000000 * n % 2 ^ 64)
million_times (negsuc n) = signed ((2 ^ 64 - 1000000 * (n + 1) % 2 ^ 64) % 2 ^ 64)

-- The error of a context with that many nanoseconds when it is made.
abbrev pub expired : ℤ → Option Error
expired (pos n) = if n == 0 then some (msg (codes "context deadline exceeded")) else none
expired (negsuc n) = some (msg (codes "context deadline exceeded"))

module _ (nl : Netlink) where
  open nl use {State, link_subscribe, next_update, read_file, parse_int, trim_space, quoted}

  abbrev not_expired : Option Error → Exec State (Unit {0})
  not_expired none = pure tt
  not_expired (some e) = raise e

  -- The select of `WaitForDeviceEvent`: any update ends the wait, that of another device too.
  abbrev selected : Option LinkUpdate → Result (Unit {0})
  selected none = err (msg (codes "context cancelled"))
  selected (some event) = ok tt

  -- The context of the caller was made with a timeout of `wait` nanoseconds.
  unfoldable pub wait_for_device_event : ℤ → Exec State (Unit {0})
  wait_for_device_event wait = do
    not_expired (expired wait)
    context (codes "linksubscribe failed") link_subscribe
    λ s. (selected (next_update wait s).0, (next_update wait s).1)

  abbrev unknown_speed : Text → LinkSpeed
  unknown_speed t = record { str = t; bits_per_second = negsuc 0 }

  abbrev speed_of : Text → Result ℤ → LinkSpeed
  speed_of s (err e) = unknown_speed (codes "Unknown (" ++ quoted s ++ codes ")")
  speed_of s (ok i) = record { str = speed_to_str i; bits_per_second = million_times i }

  abbrev speed_read : Result Bytes → LinkSpeed
  speed_read (err e) = unknown_speed (codes "Unknown")
  speed_read (ok b) = speed_of (trim_space b) (parse_int (trim_space b))

  unfoldable pub get_device_speed : Text → State → LinkSpeed
  unfolding million_times
  get_device_speed device s =
      speed_read (read_file (codes "/sys/class/net/" ++ device ++ codes "/speed") s)

  abbrev duplex_read : Result Bytes → Text
  duplex_read (err e) = codes "unknown"
  duplex_read (ok b) = trim_space b

  unfoldable pub get_device_duplex : Text → State → Text
  get_device_duplex device s =
      duplex_read (read_file (codes "/sys/class/net/" ++ device ++ codes "/duplex") s)
