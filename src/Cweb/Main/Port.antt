-- ===== src/Cweb/Main/Port.antt =====
-- A port that is written in decimal in the configuration.
use httpserv.Prelude.{ℕ, ◌≡◌, ◌≢◌, ◌<◌, ◌≤◌, refl, ap, ◌∙◌, Option, some, Bytes, codes, arith}
use Prim.Native.Nat.{◌%◌, ◌^◌}
use httpserv.Cstring.Decimal.{decimal, strtol_size}
use httpserv.Cstring.Decimal.RoundTrip.{strtol_size-decimal}
use httpserv.Cweb.{Options}
use httpserv.Cweb.Main.{Settings, as_int, with_entries, read_settings}
use httpserv.Cweb.Main.Starts.{plain_settings, with_port-some}

as_int-decimal : (port : ℕ) → port < 2 ^ 16 → as_int (strtol_size (decimal port)) ≡ port
as_int-decimal port h = ap as_int (strtol_size-decimal port (omega arith)) ∙ omega arith

-- If the configuration has an address, and for the port the decimal text of a number from 1 to
-- 65535, then the settings are read, with that address, and the port that is passed on as 16 bits
-- is that number.
pub read_settings-decimal :
    (node : Bytes → Option Bytes) (o : Options) (ip : Bytes) (port : ℕ)
    → node (codes "http.ip") ≡ some ip
    → node (codes "http.port") ≡ some (decimal port)
    → 1 ≤ port
    → port < 2 ^ 16
    → (c : Settings) × (read_settings node o ≡ some c) × (c.ip ≡ ip) × (c.port % 2 ^ 16 ≡ port)
unfolding read_settings
read_settings-decimal node o ip port has_ip has_port some_port below =
    let same = as_int-decimal port below in
    let number : as_int (strtol_size (decimal port)) ≢ 0 = λ e. absurd (omega (arith, same, e)) in
    (
      plain_settings node o ip (decimal port),
      rw (has_ip, has_port, with_entries) (with_port-some node o ip (decimal port) number),
      refl,
      omega (arith, same),
    )
