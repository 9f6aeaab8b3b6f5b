-- ===== src/Windows/Examples.antt =====
-- The theorem on the address 8.8.4.4.
use prosody_trunk.Base.{◌≡◌, refl, ◌≤◌, length, arith}
use prosody_trunk.Base.Text.{bytes}
use prosody_trunk.Windows.{decimal, ip_str}
use prosody_trunk.Windows.Quads.{quads_value, ip_str_fits}

server_8844 : ip_str 0x4040808 ≡ bytes "8.8.4.4"
unfolding ip_str decimal
server_8844 = refl

ip_str_fits_example :
    (length (ip_str 0x4040808) ≤ 15) × (quads_value 0 1 0 (ip_str 0x4040808) ≡ 0x4040808)
ip_str_fits_example = ip_str_fits 0x4040808 (omega arith)
