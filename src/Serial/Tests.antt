-- ===== src/Serial/Tests.antt =====
-- The serial port with a device that is busy now and then.
use arc_monark.Base.{ℕ, ◌≡◌, refl, some, List, [], ◌∷◌, arith, length, replicate}
use arc_monark.Serial.{Uart, serial_write_hex}
use arc_monark.Serial.Sent.{ready, sent, hex_value, serial_write_hex-value}

-- busy twice, then ready
abbrev port : Uart
port = record { reads = 0 ∷ 0x40 ∷ replicate 20 0x60; writes = [] }

port_ready : ready port.reads ≡ 20
unfolding ready
port_ready = refl

serial_write_hex-value_example :
    (w : Uart) × (ds : List ℕ) × (serial_write_hex 0xB8000 port ≡ some w)
    × (w.writes ≡ sent (48 ∷ 120 ∷ ds) [])
    × (length ds ≡ 16)
    × (hex_value 0 ds ≡ 0xB8000)
serial_write_hex-value_example =
    serial_write_hex-value 0xB8000 port (omega arith) (omega (arith, port_ready))
