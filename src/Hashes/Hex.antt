-- ===== src/Hashes/Hex.antt =====
-- `toHex` of hashes.c writes two lower-case digits a byte, from which the bytes can be read back.
use prosody_trunk.Base.{ℕ, ◌+◌, ◌-◌, ◌*◌, ◌/◌, ◌%◌, ◌<◌, ◌≡◌, refl, ap₂, arith}
use prosody_trunk.Base.{List, [], ◌∷◌, All, length, leb, if◌then◌else◌}
use prosody_trunk.Base.{bit_and}
use prosody_trunk.Base.Bits.{all_below, eq_of_table}
use prosody_trunk.Hashes.{hex_digit, to_hex}
use prosody_trunk.Hashes.Words.{IsByte}

-- The value of a lower-case hexadecimal digit, and the bytes that a string of them stands for.
unfoldable pub hex_value : ℕ → ℕ
hex_value c = if leb b'a' c then c - 87 else c - 48

unfoldable pub from_hex : List ℕ → List ℕ
from_hex (c ∷ d ∷ s) = (hex_value c * 16 + hex_value d) ∷ from_hex s
from_hex _ = []

high_digit : (b : ℕ) → b < 256 → hex_value (hex_digit (bit_and (b / 16) 0xF)) ≡ b / 16
unfolding all_below hex_digit hex_value
high_digit b h =
    eq_of_table 256 (λ x. hex_value (hex_digit (bit_and (x / 16) 0xF))) (λ x. x / 16) b refl h

low_digit : (b : ℕ) → b < 256 → hex_value (hex_digit (bit_and b 0xF)) ≡ b % 16
unfolding all_below hex_digit hex_value
low_digit b h = eq_of_table 256 (λ x. hex_value (hex_digit (bit_and x 0xF))) (λ x. x % 16) b refl h

-- Reading the hexadecimal form of a string of bytes gives the string back, and the form has twice its length.
pub from_hex-to_hex :
    (s : List ℕ) → All IsByte s → (from_hex (to_hex s) ≡ s) × (length (to_hex s) ≡ 2 * length s)
unfolding to_hex from_hex
from_hex-to_hex [] k = (refl, refl)
from_hex-to_hex (b ∷ s) (kb, k) = (
  ap₂ ◌∷◌ (rw (high_digit b kb, low_digit b kb) (omega arith)) (from_hex-to_hex s k).0,
  omega (arith, (from_hex-to_hex s k).1),
)
