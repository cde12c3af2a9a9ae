-- ===== src/Otg/Address.antt =====
-- Hardware addresses: otg2/lib/core/address.cpp. A text is the bytes in front of its NUL.
pub mod Digits
use soml_apps.Common.{
  ℕ, zero, suc, ◌+◌, ◌-◌, ◌*◌, ◌/◌, ◌%◌, Bool, true, false, ◌&&◌, ◌||◌, Option, none, some, List,
  [], ◌∷◌, ◌++◌, ltb, leb, ◌==◌, if◌then◌else◌, length,
}
use soml_apps.Clib.Run.{Run, ok, fault, ◌>>=◌}
use soml_apps.Clib.Text.{Bytes}

-- `HexChar > 0x39`, then `HexChar | 0x20`, on a signed character
abbrev pub lower_case : ℕ → ℕ
lower_case c = if ltb 57 c && ltb c 128 && c / 32 % 2 == 0 then c + 32 else c

abbrev pub is_hex : ℕ → Bool
is_hex c = let l = lower_case c in (leb 48 l && leb l 57) || (leb 97 l && leb l 102)

-- `HexChar -= 0x30`, and `0x27` less for a letter
abbrev pub hex_value : ℕ → ℕ
hex_value c = let v = lower_case c - 48 in if ltb 9 v then v - 39 else v

-- The first loop: how many hexadecimal characters there are, 12 at most.
unfoldable pub count_hex : Bytes → ℕ → ℕ
count_hex [] n = n
count_hex (c ∷ cs) n = elim (c == 58) [
  | true ↦ count_hex cs n
  | false ↦ elim (ltb n 12 && is_hex c) [ true ↦ count_hex cs (suc n) | false ↦ n ]
]

-- The second loop, on the bytes that are missing; `pending` is the first digit of a byte.
unfoldable pub read_bytes : Bytes → ℕ → Option ℕ → Run Bytes
read_bytes text zero pending = ok []
read_bytes [] (suc left) pending = fault
read_bytes (c ∷ cs) (suc left) none = elim (c == 58) [
  | true ↦ read_bytes cs (suc left) none
  | false ↦ read_bytes cs (suc left) (some (hex_value c))
]
read_bytes (c ∷ cs) (suc left) (some v) = elim (c == 58) [
  | true ↦ read_bytes cs (suc left) (some v)
  | false ↦ (do rest ← read_bytes cs left none; ok ((v * 16 + hex_value c) % 256 ∷ rest))
]

-- `setHWAddrFromColonFormat`: the six bytes, or `none` where it throws "Given Wrong MAC address
-- Format."
unfoldable pub set_hw_addr_from_colon_format : Bytes → Run (Option Bytes)
unfolding count_hex read_bytes
set_hw_addr_from_colon_format text =
    if count_hex text 0 == 12 then (do bytes ← read_bytes text 6 none; ok (some bytes)) else ok none

abbrev pub hex_digit : ℕ → ℕ
hex_digit d = if ltb d 10 then d + 48 else d + 55

-- `%02X`
abbrev pub hex_byte : ℕ → Bytes
hex_byte b = hex_digit (b / 16) ∷ hex_digit (b % 16) ∷ []

-- `%02X:%02X:%02X:%02X:%02X:%02X`
unfoldable pub colon_text : Bytes → Bytes
colon_text [] = []
colon_text (b ∷ []) = hex_byte b
colon_text (b ∷ bs) = hex_byte b ++ 58 ∷ colon_text bs

-- `convertHWAddrToColonFormat`: the text goes with its NUL into 17 bytes.
unfoldable pub convert_hw_addr_to_colon_format : Bytes → Run Bytes
unfolding colon_text
convert_hw_addr_to_colon_format mac =
    if leb (length (colon_text mac) + 1) 17 then ok (colon_text mac) else fault

-- `isSameMACAddr`
unfoldable pub is_same_mac_addr : Bytes → Bytes → Bool
is_same_mac_addr [] bs = true
is_same_mac_addr (a ∷ as_) [] = false
is_same_mac_addr (a ∷ as_) (b ∷ bs) = a == b && is_same_mac_addr as_ bs
