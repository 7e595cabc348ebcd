-- ===== src/External/Serializer.antt =====
-- serializer.go: numbers as bytes, the highest first. A string is its bytes.
use tp_lavado_dinero.Prelude.{ℕ, ◌+◌, ◌*◌, ◌/◌, ◌%◌, ◌<◌, ◌≡◌, [], ◌∷◌, arith, Bytes}

abbrev pub u8_size : ℕ
u8_size = 256

abbrev pub u16_size : ℕ
u16_size = 65536

abbrev pub u32_size : ℕ
u32_size = 4294967296

unfoldable pub serialize_uint16 : ℕ → Bytes
serialize_uint16 n = n / 256 % 256 ∷ n % 256 ∷ []

-- Fewer bytes are a panic in the code, which never gives fewer.
unfoldable pub deserialize_uint16 : Bytes → ℕ
deserialize_uint16 (a ∷ b ∷ s) = a * 256 + b
deserialize_uint16 _ = 0

unfoldable pub serialize_uint32 : ℕ → Bytes
serialize_uint32 n = n / 16777216 % 256 ∷ n / 65536 % 256 ∷ n / 256 % 256 ∷ n % 256 ∷ []

unfoldable pub deserialize_uint32 : Bytes → ℕ
deserialize_uint32 (a ∷ b ∷ c ∷ d ∷ s) = ((a * 256 + b) * 256 + c) * 256 + d
deserialize_uint32 _ = 0

pub deserialize_uint16-serialize_uint16 :
    (n : ℕ) → n < u16_size → deserialize_uint16 (serialize_uint16 n) ≡ n
unfolding deserialize_uint16 serialize_uint16
deserialize_uint16-serialize_uint16 n h = omega (arith, h)

pub deserialize_uint32-serialize_uint32 :
    (n : ℕ) → n < u32_size → deserialize_uint32 (serialize_uint32 n) ≡ n
unfolding deserialize_uint32 serialize_uint32
deserialize_uint32-serialize_uint32 n h = omega (arith, h)
