-- ===== src/Bytes.antt =====
-- Byte order. A packed C struct lies over a byte array, so a field is read and written in the
-- CPU's own order; the code passes each one through Zephyr's sys_le16_to_cpu and its kin. Those
-- functions are not part of the repository, and `ByteOrder` says what they are documented to do.
pub mod Orders
use jabi.Prelude.{
  arith, ℕ, suc, ◌+◌, ◌*◌, ◌/◌, ◌%◌, ◌^◌, ◌<◌, ◌≡◌, List, [], ◌∷◌, length, get_or, take, drop, All,
}

abbrev pub IsByte : ℕ → Type 0
IsByte b = b < 256

-- The bytes of a number, least significant first.
abbrev pub le_bytes16 : ℕ → List ℕ
le_bytes16 n = n % 256 ∷ n / 256 % 256 ∷ []

abbrev pub le_bytes32 : ℕ → List ℕ
le_bytes32 n = n % 256 ∷ n / 256 % 256 ∷ n / 65536 % 256 ∷ n / 16777216 % 256 ∷ []

pub record ByteOrder : Type 0 where
  -- How the CPU reads and stores a uint16_t and a uint32_t, in the order of the addresses.
  pub load16 : ℕ → ℕ → ℕ
  pub store16 : ℕ → List ℕ
  pub load32 : ℕ → ℕ → ℕ → ℕ → ℕ
  pub store32 : ℕ → List ℕ
  -- Zephyr's conversions.
  pub le16_to_cpu : ℕ → ℕ
  pub cpu_to_le16 : ℕ → ℕ
  pub le32_to_cpu : ℕ → ℕ
  pub cpu_to_le32 : ℕ → ℕ
  pub length-store16 : (n : ℕ) → length (store16 n) ≡ 2
  pub length-store32 : (n : ℕ) → length (store32 n) ≡ 4
  pub le16_to_cpu-load16 : (a b : ℕ) → IsByte a → IsByte b → le16_to_cpu (load16 a b) ≡ a + 256 * b
  pub store16-cpu_to_le16 : (n : ℕ) → n < 2 ^ 16 → store16 (cpu_to_le16 n) ≡ le_bytes16 n
  pub le32_to_cpu-load32 :
      (a b c d : ℕ)
      → IsByte a
      → IsByte b
      → IsByte c
      → IsByte d
      → le32_to_cpu (load32 a b c d) ≡ a + 256 * b + 65536 * c + 16777216 * d
  pub store32-cpu_to_le32 : (n : ℕ) → n < 2 ^ 32 → store32 (cpu_to_le32 n) ≡ le_bytes32 n

-- The bytes of a number make up that number.
pub le16_value : (n : ℕ) → n < 2 ^ 16 → n % 256 + 256 * (n / 256 % 256) ≡ n
le16_value n h = omega arith

pub le32_value :
    (n : ℕ)
    → n < 2 ^ 32
    → n % 256 + 256 * (n / 256 % 256) + 65536 * (n / 65536 % 256) + 16777216 * (n / 16777216 % 256)
      ≡ n
le32_value n h = omega arith
