-- ===== src/Bytes/Orders.antt =====
-- The two byte orders of real CPUs.
use jabi.Prelude.{ℕ, ◌+◌, ◌*◌, ◌/◌, ◌%◌, ◌^◌, ◌<◌, ◌≡◌, refl, List, [], ◌∷◌, arith}
use jabi.Bytes.{ByteOrder, IsByte, le_bytes16, le_bytes32}

abbrev pub swap16 : ℕ → ℕ
swap16 w = w % 256 * 256 + w / 256

abbrev pub swap32 : ℕ → ℕ
swap32 w = w % 256 * 16777216 + w / 256 % 256 * 65536 + w / 65536 % 256 * 256 + w / 16777216

abbrev pub be_bytes16 : ℕ → List ℕ
be_bytes16 n = n / 256 % 256 ∷ n % 256 ∷ []

abbrev pub be_bytes32 : ℕ → List ℕ
be_bytes32 n = n / 16777216 % 256 ∷ n / 65536 % 256 ∷ n / 256 % 256 ∷ n % 256 ∷ []

pub be_bytes16-swap16 : (n : ℕ) → n < 2 ^ 16 → be_bytes16 (swap16 n) ≡ le_bytes16 n
be_bytes16-swap16 n h = ground arith

pub be_bytes32-swap32 : (n : ℕ) → n < 2 ^ 32 → be_bytes32 (swap32 n) ≡ le_bytes32 n
be_bytes32-swap32 n h = ground arith

pub swap16-be : (a b : ℕ) → IsByte a → IsByte b → swap16 (256 * a + b) ≡ a + 256 * b
swap16-be a b ha hb = omega arith

pub swap32-be :
    (a b c d : ℕ)
    → IsByte a
    → IsByte b
    → IsByte c
    → IsByte d
    → swap32 (16777216 * a + 65536 * b + 256 * c + d) ≡ a + 256 * b + 65536 * c + 16777216 * d
swap32-be a b c d ha hb hc hd = omega arith

-- An ARM or x86 core: the conversions do nothing.
abbrev pub little_endian : ByteOrder
little_endian = record {
  load16 = λ a b. a + 256 * b;
  store16 = le_bytes16;
  load32 = λ a b c d. a + 256 * b + 65536 * c + 16777216 * d;
  store32 = le_bytes32;
  le16_to_cpu = λ w. w;
  cpu_to_le16 = λ w. w;
  le32_to_cpu = λ w. w;
  cpu_to_le32 = λ w. w;
  length-store16 = λ n. refl;
  length-store32 = λ n. refl;
  le16_to_cpu-load16 = λ a b ha hb. refl;
  store16-cpu_to_le16 = λ n h. refl;
  le32_to_cpu-load32 = λ a b c d ha hb hc hd. refl;
  store32-cpu_to_le32 = λ n h. refl;
}

-- A core that stores the most significant byte first: the conversions swap the bytes.
abbrev pub big_endian : ByteOrder
big_endian = record {
  load16 = λ a b. 256 * a + b;
  store16 = be_bytes16;
  load32 = λ a b c d. 16777216 * a + 65536 * b + 256 * c + d;
  store32 = be_bytes32;
  le16_to_cpu = swap16;
  cpu_to_le16 = swap16;
  le32_to_cpu = swap32;
  cpu_to_le32 = swap32;
  length-store16 = λ n. refl;
  length-store32 = λ n. refl;
  le16_to_cpu-load16 = swap16-be;
  store16-cpu_to_le16 = be_bytes16-swap16;
  le32_to_cpu-load32 = swap32-be;
  store32-cpu_to_le32 = be_bytes32-swap32;
}
