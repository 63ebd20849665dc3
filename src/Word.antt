-- ===== src/Word.antt =====
-- kernel/src/utils.c: the bits of an IPv4 address, and its prefixes. Addresses are numbers below
-- 2 ^ 32, in host byte order.
pub mod Prefix
pub mod Mask
use Prim.Native.Nat.{bit_and}
use librefw.Base.{ℕ, zero, suc, ◌+◌, ◌-◌, ◌*◌, ◌/◌, ◌%◌, ◌^◌, Bool, [], ◌∷◌, ◌==◌, if◌then◌else◌}
use librefw.Trie.{Bits}

abbrev pub u8_mod : ℕ
u8_mod = 2 ^ 8

abbrev pub u32_mod : ℕ
u32_mod = 2 ^ 32

-- `IPV4_BITS`
abbrev pub ipv4_bits : ℕ
ipv4_bits = 32

-- `(x >> i) & 1`, read as a truth value
unfoldable pub bit : ℕ → ℕ → Bool
bit x i = x / 2 ^ i % 2 == 1

-- The shift is defined for `bit_index` below 32, the first bit being the highest.
unfoldable pub in4_get_bit : ℕ → ℕ → ℕ
in4_get_bit ip bit_index = ip / 2 ^ (ipv4_bits - 1 - bit_index) % 2

-- The shift is defined for `prefix_len` up to 32.
unfoldable pub in4_get_masked : ℕ → ℕ → ℕ
in4_get_masked ip prefix_len =
    if prefix_len == 0 then 0 else bit_and ip (0xffff_ffff * 2 ^ (ipv4_bits - prefix_len) % u32_mod)

-- `get_unaligned_be32` on a word that was loaded in the byte order of a little-endian machine
unfoldable pub get_unaligned_be32 : ℕ → ℕ
get_unaligned_be32 w =
    w % 256 * 2 ^ 24 + w / 2 ^ 8 % 256 * 2 ^ 16 + w / 2 ^ 16 % 256 * 2 ^ 8 + w / 2 ^ 24 % 256

-- The bits of `x` at the indices from `lo + n - 1` down to `lo`.
unfoldable pub bits : ℕ → ℕ → ℕ → Bits
bits x lo zero = []
bits x lo (suc n) = bit x (n + lo) ∷ bits x lo n
