-- ===== src/Endian.antt =====
-- common/net/endian.c. The POSIX branch passes the C library's conversions on; the Windows branch
-- writes the two 64-bit ones out with shifts. In `hton64_windows` the bytes are joined by `+`,
-- which is `|` on bytes shifted to places that do not overlap.
pub mod Windows
use they_chat.Base.{ℕ, zero, suc, ◌+◌, ◌*◌, ◌/◌, ◌%◌, ◌^◌, List, [], ◌∷◌}
use they_chat.Bytes.{Endianness, store, load, hton, ntoh}

unfoldable pub ntoh16 : Endianness → ℕ → ℕ
ntoh16 e net_16bits = ntoh e 2 net_16bits

unfoldable pub hton16 : Endianness → ℕ → ℕ
hton16 e host_16bits = hton e 2 host_16bits

unfoldable pub ntoh32 : Endianness → ℕ → ℕ
ntoh32 e net_32bits = ntoh e 4 net_32bits

unfoldable pub hton32 : Endianness → ℕ → ℕ
hton32 e host_32bits = hton e 4 host_32bits

unfoldable pub ntoh64 : Endianness → ℕ → ℕ
ntoh64 e net_64bits = ntoh e 8 net_64bits

unfoldable pub hton64 : Endianness → ℕ → ℕ
hton64 e host_64bits = hton e 8 host_64bits

-- (n >> k) & 0xFF
abbrev pub byte : ℕ → ℕ → ℕ
byte n k = n / 2 ^ k % 256

-- p[i], where `p` points at the bytes of an integer
abbrev pub index : List ℕ → ℕ → ℕ
index [] i = 0
index (b ∷ p) zero = b
index (b ∷ p) (suc i) = index p i

-- The bytes of `result` are assigned from p[0] to p[7].
pub ntoh64_windows : Endianness → ℕ → ℕ
ntoh64_windows e n = load e (
    byte n 56
    ∷ byte n 48
    ∷ byte n 40
    ∷ byte n 32
    ∷ byte n 24
    ∷ byte n 16
    ∷ byte n 8
    ∷ (n % 256)
    ∷ [])

pub hton64_windows : Endianness → ℕ → ℕ
hton64_windows e host_64bits =
    let p = store e 8 host_64bits in
    index p 0 * 2 ^ 56
    + index p 1 * 2 ^ 48
    + index p 2 * 2 ^ 40
    + index p 3 * 2 ^ 32
    + index p 4 * 2 ^ 24
    + index p 5 * 2 ^ 16
    + index p 6 * 2 ^ 8
    + index p 7
