-- ===== src/Bytes.antt =====
-- Integers as bytes in memory: `store e w n` is the memory image of a w-byte integer on a host of
-- byte order `e`, and `load e` reads one back. `hton` and `ntoh` are the C library's conversions
-- (htons, htonl, htobe64 and ntohs, ntohl, be64toh), which common/net/endian.c passes on.
pub mod Laws
use they_chat.Base.{ℕ, zero, suc, ◌+◌, ◌*◌, ◌/◌, ◌%◌, ◌<◌, List, [], ◌∷◌, ◌++◌, All, reverse}

pub data Endianness : Type 0 where
  little big : Endianness

abbrev pub IsBytes : List ℕ → Type 0
IsBytes = All (λ b. b < 256)

-- Least significant byte first.
unfoldable pub digits : ℕ → ℕ → List ℕ
digits zero n = []
digits (suc w) n = (n % 256) ∷ digits w (n / 256)

unfoldable pub value : List ℕ → ℕ
value [] = 0
value (b ∷ bs) = b + 256 * value bs

unfoldable pub store : Endianness → ℕ → ℕ → List ℕ
unfolding digits
store little w n = digits w n
store big w n = reverse (digits w n)

unfoldable pub load : Endianness → List ℕ → ℕ
unfolding value
load little bs = value bs
load big bs = value (reverse bs)

-- The host integer whose memory image is the big-endian image of `n`.
unfoldable pub hton : Endianness → ℕ → ℕ → ℕ
unfolding store load
hton e w n = load e (store big w n)

-- The number whose big-endian image is the memory image of the host integer `n`.
unfoldable pub ntoh : Endianness → ℕ → ℕ → ℕ
unfolding store load
ntoh e w n = load big (store e w n)
