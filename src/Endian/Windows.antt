-- ===== src/Endian/Windows.antt =====
-- The Windows branch of common/net/endian.c against the C library's conversions.
use they_chat.Base.{ℕ, ◌+◌, ◌*◌, ◌%◌, ◌^◌, ◌≡◌, ap, sym, ◌∙◌, refl, [], ◌∷◌, arith}
use they_chat.Bytes.{Endianness, little, big, digits, store, load, hton, ntoh}
use they_chat.Endian.{ntoh64, hton64, ntoh64_windows, hton64_windows, byte}

-- The shifted and masked bytes are the big-endian image.
image :
    (n : ℕ)
    → store big 8 n ≡ (
        byte n 56
        ∷ byte n 48
        ∷ byte n 40
        ∷ byte n 32
        ∷ byte n 24
        ∷ byte n 16
        ∷ byte n 8
        ∷ (n % 256)
        ∷ [])
unfolding store digits
image n = ground arith

-- Bytes joined by shifts are the number with that big-endian image.
join :
    (a b c d e f g h : ℕ)
    → a * 2 ^ 56 + b * 2 ^ 48 + c * 2 ^ 40 + d * 2 ^ 32 + e * 2 ^ 24 + f * 2 ^ 16 + g * 2 ^ 8 + h
      ≡ load big (a ∷ b ∷ c ∷ d ∷ e ∷ f ∷ g ∷ h ∷ [])
unfolding load
join a b c d e f g h = omega arith

ntoh64_lem : (e : Endianness) (n : ℕ) → load e (store big 8 n) ≡ ntoh64 e n
unfolding ntoh64 ntoh
ntoh64_lem little n = refl
ntoh64_lem big n = refl

hton64_lem : (e : Endianness) (n : ℕ) → load big (store e 8 n) ≡ hton64 e n
unfolding hton64 hton
hton64_lem little n = refl
hton64_lem big n = refl

hton64_windows-load : (e : Endianness) (n : ℕ) → hton64_windows e n ≡ load big (store e 8 n)
unfolding hton64_windows store
hton64_windows-load little n = join _ _ _ _ _ _ _ _
hton64_windows-load big n = join _ _ _ _ _ _ _ _

-- The two shift-and-mask routines of the Windows branch compute what the conversions of the C
-- library compute on the POSIX branch, on a host of either byte order.
pub windows-eq-posix :
    (e : Endianness) (n : ℕ) → (ntoh64_windows e n ≡ ntoh64 e n) × (hton64_windows e n ≡ hton64 e n)
unfolding ntoh64_windows
windows-eq-posix e n =
    (ap (load e) (sym (image n)) ∙ ntoh64_lem e n, hton64_windows-load e n ∙ hton64_lem e n)
