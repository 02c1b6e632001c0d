-- ===== src/NetSerializer/Laws.antt =====
-- Statements on common/net/serialization/net_serializer.c.
use they_chat.Base.{
  ℕ, ◌^◌, ◌<◌, ◌≡◌, ap, ◌∙◌, List, ◌++◌, length, take-append, drop-append, take_all, arith,
}
use they_chat.Bytes.{Endianness, big, store, load, ntoh}
use they_chat.Bytes.Laws.{store-hton, ntoh-load, length-store, store-IsBytes, load-store}
use they_chat.Endian.{ntoh16, hton16, ntoh32, hton32, ntoh64, hton64}
use they_chat.NetSerializer.{
  push_byte_array, push_16, push_32, push_64, pop_byte_array, pop_16, pop_32, pop_64,
}

pub push_byte_array_lem :
    (src : List ℕ) (n : ℕ) (dest : List ℕ)
    → length src ≡ n
    → push_byte_array src n dest ≡ dest ++ src
unfolding push_byte_array
push_byte_array_lem src n dest h = ap (λ t. dest ++ t) (take_all n src (omega arith))

pub pop_byte_array_lem :
    (n : ℕ) (bs rest : List ℕ) → length bs ≡ n → pop_byte_array n (bs ++ rest) ≡ (bs, rest)
unfolding pop_byte_array
pop_byte_array_lem n bs rest h = rw (take-append n bs rest h, drop-append n bs rest h)

-- A pushed integer is its big-endian image, whatever the host.
pub push_16_lem : (e : Endianness) (n : ℕ) (d : List ℕ) → push_16 e n d ≡ d ++ store big 2 n
unfolding push_16 hton16
push_16_lem e n d =
    push_byte_array_lem _ 2 d (length-store e 2 _) ∙ ap (λ t. d ++ t) (store-hton e 2 n)

pub push_32_lem : (e : Endianness) (n : ℕ) (d : List ℕ) → push_32 e n d ≡ d ++ store big 4 n
unfolding push_32 hton32
push_32_lem e n d =
    push_byte_array_lem _ 4 d (length-store e 4 _) ∙ ap (λ t. d ++ t) (store-hton e 4 n)

pub push_64_lem : (e : Endianness) (n : ℕ) (d : List ℕ) → push_64 e n d ≡ d ++ store big 8 n
unfolding push_64 hton64
push_64_lem e n d =
    push_byte_array_lem _ 8 d (length-store e 8 _) ∙ ap (λ t. d ++ t) (store-hton e 8 n)

image-ntoh : (e : Endianness) (w n : ℕ) → n < 256 ^ w → ntoh e w (load e (store big w n)) ≡ n
image-ntoh e w n h =
    ntoh-load e w _ (store-IsBytes big w n) (length-store big w n) ∙ load-store big w n h

pub pop_16_lem :
    (e : Endianness) (n : ℕ) (rest : List ℕ)
    → n < 256 ^ 2
    → pop_16 e (store big 2 n ++ rest) ≡ (n, rest)
unfolding pop_16 ntoh16
pop_16_lem e n rest h = rw (pop_byte_array_lem 2 _ rest (length-store big 2 n), image-ntoh e 2 n h)

pub pop_32_lem :
    (e : Endianness) (n : ℕ) (rest : List ℕ)
    → n < 256 ^ 4
    → pop_32 e (store big 4 n ++ rest) ≡ (n, rest)
unfolding pop_32 ntoh32
pop_32_lem e n rest h = rw (pop_byte_array_lem 4 _ rest (length-store big 4 n), image-ntoh e 4 n h)

pub pop_64_lem :
    (e : Endianness) (n : ℕ) (rest : List ℕ)
    → n < 256 ^ 8
    → pop_64 e (store big 8 n ++ rest) ≡ (n, rest)
unfolding pop_64 ntoh64
pop_64_lem e n rest h = rw (pop_byte_array_lem 8 _ rest (length-store big 8 n), image-ntoh e 8 n h)

pub ntoh32-load-store :
    (e : Endianness) (n : ℕ) → n < 256 ^ 4 → ntoh32 e (load e (store big 4 n)) ≡ n
unfolding ntoh32
ntoh32-load-store e n h = image-ntoh e 4 n h
