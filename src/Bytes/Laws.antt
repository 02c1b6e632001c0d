-- ===== src/Bytes/Laws.antt =====
-- Lemmas on memory images of integers.
use they_chat.Base.{
  ℕ, zero, suc, ◌+◌, ◌*◌, ◌/◌, ◌%◌, ◌^◌, ◌<◌, ◌≡◌, refl, ap, ◌∙◌, List, [], ◌∷◌, All-append,
  reverse, length, length-append, arith,
}
use mathlib.Core.List.{reverse-append, reverse-reverse}
use they_chat.Bytes.{Endianness, little, big, IsBytes, digits, value, store, load, hton, ntoh}

pub length-digits : (w n : ℕ) → length (digits w n) ≡ w
unfolding digits
length-digits zero n = refl
length-digits (suc w) n = ap suc (length-digits w _)

digits-IsBytes : (w n : ℕ) → IsBytes (digits w n)
unfolding digits
digits-IsBytes zero n = tt
digits-IsBytes (suc w) n = (omega arith, digits-IsBytes w _)

pow_suc : (w : ℕ) → 256 ^ suc w ≡ 256 * 256 ^ w
pow_suc w = omega arith

value-digits : (w n : ℕ) → n < 256 ^ w → value (digits w n) ≡ n
unfolding digits value
value-digits zero n h = omega arith
value-digits (suc w) n h =
    let small : n / 256 < 256 ^ w = omega (arith, pow_suc w) in
    omega (arith, value-digits w (n / 256) small)

digits-value : (bs : List ℕ) → IsBytes bs → digits (length bs) (value bs) ≡ bs
unfolding digits value
digits-value [] h = refl
digits-value (b ∷ bs) h =
    let low : (b + 256 * value bs) % 256 ≡ b = omega (arith, h.0) in
    let high : (b + 256 * value bs) / 256 ≡ value bs = omega (arith, h.0) in
    rw (low, high) (ap (λ t. b ∷ t) (digits-value bs h.1))

length-reverse : (bs : List ℕ) → length (reverse bs) ≡ length bs
length-reverse [] = refl
length-reverse (b ∷ bs) =
    ap length (reverse-append (b ∷ []) bs)
    ∙ omega (arith, length-append (reverse bs) (b ∷ []), length-reverse bs)

reverse-IsBytes : (bs : List ℕ) → IsBytes bs → IsBytes (reverse bs)
reverse-IsBytes [] h = tt
reverse-IsBytes (b ∷ bs) h =
    rw (reverse-append (b ∷ []) bs)
      (All-append _ (reverse bs) (b ∷ []) (reverse-IsBytes bs h.1) (h.0, tt))

pub length-store : (e : Endianness) (w n : ℕ) → length (store e w n) ≡ w
unfolding store
length-store little w n = length-digits w n
length-store big w n = length-reverse (digits w n) ∙ length-digits w n

pub store-IsBytes : (e : Endianness) (w n : ℕ) → IsBytes (store e w n)
unfolding store
store-IsBytes little w n = digits-IsBytes w n
store-IsBytes big w n = reverse-IsBytes _ (digits-IsBytes w n)

pub load-store : (e : Endianness) (w n : ℕ) → n < 256 ^ w → load e (store e w n) ≡ n
unfolding store load
load-store little w n h = value-digits w n h
load-store big w n h = rw reverse-reverse (value-digits w n h)

pub store-load :
    (e : Endianness) (w : ℕ) (bs : List ℕ) → IsBytes bs → length bs ≡ w → store e w (load e bs) ≡ bs
unfolding store load
store-load little w bs h l = rw (← l) (digits-value bs h)
store-load big w bs h l =
    let size : length (reverse bs) ≡ w = length-reverse bs ∙ l in
    rw (← size) (ap reverse (digits-value (reverse bs) (reverse-IsBytes bs h)) ∙ reverse-reverse bs)

-- What `hton` leaves in memory is the big-endian image, on either host.
pub store-hton : (e : Endianness) (w n : ℕ) → store e w (hton e w n) ≡ store big w n
unfolding hton
store-hton e w n = store-load e w _ (store-IsBytes big w n) (length-store big w n)

pub ntoh-load :
    (e : Endianness) (w : ℕ) (bs : List ℕ)
    → IsBytes bs
    → length bs ≡ w
    → ntoh e w (load e bs) ≡ load big bs
unfolding ntoh
ntoh-load e w bs h l = ap (load big) (store-load e w bs h l)
