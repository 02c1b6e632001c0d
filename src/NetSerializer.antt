-- ===== src/NetSerializer.antt =====
-- common/net/serialization/net_serializer.c. The buffer that `dest` points into is the list of the
-- bytes written so far; the buffer that `src` points into is the list of the bytes still to read.
pub mod Laws
use they_chat.Base.{ℕ, ◌+◌, List, ◌++◌, Bool, true, false, not, ◌==◌, take, drop, ◌∷◌, []}
use they_chat.Bytes.{Endianness, store, load}
use they_chat.Endian.{ntoh16, hton16, ntoh32, hton32, ntoh64, hton64}

-- Pushes follow one another from left to right.
infixl 3 ◌▷◌
abbrev pub ◌▷◌ : {A B : Type 0} → A → (A → B) → B
d ▷ f = f d

unfoldable pub push_byte_array : List ℕ → ℕ → List ℕ → List ℕ
push_byte_array src src_size dest = dest ++ take src_size src

unfoldable pub push_32 : Endianness → ℕ → List ℕ → List ℕ
push_32 e n = push_byte_array (store e 4 (hton32 e n)) 4

unfoldable pub push_16 : Endianness → ℕ → List ℕ → List ℕ
push_16 e n = push_byte_array (store e 2 (hton16 e n)) 2

unfoldable pub push_64 : Endianness → ℕ → List ℕ → List ℕ
push_64 e n = push_byte_array (store e 8 (hton64 e n)) 8

unfoldable pub pop_byte_array : ℕ → List ℕ → List ℕ × List ℕ
pop_byte_array dest_size src = (take dest_size src, drop dest_size src)

unfoldable pub pop_32 : Endianness → List ℕ → ℕ × List ℕ
pop_32 e src = let (net_n, src') = pop_byte_array 4 src in (ntoh32 e (load e net_n), src')

unfoldable pub pop_16 : Endianness → List ℕ → ℕ × List ℕ
pop_16 e src = let (net_n, src') = pop_byte_array 2 src in (ntoh16 e (load e net_n), src')

unfoldable pub pop_64 : Endianness → List ℕ → ℕ × List ℕ
pop_64 e src = let (net_n, src') = pop_byte_array 8 src in (ntoh64 e (load e net_n), src')
