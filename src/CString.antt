-- ===== src/CString.antt =====
-- The C library's string functions on arrays of bytes, as far as the program calls them. A string
-- argument is the list of its bytes before the NUL; an array is the list of all its bytes. `none`
-- is a write past the end of the array, which C leaves undefined.
pub mod Laws
use Prim.Native.Char.{code}
use Prim.Native.String.{String}
use they_chat.Base.{
  ℕ, suc, ◌+◌, Bool, true, false, ◌&&◌, ◌||◌, Option, none, some, List, [], ◌∷◌, ◌++◌, ltb, ◌==◌,
  if◌then◌else◌, length, take, drop, replicate,
}

-- The bytes of a string literal.
abbrev pub codes : String → List ℕ
codes String.[] = []
codes (String.◌∷◌ c s) = code c ∷ codes s

-- The string in an array: its bytes before the first NUL.
unfoldable pub c_string : List ℕ → List ℕ
c_string [] = []
c_string (b ∷ bs) = if b == 0 then [] else b ∷ c_string bs

-- Whether an array holds a NUL. Reading the string of one that does not runs past its end.
unfoldable pub terminated : List ℕ → Bool
terminated [] = false
terminated (b ∷ bs) = b == 0 || terminated bs

-- strcmp(a, b) == 0
unfoldable pub str_eq : List ℕ → List ℕ → Bool
str_eq [] [] = true
str_eq [] (b ∷ bs) = false
str_eq (a ∷ as') [] = false
str_eq (a ∷ as') (b ∷ bs) = (a == b) && str_eq as' bs

unfoldable pub strcpy : List ℕ → List ℕ → Option (List ℕ)
strcpy dest src =
    if ltb (length src) (length dest)
    then some (src ++ (0 ∷ drop (suc (length src)) dest))
    else none

-- The array of `n` bytes that strncpy(dest, src, n) leaves: cut off, or filled up with NULs.
unfoldable pub strncpy : List ℕ → ℕ → List ℕ
strncpy src n = take n (src ++ replicate n 0)

-- memcpy(dest, src, n) into the front of an array
unfoldable pub memcpy : List ℕ → List ℕ → ℕ → Option (List ℕ)
memcpy dest src n = if ltb (length dest) n then none else some (take n src ++ drop n dest)
