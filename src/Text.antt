-- ===== src/Text.antt =====
-- Byte strings: the C and C++ library functions on them that telnetServ.cc calls.
use telnet_serv.Prelude.{
  ℕ, ◌≡◌, ◌≢◌, ap, ◌++◌, ne→==, refl, Bool, true, false, List, [], ◌∷◌, ◌&&◌, ◌||◌, ltb, leb, ◌==◌,
  if◌then◌else◌, arith,
}

-- The C string that a char array holds: the bytes before the first NUL.
unfoldable pub c_str : List ℕ → List ℕ
c_str [] = []
c_str (c ∷ cs) = if c == 0 then [] else c ∷ c_str cs

-- operator== and strcmp(a, b) == 0
unfoldable pub str_eq : List ℕ → List ℕ → Bool
str_eq [] [] = true
str_eq [] (d ∷ ds) = false
str_eq (c ∷ cs) [] = false
str_eq (c ∷ cs) (d ∷ ds) = (c == d) && str_eq cs ds

-- operator<, by which std::map orders its keys: bytes compare as unsigned.
unfoldable pub str_lt : List ℕ → List ℕ → Bool
str_lt cs [] = false
str_lt [] (d ∷ ds) = true
str_lt (c ∷ cs) (d ∷ ds) = ltb c d || ((c == d) && str_lt cs ds)

-- isdigit(c) || islower(c) || isupper(c)
unfoldable pub is_alnum : ℕ → Bool
is_alnum c =
    (leb b'0' c && leb c b'9') || ((leb b'a' c && leb c b'z') || (leb b'A' c && leb c b'Z'))

pub str_eq_self : (cs : List ℕ) → str_eq cs cs ≡ true
unfolding str_eq
str_eq_self [] = refl
str_eq_self (c ∷ cs) = ground (arith, str_eq_self cs)

pub str_eq→eq : (cs ds : List ℕ) → str_eq cs ds ≡ true → cs ≡ ds
unfolding str_eq
str_eq→eq [] [] h = refl
str_eq→eq [] (d ∷ ds) h = cc
str_eq→eq (c ∷ cs) [] h = cc
str_eq→eq (c ∷ cs) (d ∷ ds) h = ground (arith, str_eq→eq cs ds)

-- Different strings are in one order or the other.
pub str_lt-total :
    (cs ds : List ℕ) → str_eq ds cs ≡ false → str_lt cs ds ≡ false → str_lt ds cs ≡ true
unfolding str_eq str_lt
str_lt-total [] [] h k = cc
str_lt-total [] (d ∷ ds) h k = cc
str_lt-total (c ∷ cs) [] h k = refl
str_lt-total (c ∷ cs) (d ∷ ds) h k = ground (arith, str_lt-total cs ds)

-- A text without a character.
abbrev pub IsFree : ℕ → List ℕ → Type 0
IsFree c [] = Unit {0}
IsFree c (x ∷ xs) = (x ≢ c) × IsFree c xs

pub IsFree-append : (c : ℕ) (xs ys : List ℕ) → IsFree c xs → IsFree c ys → IsFree c (xs ++ ys)
IsFree-append c [] ys h k = k
IsFree-append c (x ∷ xs) ys h k = (h.0, IsFree-append c xs ys h.1 k)

-- A C string is what stands before its NUL.
pub c_str_free : (xs ys : List ℕ) → IsFree 0 xs → c_str (xs ++ 0 ∷ ys) ≡ xs
unfolding c_str
c_str_free [] ys h = refl
c_str_free (x ∷ xs) ys h = rw (ne→== x 0 h.0) (ap (◌∷◌ x) (c_str_free xs ys h.1))

pub c_str_all : (xs : List ℕ) → IsFree 0 xs → c_str xs ≡ xs
unfolding c_str
c_str_all [] h = refl
c_str_all (x ∷ xs) h = rw (ne→== x 0 h.0) (ap (◌∷◌ x) (c_str_all xs h.1))
