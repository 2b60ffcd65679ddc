-- ===== src/Prelude/Text.antt =====
-- Text as the program walks it. A `String` holds code points; every test that the program makes
-- byte by byte is on ASCII bytes, and no byte of a longer code point is ASCII, so a walk over code
-- points decides the same. `len` is the length in bytes.
use Prim.Native.Nat.{compare, Ordering, ℕ, zero, suc, ◌+◌, ◌/◌, ◌%◌, ◌≤◌}
use Prim.Native.Char.{code, Char, char, IsLt, IsScalar, nul}
use Prim.Native.String.{String}
use mathlib.Core.Path.{◌≡◌, refl}
use mathlib.Core.Bool.{Bool, true, false, ◌&&◌, ◌||◌}
use mathlib.Core.Option.{Option, none, some}
use mathlib.Core.List.{List, [], ◌∷◌, map}
use mathlib.Core.Logic.{inl, inr}
use native.Mathlib.Omega.{arith}
use dev_board.Prelude.Tests.{Bool-cases, leb, ltb, ◌==◌, if◌then◌else◌}

unfoldable pub codes : String → List ℕ
codes String.[] = []
codes (String.◌∷◌ c s) = code c ∷ codes s

abbrev Both : Ordering → Ordering → Type 0
Both Ordering.lt o = IsLt o
Both Ordering.eq _ = ⊥
Both Ordering.gt _ = ⊥

abbrev Below : Ordering → Ordering → Ordering → Type 0
Below Ordering.lt _ _ = Unit
Below Ordering.eq o p = Both o p
Below Ordering.gt o p = Both o p

abbrev both : (o p : Ordering) → Option (Both o p)
both Ordering.lt Ordering.lt = some tt
both Ordering.lt Ordering.eq = none
both Ordering.lt Ordering.gt = none
both Ordering.eq _ = none
both Ordering.gt _ = none

abbrev below : (o p q : Ordering) → Option (Below o p q)
below Ordering.lt _ _ = some tt
below Ordering.eq o p = both o p
below Ordering.gt o p = both o p

-- Whether a number is a code point that a text may hold.
abbrev scalar : (n : ℕ) → Option (IsScalar n)
scalar n = below (compare n 55296) (compare 57343 n) (compare n 1114112)

abbrev char_of : ℕ → Char
char_of n = elim (scalar n) [ some p ↦ char n p | none ↦ nul ]

-- The text of code points; a number that is none is left as U+0000.
unfoldable pub text_of : List ℕ → String
text_of [] = String.[]
text_of (c ∷ cs) = String.◌∷◌ (char_of c) (text_of cs)

unfoldable pub all_codes : (ℕ → Bool) → List ℕ → Bool
all_codes p [] = true
all_codes p (c ∷ cs) = p c && all_codes p cs

abbrev pub between : ℕ → ℕ → ℕ → Bool
between lo hi c = leb lo c && leb c hi

-- a-z, A-Z, 0-9
abbrev pub is_alnum : ℕ → Bool
is_alnum c = between b'a' b'z' c || between b'A' b'Z' c || between b'0' b'9' c

-- unicode.IsSpace
unfoldable pub is_space : ℕ → Bool
is_space c =
    between 9 13 c
    || c == 32
    || c == 0x85
    || c == 0xa0
    || c == 0x1680
    || between 0x2000 0x200a c
    || between 0x2028 0x2029 c
    || c == 0x202f
    || c == 0x205f
    || c == 0x3000

unfoldable pub reverse_onto : List ℕ → List ℕ → List ℕ
reverse_onto [] out = out
reverse_onto (c ∷ cs) out = reverse_onto cs (c ∷ out)

unfoldable pub skip_space : List ℕ → List ℕ
unfolding is_space
skip_space [] = []
skip_space (c ∷ cs) = let rest = skip_space cs in if is_space c then rest else c ∷ cs

-- strings.TrimSpace
unfoldable pub trim_space : List ℕ → List ℕ
unfolding skip_space reverse_onto
trim_space s = reverse_onto (skip_space (reverse_onto (skip_space s) [])) []

-- unicode.ToLower, exact on what is compared with an ASCII word: the two code points outside ASCII
-- whose lower case is ASCII are U+0130 and U+212A, and all others stay outside.
unfoldable pub to_lower_code : ℕ → ℕ
to_lower_code c =
    if between b'A' b'Z' c
    then c + 32
    else if c == 0x130
    then b'i'
    else if c == 0x212a
    then b'k'
    else c

unfoldable pub to_lower : List ℕ → List ℕ
unfolding to_lower_code
to_lower = map to_lower_code

unfoldable pub codes_eq : List ℕ → List ℕ → Bool
codes_eq [] [] = true
codes_eq [] _ = false
codes_eq (c ∷ cs) [] = false
codes_eq (c ∷ cs) (d ∷ ds) = c == d && codes_eq cs ds

-- strings.TrimSpace(s) == ""
unfoldable pub is_blank : String → Bool
unfolding codes trim_space codes_eq
is_blank s = codes_eq (trim_space (codes s)) []

-- The first characters of a text, and the rest.
unfoldable pub take_text : ℕ → String → String
take_text zero s = String.[]
take_text (suc n) String.[] = String.[]
take_text (suc n) (String.◌∷◌ c s) = String.◌∷◌ c (take_text n s)

unfoldable pub drop_text : ℕ → String → String
drop_text zero s = s
drop_text (suc n) String.[] = String.[]
drop_text (suc n) (String.◌∷◌ c s) = drop_text n s

-- a < b on strings
unfoldable pub text_lt : List ℕ → List ℕ → Bool
text_lt [] [] = false
text_lt [] (d ∷ ds) = true
text_lt (c ∷ cs) [] = false
text_lt (c ∷ cs) (d ∷ ds) = let rest = text_lt cs ds in if c == d then rest else ltb c d

decimal_digits : ℕ → ℕ → List ℕ → List ℕ
decimal_digits zero n out = out
decimal_digits (suc fuel) n out =
    let rest = decimal_digits fuel (n / 10) ((b'0' + n % 10) ∷ out) in
    if ltb n 10 then (b'0' + n) ∷ out else rest

-- fmt's %d of a number; as many rounds as the number always suffice
unfoldable pub decimal : ℕ → List ℕ
unfolding decimal_digits
decimal n = decimal_digits (suc n) n []

-- More fuel than the number gives the same digits.
decimal_digits-enough :
    (f g n : ℕ) (out : List ℕ)
    → n ≤ f
    → n ≤ g
    → decimal_digits (suc f) n out ≡ decimal_digits (suc g) n out
unfolding decimal_digits
decimal_digits-enough zero g n out h k = ground arith
decimal_digits-enough (suc f) zero n out h k = ground arith
decimal_digits-enough (suc f) (suc g) n out h k = elim (Bool-cases (ltb n 10)) [
  | inl t ↦ rw t refl
  | inr t ↦
      rw t
        (decimal_digits-enough f g (n / 10) ((b'0' + n % 10) ∷ out) (ground arith) (ground arith))
]

decimal_example : decimal 307 ≡ codes "307"
unfolding decimal codes
decimal_example = refl

trims : trim_space (codes "\t Blue ") ≡ codes "Blue"
unfolding codes trim_space
trims = refl

lowers : to_lower (codes "Blue") ≡ codes "blue"
unfolding codes to_lower
lowers = refl

restores : text_of (codes "Blue · 1") ≡ "Blue · 1"
unfolding text_of codes
restores = refl
