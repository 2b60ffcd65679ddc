-- ===== src/Agent/Sanitize.antt =====
-- internal/agent/sanitize.go: the bounds on texts. A text is the list of its code points, so it is
-- always valid UTF-8, and `bytes` is its length.
use dev_board.Prelude.{
  ℕ, ◌+◌, ◌-◌, ◌≤◌, ◌≡◌, Bool, ◌||◌, List, [], ◌∷◌, leb, ltb, ◌==◌, if◌then◌else◌, arith,
}
use dev_board.Prelude.Text.{between, is_space, skip_space, reverse_onto, trim_space}

unfoldable pub code_bytes : ℕ → ℕ
code_bytes c = if ltb c 0x80 then 1 else if ltb c 0x800 then 2 else if ltb c 0x10000 then 3 else 4

unfoldable pub bytes : List ℕ → ℕ
bytes [] = 0
bytes (c ∷ cs) = code_bytes c + bytes cs

-- The longest prefix of whole code points within `max` bytes.
unfoldable pub cut : ℕ → List ℕ → List ℕ
cut max [] = []
cut max (c ∷ cs) =
    let rest = cut (max - code_bytes c) cs in if leb (code_bytes c) max then c ∷ rest else []

unfoldable pub truncate_utf8 : List ℕ → ℕ → List ℕ
truncate_utf8 s max =
    if max == 0 then [] else if leb (bytes s) max then s else trim_space (cut max s)

-- unicode.IsControl
abbrev pub is_control : ℕ → Bool
is_control c = ltb c 32 || between 127 159 c

-- The runes that strings.Map keeps.
unfoldable pub plain_runes : List ℕ → List ℕ
plain_runes [] = []
plain_runes (c ∷ cs) =
    let rest = plain_runes cs in
    if c == 10 || c == 13 || c == 9 then 32 ∷ rest else if is_control c then rest else c ∷ rest

-- strings.Join(strings.Fields(s), " "): one space before each later word, none at the ends.
unfoldable pub join_fields : Bool → Bool → List ℕ → List ℕ
unfolding is_space
join_fields begun gap [] = []
join_fields begun gap (c ∷ cs) =
    let skipped = join_fields begun Bool.true cs in
    let kept = join_fields Bool.true Bool.false cs in
    if is_space c
    then skipped
    else if begun
    then (if gap then 32 ∷ c ∷ kept else c ∷ kept)
    else c ∷ kept

unfoldable pub normalize_single_line : List ℕ → List ℕ
unfolding plain_runes join_fields
normalize_single_line s = join_fields Bool.false Bool.false (plain_runes s)

bytes-cut : (max : ℕ) (s : List ℕ) → bytes (cut max s) ≤ max
unfolding cut bytes
bytes-cut max [] = omega arith
bytes-cut max (c ∷ cs) = ground (arith, bytes-cut (max - code_bytes c) cs)

bytes-reverse_onto : (s out : List ℕ) → bytes (reverse_onto s out) ≡ bytes s + bytes out
unfolding reverse_onto bytes
bytes-reverse_onto [] out = omega arith
bytes-reverse_onto (c ∷ cs) out = omega (arith, bytes-reverse_onto cs (c ∷ out))

bytes-skip_space : (s : List ℕ) → bytes (skip_space s) ≤ bytes s
unfolding skip_space bytes
bytes-skip_space [] = omega arith
bytes-skip_space (c ∷ cs) = ground (arith, bytes-skip_space cs)

bytes-trim_space : (s : List ℕ) → bytes (trim_space s) ≤ bytes s
unfolding trim_space bytes
bytes-trim_space s =
    let front = skip_space s in
    let back = skip_space (reverse_onto front []) in
    omega (
      arith,
      bytes-reverse_onto back [],
      bytes-skip_space (reverse_onto front []),
      bytes-reverse_onto front [],
      bytes-skip_space s,
    )

pub bytes-truncate_utf8 : (s : List ℕ) (max : ℕ) → bytes (truncate_utf8 s max) ≤ max
unfolding truncate_utf8 bytes
bytes-truncate_utf8 s max = ground (arith, bytes-trim_space (cut max s), bytes-cut max s)
