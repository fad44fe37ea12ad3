-- ===== src/Names/Draw.antt =====
-- internal/api/displayname.go: randomDisplayName, with a name as its bytes. `read n` is the buffer that the
-- n-th call of rand.Read fills; the fuel bounds the number of these calls.
use magic_jigsaw.Prelude.{◌%◌}
use magic_jigsaw.Prelude.{
  ℕ, zero, suc, ◌+◌, ◌-◌, Option, none, some, List, [], ◌∷◌, ◌++◌, ◌==◌, if◌then◌else◌, leb, ltb,
  length,
}

abbrev pub display_name_len : ℕ
display_name_len = 8

-- `n` bytes from `first` on
abbrev pub bytes_from : ℕ → ℕ → List ℕ
bytes_from first zero = []
bytes_from first (suc n) = first ∷ bytes_from (first + 1) n

-- a to z, A to Z, 0 to 9
abbrev pub display_name_alphabet : List ℕ
display_name_alphabet = bytes_from 97 26 ++ bytes_from 65 26 ++ bytes_from 48 10

unfoldable pub display_name_cutoff : ℕ
display_name_cutoff = 256 - 256 % length display_name_alphabet

-- The i-th byte, which is in range wherever the loop asks for it.
abbrev pub byte_at : ℕ → List ℕ → ℕ
byte_at i [] = 0
byte_at zero (c ∷ cs) = c
byte_at (suc i) (c ∷ cs) = byte_at i cs

unfoldable pub char_of : ℕ → ℕ
char_of b = byte_at (b % length display_name_alphabet) display_name_alphabet

-- The inner loop over the buffer.
unfoldable pub add_bytes : List ℕ → List ℕ → List ℕ
add_bytes name [] = name
add_bytes name (b ∷ bs) =
    let skipped = add_bytes name bs in
    let added = add_bytes (name ++ char_of b ∷ []) bs in
    if leb display_name_cutoff b
    then skipped
    else if length (name ++ char_of b ∷ []) == display_name_len
    then name ++ char_of b ∷ []
    else added

module _ (read : ℕ → List ℕ) where
  -- The outer loop, from the n-th call of rand.Read on.
  unfoldable pub draw : ℕ → ℕ → List ℕ → Option (List ℕ)
  draw zero n name = if ltb (length name) display_name_len then none else some name
  draw (suc fuel) n name =
      let more = draw fuel (n + 1) (add_bytes name (read n)) in
      if ltb (length name) display_name_len then more else some name

  unfoldable pub random_display_name : ℕ → Option (List ℕ)
  random_display_name fuel = draw fuel 0 []
