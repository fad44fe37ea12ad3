-- ===== src/Names/Finish.antt =====
-- internal/api/displayname.go: randomDisplayName ends, and what it returns.
use magic_jigsaw.Prelude.{
  ℕ, zero, suc, ◌+◌, ◌≡◌, ◌≤◌, ◌<◌, inl, inr, refl, sym, ap, ◌∙◌, some, List, [], ◌∷◌, ◌++◌, ◌==◌,
  if◌then◌else◌, arith, Bool-cases, All, leb, ltb, length, In,
}
use magic_jigsaw.Names.Draw.{
  display_name_len, display_name_alphabet, display_name_cutoff, char_of, byte_at, add_bytes, draw,
  random_display_name,
}
use magic_jigsaw.Prelude.{◌%◌, length-append}

-- The characters of the bytes below the cutoff.
abbrev pub chars : List ℕ → List ℕ
chars [] = []
chars (b ∷ bs) = if leb display_name_cutoff b then chars bs else char_of b ∷ chars bs

abbrev pub take : ℕ → List ℕ → List ℕ
take zero xs = []
take (suc n) [] = []
take (suc n) (x ∷ xs) = x ∷ take n xs

-- The bytes of `fuel` calls of rand.Read from the n-th on.
abbrev pub stream : (ℕ → List ℕ) → ℕ → ℕ → List ℕ
stream read n zero = []
stream read n (suc fuel) = read n ++ stream read (n + 1) fuel

append_assoc : (xs ys zs : List ℕ) → (xs ++ ys) ++ zs ≡ xs ++ (ys ++ zs)
append_assoc [] ys zs = refl
append_assoc (x ∷ xs) ys zs = ap (λ l. x ∷ l) (append_assoc xs ys zs)

append_nil : (xs : List ℕ) → xs ++ [] ≡ xs
append_nil [] = refl
append_nil (x ∷ xs) = ap (λ l. x ∷ l) (append_nil xs)

chars-append : (xs ys : List ℕ) → chars (xs ++ ys) ≡ chars xs ++ chars ys
chars-append [] ys = refl
chars-append (x ∷ xs) ys = ground (arith, chars-append xs ys)

take_short : (n : ℕ) (xs : List ℕ) → length xs ≤ n → take n xs ≡ xs
take_short zero [] h = refl
take_short zero (x ∷ xs) h = absurd (omega (arith, h))
take_short (suc n) [] h = refl
take_short (suc n) (x ∷ xs) h = ap (λ l. x ∷ l) (take_short n xs (omega (arith, h)))

-- A full list hides what follows it.
take_full : (n : ℕ) (xs ys : List ℕ) → length xs ≡ n → take n (xs ++ ys) ≡ xs
take_full zero [] ys h = refl
take_full zero (x ∷ xs) ys h = absurd (omega (arith, h))
take_full (suc n) [] ys h = absurd (omega (arith, h))
take_full (suc n) (x ∷ xs) ys h = ap (λ l. x ∷ l) (take_full n xs ys (omega (arith, h)))

take-take : (n : ℕ) (xs ys : List ℕ) → take n (take n xs ++ ys) ≡ take n (xs ++ ys)
take-take zero xs ys = refl
take-take (suc n) [] ys = refl
take-take (suc n) (x ∷ xs) ys = ap (λ l. x ∷ l) (take-take n xs ys)

length-take :
    (n : ℕ) (xs : List ℕ) → length (take n xs) ≡ (if leb n (length xs) then n else length xs)
length-take zero xs = ground arith
length-take (suc n) [] = ground arith
length-take (suc n) (x ∷ xs) = ground (arith, length-take n xs)

-- The inner loop fills the name up to eight characters.
add_bytes_lem : (name bs : List ℕ) → length name < 8 → add_bytes name bs ≡ take 8 (name ++ chars bs)
unfolding add_bytes
add_bytes_lem name [] h = sym (ap (take 8) (append_nil name) ∙ take_short 8 name (omega (arith, h)))
add_bytes_lem name (b ∷ bs) h = elim (Bool-cases (leb display_name_cutoff b)) [
  | inl skip ↦ rw skip (add_bytes_lem name bs h)
  | inr keep ↦
      let name' = name ++ char_of b ∷ [] in
      let grown : length name' ≡ length name + 1 = length-append name (char_of b ∷ []) in
      let joined : take 8 (name' ++ chars bs) ≡ take 8 (name ++ char_of b ∷ chars bs) =
        ap (take 8) (append_assoc name (char_of b ∷ []) (chars bs)) in
      elim (Bool-cases (length name' == display_name_len)) [
        | inl full ↦
            rw (keep, full) (sym (take_full 8 name' (chars bs) (ground (arith, full))) ∙ joined)
        | inr short ↦
            rw (keep, short) (add_bytes_lem name' bs (ground (arith, short, grown, h)) ∙ joined)
      ]
]

byte_at-In : (i : ℕ) (cs : List ℕ) → i < length cs → In (byte_at i cs) cs
byte_at-In i [] h = absurd (omega (arith, h))
byte_at-In zero (c ∷ cs) h = inl refl
byte_at-In (suc i) (c ∷ cs) h = inr (byte_at-In i cs (omega (arith, h)))

char_of-In : (b : ℕ) → In (char_of b) display_name_alphabet
unfolding char_of
char_of-In b = byte_at-In (b % 62) display_name_alphabet (omega arith)

abbrev pub FromAlphabet : List ℕ → Type 0
FromAlphabet = All (λ c. In c display_name_alphabet)

take-FromAlphabet : (n : ℕ) (bs : List ℕ) → FromAlphabet (take n (chars bs))
take-FromAlphabet zero bs = tt
take-FromAlphabet (suc n) [] = tt
take-FromAlphabet (suc n) (b ∷ bs) = elim (Bool-cases (leb display_name_cutoff b)) [
  | inl skip ↦ rw skip (take-FromAlphabet (suc n) bs)
  | inr keep ↦ rw keep (char_of-In b, take-FromAlphabet n bs)
]

module _ (read : ℕ → List ℕ) where
  -- The outer loop goes on until there are eight characters.
  draw_lem :
      (fuel n : ℕ) (name : List ℕ)
      → length name ≤ 8
      → 8 ≤ length name + length (chars (stream read n fuel))
      → draw read fuel n name ≡ some (take 8 (name ++ chars (stream read n fuel)))
  unfolding draw
  draw_lem zero n name le enough =
      let full : length name ≡ 8 = omega (arith, le, enough) in
      rw full (ap some (sym (ap (take 8) (append_nil name) ∙ take_short 8 name le)))
  draw_lem (suc fuel) n name le enough =
      let rest = chars (stream read (n + 1) fuel) in
      elim (Bool-cases (ltb (length name) display_name_len)) [
        | inl short ↦
            let taken = length-take 8 (name ++ chars (read n)) in
            let sizes : (length (name ++ chars (read n)) ≡ length name + length (chars (read n)))
                × (length (chars (stream read n (suc fuel)))
                    ≡ length (chars (read n)) + length rest) =
              (
                length-append name (chars (read n)),
                ap length (chars-append (read n) (stream read (n + 1) fuel))
                    ∙ length-append (chars (read n)) rest,
              ) in
            let filled = add_bytes_lem name (read n) (ground (arith, short)) in
            let split : chars (stream read n (suc fuel)) ≡ chars (read n) ++ rest =
              chars-append (read n) (stream read (n + 1) fuel) in
            rw (short, filled)
              (draw_lem fuel (n + 1) (take 8 (name ++ chars (read n))) (ground (arith, taken))
                  (ground (arith, taken, sizes, enough))
                ∙ ap some (
                    take-take 8 (name ++ chars (read n)) rest
                    ∙ ap (take 8) (
                        append_assoc name (chars (read n)) rest ∙ ap (λ l. name ++ l) (sym split))))
        | inr full ↦ rw full (
            ap some (
              sym (take_full 8 name (chars (stream read n (suc fuel))) (ground (arith, full, le)))))
      ]

  -- When the calls of rand.Read that the fuel allows yield eight bytes below the cutoff, however many of
  -- their bytes are not, randomDisplayName returns the characters of the first eight of them, each
  -- from the alphabet.
  pub random_display_name_lem :
      (fuel : ℕ)
      → 8 ≤ length (chars (stream read 0 fuel))
      → (name : List ℕ) × (random_display_name read fuel ≡ some name)
        × (name ≡ take 8 (chars (stream read 0 fuel)))
        × (length name ≡ 8)
        × FromAlphabet name
  unfolding random_display_name
  random_display_name_lem fuel enough = (
    take 8 (chars (stream read 0 fuel)),
    draw_lem fuel 0 [] (omega arith) (omega (arith, enough)),
    refl,
    ground (arith, length-take 8 (chars (stream read 0 fuel))),
    take-FromAlphabet 8 (stream read 0 fuel),
  )
