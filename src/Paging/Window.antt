-- ===== src/Paging/Window.antt =====
-- What a page holds, as long as its numbers stay small.
use magic_jigsaw.Prelude.{
  ltb, ℕ, zero, suc, ◌+◌, ◌-◌, ◌*◌, ◌^◌, ◌≡◌, ◌≤◌, ◌<◌, false, some, List, [], ◌∷◌, String, ℤ, pos,
  wrap, int_add, int_sub, int_le, int_lt, if◌then◌else◌, length, refl, arith, Bool-cases, inl, inr,
  ◌∙◌, ap,
}
use magic_jigsaw.Paging.Page.{
  Page, requested, parse_page, page_of, take, drop, int_mul, from_one, clamped, with_default,
}

module _ {ℓ} {A : Type ℓ} where
  take-all : (n : ℕ) (xs : List A) → length xs ≤ n → take n xs ≡ xs
  take-all zero [] h = refl
  take-all zero (x ∷ xs) h = absurd (omega (arith, h))
  take-all (suc n) [] h = refl
  take-all (suc n) (x ∷ xs) h = ap (λ ys. x ∷ ys) (take-all n xs (omega (arith, h)))

  length-drop : (n : ℕ) (xs : List A) → length (drop n xs) ≡ length xs - n
  length-drop zero xs = omega arith
  length-drop (suc n) [] = omega arith
  length-drop (suc n) (x ∷ xs) = omega (arith, length-drop n xs)

  drop-all : (n : ℕ) (xs : List A) → length xs ≤ n → drop n xs ≡ []
  drop-all zero [] h = refl
  drop-all zero (x ∷ xs) h = absurd (omega (arith, h))
  drop-all (suc n) [] h = refl
  drop-all (suc n) (x ∷ xs) h = drop-all n xs (omega (arith, h))

  take_nothing : (n : ℕ) → take {A = A} n [] ≡ []
  take_nothing zero = refl
  take_nothing (suc n) = refl

difference : (a b : ℕ) → a + b - a ≡ b
difference a b = omega arith

wrap_small : (n : ℕ) → n < 2 ^ 63 → wrap (pos n) ≡ pos n
wrap_small n h = ground arith

module _ {A : Type 0} (all : List A) (number : ℤ) (limit offset : ℕ) (some_rows : 1 ≤ limit)
    (small : offset + limit < 2 ^ 63) where
  abbrev page : Page
  page = record { number = number; limit = pos limit; offset = pos offset }

  end_of_page : int_add (pos offset) (pos limit) ≡ pos (offset + limit)
  end_of_page = ground arith

  -- A page that starts at a row and has a limit: pageOf returns that many rows from there on, or
  -- those that there are, and never panics.
  page_of-take : page_of all page ≡ some (take limit (drop offset all))
  unfolding page_of requested
  page_of-take = elim (Bool-cases (int_le (pos (length all)) (pos offset))) [
    | inl past ↦ ground (arith, drop-all offset all (ground arith), take_nothing {A = A} limit)
    | inr inside ↦ elim (Bool-cases (int_lt (pos (length all)) (pos (offset + limit)))) [
      | inl over ↦ ground (
        arith,
        end_of_page,
        take-all limit (drop offset all) (ground (arith, length-drop offset all)),
        take-all (length all - offset) (drop offset all) (ground (arith, length-drop offset all)),
      )
      | inr fits ↦
          ground (arith, end_of_page, ap (λ n. take n (drop offset all)) (difference offset limit))
    ]
  ]

-- The rows of a page, for a request of `limit` rows and an endpoint that gives `max` at most.
abbrev pub page_size : ℕ → ℕ → ℕ
page_size max limit = if ltb max limit then max else limit

module _ (atoi : String → ℤ) (limit_query page_query : String) (limit number max : ℕ)
    (limit_is : atoi limit_query ≡ pos limit) (number_is : atoi page_query ≡ pos number)
    (some_rows : 1 ≤ limit) (from_first : 1 ≤ number) (some_max : 1 ≤ max) where
  abbrev size : ℕ
  size = page_size max limit

  parsed :
      number < 2 ^ 63
      → (number - 1) * size < 2 ^ 63
      → parse_page atoi limit_query page_query (pos max)
        ≡ record { number = pos number; limit = pos size; offset = pos ((number - 1) * size) }
  unfolding parse_page
  parsed small fits =
      let before : int_sub (pos number) (pos 1) ≡ pos (number - 1) = ground arith in
      let one : from_one (pos number) ≡ pos number = ground arith in
      let given : with_default (pos limit) (pos number) ≡ pos limit = ground arith in
      let least : clamped (pos max) (pos limit) ≡ pos size = ground arith in
      let start : int_mul (pos (number - 1)) (pos size) ≡ pos ((number - 1) * size) =
        wrap_small ((number - 1) * size) fits in
      let positive : int_le (pos limit) (pos 0) ≡ false = ground arith in
      rw (limit_is, number_is, given, positive, one, least, before, start) refl

  -- A request of the page `number`, of `limit` rows, both at least 1, of an endpoint that gives `max`
  -- rows at most: as long as the row after the page fits an int, pageOf does not panic and returns
  -- the rows from (number - 1) * size on, `size` of them or those that there are, where `size` is the
  -- smaller of `limit` and `max`.
  pub page_of-parse_page :
      {A : Type 0} (all : List A)
      → number < 2 ^ 63
      → (number - 1) * size + size < 2 ^ 63
      → page_of all (parse_page atoi limit_query page_query (pos max))
        ≡ some (take size (drop ((number - 1) * size) all))
  page_of-parse_page all small fits =
      ap (page_of all) (parsed small (omega (arith, fits)))
      ∙ page_of-take all (pos number) size ((number - 1) * size) (ground arith) fits
