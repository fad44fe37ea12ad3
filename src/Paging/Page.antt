-- ===== src/Paging/Page.antt =====
-- internal/httpx/paging.go, and pageOf of internal/api/expedition.go.
use magic_jigsaw.Prelude.{
  ℕ, zero, suc, ◌-◌, ◌*◌, Bool, false, not, ◌&&◌, ◌||◌, Option, none, some, List, [], ◌∷◌, String,
  ℤ, pos, negsuc, sub_ℕ, wrap, int_add, int_sub, int_le, int_lt, if◌then◌else◌, length,
}

-- Go's `a * b` on `int`.
abbrev pub product : ℤ → ℤ → ℤ
product (pos a) (pos b) = pos (a * b)
product (pos a) (negsuc b) = sub_ℕ 0 (a * suc b)
product (negsuc a) (pos b) = sub_ℕ 0 (suc a * b)
product (negsuc a) (negsuc b) = pos (suc a * suc b)

abbrev pub int_mul : ℤ → ℤ → ℤ
int_mul a b = wrap (product a b)

abbrev pub default_page_limit : ℤ
default_page_limit = pos 8

pub record Page : Type 0 where
  pub number : ℤ
  pub limit : ℤ
  pub offset : ℤ

unfoldable pub requested : Page → Bool
requested p = int_lt (pos 0) p.limit

unfoldable pub has_more : Page → ℤ → Bool
has_more p total = if not (requested p) then false else int_lt (int_add p.offset p.limit) total

-- `if limit <= 0 && number > 0 { limit = DefaultPageLimit }`
abbrev pub with_default : ℤ → ℤ → ℤ
with_default limit number =
    if int_le limit (pos 0) && int_lt (pos 0) number then default_page_limit else limit

abbrev pub clamped : ℤ → ℤ → ℤ
clamped max_limit limit =
    if int_lt (pos 0) max_limit && int_lt max_limit limit then max_limit else limit

abbrev pub from_one : ℤ → ℤ
from_one number = if int_lt number (pos 1) then pos 1 else number

-- The page, from what the query says: `atoi` is the number that strconv.Atoi returns, whatever its
-- error is.
unfoldable pub parse_page : (String → ℤ) → String → String → ℤ → Page
parse_page atoi limit_query page_query max_limit =
    let limit = with_default (atoi limit_query) (atoi page_query) in
    if int_le limit (pos 0)
    then record { number = pos 1; limit = pos 0; offset = pos 0 }
    else record {
      number = from_one (atoi page_query);
      limit = clamped max_limit limit;
      offset = int_mul (int_sub (from_one (atoi page_query)) (pos 1)) (clamped max_limit limit);
    }

abbrev pub capped_end : ℤ → ℤ → ℤ
capped_end end len = if int_lt len end then len else end

module _ {ℓ} {A : Type ℓ} where
  abbrev pub take : ℕ → List A → List A
  take zero xs = []
  take (suc n) [] = []
  take (suc n) (x ∷ xs) = x ∷ take n xs

  abbrev pub drop : ℕ → List A → List A
  drop zero xs = xs
  drop (suc n) [] = []
  drop (suc n) (x ∷ xs) = drop n xs

  -- all[low:high] of a slice whose capacity is its length: `none` is the panic of bounds out of range.
  abbrev pub slice : List A → ℤ → ℤ → Option (List A)
  slice all (pos low) (pos high) =
      if int_le (pos low) (pos high) && int_le (pos high) (pos (length all))
      then some (take (high - low) (drop low all))
      else none
  slice all (negsuc low) high = none
  slice all (pos low) (negsuc high) = none

  unfoldable pub page_of : List A → Page → Option (List A)
  page_of all p =
      if not (requested p) || int_le (pos (length all)) p.offset
      then (if requested p then some [] else some all)
      else slice all p.offset (capped_end (int_add p.offset p.limit) (pos (length all)))
