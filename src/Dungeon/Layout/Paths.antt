-- ===== src/Dungeon/Layout/Paths.antt =====
-- The loop over the path accepts exactly the paths that stay on the grid, never visit a cell twice,
-- and go from neighbour to neighbour.
use magic_jigsaw.Prelude.{
  ℕ, ◌+◌, ◌≡◌, refl, sym, inl, inr, true, false, List, [], ◌∷◌, Option, none, some, arith, All, In,
  Distinct, Bool-cases,
}
use magic_jigsaw.Db.Schema.{Cell}
use magic_jigsaw.Dungeon.Grid.{
  InBounds, cell_in_bounds, has_cell, cell_eq-eq, cell_eq_self, cell_in_bounds-InBounds,
  InBounds-cell_in_bounds, has_cell-In, In-has_cell, cells_adjacent-Adjacent,
  Adjacent-cells_adjacent,
}
use magic_jigsaw.Dungeon.Layout.Defs.{breaks_path, check_path, starts_at, ends_at}
use magic_jigsaw.Dungeon.Layout.Spec.{Connected, StartsAt, EndsAt}

abbrev Fresh : List Cell → List Cell → Type 0
Fresh seen cs = All (λ c. ¬ In c seen) cs

abbrev Follows : Option Cell → List Cell → Type 0
Follows none cs = Connected cs
Follows (some b) cs = Connected (b ∷ cs)

-- What the rest of the loop promises of the cells still to come.
record IsGood (prev : Option Cell) (seen cs : List Cell) : Type 0 where
  bounds : All InBounds cs
  fresh : Fresh seen cs
  distinct : Distinct cs
  connected : Follows prev cs

abbrev PrevIn : Option Cell → Type 0
PrevIn none = Unit
PrevIn (some b) = InBounds b

Fresh-head : (c : Cell) (seen cs : List Cell) → Fresh (c ∷ seen) cs → (¬ In c cs) × Fresh seen cs
Fresh-head c seen [] f = ((λ h. h), tt)
Fresh-head c seen (x ∷ cs) f =
    let rest = Fresh-head c seen cs f.1 in
    ((λ h. elim h [ inl e ↦ f.0 (inl (sym e)) | inr h' ↦ rest.0 h' ]), ((λ h. f.0 (inr h)), rest.1))

Fresh-cons : (c : Cell) (seen cs : List Cell) → (¬ In c cs) → Fresh seen cs → Fresh (c ∷ seen) cs
Fresh-cons c seen [] out f = tt
Fresh-cons c seen (x ∷ cs) out f = (
  (λ h. elim h [ inl e ↦ out (inl (sym e)) | inr h' ↦ f.0 h' ]),
  Fresh-cons c seen cs (λ h. out (inr h)) f.1,
)

Follows-cons :
    (prev : Option Cell) (c : Cell) (cs : List Cell)
    → PrevIn prev
    → InBounds c
    → breaks_path prev c ≡ false
    → Follows (some c) cs
    → Follows prev (c ∷ cs)
unfolding breaks_path
Follows-cons none c cs p q h f = f
Follows-cons (some b) c cs p q h f = (cells_adjacent-Adjacent b c p q (ground arith), f)

Follows-head :
    (prev : Option Cell) (c : Cell) (cs : List Cell)
    → PrevIn prev
    → InBounds c
    → Follows prev (c ∷ cs)
    → (breaks_path prev c ≡ false) × Follows (some c) cs
unfolding breaks_path
Follows-head none c cs p q f = (refl, f)
Follows-head (some b) c cs p q f = (rw (Adjacent-cells_adjacent b c p q f.0), f.1)

Follows-nil : (prev : Option Cell) → Follows prev []
Follows-nil none = tt
Follows-nil (some b) = tt

-- The tests that a cell passes when the loop goes on.
check_path-head :
    (i : ℕ) (prev : Option Cell) (seen : List Cell) (c : Cell) (cs : List Cell)
    → check_path i prev seen (c ∷ cs) ≡ none
    → (cell_in_bounds c ≡ true)
      × (has_cell c seen ≡ false)
      × (breaks_path prev c ≡ false)
      × (check_path (i + 1) (some c) (c ∷ seen) cs ≡ none)
unfolding check_path
check_path-head i prev seen c cs h = ground arith

check_path-IsGood :
    (i : ℕ) (prev : Option Cell) (seen cs : List Cell)
    → PrevIn prev
    → check_path i prev seen cs ≡ none
    → IsGood prev seen cs
check_path-IsGood i prev seen [] p h = record {
  bounds = tt;
  fresh = tt;
  distinct = tt;
  connected = Follows-nil prev;
}
check_path-IsGood i prev seen (c ∷ cs) p h =
    let (b, s, a, r) = check_path-head i prev seen c cs h in
    let q = cell_in_bounds-InBounds c b in
    let g = check_path-IsGood (i + 1) (some c) (c ∷ seen) cs q r in
    let f = Fresh-head c seen cs g.fresh in
    record {
      bounds = (q, g.bounds);
      fresh = (
        (λ m. elim (Bool-cases (has_cell c seen)) [
          | inl e ↦ cc
          | inr e ↦ ground (arith, In-has_cell c seen m)
        ]),
        f.1,
      );
      distinct = (f.0, g.distinct);
      connected = Follows-cons prev c cs p q a g.connected;
    }

IsGood-check_path :
    (i : ℕ) (prev : Option Cell) (seen cs : List Cell)
    → PrevIn prev
    → IsGood prev seen cs
    → check_path i prev seen cs ≡ none
unfolding check_path
IsGood-check_path i prev seen [] p g = refl
IsGood-check_path i prev seen (c ∷ cs) p g =
    let q = g.bounds.0 in
    let f = Follows-head prev c cs p q g.connected in
    let rest : check_path (i + 1) (some c) (c ∷ seen) cs ≡ none =
      IsGood-check_path (i + 1) (some c) (c ∷ seen) cs q (record {
        bounds = g.bounds.1;
        fresh = Fresh-cons c seen cs g.distinct.0 g.fresh.1;
        distinct = g.distinct.1;
        connected = f.1;
      }) in
    elim (Bool-cases (has_cell c seen)) [
      | inl e ↦ absurd (g.fresh.0 (has_cell-In c seen e))
      | inr e ↦ rw (InBounds-cell_in_bounds c q, e, f.0) rest
    ]

Fresh-nil : (cs : List Cell) → Fresh [] cs
Fresh-nil [] = tt
Fresh-nil (c ∷ cs) = ((λ h. h), Fresh-nil cs)

-- A path that passes stays on the grid, visits no cell twice, and is connected.
pub check_path_sound :
    (path : List Cell)
    → check_path 0 none [] path ≡ none
    → All InBounds path × Distinct path × Connected path
check_path_sound path h =
    let g = check_path-IsGood 0 none [] path tt h in (g.bounds, g.distinct, g.connected)

-- Every such path passes.
pub check_path_complete :
    (path : List Cell)
    → All InBounds path
    → Distinct path
    → Connected path
    → check_path 0 none [] path ≡ none
check_path_complete path b d c =
    IsGood-check_path 0 none [] path tt
      (record { bounds = b; fresh = Fresh-nil path; distinct = d; connected = c })

pub starts_at-StartsAt : (s : Cell) (cs : List Cell) → starts_at s cs ≡ true → StartsAt s cs
unfolding starts_at
starts_at-StartsAt s [] h = cc
starts_at-StartsAt s (c ∷ cs) h = cell_eq-eq c s h

pub StartsAt-starts_at : (s : Cell) (cs : List Cell) → StartsAt s cs → starts_at s cs ≡ true
unfolding starts_at
StartsAt-starts_at s [] h = absurd h
StartsAt-starts_at s (c ∷ cs) h = rw h (cell_eq_self s)

pub ends_at-EndsAt : (t : Cell) (cs : List Cell) → ends_at t cs ≡ true → EndsAt t cs
unfolding ends_at
ends_at-EndsAt t [] h = cc
ends_at-EndsAt t (c ∷ []) h = cell_eq-eq c t h
ends_at-EndsAt t (c ∷ d ∷ cs) h = ends_at-EndsAt t (d ∷ cs) h

pub EndsAt-ends_at : (t : Cell) (cs : List Cell) → EndsAt t cs → ends_at t cs ≡ true
unfolding ends_at
EndsAt-ends_at t [] h = absurd h
EndsAt-ends_at t (c ∷ []) h = rw h (cell_eq_self t)
EndsAt-ends_at t (c ∷ d ∷ cs) h = EndsAt-ends_at t (d ∷ cs) h
