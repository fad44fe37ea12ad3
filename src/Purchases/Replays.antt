-- ===== src/Purchases/Replays.antt =====
-- internal/repository/purchases.go: sequences of calls of CreditPurchase.
use magic_jigsaw.Purchases.Ledger.{credit_purchase-Outcome, Credits}
use magic_jigsaw.Purchases.Store.{
  credited, purchase_row, credit_purchase, PurchaseBalances, purchase_is, Purchase,
}
use magic_jigsaw.Prelude.{
  eq_iff, ℕ, ◌≡◌, inl, inr, refl, sym, ap, subst, ◌∙◌, Bool, true, false, List, [], ◌∷◌, ◌++◌,
  String, ℤ, pos, ◌+ℤ◌, ◌==◌, if◌then◌else◌, arith, Bool-cases, All, add_assoc, add_zero, zero_add,
}
use magic_jigsaw.Db.Table.{exists-append, exists-append_keeps, All-update_into, exists}
use magic_jigsaw.Db.Schema.{PurchaseRow, Db, UserRow}
use magic_jigsaw.Db.Action.{Env, World, ok}
use magic_jigsaw.Points.Statements.{user_is}

-- A call: the user and the purchase.
abbrev pub PurchaseCall : Type 0
PurchaseCall = ℕ × Purchase

-- A purchase with this identity was processed.
abbrev pub Seen : String → String → Db → Type 0
Seen platform transaction_id d = exists (purchase_is platform transaction_id) d.purchases ≡ true

-- What the ledger says was paid to a user, by one of its columns.
abbrev pub paid : (PurchaseRow → ℤ) → ℕ → List PurchaseRow → ℤ
paid column id [] = pos 0
paid column id (r ∷ rs) =
    if r.user_id == id then column r +ℤ paid column id rs else paid column id rs

-- The balances are what the user had without purchases, and what the ledger says was paid.
pub record Reconciles (base : ℕ → PurchaseBalances) (rows : List PurchaseRow) (u : UserRow)
    : Type 0 where
  pub points : u.unlock_points ≡ (base u.id).points +ℤ paid (λ r. r.points_credited) u.id rows
  pub stars :
      u.expedition_bonus_stars ≡ (base u.id).bonus_stars +ℤ paid (λ r. r.stars_credited) u.id rows

abbrev pub Reconciled : (ℕ → PurchaseBalances) → Db → Type 0
Reconciled base d = All (Reconciles base d.purchases) d.users

module _ (column : PurchaseRow → ℤ) (id : ℕ) (r : PurchaseRow) where
  paid-append :
      (rows : List PurchaseRow)
      → (r.user_id == id) ≡ true
      → paid column id (rows ++ r ∷ []) ≡ paid column id rows +ℤ column r
  paid-append [] h = rw h (add_zero (column r) ∙ sym (zero_add (column r)))
  paid-append (x ∷ rows) h = elim (Bool-cases (x.user_id == id)) [
    | inl t ↦ rw t (
        ap (λ z. column x +ℤ z) (paid-append rows h)
        ∙ add_assoc (column x) (paid column id rows) (column r))
    | inr t ↦ rw t (paid-append rows h)
  ]

  paid-append_other :
      (rows : List PurchaseRow)
      → (r.user_id == id) ≡ false
      → paid column id (rows ++ r ∷ []) ≡ paid column id rows
  paid-append_other [] h = rw h refl
  paid-append_other (x ∷ rows) h = elim (Bool-cases (x.user_id == id)) [
    | inl t ↦ rw t (ap (λ z. column x +ℤ z) (paid-append_other rows h))
    | inr t ↦ rw t (paid-append_other rows h)
  ]

  -- A balance grows with the ledger.
  grown :
      (rows : List PurchaseRow) (balance base : ℤ)
      → (r.user_id == id) ≡ true
      → balance ≡ base +ℤ paid column id rows
      → balance +ℤ column r ≡ base +ℤ paid column id (rows ++ r ∷ [])
  grown rows balance base h e =
      ap (λ z. z +ℤ column r) e
      ∙ sym (add_assoc base (paid column id rows) (column r))
      ∙ ap (λ z. base +ℤ z) (sym (paid-append rows h))

module _ (user_id : ℕ) (p : Purchase) where
  Credits-Reconciled :
      (base : ℕ → PurchaseBalances) (v : PurchaseBalances × Bool) (d d' : Db)
      → Credits user_id p v d d'
      → Reconciled base d
      → Reconciled base d'
  Credits-Reconciled base v d d' c h = subst (Reconciled base) (sym c.done) (
      All-update_into (Reconciles base d.purchases)
        (Reconciles base (d.purchases ++ purchase_row user_id p ∷ [])) (user_is user_id)
        (credited p.points p.stars) d.users
        (λ u is k. record {
          points =
              grown (λ r. r.points_credited) u.id (purchase_row user_id p) d.purchases
                u.unlock_points (base u.id).points (ground arith) k.points;
          stars =
              grown (λ r. r.stars_credited) u.id (purchase_row user_id p) d.purchases
                u.expedition_bonus_stars (base u.id).bonus_stars (ground arith) k.stars;
        })
        (λ u is k. record {
          points =
              k.points
              ∙ ap (λ z. (base u.id).points +ℤ z)
                  (sym (
                    paid-append_other (λ r. r.points_credited) u.id (purchase_row user_id p)
                      d.purchases (ground arith)));
          stars =
              k.stars
              ∙ ap (λ z. (base u.id).bonus_stars +ℤ z)
                  (sym (
                    paid-append_other (λ r. r.stars_credited) u.id (purchase_row user_id p)
                      d.purchases (ground arith)));
        })
        h)

  Credits-Seen :
      (platform transaction_id : String) (v : PurchaseBalances × Bool) (d d' : Db)
      → Credits user_id p v d d'
      → Seen platform transaction_id d
      → Seen platform transaction_id d'
  Credits-Seen platform transaction_id v d d' c h =
      subst (Seen platform transaction_id) (sym c.done) (
        exists-append_keeps (purchase_is platform transaction_id) d.purchases
          (purchase_row user_id p) h)

  Credits-Seen_own :
      (v : PurchaseBalances × Bool) (d d' : Db)
      → Credits user_id p v d d'
      → Seen p.platform p.transaction_id d'
  Credits-Seen_own v d d' c = subst (Seen p.platform p.transaction_id) (sym c.done) (
      exists-append (purchase_is p.platform p.transaction_id) d.purchases (purchase_row user_id p) (
        ground (
          arith,
          (eq_iff p.platform p.platform).1 refl,
          (eq_iff p.transaction_id p.transaction_id).1 refl,
        )))

module _ (env : Env) where
  abbrev pub purchase_call : PurchaseCall → World → World
  purchase_call (user_id, p) w = (credit_purchase env user_id p w).1

  abbrev pub purchase_calls : List PurchaseCall → World → World
  purchase_calls [] w = w
  purchase_calls (c ∷ cs) w = purchase_calls cs (purchase_call c w)

  -- What a credit keeps, every sequence of calls keeps.
  module _ (P : Db → Type 0)
      (keeps : (user_id : ℕ) (p : Purchase) (v : PurchaseBalances × Bool) (d d' : Db)
        → Credits user_id p v d d'
        → P d
        → P d') where
    credit_purchase-keeps :
        (user_id : ℕ) (p : Purchase) (w : World) → P w.db → P (credit_purchase env user_id p w).1.db
    credit_purchase-keeps user_id p w h = elim (credit_purchase-Outcome user_id p env w) [
      | inl (e, r, same) ↦ subst P (sym same) h
      | inr (v, r, inl o) ↦ subst P (sym o.same) h
      | inr (v, r, inr c) ↦ keeps user_id p v w.db (credit_purchase env user_id p w).1.db c h
    ]

    purchase_calls-keeps :
        (cs : List PurchaseCall) (w : World) → P w.db → P (purchase_calls cs w).db
    purchase_calls-keeps [] w h = h
    purchase_calls-keeps ((user_id, p) ∷ cs) w h =
        purchase_calls-keeps cs (purchase_call (user_id, p) w) (credit_purchase-keeps user_id p w h)

  -- The balances and the ledger agree after any sequence of calls of CreditPurchase, repeated ones
  -- included, however their statements go, if they agreed before: the balance of every user is
  -- what it would be without purchases and the sum of what the ledger says was paid to the user, in
  -- points and in stars.
  pub purchase_calls-Reconciled :
      (base : ℕ → PurchaseBalances) (cs : List PurchaseCall) (w : World)
      → Reconciled base w.db
      → Reconciled base (purchase_calls cs w).db
  purchase_calls-Reconciled base =
      purchase_calls-keeps (Reconciled base) (λ user_id p. Credits-Reconciled user_id p base)

  Replays_only :
      (user_id : ℕ) (p : Purchase) (w : World) (v : PurchaseBalances × Bool)
      → Seen p.platform p.transaction_id w.db
      → (credit_purchase env user_id p w).0 ≡ ok v
      → (v.1 ≡ false) × ((credit_purchase env user_id p w).1.db ≡ w.db)
  Replays_only user_id p w v seen h = elim (credit_purchase-Outcome user_id p env w) [
    | inl (e, r, same) ↦ absurd (cc)
    | inr (v', r, inl o) ↦ (ground (arith, o.answer), o.same)
    | inr (v', r, inr c) ↦ absurd (ground (arith, c.fresh))
  ]

  -- Once CreditPurchase has returned balances for a purchase, then after any sequence of calls of it,
  -- when it returns balances again for the same platform and transaction, to whichever user and for
  -- whichever product, it says that nothing was credited, and no table has changed.
  pub credit_purchase_once :
      (user_id user_id' : ℕ) (p p' : Purchase) (w : World) (v v' : PurchaseBalances × Bool)
      (cs : List PurchaseCall)
      → p'.platform ≡ p.platform
      → p'.transaction_id ≡ p.transaction_id
      → (credit_purchase env user_id p w).0 ≡ ok v
      → let w' = purchase_calls cs (credit_purchase env user_id p w).1 in
        let (r, w'') = credit_purchase env user_id' p' w' in
        r ≡ ok v' → (v'.1 ≡ false) × (w''.db ≡ w'.db)
  credit_purchase_once user_id user_id' p p' w v v' cs same_platform same_id h h' =
      let w1 = (credit_purchase env user_id p w).1 in
      let seen : Seen p.platform p.transaction_id w1.db =
        elim (credit_purchase-Outcome user_id p env w) [
          | inl (e, r, same) ↦ absurd (cc)
          | inr (v1, r, inl o) ↦ subst (Seen p.platform p.transaction_id) (sym o.same) o.seen
          | inr (v1, r, inr c) ↦ Credits-Seen_own user_id p v1 w.db w1.db c
        ] in
      let later : Seen p'.platform p'.transaction_id (purchase_calls cs w1).db =
        rw (same_platform, same_id)
          (purchase_calls-keeps (Seen p.platform p.transaction_id)
            (λ u q. Credits-Seen u q p.platform p.transaction_id) cs w1 seen) in
      Replays_only user_id' p' (purchase_calls cs w1) v' later h'
