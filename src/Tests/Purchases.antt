-- ===== src/Tests/Purchases.antt =====
-- Player 1 buys fifty points, and restores the purchase.
use magic_jigsaw.Purchases.Handler.{
  handle_confirm_purchase_outcome, verified, Confirmed, handle_confirm_purchase, Verifiers,
  ConfirmPurchaseRequest,
}
use magic_jigsaw.Purchases.Ledger.{credit_purchase-Outcome, Credits, Replays}
use magic_jigsaw.Purchases.Replays.{
  purchase_calls-Reconciled, purchase_calls, credit_purchase_once, Reconciled,
}
use magic_jigsaw.Purchases.Catalog.{is_known_platform, reward_for}
use magic_jigsaw.Purchases.Store.{
  select_balances, update_credited, replay, insert_purchase, credit, purchase_transaction,
  credit_purchase, PurchaseBalances, Purchase,
}
use magic_jigsaw.Tests.World.{env, outset}
use magic_jigsaw.Prelude.{
  ℕ, ◌≡◌, ◌⊎◌, refl, Bool, true, false, some, [], ◌∷◌, pos, ◌==◌, if◌then◌else◌,
}
use magic_jigsaw.Db.Action.{finish, Error, ok, err, execute, transaction}
use magic_jigsaw.Points.Statements.{fits_int4}

abbrev fifty : Purchase
fifty = record {
  product_id = "unlock_points_50";
  platform = "app_store";
  transaction_id = "t1";
  points = pos 50;
  stars = pos 0;
}

abbrev restored : Purchase
restored = record fifty { product_id = "expedition_stars_50"; points = pos 0; stars = pos 50 }

abbrev fifty_five : PurchaseBalances
fifty_five = record { points = pos 55; bonus_stars = pos 0 }

fifty_pays :
    reward_for "unlock_points_50" ≡ some (record { points = pos 50; expedition_stars = pos 0 })
unfolding reward_for
fifty_pays = refl

app_store_known : is_known_platform "app_store" ≡ true
unfolding is_known_platform
app_store_known = refl

bought : (credit_purchase env 1 fifty outset).0 ≡ ok (fifty_five, true)
unfolding credit_purchase purchase_transaction credit insert_purchase update_credited execute
    transaction finish fits_int4
bought = refl

bought_again :
    (credit_purchase env 1 restored (credit_purchase env 1 fifty outset).1).0
    ≡ ok (fifty_five, false)
unfolding credit_purchase purchase_transaction credit replay insert_purchase update_credited
    select_balances execute transaction finish fits_int4
bought_again = refl

credit_purchase-Outcome_example :
    let (r, w') = credit_purchase env 1 fifty outset in
    ((e : Error) × (r ≡ err e) × (w'.db ≡ outset.db))
    ⊎ ((v : PurchaseBalances × Bool) × (r ≡ ok v)
        × (Replays 1 fifty v outset.db w'.db ⊎ Credits 1 fifty v outset.db w'.db))
credit_purchase-Outcome_example = credit_purchase-Outcome 1 fifty env outset

credit_purchase_once_example :
    let w' = (credit_purchase env 1 fifty outset).1 in
    let (r, w'') = credit_purchase env 1 restored w' in (false ≡ false) × (w''.db ≡ w'.db)
credit_purchase_once_example =
    credit_purchase_once env 1 1 fifty restored outset (fifty_five, true) (fifty_five, false) []
      refl refl bought bought_again

-- The points that the players have without purchases.
abbrev before : ℕ → PurchaseBalances
before id = record { points = if id == 1 then pos 5 else pos 0; bonus_stars = pos 0 }

agree_first : Reconciled before outset.db
agree_first = (record { points = refl; stars = refl }, (record { points = refl; stars = refl }, tt))

purchase_calls-Reconciled_example :
    Reconciled before
      (purchase_calls env ((1, fifty) ∷ (1, restored) ∷ (2, restored) ∷ []) outset).db
purchase_calls-Reconciled_example =
    purchase_calls-Reconciled env before ((1, fifty) ∷ (1, restored) ∷ (2, restored) ∷ []) outset
      agree_first

-- A store that confirms every purchase as the transaction "t1".
abbrev trusting : Verifiers
trusting = record { for_platform = λ platform. some (λ product proof. verified "t1") }

abbrev receipt : ConfirmPurchaseRequest
receipt = record { product_id = "unlock_points_50"; source = "app_store"; verification_data = "r" }

handle_confirm_purchase_outcome_example :
    let x = handle_confirm_purchase env 1 trusting (some receipt) outset in
    (x.1.db ≡ outset.db)
    ⊎ ((c : Confirmed env 1 trusting receipt) × (v : PurchaseBalances × Bool) × Credits 1
          (record {
            product_id = "unlock_points_50";
            platform = "app_store";
            transaction_id = c.transaction_id;
            points = c.reward.points;
            stars = c.reward.expedition_stars;
          })
          v
          outset.db
          x.1.db)
handle_confirm_purchase_outcome_example =
    handle_confirm_purchase_outcome env 1 trusting receipt outset
