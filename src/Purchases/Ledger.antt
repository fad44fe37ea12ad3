-- ===== src/Purchases/Ledger.antt =====
-- internal/repository/purchases.go: how CreditPurchase can end.
use magic_jigsaw.Points.Statements.{user_is}
use magic_jigsaw.Purchases.Store.{
  credit_purchase, purchase_transaction, credited, balances_of, purchase_row, purchase_is, credit,
  PurchaseBalances, insert_purchase, select_balances, replay, update_credited, Purchase,
}
use magic_jigsaw.Prelude.{
  ℕ, ◌≡◌, ◌⊎◌, inl, inr, sym, ap, subst, ◌∙◌, Bool, true, false, some, [], ◌∷◌, ◌++◌, arith,
  Option-cases,
}
use magic_jigsaw.Db.Table.{select, update, exists}
use magic_jigsaw.Db.Schema.{Db, UserRow}
use magic_jigsaw.Db.Action.{
  Env, World, Error, ok, err, commit, rollback, branch, execute, begun, transaction_outcome,
  bind_ran, execute_ok,
}

module _ (user_id : ℕ) (p : Purchase) where
  -- The purchase is new: its row is added, and the balances of the user grow by what it pays.
  pub record Credits (v : PurchaseBalances × Bool) (d d' : Db) : Type 0 where
    pub fresh : exists (purchase_is p.platform p.transaction_id) d.purchases ≡ false
    pub user : UserRow
    pub is_user : select (user_is user_id) d.users ≡ some user
    pub answer : v ≡ (balances_of (credited p.points p.stars user), true)
    pub done : d' ≡ record d {
      purchases = d.purchases ++ purchase_row user_id p ∷ [];
      users = update (user_is user_id) (credited p.points p.stars) d.users;
    }

  -- The purchase was processed before: nothing changes.
  pub record Replays (v : PurchaseBalances × Bool) (d d' : Db) : Type 0 where
    pub seen : exists (purchase_is p.platform p.transaction_id) d.purchases ≡ true
    pub user : UserRow
    pub is_user : select (user_is user_id) d.users ≡ some user
    pub answer : v ≡ (balances_of user, false)
    pub same : d' ≡ d

  insert_purchase_new :
      (d d' : Db)
      → insert_purchase user_id p d ≡ some (true, d')
      → (exists (purchase_is p.platform p.transaction_id) d.purchases ≡ false)
        × (d' ≡ record d { purchases = d.purchases ++ purchase_row user_id p ∷ [] })
  unfolding insert_purchase
  insert_purchase_new d d' h = ground arith

  insert_purchase_seen :
      (d d' : Db)
      → insert_purchase user_id p d ≡ some (false, d')
      → (exists (purchase_is p.platform p.transaction_id) d.purchases ≡ true) × (d' ≡ d)
  unfolding insert_purchase
  insert_purchase_seen d d' h = ground arith

  module _ (env : Env) where
    replay_row :
        (w : World) (v : PurchaseBalances × Bool)
        → (replay env user_id w).0 ≡ ok (commit v)
        → (u : UserRow) × (select (user_is user_id) w.db.users ≡ some u)
          × (v ≡ (balances_of u, false))
          × ((replay env user_id w).1.db ≡ w.db)
    unfolding replay execute select_balances
    replay_row w v h = elim (Option-cases (select (user_is user_id) w.db.users)) [
      | inl n ↦ absurd (ground arith)
      | inr (u, n) ↦ (u, n, ground arith, ground arith)
    ]

    credit_row :
        (w : World) (v : PurchaseBalances × Bool)
        → (credit env user_id p w).0 ≡ ok (commit v)
        → (u : UserRow) × (select (user_is user_id) w.db.users ≡ some u)
          × (v ≡ (balances_of (credited p.points p.stars u), true))
          × ((credit env user_id p w).1.db ≡ record w.db {
            users = update (user_is user_id) (credited p.points p.stars) w.db.users;
          })
    unfolding credit execute update_credited
    credit_row w v h = elim (Option-cases (select (user_is user_id) w.db.users)) [
      | inl n ↦ absurd (ground arith)
      | inr (u, n) ↦ (u, n, ground arith, ground arith)
    ]

    ran_from :
        (w : World) (v : PurchaseBalances × Bool) (b : Bool)
        → (execute env (insert_purchase user_id p) w).0 ≡ ok b
        → let w1 = (execute env (insert_purchase user_id p) w).1 in
          let (r, w2) = branch b (credit env user_id p) (replay env user_id) w1 in
          r ≡ ok (commit v) → Replays v w.db w2.db ⊎ Credits v w.db w2.db
    ran_from w v true n h =
        let w1 = (execute env (insert_purchase user_id p) w).1 in
        let (fresh, e) =
          insert_purchase_new w.db w1.db (execute_ok env (insert_purchase user_id p) w true n) in
        let (u, is, a, d) = credit_row w1 v h in
        inr (record {
          fresh = fresh;
          user = u;
          is_user = subst (λ (x : Db). select (user_is user_id) x.users ≡ some u) e is;
          answer = a;
          done =
              d
              ∙ ap
                  (λ (x : Db). record x {
                    users = update (user_is user_id) (credited p.points p.stars) x.users;
                  })
                  e;
        })
    ran_from w v false n h =
        let w1 = (execute env (insert_purchase user_id p) w).1 in
        let (seen, e) =
          insert_purchase_seen w.db w1.db (execute_ok env (insert_purchase user_id p) w false n) in
        let (u, is, a, d) = replay_row w1 v h in
        inl (record {
          seen = seen;
          user = u;
          is_user = subst (λ (x : Db). select (user_is user_id) x.users ≡ some u) e is;
          answer = a;
          same = d ∙ e;
        })

    -- What the body of the transaction did, when it got to its end.
    purchase_transaction_ran :
        (w : World) (v : PurchaseBalances × Bool)
        → (purchase_transaction env user_id p w).0 ≡ ok (commit v)
        → Replays v w.db (purchase_transaction env user_id p w).1.db
          ⊎ Credits v w.db (purchase_transaction env user_id p w).1.db
    unfolding purchase_transaction
    purchase_transaction_ran w v h =
        bind_ran (λ r. Replays v w.db r.1.db ⊎ Credits v w.db r.1.db)
          (execute env (insert_purchase user_id p))
          (λ b. branch b (credit env user_id p) (replay env user_id)) w (commit v) h (ran_from w v)

    purchase_transaction-rollback :
        (w : World) (v : PurchaseBalances × Bool)
        → (purchase_transaction env user_id p w).0 ≡ ok (rollback v)
        → ⊥
    unfolding purchase_transaction credit replay
    purchase_transaction-rollback w v h = ground arith

    -- However its statements go, CreditPurchase returns an error and changes no table, or finds the
    -- purchase among those processed before, changes no table and returns the user's balances, or
    -- records the purchase as a new one and adds what it pays to the user's balances, which it
    -- returns.
    pub credit_purchase-Outcome :
        (w : World)
        → let (r, w') = credit_purchase env user_id p w in
          ((e : Error) × (r ≡ err e) × (w'.db ≡ w.db))
          ⊎ ((v : PurchaseBalances × Bool) × (r ≡ ok v)
              × (Replays v w.db w'.db ⊎ Credits v w.db w'.db))
    unfolding credit_purchase
    credit_purchase-Outcome w =
        let body = purchase_transaction env user_id p in
        elim (transaction_outcome env body w) [
          | inl a ↦ inl (a.error, a.returned, a.unchanged)
          | inr (inl r) ↦ absurd (purchase_transaction-rollback (begun env body w) r.value r.ended)
          | inr (inr t) ↦ inr (
            t.value,
            t.returned,
            subst (λ d. Replays t.value w.db d ⊎ Credits t.value w.db d) (sym t.done)
                (purchase_transaction_ran (begun env body w) t.value t.ended),
          )
        ]
