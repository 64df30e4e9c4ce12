-- ===== src/Business/Executor/Accounts.antt =====
-- business/executor.py: the account that is used.
use bfsi_voice_agent.Prelude.{
  String, ℕ, subst, ◌≡◌, inl, inr, refl, Bool, true, false, Option, none, some, List, [], ◌∷◌, In,
  Bool-cases, Option-cases, str_eq, eq_iff, leb,
}
use bfsi_voice_agent.Business.Repository.{
  Account, BusinessDatabase, rows_where, insert_earliest, sort_earliest, get_account, get_accounts,
}
use bfsi_voice_agent.Business.Repository.History.{get_account_owned}
use bfsi_voice_agent.Business.Executor.Arguments.{given, str}
use bfsi_voice_agent.Business.Executor.Handlers.{
  Arguments, Resolved, found, refused, only_account, asked_account, resolve_account,
}

module _ {A : Type 0} where
  In-insert_earliest :
      (at : A → ℕ) (z x : A) (rows : List A) → In z (insert_earliest at x rows) → In z (x ∷ rows)
  unfolding insert_earliest
  In-insert_earliest at z x [] i = i
  In-insert_earliest at z x (y ∷ rows) i = elim (Bool-cases (leb (at x) (at y))) [
    | inl e ↦
        let first : insert_earliest at x (y ∷ rows) ≡ x ∷ y ∷ rows = rw (e, insert_earliest) refl in
        subst (λ l. In z l) first i
    | inr e ↦
        let behind : insert_earliest at x (y ∷ rows) ≡ y ∷ insert_earliest at x rows =
          rw (e, insert_earliest) refl in
        elim (subst (λ l. In z l) behind i) [
          | inl same ↦ inr (inl same)
          | inr later ↦ elim (In-insert_earliest at z x rows later) [
            | inl same ↦ inl same
            | inr deep ↦ inr (inr deep)
          ]
        ]
  ]

  In-sort_earliest : (at : A → ℕ) (z : A) (rows : List A) → In z (sort_earliest at rows) → In z rows
  unfolding sort_earliest
  In-sort_earliest at z [] i = i
  In-sort_earliest at z (x ∷ rows) i = elim (In-insert_earliest at z x (sort_earliest at rows) i) [
    | inl same ↦ inl same
    | inr later ↦ inr (In-sort_earliest at z rows later)
  ]

  In-rows_where_back :
      (test : A → Bool) (z : A) (rows : List A)
      → In z (rows_where test rows)
      → In z rows × (test z ≡ true)
  unfolding rows_where
  In-rows_where_back test z [] i = elim i [ ]
  In-rows_where_back test z (x ∷ rows) i = elim (Bool-cases (test x)) [
    | inl e ↦
        let kept : rows_where test (x ∷ rows) ≡ x ∷ rows_where test rows =
          rw (e, rows_where) refl in
        elim (subst (λ l. In z l) kept i) [
          | inl same ↦ (inl same, rw same e)
          | inr later ↦ let (j, t) = In-rows_where_back test z rows later in (inr j, t)
        ]
    | inr e ↦
        let dropped : rows_where test (x ∷ rows) ≡ rows_where test rows = rw (e, rows_where) refl in
        let (j, t) = In-rows_where_back test z rows (subst (λ l. In z l) dropped i) in (inr j, t)
  ]

-- An account of the customer's.
abbrev pub Owned : String → BusinessDatabase → Account → Type 0
Owned customer db a = In a db.accounts × (a.customer_id ≡ customer)

-- What a resolution gives: an account of the customer's, or an answer that is no success.
abbrev pub Sound : String → BusinessDatabase → Resolved → Type 0
Sound customer db (found a) = Owned customer db a
Sound customer db (refused r) = r.success ≡ false

get_accounts-Owned :
    (customer : String) (db : BusinessDatabase) (a : Account)
    → In a (get_accounts customer db)
    → Owned customer db a
unfolding get_accounts
get_accounts-Owned customer db a i =
    let test = λ (b : Account). str_eq b.customer_id customer in
    let (j, t) =
      In-rows_where_back test a db.accounts
        (In-sort_earliest Account.created_at a (rows_where test db.accounts) i) in
    (j, (eq_iff a.customer_id customer).0 t)

only_account-Sound :
    (customer tool : String) (db : BusinessDatabase) (rows : List Account)
    → ((a : Account) → In a rows → Owned customer db a)
    → Sound customer db (only_account tool rows)
only_account-Sound customer tool db [] owned = refl
only_account-Sound customer tool db (a ∷ []) owned = owned a (inl refl)
only_account-Sound customer tool db (a ∷ b ∷ rows) owned = refl

asked_account-Sound :
    (customer tool : String) (db : BusinessDatabase) (o : Option Account)
    → ((a : Account) → o ≡ some a → Owned customer db a)
    → Sound customer db (asked_account tool o)
asked_account-Sound customer tool db none owned = refl
asked_account-Sound customer tool db (some a) owned = owned a refl

-- An account that is used, named by the model or not, is the customer's own.
pub resolve_account-Sound :
    (customer : String) (arguments : Arguments) (tool : String) (db : BusinessDatabase)
    → Sound customer db (resolve_account customer arguments tool db)
unfolding resolve_account
resolve_account-Sound customer arguments tool db =
    elim (Option-cases (given "account_id" arguments)) [
      | inl e ↦
          rw (e, resolve_account)
            (only_account-Sound customer tool db (get_accounts customer db)
              (get_accounts-Owned customer db))
      | inr (v, e) ↦
          rw (e, resolve_account)
            (asked_account-Sound customer tool db (get_account customer (str v) db)
              (λ a h. let (i, c, k) = (get_account_owned customer (str v) db).0 a h in (i, c)))
    ]
