-- ===== src/Business/Repository/History.antt =====
-- business/repository.py: what the reads return.
use bfsi_voice_agent.Prelude.{
  sort_latest, All-take, All-sort_latest, Descending, Descending-take, Descending-sort_latest,
  length-sort_latest, length-take, In-sort_latest, take_latest, Descending, ℕ, ◌≤◌, min, max,
  String, ◌≡◌, ◌⊎◌, inl, inr, Bool, true, false, ◌&&◌, none, some, List, [], ◌∷◌, arith, All,
  length, In, str_eq, Bool-cases, Text, codes, text_eq, eq_of_text_eq, eq_iff, ap, sym, ◌∙◌,
}
use bfsi_voice_agent.Business.Repository.{
  Account, CallEvent, BusinessDatabase, rows_where, find_account, get_account, get_call_history,
}

module _ {A : Type 0} where
  All-rows_where : (test : A → Bool) (xs : List A) → All (λ x. test x ≡ true) (rows_where test xs)
  unfolding rows_where
  All-rows_where test [] = tt
  All-rows_where test (x ∷ xs) = elim (Bool-cases (test x)) [
    | inl e ↦ rw e (e, All-rows_where test xs)
    | inr e ↦ rw e (All-rows_where test xs)
  ]

  In-rows_where :
      (test : A → Bool) (z : A) (xs : List A) → test z ≡ true → In z xs → In z (rows_where test xs)
  unfolding rows_where
  In-rows_where test z [] t i = elim i [ ]
  In-rows_where test z (x ∷ xs) t (inl same) =
      let tx : test x ≡ true = rw (← same) t in rw tx (inl same)
  In-rows_where test z (x ∷ xs) t (inr later) = elim (Bool-cases (test x)) [
    | inl e ↦ rw e (inr (In-rows_where test z xs t later))
    | inr e ↦ rw e (In-rows_where test z xs t later)
  ]

-- The events that a customer has.
abbrev pub owned : String → CallEvent → Bool
owned customer e = str_eq e.customer_id customer

-- The call history is the customer's own and the latest of it: every event returned is the
-- customer's, they come with the latest first, there are as many as the limit, brought into 1 to
-- 50, allows and the table has, and any other event of the customer is no later than those.
pub call_history_latest :
    (customer : String) (limit : ℕ) (db : BusinessDatabase)
    → let result = get_call_history customer limit db in
      All (λ e. owned customer e ≡ true) result
      × Descending CallEvent.created_at result
      × (length result
          ≡ min (max 1 (min limit 50)) (length (rows_where (owned customer) db.call_history)))
      × ((e : CallEvent)
          → owned customer e ≡ true
          → In e db.call_history
          → In e result ⊎ All (λ r. e.created_at ≤ r.created_at) result)
unfolding get_call_history
call_history_latest customer limit db =
    let n = max 1 (min limit 50) in
    let at = CallEvent.created_at in
    let own = rows_where (owned customer) db.call_history in
    let sorted = sort_latest at own in
    (
      All-take at (λ e. owned customer e ≡ true) n sorted
          (All-sort_latest at (λ e. owned customer e ≡ true) own
            (All-rows_where (owned customer) db.call_history)),
      Descending-take at n sorted (Descending-sort_latest at own),
      length-take at n sorted ∙ ap (min n) (length-sort_latest at own),
      λ e t i.
          take_latest at n e sorted (Descending-sort_latest at own)
            (In-sort_latest at e own (In-rows_where (owned customer) e db.call_history t i)),
    )

found_account :
    (customer : String) (account : Text) (rows : List Account) (a : Account)
    → find_account customer account rows ≡ some a
    → In a rows × (a.customer_id ≡ customer) × (codes a.account_id ≡ account)
unfolding find_account
found_account customer account [] a h = cc
found_account customer account (x ∷ xs) a h =
    elim (Bool-cases (str_eq x.customer_id customer && text_eq (codes x.account_id) account)) [
      | inl e ↦
          let same : x ≡ a = ground (arith, h, e) in
          (
            inl (sym same),
            ground (arith, same, e, eq_iff a.customer_id customer, eq_iff x.customer_id customer),
            rw (← same) (eq_of_text_eq (codes x.account_id) account (ground (arith, e))),
          )
      | inr e ↦ let (i, c, k) = found_account customer account xs a (rw e at h) in (inr i, c, k)
    ]

not_found_account :
    (customer : String) (account : Text) (rows : List Account)
    → find_account customer account rows ≡ none
    → All
        (λ a. (str_eq a.customer_id customer && text_eq (codes a.account_id) account) ≡ false)
        rows
unfolding find_account
not_found_account customer account [] h = tt
not_found_account customer account (x ∷ xs) h =
    (ground arith, not_found_account customer account xs (ground arith))

-- An account is found only for its owner: what `get_account` returns is a row of the table with
-- this customer and this id; and when it returns nothing, no row has both.
pub get_account_owned :
    (customer : String) (account : Text) (db : BusinessDatabase)
    → ((a : Account)
        → get_account customer account db ≡ some a
        → In a db.accounts × (a.customer_id ≡ customer) × (codes a.account_id ≡ account))
      × (get_account customer account db ≡ none
          → All
              (λ a. (str_eq a.customer_id customer && text_eq (codes a.account_id) account) ≡ false)
              db.accounts)
unfolding get_account
get_account_owned customer account db =
    (found_account customer account db.accounts, not_found_account customer account db.accounts)
