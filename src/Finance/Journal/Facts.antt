-- ===== src/Finance/Journal/Facts.antt =====
-- finance.py: what the checks of a journal event's postings establish: balance in every currency, accounts
-- that are open for the posting, and the same postings as those that are asked for.
use mathlib.Core.List.{Memᴰ, Perm}
use baen_economy_engine.Prelude.{
  ℕ, ◌≡◌, refl, subst, arith, true, false, not, sym, ok-inj, Option, none, some, String, List, [],
  ◌∷◌, eq_iff, if◌then◌else◌, ok, All, >>=-eq-ok, raise_if-ok, raise_if-passed, Bool-cases, inl,
  inr,
}
use baen_economy_engine.Prelude.Dict.{Dict, contains, lookup, string_eq}
use baen_economy_engine.Decimal.Number.{Decimal, zero_dec, is_zero, eq_dec}
use baen_economy_engine.Decimal.Context.{add}
use baen_economy_engine.Decimal.Sums.{Summed}
use baen_economy_engine.Events.Envelope.{codes_eq, codes_eq_iff}
use baen_economy_engine.Stockflow.Sorting.{sorted-Perm}
use baen_economy_engine.Finance.Patterns.{
  predates, account_closed, currency_not_opened, unbalanced, Date, date_before, from_iso,
}
use baen_economy_engine.Finance.Contract.{in_context, in_context-ok, Posting}
use baen_economy_engine.Finance.Journal.{
  codes_key, AccountOpen, Chart, date_or_error, check_closed, check_account, check_accounts,
  same_postings, sorted_postings, compare_posting, total_at, put_total, totals_from, is_unbalanced,
  check_balance,
}

abbrev pub amounts_of : List Posting → List (List ℕ × Decimal)
amounts_of [] = []
amounts_of (p ∷ ps) = (p.currency, p.amount) ∷ amounts_of ps

-- The amounts of every currency come to zero.
abbrev pub IsBalanced : List Posting → Type 0
IsBalanced ps =
    (currency : List ℕ)
    → (total : Decimal) × Summed currency (amounts_of ps) zero_dec total × (is_zero total ≡ true)

lookup-put_total :
    (k j : List ℕ) (v : Decimal) (d : Dict (List ℕ) Decimal)
    → lookup j (put_total k v d) ≡ (if codes_eq k j then some v else lookup j d)
unfolding lookup put_total
lookup-put_total k j v [] = ground arith
lookup-put_total k j v ((i, w) ∷ d) = ground (
  arith,
  lookup-put_total k j v d,
  codes_eq_iff k j,
  codes_eq_iff i k,
  codes_eq_iff i j,
  codes_eq_iff j j,
)

totals_from-Summed :
    (currency : List ℕ) (ps : List Posting) (totals totals' : Dict (List ℕ) Decimal)
    → totals_from totals ps ≡ ok totals'
    → Summed currency
        (amounts_of ps)
        (total_at (lookup currency totals))
        (total_at (lookup currency totals'))
unfolding totals_from
totals_from-Summed currency [] totals totals' h =
    subst
      (λ (x : Dict (List ℕ) Decimal).
        total_at (lookup currency x) ≡ total_at (lookup currency totals))
      (ok-inj h) refl
totals_from-Summed currency (p ∷ ps) totals totals' h =
    let (total, added, h1) =
      >>=-eq-ok (in_context (add (total_at (lookup p.currency totals)) p.amount)) _ h in
    let rest = totals_from-Summed currency ps (put_total p.currency total totals) totals' h1 in
    elim (Bool-cases (codes_eq p.currency currency)) [
      | inl e ↦ rw e (
        total,
        subst (λ c. add (total_at (lookup c totals)) p.amount ≡ ok total)
            ((codes_eq_iff p.currency currency).0 e) (in_context-ok _ added),
        rw (lookup-put_total p.currency currency total totals, e) at rest,
      )
      | inr e ↦ rw e (rw (lookup-put_total p.currency currency total totals, e) at rest)
    ]

zero_total :
    (currency : List ℕ) (totals : Dict (List ℕ) Decimal)
    → is_unbalanced totals ≡ false
    → is_zero (total_at (lookup currency totals)) ≡ true
unfolding lookup is_zero
zero_total currency [] h = refl
zero_total currency ((c, d) ∷ rest) h = elim (Bool-cases (codes_eq c currency)) [
  | inl e ↦ rw e (ground arith)
  | inr e ↦ rw e (zero_total currency rest (ground arith))
]

no_total : (currency : List ℕ) → total_at (lookup currency []) ≡ zero_dec
unfolding lookup
no_total currency = refl

pub check_balance-IsBalanced : (ps : List Posting) → check_balance ps ≡ ok tt → IsBalanced ps
unfolding check_balance
check_balance-IsBalanced ps h currency =
    let (totals, e, h1) = >>=-eq-ok (totals_from [] ps) _ h in
    (
      total_at (lookup currency totals),
      subst (λ z. Summed currency (amounts_of ps) z (total_at (lookup currency totals)))
          (no_total currency) (totals_from-Summed currency ps [] totals e),
      zero_total currency totals (raise_if-passed (is_unbalanced totals) unbalanced h1),
    )

-- Not closed by the day.
abbrev pub IsOpenOn : Option String → Date → Type 0
IsOpenOn none day = Unit
IsOpenOn (some closed_on) day =
    (closed : Date) × (from_iso closed_on ≡ some closed) × (date_before day closed ≡ true)

-- The posting is on an account of the chart that was opened by the day, is not closed by it, and takes
-- this currency.
abbrev pub IsOpened : Chart → Date → Posting → Type 0
IsOpened chart day p =
    (a : AccountOpen) × (lookup p.account chart ≡ some a)
    × ((opened : Date) × (from_iso a.opened_on ≡ some opened) × (date_before day opened ≡ false))
    × IsOpenOn a.closed_on day
    × Memᴰ p.currency a.currencies

contains-Memᴰ : (c : List ℕ) (cs : List (List ℕ)) → contains c cs ≡ true → Memᴰ c cs
unfolding contains
contains-Memᴰ c [] h = cc
contains-Memᴰ c (x ∷ xs) h = elim (Bool-cases (codes_eq x c)) [
  | inl e ↦ Memᴰ.head (sym ((codes_eq_iff x c).0 e))
  | inr e ↦ Memᴰ.tail (contains-Memᴰ c xs (rw e at h))
]

date_or_error-eq : (o : Option Date) (d : Date) → date_or_error o ≡ ok d → o ≡ some d
date_or_error-eq none d h = cc
date_or_error-eq (some d) d' h = cc

check_closed-IsOpenOn :
    (day : Date) (closed_on : Option String)
    → check_closed day closed_on ≡ ok tt
    → IsOpenOn closed_on day
unfolding check_closed
check_closed-IsOpenOn day none h = tt
check_closed-IsOpenOn day (some closed_on) h =
    let (closed, e, h1) = >>=-eq-ok (date_or_error (from_iso closed_on)) _ h in
    let before = raise_if-passed (not (date_before day closed)) account_closed h1 in
    (closed, date_or_error-eq _ closed e, ground (arith, before))

check_account-IsOpened :
    (chart : Chart) (day : Date) (o : Option AccountOpen) (p : Posting)
    → lookup p.account chart ≡ o
    → check_account day o p ≡ ok tt
    → IsOpened chart day p
unfolding check_account
check_account-IsOpened chart day none p found h = cc
check_account-IsOpened chart day (some a) p found h =
    let (opened, e, h1) = >>=-eq-ok (date_or_error (from_iso a.opened_on)) _ h in
    let (after, h2) = raise_if-ok (date_before day opened) predates _ h1 in
    let (_, still, h3) = >>=-eq-ok (check_closed day a.closed_on) _ h2 in
    let takes = raise_if-passed (not (contains p.currency a.currencies)) currency_not_opened h3 in
    (
      a,
      found,
      (opened, date_or_error-eq _ opened e, after),
      check_closed-IsOpenOn day a.closed_on still,
      contains-Memᴰ p.currency a.currencies (ground (arith, takes)),
    )

pub check_accounts-IsOpened :
    (chart : Chart) (day : Date) (ps : List Posting)
    → check_accounts chart day ps ≡ ok tt
    → All (IsOpened chart day) ps
unfolding check_accounts
check_accounts-IsOpened chart day [] h = tt
check_accounts-IsOpened chart day (p ∷ ps) h =
    let (_, e, h1) = >>=-eq-ok (check_account day (lookup p.account chart) p) _ h in
    (
      check_account-IsOpened chart day (lookup p.account chart) p refl e,
      check_accounts-IsOpened chart day ps h1,
    )

-- One posting after the other, of the same account, amount and currency.
abbrev pub Matches : List Posting → List Posting → Type 0
Matches [] [] = Unit
Matches (p ∷ ps) (q ∷ qs) =
    (p.account ≡ q.account)
    × (eq_dec p.amount q.amount ≡ true)
    × (p.currency ≡ q.currency)
    × Matches ps qs
Matches _ _ = ⊥

pub same_postings-Matches : (ps qs : List Posting) → same_postings ps qs ≡ true → Matches ps qs
unfolding same_postings
same_postings-Matches [] [] h = tt
same_postings-Matches [] (q ∷ qs) h = cc
same_postings-Matches (p ∷ ps) [] h = cc
same_postings-Matches (p ∷ ps) (q ∷ qs) h = (
  (eq_iff p.account q.account).0 (ground arith),
  ground arith,
  (codes_eq_iff p.currency q.currency).0 (ground arith),
  same_postings-Matches ps qs (ground arith),
)

pub sorted_postings-Perm : (ps : List Posting) → Perm (sorted_postings ps) ps
unfolding sorted_postings
sorted_postings-Perm = sorted-Perm compare_posting
