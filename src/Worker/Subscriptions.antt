-- ===== src/Worker/Subscriptions.antt =====
-- What the watcher watches after a refresh.
use nexora_gateway.Prelude.{
  ℕ, ◌≡◌, refl, sym, ◌∙◌, ap, Bool, true, false, ◌&&◌, ◌||◌, List, [], ◌∷◌, ◌++◌, Option, none,
  some, inl, inr, arith, ◌==◌, if◌then◌else◌, Bool-cases, ==_self, subst, ◌⊎◌, keep_if, includes,
  any_of, find_first,
}
use nexora_gateway.Intent.Data.{Name, PaymentIntent, Store}
use nexora_gateway.Intent.Repository.{
  accepts_deposit, is_name, is_expected, is_set, oldest_first, find_awaiting_deposit_at,
  find_awaiting_deposits,
}
use nexora_gateway.Worker.Watcher.{
  Watcher, Subscriptions, watched_on, set_watched, add_wanted, wanted_on, add_new, refresh_chain,
  refresh_chains, refresh, awaited_rows, awaiting_at,
}

includes-append :
    (xs ys : List ℕ) (a : ℕ) → includes (xs ++ ys) a ≡ (includes xs a || includes ys a)
includes-append [] ys a = refl
includes-append (x ∷ xs) ys a = ground (arith, includes-append xs ys a)

includes-keep_if :
    (ws xs : List ℕ) (a : ℕ)
    → includes (keep_if (includes ws) xs) a ≡ (includes xs a && includes ws a)
includes-keep_if ws [] a = refl
includes-keep_if ws (x ∷ xs) a = elim (Bool-cases (x == a)) [
  | inl same ↦
      (let e : x ≡ a = ground arith in rw e (kept (includes ws a) refl (includes-keep_if ws xs a)))
  | inr other ↦ elim (Bool-cases (includes ws x)) [
    | inl e ↦ rw (e, other) (includes-keep_if ws xs a)
    | inr e ↦ rw (e, other) (includes-keep_if ws xs a)
  ]
]
  where
    kept :
        (t : Bool)
        → includes ws a ≡ t
        → includes (keep_if (includes ws) xs) a ≡ (includes xs a && includes ws a)
        → includes
            (if includes ws a then a ∷ keep_if (includes ws) xs else keep_if (includes ws) xs)
            a
          ≡ ((a == a || includes xs a) && includes ws a)
    kept true e ih = rw (e, ==_self a) refl
    kept false e ih = rw (e, ==_self a) (ih ∙ rw e (ground arith))

includes-add_new :
    (current wanted : List ℕ) (a : ℕ)
    → includes (add_new current wanted) a ≡ (includes current a || includes wanted a)
unfolding add_new
includes-add_new current [] a = ground arith
includes-add_new current (x ∷ wanted) a = elim (Bool-cases (includes current x)) [
  | inl old ↦ rw old (includes-add_new current wanted a ∙ absorbed old (Bool-cases (x == a)))
  | inr new ↦ rw new (
      includes-add_new (current ++ x ∷ []) wanted a
      ∙ rw (includes-append current (x ∷ []) a) (ground arith))
]
  where
    absorbed :
        includes current x ≡ true
        → ((x == a) ≡ true) ⊎ ((x == a) ≡ false)
        → (includes current a || includes wanted a)
          ≡ (includes current a || (x == a || includes wanted a))
    absorbed old (inl same) =
        let e : x ≡ a = ground arith in
        let there : includes current a ≡ true = subst (λ z. includes current z ≡ true) e old in
        rw there refl
    absorbed old (inr other) = rw other (ground arith)

watched_on-set_watched :
    (c d : Name) (new : List Name) (subs : Subscriptions)
    → watched_on c (set_watched d new subs) ≡ (if d == c then new else watched_on c subs)
watched_on-set_watched c d new [] = ground arith
watched_on-set_watched c d new ((e, addresses) ∷ subs) =
    ground (arith, watched_on-set_watched c d new subs)

-- One chain's refresh watches exactly what is wanted there, and leaves the other chains alone.
includes-refresh_chain :
    (awaiting : List PaymentIntent) (c d a : Name) (subs : Subscriptions)
    → includes (watched_on c (refresh_chain awaiting d subs)) a
      ≡ (if d == c then includes (wanted_on c awaiting) a else includes (watched_on c subs) a)
unfolding refresh_chain
includes-refresh_chain awaiting c d a subs =
    rw
      (watched_on-set_watched c d
        (keep_if (includes (wanted_on d awaiting))
          (add_new (watched_on d subs) (wanted_on d awaiting)))
        subs)
      (elim (Bool-cases (d == c)) [
        | inl same ↦ (let e : d ≡ c = ground arith in rw (same, e) exactly)
        | inr other ↦ rw other refl
      ])
  where
    exactly :
        includes
          (keep_if
            (includes (wanted_on c awaiting))
            (add_new (watched_on c subs) (wanted_on c awaiting)))
          a
        ≡ includes (wanted_on c awaiting) a
    exactly =
        includes-keep_if (wanted_on c awaiting) (add_new (watched_on c subs) (wanted_on c awaiting))
          a
        ∙ rw (includes-add_new (watched_on c subs) (wanted_on c awaiting) a) (ground arith)

includes-refresh_chains :
    (awaiting : List PaymentIntent) (chains : List Name) (c a : Name) (subs : Subscriptions)
    → includes (watched_on c (refresh_chains awaiting chains subs)) a ≡ (
        if includes chains c
        then includes (wanted_on c awaiting) a
        else includes (watched_on c subs) a)
unfolding refresh_chains
includes-refresh_chains awaiting [] c a subs = refl
includes-refresh_chains awaiting (d ∷ chains) c a subs =
    includes-refresh_chains awaiting chains c a (refresh_chain awaiting d subs)
    ∙ rw (includes-refresh_chain awaiting c d a subs) (ground arith)

abbrev wants : Name → Name → PaymentIntent → Bool
wants chain address row = is_name row.deposit_chain chain && is_name row.deposit_address address

includes-add_wanted :
    (c a : Name) (chain address : Option Name) (rest : List Name)
    → (c == 0) ≡ false
    → (a == 0) ≡ false
    → includes (add_wanted c chain address rest) a
      ≡ (is_name chain c && is_name address a || includes rest a)
includes-add_wanted c a none address rest hc ha = ground arith
includes-add_wanted c a (some d) none rest hc ha = ground arith
includes-add_wanted c a (some d) (some b) rest hc ha = ground arith

includes-wanted_on :
    (c a : Name) (rows : List PaymentIntent)
    → (c == 0) ≡ false
    → (a == 0) ≡ false
    → includes (wanted_on c rows) a ≡ any_of (wants c a) rows
unfolding wanted_on
includes-wanted_on c a [] hc ha = refl
includes-wanted_on c a (row ∷ rows) hc ha =
    includes-add_wanted c a row.deposit_chain row.deposit_address (wanted_on c rows) hc ha
    ∙ ap (λ t. wants c a row || t) (includes-wanted_on c a rows hc ha)

abbrev awaits : Name → Name → PaymentIntent → Bool
awaits c a row =
    is_name row.deposit_chain c && is_name row.deposit_address a && accepts_deposit row.state

any_of-last :
    (p : PaymentIntent → Bool) (xs : List PaymentIntent) (x : PaymentIntent)
    → any_of p (xs ++ x ∷ []) ≡ (p x || any_of p xs)
any_of-last p [] x = refl
any_of-last p (y ∷ xs) x = ground (arith, any_of-last p xs x)

wants_expected :
    (c a : Name) (row : PaymentIntent) → (is_expected none row && wants c a row) ≡ awaits c a row
wants_expected c a row = by_address row.deposit_address (accepts_deposit row.state)
  where
    by_address :
        (address : Option Name) (t : Bool)
        → ((is_set address && t) && (is_name row.deposit_chain c && is_name address a))
          ≡ (is_name row.deposit_chain c && is_name address a && t)
    by_address none t = ground arith
    by_address (some b) t = ground arith

any_of-awaited :
    (c a : Name) (rows : List PaymentIntent)
    → any_of (wants c a) (oldest_first (keep_if (is_expected none) rows)) ≡ any_of (awaits c a) rows
any_of-awaited c a [] = refl
any_of-awaited c a (row ∷ rows) = elim (Bool-cases (is_expected none row)) [
  | inl e ↦
      let same : wants c a row ≡ awaits c a row =
        sym (ap (λ t. t && wants c a row) e) ∙ wants_expected c a row in
      rw e (
        any_of-last (wants c a) (oldest_first (keep_if (is_expected none) rows)) row
        ∙ rw (any_of-awaited c a rows) (ap (λ t. t || any_of (awaits c a) rows) same))
  | inr e ↦
      let none_here : false ≡ awaits c a row =
        sym (ap (λ t. t && wants c a row) e) ∙ wants_expected c a row in
      rw e (any_of-awaited c a rows ∙ ap (λ t. t || any_of (awaits c a) rows) none_here)
]

abbrev pub is_found : Option PaymentIntent → Bool
is_found none = false
is_found (some row) = true

any_of-find_first :
    (p : PaymentIntent → Bool) (rows : List PaymentIntent)
    → any_of p rows ≡ is_found (find_first p rows)
any_of-find_first p [] = refl
any_of-find_first p (x ∷ xs) = elim (Bool-cases (p x)) [
  | inl e ↦ rw e refl
  | inr e ↦ rw e (any_of-find_first p xs)
]

-- After a refresh, on the chain of each configured client: an address is watched exactly when the
-- lookup that attributes a transfer at that address finds an intent. On any other chain what is
-- watched is as before. The chain and the address are not empty.
pub refresh_watched :
    (chains : List Name) (db : Store) (w : Watcher) (c a : Name)
    → (c == 0) ≡ false
    → (a == 0) ≡ false
    → includes (watched_on c (refresh chains db w).subscriptions) a ≡ (
        if includes chains c
        then is_found (awaiting_at c a db)
        else includes (watched_on c w.subscriptions) a)
unfolding refresh awaited_rows awaiting_at find_awaiting_deposits find_awaiting_deposit_at
refresh_watched chains db w c a hc ha =
    includes-refresh_chains (awaited_rows db) chains c a w.subscriptions
    ∙ rw
        (includes-wanted_on c a (awaited_rows db) hc ha
          ∙ any_of-awaited c a db.intents
          ∙ any_of-find_first (awaits c a) db.intents)
        refl
