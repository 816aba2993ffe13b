-- ===== src/Chains/Lookups.antt =====
-- packages/chain-abstraction/src/chain-registry.ts: the index of the names and the clients agree.
use nexora_gateway.Prelude.{
  ℕ, ◌≡◌, refl, Bool, true, false, not, List, [], ◌∷◌, ◌++◌, Option, none, some, ◌==◌,
  if◌then◌else◌, find_at, find_at-key, keep_if, arith, ==_iff, ==_self, sym, ◌∙◌, ap, inl, inr,
  Bool-cases, Option-cases,
}
use nexora_gateway.Intent.Data.{Name}
use nexora_gateway.Chains.{
  ChainClient, NameEntry, ChainRegistry, Call, new_registry, try_get, set_name, register,
  unregister, is_supported, get_by_name, call, call_all, client_of, without_client, registers,
  unregisters,
}

module _ {A : Type 0} (key : A → ℕ) where
  find_at-append-some :
      (k : ℕ) (xs ys : List A) (a : A)
      → find_at key k xs ≡ some a
      → find_at key k (xs ++ ys) ≡ some a
  find_at-append-some k [] ys a h = cc
  find_at-append-some k (x ∷ xs) ys a h = ground (arith, find_at-append-some k xs ys a)

  find_at-append-none :
      (k : ℕ) (xs ys : List A)
      → find_at key k xs ≡ none
      → find_at key k (xs ++ ys) ≡ find_at key k ys
  find_at-append-none k [] ys h = refl
  find_at-append-none k (x ∷ xs) ys h = ground (arith, find_at-append-none k xs ys)

  find_at-erase :
      (k j : ℕ) (xs : List A)
      → find_at key j (keep_if (λ x. not (key x == k)) xs)
        ≡ (if k == j then none else find_at key j xs)
  find_at-erase k j [] = ground arith
  find_at-erase k j (x ∷ xs) = ground (arith, find_at-erase k j xs)

if_then : {A : Type 0} (b : Bool) (x y z : A) → (if b then x else y) ≡ z → b ≡ true → x ≡ z
if_then true x y z h p = h
if_then false x y z h p = cc

if_else : {A : Type 0} (b : Bool) (x y z : A) → (if b then x else y) ≡ z → b ≡ false → y ≡ z
if_else true x y z h p = cc
if_else false x y z h p = h

find_at-set_name :
    (n id j : Name) (es : List NameEntry)
    → find_at (λ e. e.name) j (set_name n id es)
      ≡ (if n == j then some record { name = n; indexed_id = id } else find_at (λ e. e.name) j es)
unfolding set_name
find_at-set_name n id j [] = refl
find_at-set_name n id j (e ∷ es) = ground (arith, find_at-set_name n id j es)

module _ (to_lower_case : Name → Name) where
  -- A client with an id and with a name in lower case.
  abbrev pub IsListed : Name → Name → List ChainClient → Type 0
  IsListed id n cs =
      (c : ChainClient) × (find_at (λ c. c.chain_id) id cs ≡ some c)
      × (to_lower_case c.chain_name ≡ n)

  -- An indexed name is the name of the client that has the indexed id.
  abbrev pub IsIndexed : ChainRegistry → Type 0
  IsIndexed r =
      (n : Name) (e : NameEntry)
      → find_at (λ e. e.name) n r.name_index ≡ some e
      → IsListed e.indexed_id n r.clients

  new_registry-IsIndexed : IsIndexed new_registry
  new_registry-IsIndexed n e h = cc

  register-IsIndexed :
      (c : ChainClient) (r : ChainRegistry)
      → IsIndexed r
      → find_at (λ c. c.chain_id) c.chain_id r.clients ≡ none
      → IsIndexed record {
        clients = r.clients ++ c ∷ [];
        name_index = set_name (to_lower_case c.chain_name) c.chain_id r.name_index;
      }
  register-IsIndexed c r i free n e h = elim (Bool-cases (to_lower_case c.chain_name == n)) [
    | inl same ↦ (
      c,
      rw (indexed_at (if_then (to_lower_case c.chain_name == n) _ _ _ set same)) at_end,
      (==_iff (to_lower_case c.chain_name) n).0 same,
    )
    | inr other ↦ kept (i n e (if_else (to_lower_case c.chain_name == n) _ _ _ set other))
  ]
    where
      set :
          (if to_lower_case c.chain_name == n
            then some record { name = to_lower_case c.chain_name; indexed_id = c.chain_id }
            else find_at (λ e. e.name) n r.name_index)
          ≡ some e
      set = sym (find_at-set_name (to_lower_case c.chain_name) c.chain_id n r.name_index) ∙ h

      indexed_at :
          Path
            (Option NameEntry)
            (some record { name = to_lower_case c.chain_name; indexed_id = c.chain_id })
            (some e)
          → e.indexed_id ≡ c.chain_id
      indexed_at p = cc

      at_end : find_at (λ d. d.chain_id) c.chain_id (r.clients ++ c ∷ []) ≡ some c
      at_end =
          find_at-append-none (λ d. d.chain_id) c.chain_id r.clients (c ∷ []) free
          ∙ rw (==_self c.chain_id) refl

      kept : IsListed e.indexed_id n r.clients → IsListed e.indexed_id n (r.clients ++ c ∷ [])
      kept (d, there, named) =
          (d, find_at-append-some (λ d. d.chain_id) e.indexed_id r.clients (c ∷ []) d there, named)

  unregister-IsIndexed :
      (id : Name) (c : ChainClient) (r : ChainRegistry)
      → IsIndexed r
      → find_at (λ c. c.chain_id) id r.clients ≡ some c
      → IsIndexed record {
        clients = keep_if (λ d. not (d.chain_id == id)) r.clients;
        name_index = keep_if (λ e. not (e.name == to_lower_case c.chain_name)) r.name_index;
      }
  unregister-IsIndexed id c r i found n e h = elim (Bool-cases (to_lower_case c.chain_name == n)) [
    | inl same ↦ absurd (none_some (if_then (to_lower_case c.chain_name == n) _ _ _ erased same))
    | inr other ↦ kept other (i n e (if_else (to_lower_case c.chain_name == n) _ _ _ erased other))
  ]
    where
      erased :
          (if to_lower_case c.chain_name == n then none else find_at (λ e. e.name) n r.name_index)
          ≡ some e
      erased = sym (find_at-erase (λ e. e.name) (to_lower_case c.chain_name) n r.name_index) ∙ h

      none_some : Path (Option NameEntry) none (some e) → ⊥
      none_some p = cc

      same_client :
          (d : ChainClient)
          → some c ≡ some d
          → to_lower_case c.chain_name ≡ to_lower_case d.chain_name
      same_client d p = cc

      other_name : to_lower_case c.chain_name ≡ n → (to_lower_case c.chain_name == n) ≡ false → ⊥
      other_name p q = ground (arith, p, q, (==_iff (to_lower_case c.chain_name) n).1 p)

      kept :
          (to_lower_case c.chain_name == n) ≡ false
          → IsListed e.indexed_id n r.clients
          → IsListed e.indexed_id n (keep_if (λ d. not (d.chain_id == id)) r.clients)
      kept other (d, there, named) = elim (Bool-cases (id == e.indexed_id)) [
        | inl at ↦ absurd (
            other_name
              (same_client d (sym found ∙ rw ((==_iff id e.indexed_id).0 at) there) ∙ named) other)
        | inr away ↦
            (d, find_at-erase (λ d. d.chain_id) id e.indexed_id r.clients ∙ rw away there, named)
      ]

  without_client-IsIndexed :
      (id : Name) (r : ChainRegistry) (o : Option ChainClient)
      → IsIndexed r
      → find_at (λ c. c.chain_id) id r.clients ≡ o
      → IsIndexed (without_client to_lower_case id r o).1
  without_client-IsIndexed id r none i e = i
  without_client-IsIndexed id r (some c) i e = unregister-IsIndexed id c r i e

  call-IsIndexed :
      (c : Call to_lower_case) (r : ChainRegistry)
      → IsIndexed r
      → IsIndexed (call to_lower_case c r)
  unfolding call register unregister is_supported try_get
  call-IsIndexed (registers c) r i =
      elim (Option-cases (find_at (λ c. c.chain_id) c.chain_id r.clients)) [
        | inl e ↦ rw e (register-IsIndexed c r i e)
        | inr (d, e) ↦ rw e i
      ]
  call-IsIndexed (unregisters id) r i =
      without_client-IsIndexed id r (find_at (λ c. c.chain_id) id r.clients) i refl

  call_all-IsIndexed :
      (cs : List (Call to_lower_case)) (r : ChainRegistry)
      → IsIndexed r
      → IsIndexed (call_all to_lower_case cs r)
  unfolding call_all
  call_all-IsIndexed [] r i = i
  call_all-IsIndexed (c ∷ cs) r i =
      call_all-IsIndexed cs (call to_lower_case c r) (call-IsIndexed c r i)

  client_of-IsListed :
      (is_empty : Name → Bool) (r : ChainRegistry) (n : Name) (c : ChainClient)
      (o : Option NameEntry)
      → IsIndexed r
      → find_at (λ e. e.name) n r.name_index ≡ o
      → client_of to_lower_case is_empty r o ≡ some c
      → (try_get c.chain_id r ≡ some c) × (to_lower_case c.chain_name ≡ n)
  unfolding try_get
  client_of-IsListed is_empty r n c none i e h = cc
  client_of-IsListed is_empty r n c (some e) i p h = elim (Bool-cases (is_empty e.indexed_id)) [
    | inl blank ↦ absurd (none_some (if_then (is_empty e.indexed_id) _ _ _ h blank))
    | inr full ↦ at_id (i n e p) (if_else (is_empty e.indexed_id) _ _ _ h full)
  ]
    where
      none_some : Path (Option ChainClient) none (some c) → ⊥
      none_some q = cc

      same_name :
          (d : ChainClient)
          → Path (Option ChainClient) (some c) (some d)
          → to_lower_case c.chain_name ≡ to_lower_case d.chain_name
      same_name d q = cc

      at_id :
          IsListed e.indexed_id n r.clients
          → find_at (λ c. c.chain_id) e.indexed_id r.clients ≡ some c
          → (find_at (λ c. c.chain_id) c.chain_id r.clients ≡ some c)
            × (to_lower_case c.chain_name ≡ n)
      at_id (d, there, named) q = (
        ap (λ k. find_at (λ c. c.chain_id) k r.clients)
              (find_at-key (λ c. c.chain_id) e.indexed_id r.clients c q)
            ∙ q,
        same_name d (sym q ∙ there) ∙ named,
      )

  -- After any calls on an empty registry, the client that a name finds is the one registered under its
  -- own id, and it has that name up to letter case.
  pub get_by_name_finds :
      (is_empty : Name → Bool) (cs : List (Call to_lower_case)) (n : Name) (c : ChainClient)
      → get_by_name to_lower_case is_empty n (call_all to_lower_case cs new_registry) ≡ some c
      → (try_get c.chain_id (call_all to_lower_case cs new_registry) ≡ some c)
        × (to_lower_case c.chain_name ≡ to_lower_case n)
  unfolding get_by_name
  get_by_name_finds is_empty cs n c h =
      let r = call_all to_lower_case cs new_registry in
      client_of-IsListed is_empty r (to_lower_case n) c
        (find_at (λ e. e.name) (to_lower_case n) r.name_index)
        (call_all-IsIndexed cs new_registry new_registry-IsIndexed) refl h
