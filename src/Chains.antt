-- ===== src/Chains.antt =====
-- packages/chain-abstraction/src/chain-registry.ts: the clients by the id of their chain, and the index
-- of the names in lower case. The lower case of a name, and whether an id is the empty text, are
-- parameters. Both Maps are lists in the order of insertion.
pub mod Lookups
use nexora_gateway.Prelude.{
  ℕ, Bool, true, false, not, List, [], ◌∷◌, ◌++◌, map, Option, none, some, ◌==◌, if◌then◌else◌,
  find_at, keep_if, length,
}
use nexora_gateway.Prelude.Action.{Result, ok, err}
use nexora_gateway.Intent.Data.{Name}

-- What the registry reads of a client.
pub record ChainClient : Type 0 where
  pub chain_id : Name
  pub chain_name : Name

pub record NameEntry : Type 0 where
  pub name : Name
  pub indexed_id : Name

pub record ChainRegistry : Type 0 where
  pub clients : List ChainClient
  pub name_index : List NameEntry

-- The error with the id that it names.
pub data ChainError : Type 0 where
  already_registered : Name → ChainError
  unsupported_chain : Name → ChainError

abbrev pub new_registry : ChainRegistry
new_registry = record { clients = []; name_index = [] }

unfoldable pub try_get : Name → ChainRegistry → Option ChainClient
try_get id r = find_at (λ c. c.chain_id) id r.clients

abbrev pub or_unsupported : Name → Option ChainClient → Result ChainError ChainClient
or_unsupported id none = err (unsupported_chain id)
or_unsupported id (some c) = ok c

unfoldable pub get : Name → ChainRegistry → Result ChainError ChainClient
get id r = or_unsupported id (try_get id r)

abbrev pub is_present : {A : Type 0} → Option A → Bool
is_present none = false
is_present (some a) = true

unfoldable pub is_supported : Name → ChainRegistry → Bool
is_supported id r = is_present (try_get id r)

unfoldable pub get_all : ChainRegistry → List ChainClient
get_all r = r.clients

unfoldable pub get_supported_chain_ids : ChainRegistry → List Name
get_supported_chain_ids r = map (λ c. c.chain_id) r.clients

unfoldable pub get_supported_chain_names : ChainRegistry → List Name
get_supported_chain_names r = map (λ e. e.name) r.name_index

unfoldable pub size : ChainRegistry → ℕ
size r = length r.clients

-- `Map.set`: an entry of the key keeps its place.
unfoldable pub set_name : Name → Name → List NameEntry → List NameEntry
set_name n id [] = record { name = n; indexed_id = id } ∷ []
set_name n id (e ∷ es) =
    if e.name == n then record { name = n; indexed_id = id } ∷ es else e ∷ set_name n id es

module _ (to_lower_case : Name → Name) where
  unfoldable pub register : ChainClient → ChainRegistry → Result ChainError ChainRegistry
  unfolding is_supported
  register c r =
      if is_supported c.chain_id r
      then err (already_registered c.chain_id)
      else ok record {
        clients = r.clients ++ c ∷ [];
        name_index = set_name (to_lower_case c.chain_name) c.chain_id r.name_index;
      }

  abbrev pub without_client : Name → ChainRegistry → Option ChainClient → Bool × ChainRegistry
  without_client id r none = (false, r)
  without_client id r (some c) = (
    true,
    record {
      clients = keep_if (λ d. not (d.chain_id == id)) r.clients;
      name_index = keep_if (λ e. not (e.name == to_lower_case c.chain_name)) r.name_index;
    },
  )

  unfoldable pub unregister : Name → ChainRegistry → Bool × ChainRegistry
  unregister id r = without_client id r (try_get id r)

  module _ (is_empty : Name → Bool) where
    -- The client of an indexed id; the code reads an empty id as a missing one.
    abbrev pub client_of : ChainRegistry → Option NameEntry → Option ChainClient
    client_of r none = none
    client_of r (some e) = if is_empty e.indexed_id then none else try_get e.indexed_id r

    unfoldable pub get_by_name : Name → ChainRegistry → Option ChainClient
    get_by_name n r = client_of r (find_at (λ e. e.name) (to_lower_case n) r.name_index)

  -- A call that changes the registry.
  pub data Call : Type 0 where
    registers : ChainClient → Call
    unregisters : Name → Call

  -- The registry after an answer: an error leaves it as it was.
  abbrev pub left_by : ChainRegistry → Result ChainError ChainRegistry → ChainRegistry
  left_by r (ok r') = r'
  left_by r (err e) = r

  unfoldable pub call : Call → ChainRegistry → ChainRegistry
  call (registers c) r = left_by r (register c r)
  call (unregisters id) r = (unregister id r).1

  unfoldable pub call_all : List Call → ChainRegistry → ChainRegistry
  call_all [] r = r
  call_all (c ∷ cs) r = call_all cs (call c r)
