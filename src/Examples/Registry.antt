-- ===== src/Examples/Registry.antt =====
-- The chain registry on two clients whose names differ in letter case only.
use nexora_gateway.Prelude.{◌%◌, ◌≡◌, refl, Bool, true, List, [], ◌∷◌, none, some, ◌==◌}
use nexora_gateway.Intent.Data.{Name}
use nexora_gateway.Chains.{
  ChainClient, Call, new_registry, try_get, is_supported, set_name, register, unregister,
  get_by_name, call, call_all, registers, unregisters,
}
use nexora_gateway.Chains.Lookups.{get_by_name_finds}

-- Names above 100 are those below in upper case.
abbrev lower : Name → Name
lower n = n % 100

abbrev blank : Name → Bool
blank n = n == 0

abbrev mainnet : ChainClient
mainnet = record { chain_id = 1; chain_name = 107 }

abbrev fork : ChainClient
fork = record { chain_id = 31; chain_name = 7 }

abbrev both : List (Call lower)
both = registers mainnet ∷ registers fork ∷ registers mainnet ∷ []

finds_fork : get_by_name lower blank 207 (call_all lower both new_registry) ≡ some fork
unfolding call_all call register unregister is_supported try_get set_name get_by_name
finds_fork = refl

get_by_name_finds_example :
    (try_get 31 (call_all lower both new_registry) ≡ some fork) × (lower 7 ≡ lower 207)
get_by_name_finds_example = get_by_name_finds lower blank both 207 fork finds_fork

abbrev left : List (Call lower)
left = unregisters 1 ∷ []

-- The name of the second client goes with the first.
fork_unnamed :
    get_by_name lower blank 7 (call_all lower left (call_all lower both new_registry)) ≡ none
unfolding call_all call register unregister is_supported try_get set_name get_by_name
fork_unnamed = refl

fork_supported : is_supported 31 (call_all lower left (call_all lower both new_registry)) ≡ true
unfolding call_all call register unregister is_supported try_get set_name
fork_supported = refl
