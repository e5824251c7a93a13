-- ===== src/Deploy/EmptyStrats.antt =====
-- Tapioca-bar/tasks/deploy/02-deployEmptyStrats.ts
pub mod Order
use tapioca.Base.{
  ℕ, zero, suc, String, ◌==◌, starts_with, Bool, true, false, Option, none, some, List, [], ◌∷◌,
  filter, if◌then◌else◌,
}
use tapioca.Hre.Types.{str, TContract, no_meta, Vm, thrown}
use tapioca.Hre.Task.{
  Task, pure, ask, require, guard, input, confirm, ask_for_tag, get_chain, get_contract_at,
  view_text, add, execute, save, verify, ◌>>=◌, ◌>>◌,
}
use tapioca.Builds.{build_empty_strat}
use tapioca.Setups.{tx}
use tapioca.Utils.{load_vm}
use tapioca.Deploy.Lookup.{global_or_local}

-- `enum StratType`; `specific` is any other value of `parseInt(taskArgs.type)`.
pub data StratType : Type 0 where
  toft usdo tap token token_address specific : StratType

-- `const type: StratType = parseInt(taskArgs.type)`, on the number that was parsed
unfoldable pub strat_type : ℕ → StratType
strat_type zero = toft
strat_type (suc zero) = usdo
strat_type (suc (suc zero)) = tap
strat_type (suc (suc (suc zero))) = token
strat_type (suc (suc (suc (suc zero)))) = token_address
strat_type (suc (suc (suc (suc (suc n))))) = specific

-- `project`, `name`, the predicate on an entry's name, and the address of a single token.
pub record Selection : Type 0 where
  pub project : String
  pub name : String
  pub by_prefix : Bool
  pub individual : Option String

abbrev select : String → String → Selection
select project name = record {
  project = project;
  name = name;
  by_prefix = false;
  individual = none;
}

-- The `switch` over the type. The project names are those of `TAPIOCA_PROJECTS_NAME`.
unfoldable pub selection : StratType → Task Selection
selection toft = pure (record (select "tapiocaz" "TapiocaOFT") { by_prefix = true })
selection usdo = pure (select "tapioca-bar" "USDO")
selection tap = pure (select "tap-token" "TapOFT")
selection token = do
  project_name ← input "projectName"
  token_name ← input "tokenName"
  pure (select project_name token_name)
selection token_address = do
  address ← input "tokenAddress"
  contract ← get_contract_at "IERC20Metadata" (str address)
  name ← view_text (tx contract "name" [])
  pure (record (select "tapioca-bar" name) { individual = some address })
selection specific = do
  test_token_name ← input "testTokenName"
  pure (select "tapioca-bar" test_token_name)

abbrev pub predicate : Selection → TContract → Bool
predicate s e = if s.by_prefix then starts_with e.name s.name else e.name == s.name

-- The tokens: of the project, or else of the local list, or the single one.
unfoldable pub strat_tokens : String → Selection → Task (List TContract)
unfolding filter
strat_tokens tag s = elim s.individual [
  | some address ↦ pure (record { name = s.name; address = address; meta = no_meta } ∷ [])
  | none ↦ ask λ w t. elim (filter (predicate s) (w.load_global t tag s.project w.chain_id)) [
    | [] ↦ filter (predicate s) (w.load_local t tag w.chain_id)
    | c ∷ cs ↦ c ∷ cs
  ]
]

-- `for (...) VM.add(await buildEmptyStrat(hre, yieldBox?.address, tokens[i]))`
unfoldable pub add_strats : String → List TContract → Vm → Task Vm
add_strats yield_box [] vm = pure vm
add_strats yield_box (c ∷ cs) vm = do
  b ← build_empty_strat yield_box c
  add_strats yield_box cs (add vm b)

unfoldable pub deploy_empty_strats : ℕ → Task (Unit {0})
deploy_empty_strats type = do
  chain_info ← get_chain
  tag ← ask_for_tag
  yb ← global_or_local tag "yieldbox" chain_info.chain_id "YieldBox"
  yield_box ← require (thrown "[-] YieldBox not found") yb
  s ← selection (strat_type type)
  vm ← load_vm tag
  tokens ← strat_tokens tag s
  is_ok ← confirm "isOk"
  guard is_ok (thrown "[-] Aborting")
  vm' ← add_strats yield_box.address tokens vm
  execute vm'
  save vm'
  verify vm'
