-- ===== src/Hre/Task.antt =====
-- An asynchronous task: it reads the world, leaves events, and ends with a value or an error.
-- What was done before an error stays done.
use tapioca.Base.{
  ℕ, String, Bool, Option, none, some, List, [], ◌∷◌, ◌++◌, if◌then◌else◌, length, first,
}
use tapioca.Hre.Types.{
  Val, TContract, ChainInfo, Build, Call, Vm, Event, prompted, sent, deployed, vm_executed,
  vm_saved, vm_verified, Trace, Error, thrown, type_error, rejected,
}
use tapioca.Hre.World.{World}

pub data Result {ℓ} (A : Type ℓ) : Type ℓ where
  ok : A → Result A
  err : Error → Result A

abbrev pub Task {ℓ} : Type ℓ → Type ℓ
Task A = World → Trace → Result A × Trace

module _ {ℓ} {A : Type ℓ} where
  unfoldable pub pure : A → Task A
  pure a w t = (ok a, t)

  unfoldable pub throw : Error → Task A
  throw e w t = (err e, t)

  -- a read that has no effect
  unfoldable pub ask : (World → Trace → A) → Task A
  ask f w t = (ok (f w t), t)

  unfoldable pub require : Error → Option A → Task A
  unfolding pure throw
  require e none = throw e
  require e (some a) = pure a

  -- a read that may fail
  unfoldable pub ask_or : Error → (World → Trace → Option A) → Task A
  unfolding require
  ask_or e f w t = require e (f w t) w t

  -- `try { m } catch { h }`
  unfoldable pub try_catch : Task A → Task A → Task A
  try_catch m h w t = let (r, t') = m w t in elim r [ ok a ↦ (ok a, t') | err e ↦ h w t' ]

module _ {ℓ κ} {A : Type ℓ} {B : Type κ} where
  abbrev pub continue : Result A → (A → Task B) → Task B
  continue (ok a) f w t = f a w t
  continue (err e) f w t = (err e, t)

  infixl 10 ◌>>=◌
  -- opening this opens the other ways to build a task too
  unfoldable pub ◌>>=◌ : Task A → (A → Task B) → Task B
  unfolding pure throw ask require ask_or
  ◌>>=◌ m f w t = let (r, t') = m w t in continue r f w t'

infixl 10 ◌>>◌
abbrev pub ◌>>◌ {ℓ} : {B : Type ℓ} → Task (Unit {0}) → Task B → Task B
m >> n = m >>= λ _. n

-- Adds an event if the world allows it.
unfoldable pub emit_if : Bool → Error → Event → Task (Unit {0})
emit_if b e ev w t = if b then (ok tt, ev ∷ t) else (err e, t)

unfoldable pub guard : Bool → Error → Task (Unit {0})
guard b e w t = (if b then ok tt else err e, t)

unfoldable pub input : String → Task String
input name w t = (ok (w.input t name), prompted name ∷ t)

unfoldable pub confirm : String → Task Bool
confirm name w t = (ok (w.confirm t name), prompted name ∷ t)

unfoldable pub ask_for_tag : Task String
ask_for_tag w t = (ok (w.ask_for_tag t), prompted "tag" ∷ t)

-- `await (await target.fn(...args)).wait()`
unfoldable pub send : Call → Task (Unit {0})
unfolding emit_if
send c w t = emit_if (w.accepts t c) (rejected c.fn) (sent c) w t

-- the transactions one by one
unfoldable pub send_all : List Call → Task (Unit {0})
send_all [] = pure tt
send_all (c ∷ cs) = do send c; send_all cs

unfoldable pub deploy : String → List Val → Task String
deploy factory args w t = elim (w.deploys t factory args) [
  | none ↦ (err (rejected factory), t)
  | some a ↦ (ok a, deployed factory args a ∷ t)
]

-- `hre.SDK.utils.getChainBy('chainId', hre.SDK.eChainId)`, and `throw` if it is not known
unfoldable pub get_chain : Task ChainInfo
get_chain = ask_or (thrown "Chain not found") (λ w _. w.get_chain_by w.chain_id)

unfoldable pub get_local_contract : String → String → Task String
get_local_contract name tag = ask_or (rejected name) (λ w t. w.local_contract t name tag)

unfoldable pub get_contract_at : String → Val → Task String
get_contract_at artifact address =
    ask_or (rejected artifact) (λ w _. w.contract_at artifact address)

unfoldable pub view : Call → Task Val
view c = ask_or (rejected c.fn) (λ w t. w.view t c)

unfoldable pub view_text : Call → Task String
view_text c = ask_or (rejected c.fn) (λ w t. w.view_text t c)

unfoldable pub view_length : Call → Task ℕ
view_length c = ask_or (rejected c.fn) (λ w t. w.view_length t c)

unfoldable pub abi_encode : List String → List Val → Task String
abi_encode types args = ask_or (rejected "encode") (λ w _. w.abi_encode types args)

unfoldable pub encode_function_data : String → List Val → Task String
encode_function_data fn args = ask_or (rejected fn) (λ w _. w.encode_function_data fn args)

-- `getContractFactory(name)`, which fails where no contract has the name
unfoldable pub get_contract_factory : String → Task (Unit {0})
get_contract_factory name = do known ← ask (λ w _. w.has_artifact name); guard known (rejected name)

-- `new DeployerVM(hre, { tag })`
unfoldable pub new_vm : String → Task Vm
new_vm tag = ask (λ _ t. record { born = length t; tag = tag; queue = []; loaded = [] })

-- `VM.add(b)` and `VM.load(cs)` change the object alone
abbrev pub add : Vm → Build → Vm
add vm b = record vm { queue = vm.queue ++ b ∷ [] }

abbrev pub load : Vm → List TContract → Vm
load vm cs = record vm { loaded = vm.loaded ++ cs }

unfoldable pub execute : Vm → Task (Unit {0})
unfolding emit_if
execute vm w t = emit_if (w.executes t vm) (rejected "execute") (vm_executed vm) w t

unfoldable pub save : Vm → Task (Unit {0})
save vm w t = (ok tt, vm_saved vm ∷ t)

unfoldable pub verify : Vm → Task (Unit {0})
unfolding emit_if
verify vm w t = emit_if (w.verifies t vm) (rejected "verify") (vm_verified vm) w t

-- `try { await VM.verify() } catch { ... }`
unfoldable pub try_verify : Vm → Task (Unit {0})
try_verify vm = try_catch (verify vm) (pure tt)

unfoldable pub list : Vm → Task (List TContract)
list vm = ask (λ w t. w.vm_list t vm)

-- `VM.list()[0].address`
unfoldable pub first_address : Vm → Task String
first_address vm = do c ← require (type_error "address") (first (← list vm)); pure c.address
