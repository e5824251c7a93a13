-- ===== src/Deploy/Stack/Setup.antt =====
-- Tapioca-bar/tasks/setups: the transactions that the setup of a full stack sends.
use tapioca.Base.{String, ◌≡◌, ap, true, none, some, List, [], ◌∷◌, ◌++◌, arith}
use tapioca.Hre.Types.{str, num, bool, TContract, sent, Trace}
use tapioca.Hre.World.{World}
use tapioca.Hre.Task.{ok, get_contract_at, ◌>>=◌}
use tapioca.Hre.Returns.{>>=-ok, send-ok, pure-ok}
use tapioca.Setups.{
  MultiCall, tx, build_penrose_setup, build_master_contracts_setup, build_usdo_flashloan_setup,
}
use tapioca.Utils.{find_named, get_after_dep_contract}
use tapioca.Deploy.Stack.Full.{full_setup}

-- The contract that a list of deployments has under a name, if it has one.
abbrev pub contract_of : World → List TContract → String → String → String
contract_of w deps name artifact = elim (find_named name deps) [
  | none ↦ ""
  | some e ↦ elim (w.contract_at artifact (str e.address)) [ none ↦ "" | some c ↦ c ]
]

-- The lookup reads, and gives that contract.
get_after_dep_contract-ok :
    (deps : List TContract) (name artifact : String) (w : World) (t : Trace) {c : String}
    {t' : Trace}
    → get_after_dep_contract deps name artifact w t ≡ (ok c, t')
    → (c ≡ contract_of w deps name artifact) × (t' ≡ t)
unfolding get_after_dep_contract get_contract_at ◌>>=◌
get_after_dep_contract-ok deps name artifact w t h = ground arith

-- The transactions of the three setups, the newest first.
abbrev pub penrose_events : World → List TContract → Trace → Trace
penrose_events w deps t =
    sent (
      tx (contract_of w deps "Penrose" "Penrose") "setUsdoToken"
        (str (contract_of w deps "USDO" "USDO") ∷ []))
    ∷ t

abbrev pub master_events : World → List TContract → Trace → Trace
master_events w deps t =
    let penrose = contract_of w deps "Penrose" "Penrose" in
    sent (
      tx penrose "registerBigBangMasterContract"
        (str (contract_of w deps "BigBangMediumRiskMC" "BigBang") ∷ num 1 ∷ []))
    ∷ sent (
        tx penrose "registerSingularityMasterContract"
          (str (contract_of w deps "MediumRiskMC" "Singularity") ∷ num 1 ∷ []))
    ∷ t

abbrev pub flashloan_events : World → List TContract → Trace → Trace
flashloan_events w deps t =
    let helper = contract_of w deps "USDOFlashloanHelper" "USDOFlashloanHelper" in
    let usd0 = contract_of w deps "USDO" "USDO" in
    sent (tx usd0 "setBurnerStatus" (str helper ∷ bool true ∷ []))
    ∷ sent (tx usd0 "setMinterStatus" (str helper ∷ bool true ∷ []))
    ∷ sent (tx usd0 "setFlashloanHelper" (str helper ∷ []))
    ∷ t

module _ (deps : List TContract) (w : World) (t : Trace) {calls : List MultiCall} {t' : Trace} where
  penrose_setup-ok :
      build_penrose_setup deps w t ≡ (ok calls, t') → (calls ≡ []) × (t' ≡ penrose_events w deps t)
  unfolding build_penrose_setup
  penrose_setup-ok h =
      let (p, t1, e1, h1) = >>=-ok _ _ w t h in
      let (u, t2, e2, h2) = >>=-ok _ _ w t1 h1 in
      let (_, t3, e3, h3) = >>=-ok _ _ w t2 h2 in
      let a = get_after_dep_contract-ok deps _ _ w t e1 in
      let b = get_after_dep_contract-ok deps _ _ w t1 e2 in
      let c = send-ok _ w t2 e3 in
      let d = pure-ok _ w t3 h3 in (cc d.0, cc (a.0, a.1, b.0, b.1, c.1, d.1))

  master_setup-ok :
      build_master_contracts_setup deps w t ≡ (ok calls, t')
      → (calls ≡ []) × (t' ≡ master_events w deps t)
  unfolding build_master_contracts_setup
  master_setup-ok h =
      let (p, t1, e1, h1) = >>=-ok _ _ w t h in
      let (m, t2, e2, h2) = >>=-ok _ _ w t1 h1 in
      let (b, t3, e3, h3) = >>=-ok _ _ w t2 h2 in
      let (_, t4, e4, h4) = >>=-ok _ _ w t3 h3 in
      let (_, t5, e5, h5) = >>=-ok _ _ w t4 h4 in
      let k1 = get_after_dep_contract-ok deps _ _ w t e1 in
      let k2 = get_after_dep_contract-ok deps _ _ w t1 e2 in
      let k3 = get_after_dep_contract-ok deps _ _ w t2 e3 in
      let k4 = send-ok _ w t3 e4 in
      let k5 = send-ok _ w t4 e5 in
      let d = pure-ok _ w t5 h5 in
      (cc d.0, cc (k1.0, k1.1, k2.0, k2.1, k3.0, k3.1, k4.1, k5.1, d.1))

  pub flashloan_setup-ok :
      build_usdo_flashloan_setup deps w t ≡ (ok calls, t')
      → (calls ≡ []) × (t' ≡ flashloan_events w deps t)
  unfolding build_usdo_flashloan_setup
  flashloan_setup-ok h =
      let (p, t1, e1, h1) = >>=-ok _ _ w t h in
      let (u, t2, e2, h2) = >>=-ok _ _ w t1 h1 in
      let (_, t3, e3, h3) = >>=-ok _ _ w t2 h2 in
      let (_, t4, e4, h4) = >>=-ok _ _ w t3 h3 in
      let (_, t5, e5, h5) = >>=-ok _ _ w t4 h4 in
      let k1 = get_after_dep_contract-ok deps _ _ w t e1 in
      let k2 = get_after_dep_contract-ok deps _ _ w t1 e2 in
      let k3 = send-ok _ w t2 e3 in
      let k4 = send-ok _ w t3 e4 in
      let k5 = send-ok _ w t4 e5 in
      let d = pure-ok _ w t5 h5 in (cc d.0, cc (k1.0, k1.1, k2.0, k2.1, k3.1, k4.1, k5.1, d.1))

-- The setup of a full stack that returns has made exactly these six transactions, in order, on
-- the contracts that the deployer lists, and leaves no call for the multicall.
pub full_setup-ok :
    (deps : List TContract) (w : World) (t : Trace) {calls : List MultiCall} {t' : Trace}
    → full_setup deps w t ≡ (ok calls, t')
    → (calls ≡ []) × (t' ≡ flashloan_events w deps (master_events w deps (penrose_events w deps t)))
unfolding full_setup
full_setup-ok deps w t h =
    let (p, t1, e1, h1) = >>=-ok _ _ w t h in
    let (m, t2, e2, h2) = >>=-ok _ _ w t1 h1 in
    let (f, t3, e3, h3) = >>=-ok _ _ w t2 h2 in
    let a = penrose_setup-ok deps w t e1 in
    let b = master_setup-ok deps w t1 e2 in
    let c = flashloan_setup-ok deps w t2 e3 in
    let d = pure-ok (p ++ (m ++ f)) w t3 h3 in
    (
      cc (d.0, a.0, b.0, c.0),
      cc (
        d.1,
        c.1,
        ap (flashloan_events w deps) b.1,
        ap (λ s. flashloan_events w deps (master_events w deps s)) a.1,
      ),
    )
