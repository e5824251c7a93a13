-- ===== src/Deploy/Found.antt =====
-- What the lookups of the deployment tasks have found, and at which point.
use tapioca.Base.{
  String, ◌≡◌, sym, ap, ◌∙◌, Bool, true, false, ◌||◌, is_some, Option, none, some, or_else, arith,
  if◌then◌else◌,
}
use tapioca.Hre.Types.{Val, str, TContract, ChainInfo, Trace, thrown}
use tapioca.Hre.World.{World}
use tapioca.Hre.Task.{ok, ask}
use tapioca.Hre.Returns.{on_ok, ask-ok, ask_or-ok, require-ok, guard-ok, pure-ok}
use tapioca.Utils.{find_named, find_prefixed, address_of}
use tapioca.Deploy.Lookup.{global_or_local}
use tapioca.Deploy.Stack.{find_weth, find_yield_box, find_cluster}
use tapioca.Deploy.Stack.Full.{find_tap_token}

-- The entry of that name in the global list of the project, or else in the local list.
abbrev pub entry_of : World → Trace → String → String → String → String → Option TContract
entry_of w t tag project chain name =
    or_else (find_named name (w.load_global t tag project chain))
      (find_named name (w.load_local t tag chain))

pub global_or_local-ok :
    (tag project chain name : String) (w : World) (t : Trace) {o : Option TContract} {t' : Trace}
    → global_or_local tag project chain name w t ≡ (ok o, t')
    → (entry_of w t tag project chain name ≡ o) × (t ≡ t')
unfolding global_or_local
global_or_local-ok tag project chain name w t h =
    ask-ok (λ v s. entry_of v s tag project chain name) w t h

-- The weth of a chain: a mock of the lists on a test network, the table's elsewhere.
abbrev pub weth_of : World → Trace → String → ChainInfo → Bool → Option Val
weth_of w t tag info testnet =
    if testnet
    then elim (or_else
        (find_prefixed "WETHMock" (w.load_global t tag "tapioca-mocks" info.chain_id))
        (find_prefixed "WETHMock" (w.load_local t tag info.chain_id))) [
          | none ↦ none
          | some e ↦ some (str e.address)
        ]
    else elim w.tokens_deployments_weth [ none ↦ none | some f ↦ some (f info.chain_id) ]

pub find_weth-ok :
    (tag : String) (info : ChainInfo) (testnet : Bool) (w : World) (t : Trace) {o : Option Val}
    {t' : Trace}
    → find_weth tag info testnet w t ≡ (ok o, t')
    → (weth_of w t tag info testnet ≡ o) × (t ≡ t')
unfolding find_weth ask
find_weth-ok tag info true w t h = ground arith
find_weth-ok tag info false w t h = on_ok _ _ w t h λ f t1 e1 h1.
    let p = ask_or-ok _ (λ v _. v.tokens_deployments_weth) w t e1 in
    let q = pure-ok _ w t1 h1 in
    (ap (λ x. elim x [ none ↦ none | some g ↦ some (g info.chain_id) ]) p.0 ∙ q.0, p.1 ∙ q.1)

pub find_yield_box-ok :
    (tag : String) (info : ChainInfo) (testnet : Bool) (w : World) (t : Trace) {v : Val}
    {t' : Trace}
    → find_yield_box tag info testnet w t ≡ (ok v, t')
    → (address_of (entry_of w t tag "yieldbox" info.chain_id "YieldBox") ≡ v) × (t ≡ t')
unfolding find_yield_box
find_yield_box-ok tag info testnet w t h = on_ok _ _ w t h λ yb t1 e1 h1.
    on_ok _ _ w t1 h1 λ _ t2 e2 h2.
      let p = global_or_local-ok tag "yieldbox" info.chain_id "YieldBox" w t e1 in
      let q = pure-ok (address_of yb) w t2 h2 in
      (
        ap address_of p.0 ∙ q.0,
        p.1
            ∙ sym (guard-ok (is_some yb || testnet) (thrown "[-] YieldBox not found") w t1 e2).1
            ∙ q.1,
      )

pub find_cluster-ok :
    (tag : String) (info : ChainInfo) (testnet : Bool) (w : World) (t : Trace) {v : Val}
    {t' : Trace}
    → find_cluster tag info testnet w t ≡ (ok v, t')
    → ((c : TContract) × (entry_of w t tag "tapioca-periphery" info.chain_id "Cluster" ≡ some c)
        × (v ≡ str c.address))
      × (t ≡ t')
unfolding find_cluster
find_cluster-ok tag info testnet w t h = on_ok _ _ w t h λ found t1 e1 h1.
    on_ok _ _ w t1 h1 λ _ t2 e2 h2. on_ok _ _ w t2 h2 λ c t3 e3 h3.
      let p = global_or_local-ok tag "tapioca-periphery" info.chain_id "Cluster" w t e1 in
      let r = require-ok _ found w t2 e3 in
      let q = pure-ok (str c.address) w t3 h3 in
      (
        (c, p.0 ∙ r.0, sym q.0),
        p.1
            ∙ sym (guard-ok (is_some found || testnet) (thrown "[-] Cluster not found") w t1 e2).1
            ∙ r.1
            ∙ q.1,
      )

-- The TapOFT of a chain; a test network may have a local one whose name begins so.
abbrev pub tap_of : World → Trace → String → ChainInfo → Bool → Option TContract
tap_of w t tag info testnet =
    elim (find_named "TapOFT" (w.load_global t tag "tap-token" info.chain_id)) [
      | some e ↦ some e
      | none ↦ if testnet then find_prefixed "TapOFT" (w.load_local t tag info.chain_id) else none
    ]

pub find_tap_token-ok :
    (tag : String) (info : ChainInfo) (testnet : Bool) (w : World) (t : Trace)
    {o : Option TContract} {t' : Trace}
    → find_tap_token tag info testnet w t ≡ (ok o, t')
    → (tap_of w t tag info testnet ≡ o) × (t ≡ t')
unfolding find_tap_token
find_tap_token-ok tag info testnet w t h = ask-ok (λ v s. tap_of v s tag info testnet) w t h
