-- ===== src/Deploy/SglMarket/Returns.antt =====
-- Where the Singularity deployment returns.
use tapioca.Base.{String, ℕ, ◌≡◌, sym, ap, ◌∙◌, arith, true, Option, none, some, first}
use tapioca.Hre.Types.{TContract, ChainInfo, Vm, Trace}
use tapioca.Hre.World.{World}
use tapioca.Hre.Task.{Task, ok, list, first_address, input, get_chain, ◌>>=◌}
use tapioca.Hre.Returns.{on_ok, pure-ok, ask-ok, ask_or-ok}
use tapioca.Hre.Obliging.{
  some-Returns, view-Returns, ask_for_tag-Returns, ask->>=-Returns, new_vm-Returns,
  get_contract_at-Returns, get_local_contract-Returns, input-Returns, Returns, IsObliging,
  returns_rules, >>=-Returns, >>=-Returns_of, require-Returns, ask-Returns, ask_or-Returns,
  guard-Returns, pure-Returns, get_chain-Returns,
}
use tapioca.Utils.{find_named, load_vm}
use tapioca.Deploy.Lookup.{
  global_or_local, find_oracle, find_token_strategy, get_local, name_of, address_field, name_or,
  yield_box_id, is_testnet,
}
use tapioca.Deploy.Strats.{
  load_strats, usd0_strategy, strategy_address, oracle_or_mock, deploy_oracle_mock,
}
use tapioca.Deploy.SglMarket.{
  SglContracts, SglArgs, load_contracts, sgl_prepare, sgl_deploy, sgl_record, deploy_sgl_market,
}

-- A test network on which every local deployment that is asked for by its name is recorded, and the token that the user names.
pub record IsEquipped (w : World) : Type 0 where
  pub recorded :
      (t : Trace) (chain name tag : String)
      → (c : TContract) × (w.get_local t chain name tag ≡ some c)
  pub token :
      (t : Trace) (tag : String)
      → (c : TContract) × (find_named
            (w.input t "tokenName")
            (w.load_global t tag "tapiocaz" w.chain_id)
          ≡ some c)
  pub testnet : (c : ChainInfo) → w.get_chain_by w.chain_id ≡ some c → is_testnet c ≡ true
  pub parses : (s : String) → (n : ℕ) × (w.parse_ether s ≡ some n)
  pub listed : (t : Trace) (vm : Vm) → (c : TContract) × (first (w.vm_list t vm) ≡ some c)

module _ {w : World} (o : IsObliging w) (q : IsEquipped w) where
  found_local :
      {B : Type 0} (name tag : String) (k : Option TContract → Task B)
      → ((c : TContract) → Returns w (k (some c)))
      → Returns w (get_local name tag >>= k)
  unfolding get_local
  found_local name tag k h =
      ask->>=-Returns _ _ λ t. let (c, r) = q.recorded t w.chain_id name tag in rw r (h c)

  usd0_strategy-Returns : (tag : String) → Returns w (usd0_strategy tag)
  unfolding usd0_strategy strategy_address
  usd0_strategy-Returns tag = found_local _ tag _ λ c. pure-Returns _

  mock-Returns : (vm : Vm) (c : TContract) → Returns w (deploy_oracle_mock vm (some c))
  unfolding deploy_oracle_mock name_of
  mock-Returns vm c = >>=-Returns _ _ (input-Returns _) λ rate.
      >>=-Returns _ _ (pure-Returns _) λ name.
        >>=-Returns _ _ (ask_or-Returns _ _ λ t. q.parses rate) λ n. search (returns_rules, o)

  first_address-Returns : (vm : Vm) → Returns w (first_address vm)
  unfolding first_address list
  first_address-Returns vm = ask->>=-Returns _ _ λ t.
      let (c, r) = q.listed t vm in >>=-Returns _ _ (require-Returns _ _ (c, r)) λ d. pure-Returns _

  oracle_or_mock-Returns :
      (vm : Vm) (info : ChainInfo) (c : TContract) (found : Option TContract)
      → is_testnet info ≡ true
      → Returns w (oracle_or_mock vm info (some c) found)
  unfolding oracle_or_mock
  oracle_or_mock-Returns vm info c (some oracle) h = pure-Returns _
  oracle_or_mock-Returns vm info c none h =
      >>=-Returns _ _ (guard-Returns _ _ h)
        λ _. >>=-Returns _ _ (mock-Returns vm c) first_address-Returns

  name_or-Returns :
      (n : Option String) (prefix : String) (c : TContract) → Returns w (name_or n prefix (some c))
  unfolding name_or name_of
  name_or-Returns none prefix c = search returns_rules
  name_or-Returns (some n) prefix c = pure-Returns _

  chain->>=-Returns :
      {B : Type 0} (k : ChainInfo → Task B)
      → ((c : ChainInfo) → w.get_chain_by w.chain_id ≡ some c → Returns w (k c))
      → Returns w (get_chain >>= k)
  unfolding get_chain
  chain->>=-Returns k h =
      >>=-Returns_of _ _ (get_chain-Returns o)
        λ t s c e. h c (ask_or-ok _ (λ v _. v.get_chain_by v.chain_id) w t e).0

  load_strats-Returns :
      (tag : String) (c : TContract) (n : Option String) → Returns w (load_strats tag (some c) n)
  unfolding load_strats load_vm find_oracle
  load_strats-Returns tag c n = >>=-Returns _ _ (new_vm-Returns tag) λ vm.
      >>=-Returns _ _ (usd0_strategy-Returns tag) λ strategy. chain->>=-Returns _ λ info e.
        >>=-Returns _ _ (name_or-Returns n _ c) λ name. >>=-Returns _ _ (ask-Returns _) λ oracle.
          >>=-Returns _ _ (oracle_or_mock-Returns vm info c oracle (q.testnet info e))
            λ a. pure-Returns _

  load_contracts-Returns : (tag : String) → Returns w (load_contracts tag)
  unfolding load_contracts global_or_local
  load_contracts-Returns tag = >>=-Returns _ _ (get_chain-Returns o) λ info.
      >>=-Returns _ _ (ask-Returns _) λ yb.
        >>=-Returns _ _ (get_contract_at-Returns o _ _) λ yield_box.
          >>=-Returns _ _ (get_local_contract-Returns o _ _) λ _.
            >>=-Returns _ _ (get_local_contract-Returns o _ _) λ _.
              >>=-Returns _ _ (get_local_contract-Returns o _ _) λ _.
                >>=-Returns _ _ (get_local_contract-Returns o _ _) λ _.
                  >>=-Returns _ _ (get_local_contract-Returns o _ _) λ _.
                    >>=-Returns _ _ (get_local_contract-Returns o _ _)
                      λ _. found_local _ tag _ λ mc. search returns_rules

  load_contracts-token :
      (tag : String) (t : Trace) {r : SglContracts} {t' : Trace}
      → load_contracts tag w t ≡ (ok r, t')
      → (c : TContract) × (r.token ≡ some c)
  unfolding load_contracts input
  load_contracts-token tag t h = on_ok _ _ w t h λ _ t1 _ h. on_ok _ _ w t1 h λ _ t2 _ h.
      on_ok _ _ w t2 h λ _ t3 _ h. on_ok _ _ w t3 h λ _ t4 _ h. on_ok _ _ w t4 h λ _ t5 _ h.
        on_ok _ _ w t5 h λ _ t6 _ h. on_ok _ _ w t6 h λ _ t7 _ h. on_ok _ _ w t7 h λ _ t8 _ h.
          on_ok _ _ w t8 h λ _ t9 _ h. on_ok _ _ w t9 h λ _ t10 _ h. on_ok _ _ w t10 h λ _ t11 _ h.
            on_ok _ _ w t11 h λ tokens t12 e h. on_ok _ _ w t12 h λ name t13 e' h.
              let (c, found) = q.token t11 tag in
              let same : t11 ≡ t12 =
                (ask-ok (λ v x. v.load_global x tag "tapiocaz" v.chain_id) w t11 e).1 in
              let list : w.load_global t11 tag "tapiocaz" w.chain_id ≡ tokens =
                (ask-ok (λ v x. v.load_global x tag "tapiocaz" v.chain_id) w t11 e).0 in
              let named : w.input t12 "tokenName" ≡ name = ground arith in
              (
                c,
                ap (λ r. r.token) (sym (pure-ok _ w t13 h).0)
                    ∙ rw (sym list, sym named, sym same) found,
              )

  sgl_prepare-Returns : (args : SglArgs) → Returns w (sgl_prepare args)
  unfolding sgl_prepare find_token_strategy yield_box_id address_field
  sgl_prepare-Returns args = >>=-Returns _ _ ask_for_tag-Returns λ tag.
      >>=-Returns _ _ (get_chain-Returns o) λ info.
        >>=-Returns_of _ _ (load_contracts-Returns tag) λ t s contracts e.
          let (c, is_token) = load_contracts-token tag t e in
          rw is_token (
            >>=-Returns _ _ (load_strats-Returns tag c args.oracle_name) λ strats.
              >>=-Returns _ _ (name_or-Returns args.token_strategy_name _ c) λ filter.
                ask->>=-Returns _ _ λ t.
                  let (strategy, found) = q.recorded t w.chain_id filter tag in
                  rw found (
                    >>=-Returns _ _ (some-Returns _ strategy) λ token_strategy.
                      >>=-Returns _ _ (pure-Returns _) λ address.
                        >>=-Returns _ _ (view-Returns o _) λ _.
                          >>=-Returns _ _ (view-Returns o _) λ _.
                            >>=-Returns _ _ (input-Returns _) λ _.
                              >>=-Returns _ _ (input-Returns _) λ _.
                                >>=-Returns _ _ (input-Returns _) λ _.
                                  found_local _ tag _ λ executor.
                                    >>=-Returns _ _ (some-Returns _ executor) λ _. pure-Returns _))

-- In a world in which nothing that is called fails, on a test network where the local deployments and the token that the user names are recorded, the
-- deployment of a Singularity market returns.
pub deploy_sgl_market-Returns :
    (args : SglArgs) (w : World) (t : Trace)
    → IsObliging w
    → IsEquipped w
    → (t' : Trace) × (deploy_sgl_market args w t ≡ (ok tt, t'))
unfolding deploy_sgl_market sgl_deploy sgl_record load_vm
deploy_sgl_market-Returns args w t o q =
    let whole : Returns w (deploy_sgl_market args) =
      >>=-Returns _ _ (sgl_prepare-Returns o q args) λ p.
        >>=-Returns _ _ (search (returns_rules, o) depth 8)
          λ _. search (returns_rules, o) depth 10 in
    let (u, t', e) = whole.at t in (t', e)
