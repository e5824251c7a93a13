-- ===== src/Deploy/BigBangMarket/Faults.antt =====
-- A leverage executor that deployBigBangMarket.ts does not check for.
use tapioca.Base.{String, ◌≡◌, ◌∙◌, Option, none, some, [], ◌∷◌}
use tapioca.Hre.Types.{TContract, Vm, deployed, Trace, type_error}
use tapioca.Hre.World.{World}
use tapioca.Hre.Task.{ok, err, deploy, ◌>>=◌}
use tapioca.Hre.Returns.{>>=-of_ok, >>=-err}
use tapioca.Deploy.Lookup.{address_field}
use tapioca.Deploy.BigBangOracles.{BigBangArgs, BigBangBasis, Oracles, bb_basis, bb_oracles}
use tapioca.Deploy.BigBangMarket.{
  BigBangPlan, bb_plan, oracle_address, bb_deploy, deploy_big_bang_market,
}

deploys :
    (factory : String) (w : World) (t : Trace) (a : String)
    → w.deploys t factory [] ≡ some a
    → deploy factory [] w t ≡ (ok a, deployed factory [] a ∷ t)
unfolding deploy
deploys factory w t a h = rw (deploy, h)

has_oracle :
    (vm : Vm) (oracle : Option TContract) (w : World) (t : Trace) (o : TContract)
    → oracle ≡ some o
    → oracle_address vm oracle w t ≡ (ok o.address, t)
unfolding oracle_address ◌>>=◌
has_oracle vm oracle w t o h = rw h

no_executor :
    (executor : Option TContract) (w : World) (t : Trace)
    → executor ≡ none
    → address_field executor w t ≡ (err (type_error "address"), t)
unfolding address_field ◌>>=◌
no_executor executor w t h = rw h

bb_deploy-orphan :
    (p : BigBangPlan) (w : World) (t : Trace) (o : TContract) (bb : String)
    → p.oracles.oracle ≡ some o
    → p.leverage_executor ≡ none
    → w.deploys t "BigBang" [] ≡ some bb
    → bb_deploy p w t ≡ (err (type_error "address"), deployed "BigBang" [] bb ∷ t)
unfolding bb_deploy
bb_deploy-orphan p w t o bb ho he hd =
    let s = deployed "BigBang" [] bb ∷ t in
    >>=-of_ok _ _ w t bb s (deploys "BigBang" w t bb hd)
    ∙ >>=-of_ok _ _ w s o.address s (has_oracle p.oracles.vm p.oracles.oracle w s o ho)
    ∙ >>=-err _ _ w s (no_executor p.leverage_executor w s he)

-- Without a leverage executor, and with both lookups before it done, the task still deploys a
-- BigBang, and then throws: the market is neither initialised nor registered nor recorded.
pub deploy_big_bang_market-orphan :
    (args : BigBangArgs) (w : World) (t t1 t2 t3 : Trace) (b : BigBangBasis) (os : Oracles)
    (p : BigBangPlan) (o : TContract) (bb : String)
    → bb_basis args w t ≡ (ok b, t1)
    → bb_oracles args b w t1 ≡ (ok os, t2)
    → bb_plan args b os w t2 ≡ (ok p, t3)
    → p.oracles.oracle ≡ some o
    → p.leverage_executor ≡ none
    → w.deploys t3 "BigBang" [] ≡ some bb
    → deploy_big_bang_market args w t ≡ (err (type_error "address"), deployed "BigBang" [] bb ∷ t3)
unfolding deploy_big_bang_market
deploy_big_bang_market-orphan args w t t1 t2 t3 b os p o bb h1 h2 h3 ho he hd =
    >>=-of_ok _ _ w t b t1 h1
    ∙ >>=-of_ok _ _ w t1 os t2 h2
    ∙ >>=-of_ok _ _ w t2 p t3 h3
    ∙ >>=-err _ _ w t3 (bb_deploy-orphan p w t3 o bb ho he hd)
