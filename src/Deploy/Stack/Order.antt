-- ===== src/Deploy/Stack/Order.antt =====
-- The queues of the two stacks: every dependency of a build is deployed before it and fills the
-- argument that was left for it.
use tapioca.Base.{
  ℕ, zero, suc, String, ◌==◌, ◌≡◌, refl, Bool, true, not, ◌&&◌, Option, none, some, List, [], ◌∷◌,
  ◌++◌, contains, filter, All, eq_iff, ap, ◌≢◌, if◌then◌else◌, inl, inr, Bool-cases, arith,
}
use tapioca.Hre.Types.{Val, str, Dependency, Build}
use tapioca.Builds.{address_zero, build_stable_to_usd0_bidder}
use tapioca.Deploy.Stack.{StackInputs, is_missing}
use tapioca.Deploy.Stack.Full.{full_queue}
use tapioca.Deploy.Stack.Linked.{linked_queue}

-- The dependencies of one build that are not among the known names.
abbrev unknown : List String → List Dependency → List String
unknown known [] = []
unknown known (d ∷ ds) =
    let rest = unknown known ds in
    if contains known d.deployment_name then rest else d.deployment_name ∷ rest

-- The dependencies that are neither known at the start nor queued before the build that has them.
abbrev pub dangling : List String → List Build → List String
dangling known [] = []
dangling known (b ∷ bs) = unknown known b.depends_on ++ dangling (b.deployment_name ∷ known) bs

-- What a stack finds already deployed, by the test that decides what it queues.
abbrev pub existing : StackInputs → List String
existing s =
    if s.testnet
    then (if is_missing s.yield_box then [] else "YieldBox" ∷ [])
      ++ (if is_missing s.cluster then [] else "Cluster" ∷ [])
    else "YieldBox" ∷ "Cluster" ∷ []

abbrev pub expected : StackInputs → List String
expected s = if s.testnet then [] else "MultiSwapper" ∷ []

-- No two builds of the queue have one deployment name.
abbrev pub distinct : List String → List Build → Bool
distinct seen [] = true
distinct seen (b ∷ bs) =
    not (contains seen b.deployment_name) && distinct (b.deployment_name ∷ seen) bs

-- `args[i]`
abbrev pub slot : List Val → ℕ → Option Val
slot [] i = none
slot (a ∷ args) zero = some a
slot (a ∷ args) (suc i) = slot args i

-- What stands where the address of a dependency is to go: the address that was looked up, or zero.
abbrev pub left_for : StackInputs → String → Val
left_for s name =
    if name == "YieldBox"
    then s.yield_box
    else (if name == "Cluster" then s.cluster else str address_zero)

abbrev pub Fits : StackInputs → Build → Type 0
Fits s b =
    All (λ (d : Dependency). slot b.args d.arg_position ≡ some (left_for s d.deployment_name))
      b.depends_on

abbrev pub is_bidder : Build → Bool
is_bidder b = b.deployment_name == "CurveStableToUsdoBidder"

-- The facts about the full queue, case by case of what is deployed already.
full_facts :
    (s : StackInputs) (tap stable_pool : Val)
    → (dangling (existing s) (full_queue s tap stable_pool) ≡ expected s)
      × (distinct [] (full_queue s tap stable_pool) ≡ true)
      × All (Fits s) (filter (λ b. not (is_bidder b)) (full_queue s tap stable_pool))
unfolding full_queue contains filter
full_facts s tap stable_pool = elim (Bool-cases s.testnet) [
  | inl e ↦ elim (Bool-cases (is_missing s.yield_box)) [
    | inl y ↦ elim (Bool-cases (is_missing s.cluster)) [
      | inl c ↦ rw (e, y, c) (refl, refl, ground arith)
      | inr c ↦ rw (e, y, c) (refl, refl, ground arith)
    ]
    | inr y ↦ elim (Bool-cases (is_missing s.cluster)) [
      | inl c ↦ rw (e, y, c) (refl, refl, ground arith)
      | inr c ↦ rw (e, y, c) (refl, refl, ground arith)
    ]
  ]
  | inr e ↦ rw e (refl, refl, ground arith)
]

linked_facts :
    (s : StackInputs)
    → (dangling (existing s) (linked_queue s) ≡ expected s)
      × (distinct [] (linked_queue s) ≡ true)
      × All (Fits s) (linked_queue s)
unfolding linked_queue contains
linked_facts s = elim (Bool-cases s.testnet) [
  | inl e ↦ elim (Bool-cases (is_missing s.yield_box)) [
    | inl y ↦ elim (Bool-cases (is_missing s.cluster)) [
      | inl c ↦ rw (e, y, c) (refl, refl, ground arith)
      | inr c ↦ rw (e, y, c) (refl, refl, ground arith)
    ]
    | inr y ↦ elim (Bool-cases (is_missing s.cluster)) [
      | inl c ↦ rw (e, y, c) (refl, refl, ground arith)
      | inr c ↦ rw (e, y, c) (refl, refl, ground arith)
    ]
  ]
  | inr e ↦ rw e (refl, refl, ground arith)
]

-- In the full stack no two builds share a name, and no dependency dangles on a test network; off
-- it one does, the MultiSwapper that SimpleLeverageExecutor depends on and that only a test
-- network deploys.
pub full_queue-dangling :
    (s : StackInputs) (tap stable_pool : Val)
    → (dangling (existing s) (full_queue s tap stable_pool) ≡ expected s)
      × (distinct [] (full_queue s tap stable_pool) ≡ true)
full_queue-dangling s tap stable_pool = let (d, u, _) = full_facts s tap stable_pool in (d, u)

-- Every dependency of the full stack, those of CurveStableToUsdoBidder aside, fills an argument
-- that holds the address looked up for it or the zero address.
pub full_queue-Fits :
    (s : StackInputs) (tap stable_pool : Val)
    → All (Fits s) (filter (λ b. not (is_bidder b)) (full_queue s tap stable_pool))
full_queue-Fits s tap stable_pool = (full_facts s tap stable_pool).2

-- The stack of a linked chain: its names are distinct, every dependency stands at an argument that holds the address looked up for
-- it or the zero address, none dangles on a test network, and off it the MultiSwapper does.
pub linked_queue_sound :
    (s : StackInputs)
    → (dangling (existing s) (linked_queue s) ≡ expected s)
      × (distinct [] (linked_queue s) ≡ true)
      × All (Fits s) (linked_queue s)
linked_queue_sound s = linked_facts s

the_bidder :
    (s : StackInputs) (tap stable_pool : Val)
    → s.testnet ≡ true
    → filter is_bidder (full_queue s tap stable_pool)
      ≡ filter is_bidder (build_stable_to_usd0_bidder stable_pool s.yield_box)
unfolding full_queue filter
the_bidder s tap stable_pool e = elim (Bool-cases (is_missing s.yield_box)) [
  | inl y ↦ elim (Bool-cases (is_missing s.cluster)) [ inl c ↦ rw (e, y, c) | inr c ↦ rw (e, y, c) ]
  | inr y ↦ elim (Bool-cases (is_missing s.cluster)) [ inl c ↦ rw (e, y, c) | inr c ↦ rw (e, y, c) ]
]

count_ne_zero_address : ◌≢◌ {A = String} "4" address_zero
count_ne_zero_address = ground (arith, eq_iff "4" address_zero)

abbrev slot_text : Option Val → String
slot_text (some (Val.str s)) = s
slot_text _ = ""

-- The bidder of a stack: its dependency on Penrose is to fill the argument 1, which holds the count of the pool's assets.
abbrev pub Overwrites : StackInputs → Build → Type 0
Overwrites s b =
    (d : Dependency) × (rest : List Dependency) × (b.depends_on ≡ rest ++ d ∷ [])
    × (d.deployment_name ≡ "Penrose")
    × (d.arg_position ≡ 1)
    × (slot b.args 1 ≡ some (str "4"))
    × (left_for s "Penrose" ≡ str address_zero)
    × ¬ Fits s b

-- On a test network exactly one build of the full stack has a dependency that does not fit, CurveStableToUsdoBidder: the deployer is to write Penrose's
-- address over the argument 1, where another dependency has the zero address, and there stands '4', the count of the pool's assets. Every other build fits.
pub full_queue_misfit :
    (s : StackInputs) (tap stable_pool : Val)
    → s.testnet ≡ true
    → (b : Build) × (filter is_bidder (full_queue s tap stable_pool) ≡ b ∷ [])
      × Overwrites s b
      × All (Fits s) (filter (λ x. not (is_bidder x)) (full_queue s tap stable_pool))
unfolding filter build_stable_to_usd0_bidder
full_queue_misfit s tap stable_pool e = (
  _,
  the_bidder s tap stable_pool e,
  (_, _ ∷ [], refl, refl, refl, refl, refl, λ h. count_ne_zero_address (ap slot_text h.1.0)),
  (full_facts s tap stable_pool).2,
)
