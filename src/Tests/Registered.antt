-- ===== src/Tests/Registered.antt =====
-- What the command line runs.
use tapioca.Base.{
  String, ◌==◌, Bool, ◌≡◌, refl, true, false, Option, none, some, List, [], ◌∷◌, map, find,
  contains, not, ◌&&◌,
}
use tapioca.Registry.{Registration, param_name, tasks}
use tapioca.TapiocaZ.Scopes.{oft_scope, balancer_scope}

-- The first registration of a name.
unfoldable registration_of : String → Option Registration
unfolding find
registration_of name = find (λ r. r.name == name) tasks

-- Is every name in the list once?
unfoldable are_distinct : List String → Bool
unfolding contains
are_distinct [] = true
are_distinct (n ∷ ns) = not (contains ns n) && are_distinct ns

abbrev action_in : Option Registration → Option String
action_in none = none
action_in (some r) = r.action

abbrev declares_in : Option Registration → String → Bool
declares_in none p = false
declares_in (some r) p = contains (map param_name r.params) p

-- No task replaces another of its name.
names_are_distinct : are_distinct (map (λ r. r.name) tasks) ≡ true
unfolding are_distinct contains
names_are_distinct = refl

oft_names_are_distinct : are_distinct (map (λ r. r.name) oft_scope) ≡ true
unfolding are_distinct contains
oft_names_are_distinct = refl

balancer_names_are_distinct : are_distinct (map (λ r. r.name) balancer_scope) ≡ true
unfolding are_distinct contains
balancer_names_are_distinct = refl

set_burner_status_runs :
    action_in (registration_of "setBurnerStatus") ≡ some "setMinterStatus__task"
unfolding registration_of find
set_burner_status_runs = refl

-- Names that a task's function reads and that the task does not declare.
undeclared_big_bang : declares_in (registration_of "getParticipantBigBangInfo") "bigBang" ≡ false
unfolding registration_of find contains
undeclared_big_bang = refl

undeclared_singularity : declares_in (registration_of "sameChainBorrow") "singularity" ≡ false
unfolding registration_of find contains
undeclared_singularity = refl

undeclared_usdo : declares_in (registration_of "setUsdoFlashloanHelper") "usdo" ≡ false
unfolding registration_of find contains
undeclared_usdo = refl
