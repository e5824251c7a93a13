-- ===== src/Hre/Fails.antt =====
-- Tasks that cannot return in a given world, and leave no event that is looked at.
use tapioca.Base.{◌≡◌, refl, ap, ◌∙◌, Bool, none, some}
use tapioca.Hre.Types.{Error, Event, Trace}
use tapioca.Hre.World.{World}
use tapioca.Hre.Task.{Result, ok, err, Task, ask, require, continue, ◌>>=◌}
use tapioca.Hre.Throws.{Throws, >>=-Throws, Throws->>=, trace_of_Throws}
use tapioca.Hre.Seen.{seen, IsSilent}

-- Whatever has happened before, `m` ends with an error and has added no event that `f` picks.
pub record Fails {ℓ} {A : Type ℓ} (f : Event → Bool) (w : World) (m : Task A) : Type ℓ where
  pub throws : Throws w m
  pub quiet : (t : Trace) → seen f (m w t).1 ≡ seen f t

module _ {ℓ} {A : Type ℓ} {f : Event → Bool} {w : World} where
  pub of_silent : (m : Task A) → IsSilent f m → Throws w m → Fails f w m
  of_silent m q h = record { throws = h; quiet = λ t. q.at w t }

module _ {ℓ κ} {A : Type ℓ} {B : Type κ} {f : Event → Bool} {w : World} where
  -- What stands behind a task that fails is not reached.
  pub Fails->>= : (m : Task A) (g : A → Task B) → Fails f w m → Fails f w (m >>= g)
  Fails->>= m g h = record {
    throws = Throws->>= m g h.throws;
    quiet = λ t. ap (seen f) (trace_of_Throws m g t h.throws) ∙ h.quiet t;
  }

  rest :
      (g : A → Task B) (t : Trace) (r : Result A)
      → ((a : A) → Fails f w (g a))
      → seen f (continue r g w t).1 ≡ seen f t
  rest g t (ok a) h = (h a).quiet t
  rest g t (err e) h = refl

  pub >>=-Fails :
      (m : Task A) (g : A → Task B)
      → IsSilent f m
      → ((a : A) → Fails f w (g a))
      → Fails f w (m >>= g)
  unfolding ◌>>=◌
  >>=-Fails m g q h = record {
    throws = >>=-Throws m g λ a. (h a).throws;
    quiet = λ t. rest g (m w t).1 (m w t).0 h ∙ q.at w t;
  }

  -- A read, of which the rest knows the value.
  pub ask->>=-Fails :
      (g : World → Trace → A) (k : A → Task B)
      → ((t : Trace) → Fails f w (k (g w t)))
      → Fails f w (ask g >>= k)
  unfolding ◌>>=◌
  ask->>=-Fails g k h = record {
    throws = record { at = λ t b. (h t).throws.at t b };
    quiet = λ t. (h t).quiet t;
  }

  pub some->>=-Fails :
      (e : Error) (a : A) (k : A → Task B) → Fails f w (k a) → Fails f w (require e (some a) >>= k)
  unfolding ◌>>=◌
  some->>=-Fails e a k h = record {
    throws = record { at = λ t b. h.throws.at t b };
    quiet = λ t. h.quiet t;
  }

  pub none->>=-Fails : (e : Error) (k : A → Task B) → Fails f w (require e none >>= k)
  unfolding ◌>>=◌
  none->>=-Fails e k = record { throws = record { at = λ t b p. cc p }; quiet = λ t. refl }
