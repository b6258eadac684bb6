-- ===== src/Kafka/RecoveryLoop.antt =====
-- internal/fx/presentation.go, InvokeSubscribeRecovery: the goroutine that subscribes to the
-- recovery commands, again and again, until the service stops. Subscribe of the subscriber is a
-- parameter: a step gives the error, if any, with which it returned.
pub mod Retried
use ofm_registration_saga_se.Prelude.{
  ℕ, suc, Bool, true, false, Option, none, some, List, [], ◌∷◌, ◌≡◌,
}
use ofm_registration_saga_se.Domain.{Error}

-- Where the goroutine is: at ctx.Err of the loop, in Subscribe, past its return and before the
-- second ctx.Err, in the select over the timer, or past its end.
pub data Position : Type 0 where
  checking subscribed paused ended : Position
  returned : Option Error → Position

-- What the goroutine did, the newest first.
pub data Act : Type 0 where
  subscribes logs waits : Act

pub record Loop : Type 0 where
  pub stopping : Bool
  pub at : Position
  pub acts : List Act

-- OnStart
unfoldable pub on_start : Loop
on_start = record { stopping = false; at = checking; acts = [] }

-- One step of the context or of the goroutine.
pub data Step (l : Loop) : Loop → Type 0 where
  -- OnStop
  cancel : l.stopping ≡ false → Step l (record l { stopping = true })
  leave : l.at ≡ checking → l.stopping ≡ true → Step l (record l { at = ended })
  subscribe :
      l.at ≡ checking
      → l.stopping ≡ false
      → Step l (record l { at = subscribed; acts = subscribes ∷ l.acts })
  return_ : (e : Option Error) → l.at ≡ subscribed → Step l (record l { at = returned e })
  again : l.at ≡ returned none → Step l (record l { at = checking })
  again_stopped :
      (e : Error)
      → l.at ≡ returned (some e)
      → l.stopping ≡ true
      → Step l (record l { at = checking })
  pause :
      (e : Error)
      → l.at ≡ returned (some e)
      → l.stopping ≡ false
      → Step l (record l { at = paused; acts = logs ∷ l.acts })
  wake : l.at ≡ paused → Step l (record l { at = checking; acts = waits ∷ l.acts })
  interrupted : l.at ≡ paused → l.stopping ≡ true → Step l (record l { at = ended })

-- The runs of a given number of steps.
pub data Steps : ℕ → Loop → Loop → Type 0 where
  here : {l : Loop} → Steps 0 l l
  next : {n : ℕ} {l l' l'' : Loop} → Step l l' → Steps n l' l'' → Steps (suc n) l l''
