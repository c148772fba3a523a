-- ===== src/Jobs/Ends.antt =====
-- What holds after an action on the state of a document, when it returns and when it raises (the
-- exceptions of backend/pipeline/coordinator.py).

use cbc_new.Jobs.{Exception, DocState, Result, returned, raised, Action, continue, recover}

module _ {A : Type 0} (P : A → DocState → Type 0) (Q : DocState → Type 0) where
  -- What holds after an action, when it returns and when it raises.
  abbrev pub Ends : DocState × Result A → Type 0
  Ends (s, returned a) = P a s
  Ends (s, raised e) = Q s

module _ {A : Type 0} where
  pub Ends-weaken :
      (P P' : A → DocState → Type 0) (Q Q' : DocState → Type 0) (o : DocState × Result A)
      → ((a : A) (s : DocState) → P a s → P' a s)
      → ((s : DocState) → Q s → Q' s)
      → Ends P Q o
      → Ends P' Q' o
  Ends-weaken P P' Q Q' (s, returned a) f g h = f a s h
  Ends-weaken P P' Q Q' (s, raised e) f g h = g s h

  pub Ends-recover :
      (P P' : A → DocState → Type 0) (Q Q' : DocState → Type 0) (o : DocState × Result A)
      (on : Exception → Action A)
      → Ends P Q o
      → ((a : A) (s : DocState) → P a s → P' a s)
      → ((e : Exception) (s : DocState) → Q s → Ends P' Q' (on e s))
      → Ends P' Q' (recover o on)
  Ends-recover P P' Q Q' (s, returned a) on h f g = f a s h
  Ends-recover P P' Q Q' (s, raised e) on h f g = g e s h

  pub Ends-continue :
      {B : Type 0} (P : B → DocState → Type 0) (P' : A → DocState → Type 0)
      (Q Q' : DocState → Type 0) (o : DocState × Result B) (next : B → Action A)
      → Ends P Q o
      → ((b : B) (s : DocState) → P b s → Ends P' Q' (next b s))
      → ((s : DocState) → Q s → Q' s)
      → Ends P' Q' (continue o next)
  Ends-continue P P' Q Q' (s, returned b) next h f g = f b s h
  Ends-continue P P' Q Q' (s, raised e) next h f g = g s h
