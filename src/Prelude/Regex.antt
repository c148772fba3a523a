-- ===== src/Prelude/Regex.antt =====
-- Regular expressions with Python's priorities: a repetition and an option are greedy, of two
-- alternatives the first is tried first, and what follows decides whether to try again. A pattern
-- stands between `^` and `$`, over a text without a final line feed.
use Prim.Native.Nat.{ℕ, zero, suc, ◌-◌}
use Prim.Native.String.{String}
use mathlib.Core.Bool.{Bool}
use mathlib.Core.Option.{Option, none, some}
use mathlib.Core.List.{List, [], ◌∷◌, ◌++◌}
use cbc_new.Prelude.Tests.{◌==◌, if◌then◌else◌}
use cbc_new.Prelude.Lists.{length}
use cbc_new.Prelude.Text.{Text, codes}

pub data Regex : Type 0 where
  -- One character of a class; any number of them; a literal text.
  one many : (ℕ → Bool) → Regex
  text : String → Regex
  -- `group i lo hi p` is the group i of lo to hi characters, `group_many` one without a limit.
  group : ℕ → ℕ → ℕ → (ℕ → Bool) → Regex
  group_many : ℕ → (ℕ → Bool) → Regex
  option : Regex → Regex
  either followed_by : Regex → Regex → Regex

-- The groups that took part, with their texts.
abbrev pub Groups : Type 0
Groups = List (ℕ × Text)

unfoldable pub group_text : ℕ → Groups → Option Text
group_text i [] = none
group_text i ((j, t) ∷ gs) = if j == i then some t else group_text i gs

abbrev Next : Type 0
Next = Text → Groups → Option Groups

-- At most `hi` characters of the class, at least `lo`, the longest run first.
run : (ℕ → Bool) → ℕ → ℕ → Text → Text → (Text → Text → Option Groups) → Option Groups
run p zero lo taken s k = if lo == 0 then k taken s else none
run p (suc hi) lo taken [] k = if lo == 0 then k taken [] else none
run p (suc hi) lo taken (c ∷ s) k =
    let longer = run p hi (lo - 1) (taken ++ (c ∷ [])) s k in
    let here = if lo == 0 then k taken (c ∷ s) else none in
    if p c then elim longer [ some g ↦ some g | none ↦ here ] else here

literal : Text → Text → Option Text
literal [] s = some s
literal (c ∷ t) [] = none
literal (c ∷ t) (d ∷ s) = if c == d then literal t s else none

follow : Regex → Text → Groups → Next → Option Groups
unfolding run literal
follow (one p) [] gs k = none
follow (one p) (c ∷ s) gs k = if p c then k s gs else none
follow (many p) s gs k = run p (length s) 0 [] s (λ taken rest. k rest gs)
follow (text t) s gs k = elim (literal (codes t) s) [ none ↦ none | some rest ↦ k rest gs ]
follow (group i lo hi p) s gs k = run p hi lo [] s (λ taken rest. k rest ((i, taken) ∷ gs))
follow (group_many i p) s gs k = run p (length s) 1 [] s (λ taken rest. k rest ((i, taken) ∷ gs))
follow (option r) s gs k = elim (follow r s gs k) [ some g ↦ some g | none ↦ k s gs ]
follow (either r t) s gs k = elim (follow r s gs k) [ some g ↦ some g | none ↦ follow t s gs k ]
follow (followed_by r t) s gs k = follow r s gs (λ rest more. follow t rest more k)

at_end : Next
at_end [] gs = some gs
at_end (c ∷ s) gs = none

-- The groups of a match of the whole text.
unfoldable pub match : Regex → Text → Option Groups
unfolding follow at_end group_text
match r s = follow r s [] at_end

infixr 60 ◌then_match◌
abbrev pub ◌then_match◌ : Regex → Regex → Regex
r then_match t = followed_by r t
