-- ===== src/Agent/Graph/Fuel.antt =====
-- The fuel of the tool loop is enough: the loop of the source has no fuel, and more of it changes
-- nothing.
use web_hooks.Base.{
  ℕ, zero, suc, ◌+◌, ◌≤◌, ◌≡◌, refl, false, not, ◌&&◌, List, [], ◌∷◌, ltb, Bool-cases, inl, inr,
  arith, ◌∙◌, sym, subst,
}
use web_hooks.RetryQueue.{Text}
use web_hooks.Worker.Monad.{Result, ok, raised, Action, continue, ◌>>=◌}
use web_hooks.Agent.Chat.{Schema, Message, Response}
use web_hooks.Agent.State.{Setting, ToolUse, over_budget}
use web_hooks.Agent.Loop.{Node, Stage, after_response, round_of, tool_loop}

bind-agrees :
    {S A B : Type 0} (m : Action S A) (f g : A → Action S B) (s : S)
    → ((a : A) (t : S) → f a t ≡ g a t)
    → (m >>= f) s ≡ (m >>= g) s
unfolding ◌>>=◌
bind-agrees {S = S} {A = A} {B = B} m f g s h = go (m s).0 (m s).1
  where
    go : (r : Result A) (t : S) → continue r f t ≡ continue r g t
    go (ok a) t = h a t
    go raised t = refl

module _ (T : Setting) (system : Text) (tool_defs : List Schema) (max_calls : ℕ) where
  -- The two continuations agree once `n` calls of tools were made.
  abbrev AgreeFrom :
      ℕ → (ℕ → List Message → Node T Text) → (ℕ → List Message → Node T Text) → Type 0
  AgreeFrom n f g = (i : ℕ) (ms : List Message) (s : Stage T) → n ≤ i → f i ms s ≡ g i ms s

  after_response-agrees :
      (f g : ℕ → List Message → Node T Text) (calls : ℕ) (messages : List Message) (r : Response)
      (us : List ToolUse) (s : Stage T)
      → AgreeFrom (calls + 1) f g
      → after_response T system tool_defs max_calls f calls messages r us s
        ≡ after_response T system tool_defs max_calls g calls messages r us s
  unfolding after_response
  after_response-agrees f g calls messages r [] s h = refl
  after_response-agrees f g calls messages r (u ∷ us) s h =
      bind-agrees _ _ _ s (λ items t. h _ _ t (omega arith))

  round_of-agrees :
      (f g : ℕ → List Message → Node T Text) (calls : ℕ) (messages : List Message) (s : Stage T)
      → AgreeFrom (calls + 1) f g
      → round_of T system tool_defs max_calls f calls messages s
        ≡ round_of T system tool_defs max_calls g calls messages s
  unfolding round_of
  round_of-agrees f g calls messages s h =
      bind-agrees _ _ _ s (λ r t. after_response-agrees f g calls messages r _ t h)

  -- One unit of fuel more changes nothing, if the cap is within reach.
  one_more :
      (fuel calls : ℕ) (messages : List Message) (s : Stage T)
      → max_calls ≤ calls + fuel
      → tool_loop T system tool_defs max_calls fuel calls messages s
        ≡ tool_loop T system tool_defs max_calls (suc fuel) calls messages s
  unfolding tool_loop
  one_more zero calls messages s h =
      let capped : ltb calls max_calls ≡ false = ground (arith, h) in rw (tool_loop, capped) refl
  one_more (suc fuel) calls messages s h =
      elim (Bool-cases (ltb calls max_calls && not (over_budget T.provider s.agent))) [
        | inl e ↦
            rw (tool_loop, e)
              (round_of-agrees _ _ calls messages s
                (λ i ms t le. one_more fuel i ms t (omega (arith, h, le))))
        | inr e ↦ rw (tool_loop, e) refl
      ]

  -- Any number of units of fuel above the cap gives the run that the cap gives: the loop ends by its
  -- own condition.
  pub tool_loop-fuel :
      (more : ℕ) (messages : List Message) (s : Stage T)
      → tool_loop T system tool_defs max_calls (more + max_calls) 0 messages s
        ≡ tool_loop T system tool_defs max_calls max_calls 0 messages s
  tool_loop-fuel zero messages s =
      subst
        (λ n.
          tool_loop T system tool_defs max_calls n 0 messages s
          ≡ tool_loop T system tool_defs max_calls max_calls 0 messages s)
        (omega arith) refl
  tool_loop-fuel (suc more) messages s =
      subst
        (λ n.
          tool_loop T system tool_defs max_calls n 0 messages s
          ≡ tool_loop T system tool_defs max_calls max_calls 0 messages s)
        (omega arith)
        (sym (one_more (more + max_calls) 0 messages s (omega arith))
          ∙ tool_loop-fuel more messages s)
