-- ===== src/Agent/Llm/Retries.antt =====
-- How often `create` calls the model, what it sleeps between, and when it answers or gives up.
use web_hooks.Base.{
  ℕ, zero, suc, ◌+◌, ◌*◌, ◌≤◌, ◌<◌, ◌≡◌, refl, true, false, ◌&&◌, ◌⊎◌, inl, inr, List, [], ◌∷◌,
  ◌++◌, ltb, Bool-cases, append_nil, append_assoc, arith, ◌∙◌, sym, ap, subst,
}
use web_hooks.RetryQueue.{Text}
use web_hooks.Worker.Monad.{Result, ok, raised, Action}
use web_hooks.Agent.Chat.{Response, Request, Schema}
use web_hooks.Agent.LangChain.{
  Outcome, replied, failed, LcMessage, is_rate_limit, from_lc_response, to_lc_messages,
}
use package.web_hooks.Agent.Llm.{
  Adapter, retry_max, retry_base_delay, after_attempt, attempts, create,
}

-- `n` delays, each twice the one before.
abbrev pub doubling : ℕ → ℕ → List ℕ
doubling delay zero = []
doubling delay (suc n) = delay ∷ doubling (delay * 2) n

module _ (lower : Text → Text) (fresh : ℕ → ℕ → Text)
    (ainvoke : ℕ → List LcMessage → List Schema → Outcome) where
  abbrev pub IsLimited : Outcome → Type 0
  IsLimited (replied m) = ⊥
  IsLimited (failed e) = is_rate_limit lower e ≡ true

  -- The end after a call whose outcome is given; `final` is that no attempt is left.
  abbrev pub Ended : Outcome → Type 0 → ℕ → Result Response → Type 0
  Ended (replied m) final k (ok r) = r ≡ from_lc_response (fresh k) m
  Ended (replied m) final k raised = ⊥
  Ended (failed e) final k (ok r) = ⊥
  Ended (failed e) final k raised = (is_rate_limit lower e ≡ false) ⊎ final

  -- From `s` to `s'` the model refused `n` calls for its rate, with a sleep after each, and the
  -- next call ended the attempts.
  pub record Retried (o : ℕ → Outcome) (attempt delay : ℕ) (s : Adapter) (r : Result Response)
      (s' : Adapter) : Type 0 where
    pub refusals : ℕ
    pub bounded : attempt + refusals ≤ retry_max
    pub refused : (i : ℕ) → i < refusals → IsLimited (o (s.invoked + i))
    pub called : s'.invoked ≡ s.invoked + refusals + 1
    pub slept : s'.slept ≡ s.slept ++ doubling delay refusals
    pub ended : Ended (o (s.invoked + refusals)) (attempt + refusals ≡ retry_max) s'.invoked r

  Ended-transport :
      (o : ℕ → Outcome) (i j a b k : ℕ) (r : Result Response)
      → i ≡ j
      → a ≡ b
      → Ended (o i) (a ≡ retry_max) k r
      → Ended (o j) (b ≡ retry_max) k r
  Ended-transport o i j a b k r p q e =
      subst (λ x. Ended (o x) (b ≡ retry_max) k r) p
        (subst (λ x. Ended (o i) (x ≡ retry_max) k r) q e)

  ends_here :
      (o : ℕ → Outcome) (attempt delay : ℕ) (s s' : Adapter) (r : Result Response)
      → attempt ≤ retry_max
      → s'.invoked ≡ s.invoked + 1
      → s'.slept ≡ s.slept
      → Ended (o s.invoked) (attempt ≡ retry_max) s'.invoked r
      → Retried o attempt delay s r s'
  ends_here o attempt delay s s' r b c sl e = record {
    refusals = 0;
    bounded = omega (arith, b);
    refused = λ i h. absurd (omega (arith, h));
    called = omega (arith, c);
    slept = sl ∙ sym (append_nil s.slept);
    ended = Ended-transport o _ _ _ _ _ r (omega arith) (omega arith) e;
  }

  refused_before :
      (o : ℕ → Outcome) (k k' n : ℕ)
      → IsLimited (o k)
      → k' ≡ k + 1
      → ((i : ℕ) → i < n → IsLimited (o (k' + i)))
      → (i : ℕ) → i < suc n
      → IsLimited (o (k + i))
  refused_before o k k' n l c rest zero h = subst (λ x. IsLimited (o x)) (omega arith) l
  refused_before o k k' n l c rest (suc i) h =
      subst (λ x. IsLimited (o x)) (omega (arith, c)) (rest i (omega (arith, h)))

  goes_on :
      (o : ℕ → Outcome) (attempt delay : ℕ) (s t s' : Adapter) (r : Result Response)
      → IsLimited (o s.invoked)
      → t.invoked ≡ s.invoked + 1
      → t.slept ≡ s.slept ++ delay ∷ []
      → Retried o (attempt + 1) (delay * 2) t r s'
      → Retried o attempt delay s r s'
  goes_on o attempt delay s t s' r l c sl rest = record {
    refusals = suc rest.refusals;
    bounded = omega (arith, rest.bounded);
    refused = λ i h. refused_before o s.invoked t.invoked rest.refusals l c rest.refused i h;
    called = omega (arith, rest.called, c);
    slept =
        rest.slept
        ∙ (ap (λ xs. xs ++ doubling (delay * 2) rest.refusals) sl
            ∙ append_assoc s.slept (delay ∷ []) (doubling (delay * 2) rest.refusals));
    ended = Ended-transport o _ _ _ _ _ r (omega (arith, c)) (omega arith) rest.ended;
  }

  after_attempt-Retried :
      (o : ℕ → Outcome) (attempt delay : ℕ) (more : ℕ → ℕ → Action Adapter Response) (s : Adapter)
      (out : Outcome)
      → attempt ≤ retry_max
      → o s.invoked ≡ out
      → (attempt < retry_max
          → (t : Adapter)
          → let res = more (attempt + 1) (delay * 2) t in
            Retried o (attempt + 1) (delay * 2) t res.0 res.1)
      → let res =
          after_attempt lower fresh ainvoke attempt delay more out
            (record s { invoked = s.invoked + 1 }) in
        Retried o attempt delay s res.0 res.1
  unfolding after_attempt
  after_attempt-Retried o attempt delay more s (replied m) h e rest =
      ends_here o attempt delay s _ _ h refl refl (rw e refl)
  after_attempt-Retried o attempt delay more s (failed f) h e rest =
      elim (Bool-cases (is_rate_limit lower f && ltb attempt retry_max)) [
        | inl yes_ ↦ rw yes_ (
            goes_on o attempt delay s _ _ _ (rw e (ground (arith, yes_))) refl refl
              (rest (ground (arith, yes_)) _))
        | inr no_ ↦
            rw no_ (ends_here o attempt delay s _ _ h refl refl (rw e (ground (arith, no_))))
      ]

  attempts-Retried :
      (left attempt delay : ℕ) (messages : List LcMessage) (tools : List Schema) (s : Adapter)
      → attempt + left ≡ retry_max
      → let res = attempts lower fresh ainvoke (suc left) attempt delay messages tools s in
        Retried (λ i. ainvoke i messages tools) attempt delay s res.0 res.1
  unfolding attempts
  attempts-Retried zero attempt delay messages tools s h =
      after_attempt-Retried _ attempt delay
        (λ a d. attempts lower fresh ainvoke zero a d messages tools) s _ (omega (arith, h)) refl
        (λ k t. absurd (omega (arith, h, k)))
  attempts-Retried (suc left) attempt delay messages tools s h =
      after_attempt-Retried _ attempt delay
        (λ a d. attempts lower fresh ainvoke (suc left) a d messages tools) s _ (omega (arith, h))
        refl
        (λ k t. attempts-Retried left (attempt + 1) (delay * 2) messages tools t (omega (arith, h)))

  -- `create` calls the model at most three times: some calls, at most two, that are refused for the
  -- rate, after which it sleeps two and then four seconds, and one more. If that one replies,
  -- `create` returns the translation of the reply. Else it raises, and either the failure was not
  -- one of the rate or two refusals came before it.
  pub create-Retried :
      (r : Request) (s : Adapter)
      → let res = create lower fresh ainvoke r s in
        Retried
          (λ i. ainvoke i (to_lc_messages r.system r.messages s.cache) r.tools)
          0
          retry_base_delay
          s
          res.0
          res.1
  unfolding create
  create-Retried r s = attempts-Retried 2 0 retry_base_delay _ r.tools s refl
