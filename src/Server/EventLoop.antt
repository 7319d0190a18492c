-- ===== src/Server/EventLoop.antt =====
-- The loop of Server::run as a sequence of steps.
use protocom.Prelude.{
  ℕ, ◌≡◌, refl, sym, ap, ◌∙◌, Bool, true, List, [], ◌∷◌, ◌++◌, Option, none, some, inl, inr, false,
  not-thrown, some_returned-injective, Bool-cases, ◌⊎◌, ◌≢◌, subst, if◌then◌else◌, Outcome,
  returned, threw, after,
}
use protocom.Socket.{Socket}
use protocom.Deframer.{Memory}
use protocom.Protocol.State.{Env}
use protocom.Server.State.{EventFd, Server}
use protocom.Server.Loop.{
  Arrival, Wait, wait_failed, events, handle_event, handle_events, handle_wait, run_loop,
}
use protocom.Server.Runs.{Action, event, failed_wait, act, run_actions}

abbrev pub event_actions : {S : Type 0} → List (Arrival S) → List (Action S)
event_actions [] = []
event_actions (a ∷ rest) = event a ∷ event_actions rest

-- The steps of the rounds that some results of epoll_wait lead to.
abbrev pub round_actions : {S : Type 0} → Wait S → List (Action S)
round_actions (wait_failed b) = failed_wait b ∷ []
round_actions (events arrivals) = event_actions arrivals

abbrev pub loop_actions : {S : Type 0} → List (Wait S) → List (Action S)
loop_actions [] = []
loop_actions (w ∷ ws) = round_actions w ++ loop_actions ws

after_assoc :
    {A B C : Type 0} (m : Option (Outcome A)) (f : A → Option (Outcome B))
    → (g : B → Option (Outcome C)) → after (after m f) g ≡ after m (λ a. after (f a) g)
after_assoc none f g = refl
after_assoc (some threw) f g = refl
after_assoc (some (returned a)) f g = refl

module _ {G S C : Type 0} (env : Env G) (eventfd : EventFd C) (socket : Socket S) (mem : Memory)
    (fuel : ℕ) where
  abbrev run_all : List (Action S) → Server G S C → Option (Outcome (Server G S C))
  run_all = run_actions env eventfd socket mem fuel

  run_actions-append :
      (xs ys : List (Action S)) (s : Server G S C)
      → run_all (xs ++ ys) s ≡ after (run_all xs s) (run_all ys)
  unfolding run_actions
  run_actions-append [] ys s = refl
  run_actions-append (x ∷ xs) ys s =
      ap (after (act env eventfd socket mem fuel x s)) (λ i t. run_actions-append xs ys t i)
      ∙ sym (after_assoc (act env eventfd socket mem fuel x s) (run_all xs) (run_all ys))

  handle_events-run_all :
      (arrivals : List (Arrival S)) (s : Server G S C)
      → handle_events socket mem fuel eventfd arrivals s ≡ run_all (event_actions arrivals) s
  unfolding handle_events run_actions act
  handle_events-run_all [] s = refl
  handle_events-run_all (a ∷ rest) s =
      ap (after (handle_event socket mem fuel eventfd a s)) (λ i t. handle_events-run_all rest t i)

  handle_wait-run_all :
      (w : Wait S) (s : Server G S C)
      → handle_wait socket mem fuel eventfd w s ≡ run_all (round_actions w) s
  unfolding handle_wait run_actions act
  handle_wait-run_all (wait_failed b) s = refl
  handle_wait-run_all (events arrivals) s = handle_events-run_all arrivals s

  -- The server runs at the start of each round.
  abbrev pub AllRunning : List (Wait S) → Server G S C → Type 0
  AllRunning [] s = Unit {0}
  AllRunning (w ∷ ws) s =
      (s.running ≡ true)
      × ((s' : Server G S C) → run_all (round_actions w) s ≡ some (returned s') → AllRunning ws s')

  -- The rounds that the loop makes, and the results that it leaves: it makes a round as long as the
  -- server runs, and stops only where it does not, or where no result is left.
  pub record MakesRounds (ws : List (Wait S)) (s : Server G S C) : Type 0 where
    pub made : List (Wait S)
    pub left : List (Wait S)
    pub split : ws ≡ made ++ left
    pub steps : run_loop socket mem fuel eventfd ws s ≡ run_all (loop_actions made) s
    pub all_running : AllRunning made s
    pub stops :
        (s' : Server G S C)
        → run_all (loop_actions made) s ≡ some (returned s')
        → (s'.running ≡ false) ⊎ (left ≡ [])

  rounds-run_all :
      (w : Wait S) (ws : List (Wait S)) (s : Server G S C)
      → run_all (loop_actions (w ∷ ws)) s
        ≡ after (handle_wait socket mem fuel eventfd w s) (run_all (loop_actions ws))
  rounds-run_all w ws s =
      run_actions-append (round_actions w) (loop_actions ws) s
      ∙ ap (λ (m : Option (Outcome (Server G S C))). after m (run_all (loop_actions ws)))
          (sym (handle_wait-run_all w s))

  -- The loop of Server::run, for any results of epoll_wait and any fuel of its inner loops, comes to
  -- what the steps of the rounds of a first part of these results come to, one after the other. The
  -- server runs at the start of each of these rounds; and if they return, either it does not run any
  -- more, or they are the rounds of all the results.
  pub run_loop-MakesRounds : (ws : List (Wait S)) (s : Server G S C) → MakesRounds ws s
  unfolding run_loop run_actions
  run_loop-MakesRounds [] s = record {
    made = [];
    left = [];
    split = refl;
    steps = refl;
    all_running = tt;
    stops = λ s' e. inr refl;
  }
  run_loop-MakesRounds (w ∷ ws) s = elim (Bool-cases s.running) [
    | inr stopped ↦ record {
      made = [];
      left = w ∷ ws;
      split = refl;
      steps = ap branch stopped;
      all_running = tt;
      stops = λ s' e.
          inl (ap (λ (t : Server G S C). t.running) (sym (some_returned-injective e)) ∙ stopped);
    }
    | inl running ↦
        by_round (run_loop-MakesRounds ws) running (handle_wait socket mem fuel eventfd w s) refl
  ]
    where
      branch : Bool → Option (Outcome (Server G S C))
      branch b =
          let rest =
            after (handle_wait socket mem fuel eventfd w s) (run_loop socket mem fuel eventfd ws) in
          if b then rest else some (returned s)

      after-nothing : (o : Option (Outcome (Server G S C))) → o ≡ after o (run_all [])
      after-nothing none = refl
      after-nothing (some threw) = refl
      after-nothing (some (returned t)) = refl

      -- The round ends the program, or does not end.
      last :
          (o : Option (Outcome (Server G S C)))
          → s.running ≡ true
          → handle_wait socket mem fuel eventfd w s ≡ o
          → ((f g : Server G S C → Option (Outcome (Server G S C))) → after o f ≡ after o g)
          → ((s' : Server G S C) → o ≢ some (returned s'))
          → MakesRounds (w ∷ ws) s
      last o running e same over = record {
        made = w ∷ [];
        left = ws;
        split = refl;
        steps =
            ap branch running
            ∙ ap
                (λ (m : Option (Outcome (Server G S C))).
                  after m (run_loop socket mem fuel eventfd ws))
                e
            ∙ same (run_loop socket mem fuel eventfd ws) (run_all [])
            ∙ ap (λ (m : Option (Outcome (Server G S C))). after m (run_all [])) (sym e)
            ∙ sym (rounds-run_all w [] s);
        all_running = (running, λ s' h. absurd (over s' (sym e ∙ handle_wait-run_all w s ∙ h)));
        stops = λ s' h. absurd (
            over s' (
              after-nothing o
              ∙ ap (λ (m : Option (Outcome (Server G S C))). after m (run_all [])) (sym e)
              ∙ sym (rounds-run_all w [] s)
              ∙ h));
      }

      by_round :
          ((t : Server G S C) → MakesRounds ws t)
          → s.running ≡ true
          → (o : Option (Outcome (Server G S C))) → handle_wait socket mem fuel eventfd w s ≡ o
          → MakesRounds (w ∷ ws) s
      by_round next running none e = last none running e (λ f g. refl) (λ s' h. absurd (cc))
      by_round next running (some threw) e =
          last (some threw) running e (λ f g. refl) (λ s' h. not-thrown h)
      by_round next running (some (returned s')) e =
          let v = next s' in
          record {
            made = w ∷ v.made;
            left = v.left;
            split = ap (◌∷◌ w) v.split;
            steps =
                ap branch running
                ∙ ap
                    (λ (m : Option (Outcome (Server G S C))).
                      after m (run_loop socket mem fuel eventfd ws))
                    e
                ∙ v.steps
                ∙ ap
                    (λ (m : Option (Outcome (Server G S C))).
                      after m (run_all (loop_actions v.made)))
                    (sym e)
                ∙ sym (rounds-run_all w v.made s);
            all_running = (
              running,
              λ t h.
                  subst (AllRunning v.made)
                    (some_returned-injective (sym e ∙ handle_wait-run_all w s ∙ h)) v.all_running,
            );
            stops = λ t h. v.stops t (
                ap
                  (λ (m : Option (Outcome (Server G S C))). after m (run_all (loop_actions v.made)))
                  (sym e)
                ∙ sym (rounds-run_all w v.made s)
                ∙ h);
          }
