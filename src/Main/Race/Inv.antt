-- ===== src/Main/Race/Inv.antt =====
-- cmd/gosmart/main.go: what holds of `runWithTimeout` in every order of its steps.
use go_smartmontools.Base.{
  ◌≡◌, ◌≢◌, refl, sym, ◌∙◌, ap, true, Option, none, some, List, [], ◌∷◌, ◌++◌, append_assoc, Result,
  panic, Error,
}
use go_smartmontools.Base.Int.{ℤ, pos}
use go_smartmontools.Main.Exit.{exit_code, exit_timeout}
use go_smartmontools.Main.Race.{
  Effect, timed_out, Process, launched, returned, failure_of, exit_panic, Step, work, send, crash,
  fire, receive, expire, Reach, start, later,
}

module _ (seconds : ℤ) (result : Result (Unit {0})) (effects : List Effect) where
  -- A process that runs; or has ended with what the run returned; or by its limit; or by a panic.
  pub data Ended (p : Process) : Type 0 where
    runs : p.exit ≡ none → p.messages ≡ [] → Ended p
    returns :
        (m : Option Error)
        → p.exit ≡ some (exit_code m)
        → p.left ≡ []
        → returned result ≡ some m
        → p.messages ≡ failure_of m
        → Ended p
    times_out :
        p.exit ≡ some exit_timeout → seconds ≢ pos 0 → p.messages ≡ timed_out seconds ∷ [] → Ended p
    panics : p.exit ≡ some exit_panic → p.left ≡ [] → result ≡ panic → p.messages ≡ [] → Ended p

  -- The effects done are the first of the run's, in order; what is in the channel is what the run
  -- returned behind all of them; the timer runs only where there is a limit.
  pub record Inv (p : Process) : Type 0 where
    pub order : p.done ++ p.left ≡ effects
    pub sent : (m : Option Error) → p.channel ≡ some m → (p.left ≡ []) × (returned result ≡ some m)
    pub limited : p.fired ≡ true → seconds ≢ pos 0
    pub ended : Ended p

  launched-Inv : Inv (launched effects)
  launched-Inv = record {
    order = refl;
    sent = λ m e. absurd (cc);
    limited = λ e. absurd (cc);
    ended = runs refl refl;
  }

  -- What the invariant says of a process that runs.
  quiet : (p : Process) → Ended p → p.exit ≡ none → p.messages ≡ []
  quiet p (runs _ q) e = q
  quiet p (returns m x _ _ _) e = absurd (cc)
  quiet p (times_out x _ _) e = absurd (cc)
  quiet p (panics x _ _ _) e = absurd (cc)

  Step-Inv : {p q : Process} → Step seconds result p q → Inv p → Inv q
  Step-Inv (work p e rest run here) inv = record {
    order = append_assoc p.done (e ∷ []) rest ∙ ap (λ l. p.done ++ l) (sym here) ∙ inv.order;
    sent = λ m c. absurd (let (e, _) = inv.sent m c in cc);
    limited = inv.limited;
    ended = runs run (quiet p inv.ended run);
  }
  Step-Inv (send p m run all empty out) inv = record {
    order = inv.order;
    sent = λ n c. (all, out ∙ c);
    limited = inv.limited;
    ended = runs run (quiet p inv.ended run);
  }
  Step-Inv (crash p run all boom) inv = record {
    order = inv.order;
    sent = inv.sent;
    limited = inv.limited;
    ended = panics refl all boom (quiet p inv.ended run);
  }
  Step-Inv (fire p run nz off) inv = record {
    order = inv.order;
    sent = inv.sent;
    limited = λ e. nz;
    ended = runs run (quiet p inv.ended run);
  }
  Step-Inv (receive p m run got) inv = record {
    order = inv.order;
    sent = inv.sent;
    limited = inv.limited;
    ended =
        returns m refl (inv.sent m got).0 (inv.sent m got).1
          (ap (λ l. l ++ failure_of m) (quiet p inv.ended run));
  }
  Step-Inv (expire p run on) inv = record {
    order = inv.order;
    sent = inv.sent;
    limited = inv.limited;
    ended =
        times_out refl (inv.limited on)
          (ap (λ l. l ++ (timed_out seconds ∷ [])) (quiet p inv.ended run));
  }

  -- In whatever order the steps of the run, the timer and the select come: the effects that are done
  -- are always the first of the run's, in its order, and a process that has ended did so in one of
  -- three ways. With the code and the message of what the run returned, behind all its effects;
  -- with the timeout's code and message, only where there is a limit; or by a panic of the run, with
  -- no message.
  pub Reach-Inv : {p : Process} → Reach seconds result effects p → Inv p
  Reach-Inv start = launched-Inv
  Reach-Inv (later r st) = Step-Inv st (Reach-Inv r)
