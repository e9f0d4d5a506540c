-- ===== src/Main/Race.antt =====
-- cmd/gosmart/main.go: `runWithTimeout` step by step. The goroutine of the run, the timer and the
-- select are steps that may come in any order.
pub mod Inv
pub mod Codes
pub mod Ends
use go_smartmontools.Base.{
  ℕ, ◌≡◌, ◌≢◌, Bool, true, false, Option, none, some, List, [], ◌∷◌, ◌++◌, Bytes, Result, ok, err,
  panic, Error,
}
use go_smartmontools.Base.Int.{ℤ, pos}
use go_smartmontools.Main.{Command}
use go_smartmontools.Main.Exit.{exit_code, exit_timeout}

-- What a run does on its way: it gives a command to the device or writes to stdout.
pub data Effect : Type 0 where
  gives : Command → Effect
  writes : Bytes → Effect

unfoldable pub commands_of : List Effect → List Command
commands_of [] = []
commands_of (gives c ∷ rest) = c ∷ commands_of rest
commands_of (writes s ∷ rest) = commands_of rest

unfoldable pub bytes_of : List Effect → Bytes
bytes_of [] = []
bytes_of (gives c ∷ rest) = bytes_of rest
bytes_of (writes s ∷ rest) = s ++ bytes_of rest

-- What is printed to stderr at the end: the error of the run, or the timeout with its seconds.
pub data Message : Type 0 where
  failure : Error → Message
  timed_out : ℤ → Message

-- `channel` is `errCh`, with room for one value, which stays here when it is received.
pub record Process : Type 0 where
  pub done : List Effect
  pub left : List Effect
  pub channel : Option (Option Error)
  pub fired : Bool
  pub exit : Option ℕ
  pub messages : List Message

abbrev pub launched : List Effect → Process
launched effects = record {
  done = [];
  left = effects;
  channel = none;
  fired = false;
  exit = none;
  messages = [];
}

-- What `fn` returns to `errCh`; a panic returns nothing.
unfoldable pub returned : Result (Unit {0}) → Option (Option Error)
returned (ok a) = some none
returned (err e) = some (some e)
returned panic = none

-- The message of a run that returned an error.
unfoldable pub failure_of : Option Error → List Message
failure_of none = []
failure_of (some e) = failure e ∷ []

-- The exit code that Go's runtime ends a panic with.
abbrev pub exit_panic : ℕ
exit_panic = 2

-- A step of a process whose run returns `result` when its effects are done. Nothing happens behind
-- the exit; the timer of a limit of 0 is not started, and its fire may come at any time.
pub data Step (seconds : ℤ) (result : Result (Unit {0})) : Process → Process → Type 0 where
  work :
      (p : Process) (e : Effect) (rest : List Effect)
      → p.exit ≡ none
      → p.left ≡ e ∷ rest
      → Step seconds result p (record p { done = p.done ++ (e ∷ []); left = rest })
  send :
      (p : Process) (m : Option Error)
      → p.exit ≡ none
      → p.left ≡ []
      → p.channel ≡ none
      → returned result ≡ some m
      → Step seconds result p (record p { channel = some m })
  crash :
      (p : Process)
      → p.exit ≡ none
      → p.left ≡ []
      → result ≡ panic
      → Step seconds result p (record p { exit = some exit_panic })
  fire :
      (p : Process)
      → p.exit ≡ none
      → seconds ≢ pos 0
      → p.fired ≡ false
      → Step seconds result p (record p { fired = true })
  receive :
      (p : Process) (m : Option Error)
      → p.exit ≡ none
      → p.channel ≡ some m
      → Step seconds result p
          (record p { exit = some (exit_code m); messages = p.messages ++ failure_of m })
  expire :
      (p : Process)
      → p.exit ≡ none
      → p.fired ≡ true
      → Step seconds result p
          (record p { exit = some exit_timeout; messages = p.messages ++ (timed_out seconds ∷ []) })

-- What a process can come to from where it was launched.
pub data Reach (seconds : ℤ) (result : Result (Unit {0})) (effects : List Effect)
    : Process → Type 0 where
  start : Reach seconds result effects (launched effects)
  later :
      {p q : Process}
      → Reach seconds result effects p
      → Step seconds result p q
      → Reach seconds result effects q
