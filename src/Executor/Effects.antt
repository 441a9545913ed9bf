-- ===== src/Executor/Effects.antt =====
-- The state of a ThreadPoolJobExecutor with its thread pool (calrissian/executor.py), and the form
-- of its methods: a call returns, raises, or is still waiting when the observation of it ends. The
-- state outlives an exception.
use Prim.Native.String.{String}
use calrissian.Prelude.{ℕ, ℤ, Bool, Option, List}
use calrissian.Executor.Resources.{Resources}
use calrissian.Executor.JobQueue.{Job, JobResourceQueue}

-- The exception classes that the executor tells apart; `other` is any further class.
pub data Kind : Type 0 where
  workflow validation duplicate_job oversized_job inconsistent_resources other : Kind

-- `text` is what `str` shows of the exception: the messages in it, in order.
pub record Exception : Type 0 where
  pub kind : Kind
  pub text : List String

-- The states of a concurrent.futures.Future. `finished` holds its exception; `cancelled` becomes
-- `notified` when a worker has seen it.
pub data Status : Type 0 where
  pending running cancelled notified : Status
  finished : Option Exception → Status

-- A submitted job, with the resources bound into its callback, and whether the callback has run.
pub record Future : Type 0 where
  pub job : Job
  pub rsc : Resources
  pub status : Status
  pub called : Bool

-- The fields of the executor, the futures of the thread pool in the order of submission (a future is
-- known by its place), a clock of the points at which other threads can act, and how Python rounds the
-- amounts that it adds and subtracts.
pub record System : Type 0 where
  pub jrq : JobResourceQueue
  pub exceptions : List Exception
  pub total : Resources
  pub available : Resources
  pub output_dirs : List String
  pub pool : List Future
  pub clock : ℕ
  pub round : ℤ → ℤ

pub data Result (A : Type 0) : Type 0 where
  return : A → Result A
  raise : Exception → Result A
  waits : Result A

abbrev pub Action : Type 0 → Type 0
Action A = System → Result A × System

module _ {A : Type 0} where
  abbrev pub pure : A → Action A
  pure a s = (return a, s)

  abbrev pub throw : Exception → Action A
  throw e s = (raise e, s)

  abbrev pub still_waiting : Action A
  still_waiting s = (waits, s)

abbrev pub get : Action System
get s = (return s, s)

abbrev pub modify : (System → System) → Action (Unit {0})
modify f s = (return tt, f s)

module _ {A B : Type 0} where
  abbrev pub and_then : Result A → (A → Action B) → Action B
  and_then (return a) f s = f a s
  and_then (raise e) f s = (raise e, s)
  and_then waits f s = (waits, s)

  infixl 5 ◌>>=◌ ◌>>◌
  abbrev pub ◌>>=◌ : Action A → (A → Action B) → Action B
  m >>= f = λ s. let (result, after) = m s in and_then result f after

  abbrev pub ◌>>◌ : Action A → Action B → Action B
  m >> n = m >>= λ _. n
