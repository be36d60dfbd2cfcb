-- ===== src/Service/Server.antt =====
-- A server of the calls, which keeps a state: every program runs against it to the end.
use mackerel_operator.Program.{Call, Answer, Program, done, call}
use mackerel_operator.Service.{Store, Answers, Run, finished, called}

-- The answer to each call and the state after it, which fit the store that the state stands for.
pub record Server (F : Type 0) (answered : Answers F) : Type 1 where
  pub State : Type 0
  pub store : State → Store F
  pub answer : (c : Call F) → State → Answer c
  pub next : Call F → State → State
  pub fits : (c : Call F) (s : State) → answered (store s) c (answer c s) (store (next c s))

module _ {F : Type 0} {answered : Answers F} (server : Server F answered) where
  open server use {State, store, answer, next, fits}

  unfoldable pub result : {A : Type 0} → State → Program F A → A
  result s (done a) = a
  result s (call c k) = result (next c s) (k (answer c s))

  unfoldable pub final : {A : Type 0} → State → Program F A → State
  final s (done a) = s
  final s (call c k) = final (next c s) (k (answer c s))

  -- Every program has a run against the server.
  pub served-Run :
      {A : Type 0} (s : State) (m : Program F A)
      → Run answered (store s) m (result s m) (store (final s m))
  unfolding result final
  served-Run s (done a) = finished (store s) a
  served-Run s (call c k) =
      called (store s) (answer c s) (store (next c s)) (fits c s)
        (served-Run (next c s) (k (answer c s)))
