-- ===== src/Runtime/Executor/Worker.antt =====
-- The worker's loop over the ends of its calls of `run`.
use rdp_ext.Common.{◌≡◌, ◌≢◌, refl, true, false, List, [], ◌∷◌, ◌++◌, All, arith}
use rdp_ext.Logging.{LogRecord}
use rdp_ext.Runtime.Executor.{
  RunEnd, run_returned, run_threw, run_threw_unknown, log_run, worker_loop,
}

abbrev logs_of : List RunEnd → List LogRecord
logs_of [] = []
logs_of (e ∷ es) = log_run e ++ logs_of es

-- The loop goes on behind every exception, logs each of them once and in order, and ends with the first
-- call of `run` that returns.
worker_loop_ends :
    (throwing rest : List RunEnd)
    → All (λ e. e ≢ run_returned) throwing
    → worker_loop (throwing ++ run_returned ∷ rest) ≡ (logs_of throwing, true)
unfolding worker_loop
worker_loop_ends [] rest h = refl
worker_loop_ends (run_returned ∷ es) rest h = absurd (h.0 refl)
worker_loop_ends (run_threw what ∷ es) rest h = ground (arith, worker_loop_ends es rest h.1)
worker_loop_ends (run_threw_unknown ∷ es) rest h = ground (arith, worker_loop_ends es rest h.1)

-- While every call of `run` throws, the loop does not end.
worker_loop_goes_on :
    (throwing : List RunEnd)
    → All (λ e. e ≢ run_returned) throwing
    → worker_loop throwing ≡ (logs_of throwing, false)
unfolding worker_loop
worker_loop_goes_on [] h = refl
worker_loop_goes_on (run_returned ∷ es) h = absurd (h.0 refl)
worker_loop_goes_on (run_threw what ∷ es) h = ground (arith, worker_loop_goes_on es h.1)
worker_loop_goes_on (run_threw_unknown ∷ es) h = ground (arith, worker_loop_goes_on es h.1)
