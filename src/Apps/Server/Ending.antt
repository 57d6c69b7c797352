-- ===== src/Apps/Server/Ending.antt =====
-- When a server's main function returns, and what is left then.
use rdp_ext.Common.{◌≡◌, refl, ◌⊎◌, inl, inr, true, false, List, [], none, some, Bool-cases, arith}
use mathlib.Core.List.{append-nil}
use rdp_ext.Common.Text.{Text}
use rdp_ext.Transport.ChannelHandle.{empty}
use rdp_ext.Transport.ChannelHandle
use rdp_ext.Transport.Wts
use rdp_ext.Transport.Wts.Reading.{Answer, Interference, opening}
use rdp_ext.Transport.Wts.Reading
use rdp_ext.Transport.Wts.Reading.Ending.{asks_stop, turns_go_on, turns_end}
use rdp_ext.Runtime.Executor
use rdp_ext.Runtime.WtsRuntime
use rdp_ext.Apps.Server.{Outcome, main}

module _ (Task : Type 0) where
  -- Nothing goes on, and nothing is left to release.
  abbrev pub IsReleased : Outcome Task → Type 0
  IsReleased o =
      (o.runtime.transport.running ≡ false)
      × (o.runtime.transport.channel ≡ empty)
      × (o.runtime.executor.started ≡ false)
      × (o.runtime.executor.worker_joinable ≡ false)
      × (o.runtime.executor.timers ≡ [])

  main_goes_on :
      (argv : List Text) (rounds : List (Interference × Answer))
      → asks_stop rounds ≡ false
      → let o = main {Task = Task} argv rounds in
        (o.status ≡ none)
        × (o.runtime.transport.running ≡ true)
        × (o.runtime.executor.started ≡ true)
  unfolding main WtsRuntime.run WtsRuntime.start Wts.Reading.run Executor.start
  main_goes_on argv rounds a =
      let (r, p) =
        turns_go_on rounds (record (WtsRuntime.make.transport) { running = true }) opening refl
          (λ e. cc) a in
      ground arith

  main_ends :
      (argv : List Text) (rounds : List (Interference × Answer))
      → asks_stop rounds ≡ true
      → let o = main {Task = Task} argv rounds in
        (o.status ≡ some 0)
        × IsReleased o
        × (o.calls ≡ (WtsRuntime.run {Task = Task} WtsRuntime.make rounds).2)
  unfolding main WtsRuntime.make WtsRuntime.run WtsRuntime.start WtsRuntime.stop WtsRuntime.destroy
      Wts.Reading.run Executor.start Executor.stop Executor.destroy Wts.stop ChannelHandle.destroy
  main_ends argv rounds a =
      let over =
        turns_end rounds (record (WtsRuntime.make.transport) { running = true }) opening refl
          (λ e. cc) a in
      ground (arith, append-nil (WtsRuntime.run {Task = Task} WtsRuntime.make rounds).2)

  -- A server's main function returns exactly where another thread stops the transport. Whatever the arguments, and
  -- whatever the system answers to the transport: without such a stop it does not return, and transport and
  -- executor run on; with one it returns 0, the channel is closed, the executor is stopped, its worker joined
  -- and no timer left, and the destructors make no call, since `run` has released everything.
  pub main_returns :
      (argv : List Text) (rounds : List (Interference × Answer))
      → let o = main {Task = Task} argv rounds in
        ((asks_stop rounds ≡ false)
          × (o.status ≡ none)
          × (o.runtime.transport.running ≡ true)
          × (o.runtime.executor.started ≡ true))
        ⊎ ((asks_stop rounds ≡ true)
            × (o.status ≡ some 0)
            × IsReleased o
            × (o.calls ≡ (WtsRuntime.run {Task = Task} WtsRuntime.make rounds).2))
  main_returns argv rounds = elim (Bool-cases (asks_stop rounds)) [
    | inl e ↦ let (s, r, c) = main_ends argv rounds e in inr (e, s, r, c)
    | inr e ↦ let (s, r, x) = main_goes_on argv rounds e in inl (e, s, r, x)
  ]
