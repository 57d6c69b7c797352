-- ===== src/Apps/Server.antt =====
-- src/apps/wts_server/main.cpp and src/apps/xrdp_server/main.cpp. `turns` is what the system answers to the
-- transport's loop, and what other threads do to the transport before each of its turns.
pub mod Ending
use rdp_ext.Common.{ℕ, List, [], ◌∷◌, ◌++◌, Option, none, some}
use rdp_ext.Common.Text.{Text}
use rdp_ext.Transport.Wts.Reading.{Answer, Interference, finished}
use rdp_ext.Runtime.WtsRuntime.{WtsRuntime, Call}
use rdp_ext.Runtime.WtsRuntime
use rdp_ext.Runtime.Defaults.{default_channel_name}

-- `argv`, with the program's name first.
unfoldable pub channel_name : List Text → Text
channel_name (program ∷ name ∷ rest) = name
channel_name _ = default_channel_name

-- How far `main` gets: the runtime, its calls, and the exit status where it returns.
pub record Outcome (Task : Type 0) : Type 0 where
  pub channel : Text
  pub runtime : WtsRuntime
  pub calls : List (Call Task)
  pub status : Option ℕ

module _ {Task : Type 0} where
  unfoldable pub main : List Text → List (Interference × Answer) → Outcome Task
  unfolding channel_name
  main argv turns =
      let (ran, phase, calls) = WtsRuntime.run {Task = Task} WtsRuntime.make turns in
      let unfinished : Outcome Task = record {
        channel = channel_name argv;
        runtime = ran;
        calls = calls;
        status = none;
      } in
      elim phase [
        | finished ↦
            let (destroyed, more) = WtsRuntime.destroy {Task = Task} ran in
            record unfinished { runtime = destroyed; calls = calls ++ more; status = some 0 }
        | _ ↦ unfinished
      ]

  -- The main function of src/apps/xrdp_server/main.cpp, which has the same statements.
  abbrev pub xrdp_main : List Text → List (Interference × Answer) → Outcome Task
  xrdp_main argv turns = main argv turns
