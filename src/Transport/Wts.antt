-- ===== src/Transport/Wts.antt =====
-- src/transport/wts_transport.cpp. Each section under `mutex_`, and each stretch between two sections, is a
-- function; `running_` is read where the source reads it. What the WTS library answers is an argument.
pub mod Reading
pub mod Ownership
use rdp_ext.Common.{
  ℕ, ◌==◌, Bool, true, false, not, List, [], ◌∷◌, ◌++◌, map, Option, none, some, if◌then◌else◌,
}
use rdp_ext.Protocol.Serializer.{Buffer}
use rdp_ext.Transport.ChannelHandle.{
  Handle, null, OsCall, WtsChannelHandle, empty, valid, reset, destroy, move_assign, OpenAnswer,
  open_handle,
}

pub data WorkerState : Type 0 where
  stopped opening connected disconnected : WorkerState

abbrev pub is_connected : WorkerState → Bool
is_connected connected = true
is_connected _ = false

abbrev pub open_retry_ms : ℕ
open_retry_ms = 1000

abbrev pub read_buffer_size : ℕ
read_buffer_size = 4096

-- The flags say which handlers are set.
pub record WtsTransport : Type 0 where
  pub has_connected_handler : Bool
  pub has_disconnected_handler : Bool
  pub has_bytes_handler : Bool
  pub running : Bool
  pub channel : WtsChannelHandle
  pub state : WorkerState

abbrev pub initial : WtsTransport
initial = record {
  has_connected_handler = false;
  has_disconnected_handler = false;
  has_bytes_handler = false;
  running = false;
  channel = empty;
  state = stopped;
}

pub data Call : Type 0 where
  os : OsCall → Call
  -- `WTSVirtualChannelWrite`
  write : Handle → Buffer → Call
  call_connected call_disconnected : Call
  call_bytes : Buffer → Call
  -- a line of the log
  report : Call
  sleep : ℕ → Call

unfoldable pub set_connected_handler : WtsTransport → WtsTransport
set_connected_handler t = record t { has_connected_handler = true }

unfoldable pub set_disconnected_handler : WtsTransport → WtsTransport
set_disconnected_handler t = record t { has_disconnected_handler = true }

unfoldable pub set_bytes_handler : WtsTransport → WtsTransport
set_bytes_handler t = record t { has_bytes_handler = true }

unfoldable pub stop : WtsTransport → WtsTransport
stop t = record t { running = false }

-- The section of `closeChannel`: also whether it was connected.
unfoldable pub close_section : WtsTransport → WtsTransport × Bool × List Call
unfolding reset
close_section t =
    let was_connected = is_connected t.state in
    let (channel, calls) = reset t.channel null null in
    (record t { channel = channel; state = disconnected }, was_connected, map os calls)

unfoldable pub notify_disconnected : WtsTransport → Bool → List Call
notify_disconnected t was_connected =
    if was_connected
    then (if t.has_disconnected_handler then call_disconnected ∷ [] else [])
    else []

unfoldable pub close_channel : WtsTransport → WtsTransport × List Call
unfolding close_section notify_disconnected
close_channel t =
    let (closed, was_connected, calls) = close_section t in
    (closed, calls ++ notify_disconnected closed was_connected)

unfoldable pub close : WtsTransport → WtsTransport × List Call
unfolding close_channel
close t = close_channel t

-- `written` is the result of WTSVirtualChannelWrite.
unfoldable pub send : WtsTransport → Buffer → ℕ → WtsTransport × List Call
unfolding close_channel
send t bytes written =
    if not t.running
    then (t, [])
    else (if not (valid t.channel)
        then (t, report ∷ [])
        else (if written == 0
            then (let (closed, calls) = close_channel t in
                (closed, write t.channel.channel bytes ∷ calls))
            else (t, write t.channel.channel bytes ∷ [])))

-- The first section of `tryOpenChannel`; `none` goes on to open a channel.
unfoldable pub open_begin : WtsTransport → WtsTransport × Option Bool
open_begin t =
    if not t.running
    then (t, some false)
    else (if valid t.channel
        then (record t { state = connected }, some true)
        else (record t { state = opening }, none))

unfoldable pub open_failed : WtsTransport → WtsTransport
open_failed t = record t { state = disconnected }

-- The last section, with the channel that was opened, and the end of that local object; also whether
-- the channel was taken over.
unfoldable pub open_finish :
    WtsTransport → WtsChannelHandle → WtsTransport × Bool × Bool × List Call
unfolding destroy move_assign
open_finish t h =
    if not t.running
    then (t, false, false, map os (destroy h))
    else (if valid t.channel
        then (record t { state = connected }, true, false, map os (destroy h))
        else (let (channel, moved, calls) = move_assign t.channel h in
            (
              record t { channel = channel; state = connected },
              true,
              true,
              map os (calls ++ destroy moved),
            )))

unfoldable pub notify_connected : WtsTransport → Bool → List Call
notify_connected t taken =
    if taken then (if t.has_connected_handler then call_connected ∷ [] else []) else []

-- Behind the first section: the call of `open`, and what follows it.
open_rest : WtsTransport → Option WtsChannelHandle × List OsCall → WtsTransport × Bool × List Call
unfolding open_failed open_finish notify_connected
open_rest t (none, calls) = (open_failed t, false, map os calls)
open_rest t (some h, calls) =
    let (opened, result, taken, more) = open_finish t h in
    (opened, result, map os calls ++ (more ++ notify_connected opened taken))

open_from : WtsTransport × Option Bool → OpenAnswer → WtsTransport × Bool × List Call
unfolding open_rest
open_from (t, some result) answer = (t, result, [])
open_from (t, none) answer = open_rest t (open_handle answer)

-- `tryOpenChannel`, where no other thread comes between.
unfoldable pub try_open_channel : WtsTransport → OpenAnswer → WtsTransport × Bool × List Call
unfolding open_begin open_from open_handle
try_open_channel t answer = open_from (open_begin t) answer
