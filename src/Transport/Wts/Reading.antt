-- ===== src/Transport/Wts/Reading.antt =====
-- src/transport/wts_transport.cpp, `readOnce` and the loop of `run`. What the operating system answers to a
-- turn of the loop is an argument; so is what another thread does before the turn. `readOnce` is also in two
-- stretches, its section under the lock and what follows the read.
pub mod Events
pub mod Alternation
pub mod Ending
use rdp_ext.Common.{
  ◌≡◌, arith, ℕ, ltb, ◌==◌, Bool, true, false, not, List, [], ◌∷◌, ◌++◌, length, if◌then◌else◌,
}
use rdp_ext.Protocol.Serializer.{Buffer}
use rdp_ext.Transport.ChannelHandle.{valid, OpenAnswer}
use rdp_ext.Transport.Wts.{
  WtsTransport, Call, call_bytes, report, sleep, open_retry_ms, close_channel, try_open_channel,
  stop,
}

-- What reading the channel gives; the bytes are those up to `bytesRead`.
pub data ReadEnd : Type 0 where
  failed : ReadEnd
  got : Buffer → ReadEnd

-- `GetLastError()` in the branch of _WIN32.
pub data WinError : Type 0 where
  io_pending io_incomplete other : WinError

abbrev pub is_pending : WinError → Bool
is_pending io_pending = true
is_pending _ = false

abbrev pub is_incomplete : WinError → Bool
is_incomplete io_incomplete = true
is_incomplete _ = false

pub record WindowsRead : Type 0 where
  pub event_created : Bool
  pub read_ok : Bool
  pub read_error : WinError
  pub overlapped_ok : Bool
  pub overlapped_error : WinError
  pub received : Buffer

-- The calls on the event of the overlapped read.
pub data EventCall : Type 0 where
  create_event close_event : EventCall

unfoldable pub read_windows : WindowsRead → ReadEnd × List EventCall
read_windows answer =
    if not answer.event_created
    then (failed, [])
    else (if not answer.read_ok
        then (if not (is_pending answer.read_error)
            then (failed, create_event ∷ close_event ∷ [])
            else (if not answer.overlapped_ok
                then (failed, create_event ∷ close_event ∷ [])
                else (got answer.received, create_event ∷ close_event ∷ [])))
        else (if not answer.overlapped_ok
            then (if not (is_incomplete answer.overlapped_error)
                then (failed, create_event ∷ close_event ∷ [])
                else (got [], create_event ∷ close_event ∷ []))
            else (got answer.received, create_event ∷ close_event ∷ [])))

-- The other branch: the result of WTSVirtualChannelRead.
unfoldable pub read_linux : ℕ → Buffer → ReadEnd
read_linux rv received = if rv == 0 then failed else got received

-- The section of `readOnce`: whether it goes on to read.
unfoldable pub read_begin : WtsTransport → Bool
read_begin t = if not t.running then false else valid t.channel

-- What follows the read, which is outside of the lock.
unfoldable pub deliver : WtsTransport → ReadEnd → Bool × List Call
deliver t failed = (false, report ∷ [])
deliver t (got bytes) = if not t.running then (false, []) else (
  true,
  if ltb 0 (length bytes) then (if t.has_bytes_handler then call_bytes bytes ∷ [] else []) else [],
)

unfoldable pub read_once : WtsTransport → ReadEnd → Bool × List Call
unfolding deliver
read_once t answer =
    if not t.running
    then (false, [])
    else (if not (valid t.channel) then (false, []) else deliver t answer)

-- Where no other thread comes between, these are `readOnce`.
read_parts :
    (t : WtsTransport) (answer : ReadEnd)
    → read_once t answer ≡ (if read_begin t then deliver t answer else (false, []))
unfolding read_begin read_once deliver
read_parts t answer = ground arith

-- Where the loop stands.
pub data Phase : Type 0 where
  opening reading finished : Phase

-- What the system answers to one turn: to `tryOpenChannel`, or to `readOnce`.
pub record Answer : Type 0 where
  pub to_open : OpenAnswer
  pub to_read : ReadEnd

-- What another thread does before a turn: nothing, `stop`, or `close`.
pub data Interference : Type 0 where
  quiet stops closes : Interference

unfoldable pub interfere : WtsTransport → Interference → WtsTransport × List Call
unfolding close_channel stop
interfere t quiet = (t, [])
interfere t stops = (stop t, [])
interfere t closes = close_channel t

-- The outer loop: its test, and one call of `tryOpenChannel`; the inner loop: its test, and one call of
-- `readOnce`. Both tests fail together, and what follows both loops is `closeChannel`.
unfoldable pub turn : WtsTransport → Phase → Answer → WtsTransport × Phase × List Call
unfolding close_channel try_open_channel read_once
turn t opening answer =
    if not t.running
    then (let (closed, calls) = close_channel t in (closed, finished, calls))
    else (let (tried, result, calls) = try_open_channel t answer.to_open in
        if not result
        then (if not tried.running
            then (let (closed, more) = close_channel tried in (closed, finished, calls ++ more))
            else (tried, opening, calls ++ sleep open_retry_ms ∷ []))
        else (tried, reading, calls))
turn t reading answer =
    if not t.running
    then (let (closed, calls) = close_channel t in (closed, finished, calls))
    else (let (result, calls) = read_once t answer.to_read in
        if not result
        then (let (closed, more) = close_channel t in (closed, opening, calls ++ more))
        else (t, reading, calls))
turn t finished answer = (t, finished, [])

unfoldable pub turns :
    WtsTransport → Phase → List (Interference × Answer) → WtsTransport × Phase × List Call
turns t phase [] = (t, phase, [])
turns t phase ((i, answer) ∷ rest) =
    let (disturbed, before) = interfere t i in
    let (after, next, calls) = turn disturbed phase answer in
    let (last, end, later) = turns after next rest in (last, end, before ++ (calls ++ later))

unfoldable pub run : WtsTransport → List (Interference × Answer) → WtsTransport × Phase × List Call
unfolding turns
run t rest = turns (record t { running = true }) opening rest
