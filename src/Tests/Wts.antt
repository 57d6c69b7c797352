-- ===== src/Tests/Wts.antt =====
-- src/transport/wts_transport.cpp and its channel handle at concrete inputs.
use rdp_ext.Common.{◌≡◌, ◌⊎◌, refl, true, false, List, [], ◌∷◌, ◌++◌, none, some, if◌then◌else◌}
use rdp_ext.Transport.ChannelHandle.{
  null, handle, close_channel as close_handle, WtsChannelHandle, empty, valid, OpenAnswer,
  open_handle,
}
use rdp_ext.Transport.ChannelHandle.Opening.{closed, open_handle_cases}
use rdp_ext.Transport.Wts.{
  WtsTransport, os, initial, connected, opening as opening_state, is_connected,
  set_connected_handler, set_disconnected_handler, set_bytes_handler, open_begin, open_finish,
  close_section, close_channel, call_connected, call_disconnected, notify_connected,
}
use rdp_ext.Transport.Wts.Ownership.{
  held, Shared, begin, finish, close, Reach, here, next, new, channels_accounted,
  close_overtakes_connected,
}
use rdp_ext.Transport.Wts.Reading.{
  Answer, Interference, quiet, stops, closes, reading, finished, failed, got, turn, run, io_pending,
  io_incomplete, create_event, close_event, WindowsRead, read_windows,
}
use rdp_ext.Transport.Wts.Reading.Events.{read_windows_closes, stopped_turn_finishes}
use rdp_ext.Transport.Wts.Reading.Alternation.{follows, run_alternates}

abbrev a_channel : WtsChannelHandle
a_channel = record { channel = handle 1; file = handle 2 }

abbrev granted : OpenAnswer
granted = record {
  channel = handle 1;
  query = record { ok = true; buffer = some (handle 2); bytes_returned = 8 };
}

abbrev refused_query : OpenAnswer
refused_query = record {
  channel = handle 1;
  query = record { ok = true; buffer = some (handle 2); bytes_returned = 4 };
}

open_handle_cases_example :
    ((refused_query.channel ≡ null) × (open_handle refused_query ≡ (none, [])))
    ⊎ (((open_handle refused_query).0 ≡ none)
        × (closed (open_handle refused_query).1 ≡ refused_query.channel ∷ []))
    ⊎ ((h : WtsChannelHandle) × ((open_handle refused_query).0 ≡ some h)
        × (h.channel ≡ refused_query.channel)
        × (valid h ≡ true)
        × (closed (open_handle refused_query).1 ≡ []))
open_handle_cases_example = open_handle_cases refused_query

abbrev serving : WtsTransport
serving = record {
  has_connected_handler = true;
  has_disconnected_handler = true;
  has_bytes_handler = true;
  running = false;
  channel = a_channel;
  state = connected;
}

stopped_turn_finishes_example :
    (turn serving reading (record { to_open = granted; to_read = failed })).1 ≡ finished
stopped_turn_finishes_example =
    (stopped_turn_finishes serving reading (record { to_open = granted; to_read = failed }) refl
      (λ e. cc)).0

abbrev overlapped : WindowsRead
overlapped = record {
  event_created = true;
  read_ok = false;
  read_error = io_pending;
  overlapped_ok = true;
  overlapped_error = io_incomplete;
  received = 1 ∷ 2 ∷ [];
}

read_windows_closes_example :
    (read_windows overlapped).1
    ≡ (if overlapped.event_created then create_event ∷ close_event ∷ [] else [])
read_windows_closes_example = read_windows_closes overlapped

abbrev some_turns : List (Interference × Answer)
some_turns =
    (quiet, record { to_open = granted; to_read = failed })
    ∷ (quiet, record { to_open = granted; to_read = got (1 ∷ []) })
    ∷ (closes, record { to_open = granted; to_read = failed })
    ∷ (quiet, record { to_open = granted; to_read = failed })
    ∷ (stops, record { to_open = granted; to_read = failed })
    ∷ []

run_alternates_example :
    let (t, end, calls) =
      run
        (set_bytes_handler (set_disconnected_handler (set_connected_handler initial)))
        some_turns in
    follows false calls ≡ some (is_connected t.state)
run_alternates_example = run_alternates some_turns

abbrev connected_shared : Shared
connected_shared = record {
  transport = record initial { running = true; channel = a_channel; state = connected };
  is_opening = false;
  opened = handle 1 ∷ [];
  closed = [];
}

abbrev opening_shared : Shared
opening_shared = record new {
  transport = record initial { running = true; state = opening_state };
  is_opening = true;
}

connected_reached : Reach new connected_shared
unfolding open_begin open_finish valid
connected_reached =
    next {t = opening_shared} (next {t = new} here (begin refl refl refl))
      (finish a_channel refl refl refl)

-- And the channel is closed.
abbrev closed_shared : Shared
closed_shared = record connected_shared {
  transport = (close_section (connected_shared.transport)).0;
  closed = a_channel.channel ∷ [];
}

closed_reached : Reach new closed_shared
unfolding close_section
closed_reached = next connected_reached (close refl)

channels_accounted_example :
    (is_connected closed_shared.transport.state ≡ valid closed_shared.transport.channel)
    × (closed_shared.opened ≡ closed_shared.closed ++ held closed_shared.transport)
channels_accounted_example = channels_accounted closed_reached

abbrev opening_transport : WtsTransport
opening_transport = record {
  has_connected_handler = true;
  has_disconnected_handler = true;
  has_bytes_handler = true;
  running = true;
  channel = empty;
  state = opening_state;
}

close_overtakes_connected_example :
    let (opened, result, taken, calls) = open_finish opening_transport a_channel in
    let (last, closing) = close_channel opened in
    closing ++ notify_connected last taken
    ≡ os (close_handle (handle 1)) ∷ call_disconnected ∷ call_connected ∷ []
unfolding valid
close_overtakes_connected_example =
    (close_overtakes_connected opening_transport a_channel refl refl refl refl refl).1
