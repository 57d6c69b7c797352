-- ===== src/Tests/Mstsc.antt =====
-- src/transport/mstsc_transport.cpp at concrete inputs.
use rdp_ext.Common.{
  ◌<◌, ◌≡◌, ◌≢◌, ◌⊎◌, refl, ◌==◌, true, false, List, [], ◌∷◌, ◌++◌, none, some, length,
  if◌then◌else◌, arith,
}
use rdp_ext.Transport.Mstsc.{
  MstscTransport, call_bytes, event_connected, data_received, channel_rc_ok,
}
use rdp_ext.Transport.Mstsc.Registry.{no_instances}
use rdp_ext.Transport.Mstsc.Registry
use rdp_ext.Transport.Mstsc.Dispatch.{Plugins, ApiCall, init_event, open_event, call_api, call_all}
use rdp_ext.Transport.Mstsc.Dispatch
use rdp_ext.Transport.Mstsc.Dispatch.Routing.{IsReceived, data_reaches_owner}
use rdp_ext.Transport.Mstsc.Name.{channel_def_name, channel_def_name_lem, c_str, take}
use rdp_ext.Transport.Mstsc.Chunks.{Chunk, receive_all, message_truncated}
use rdp_ext.Transport.Mstsc.Freerdp.{
  send_ex, Headers, EntryPointsEx, virtual_channel_entry_ex, on_init_event_ex, init_event_thunk,
}
use rdp_ext.Transport.Mstsc.Freerdp.Writes.{send_ex_pending, entry_ex_cases, connected_ex_cases}

abbrev plugin : MstscTransport
plugin = record {
  has_connected_handler = true;
  has_disconnected_handler = true;
  has_bytes_handler = true;
  channel_name = 82 ∷ 68 ∷ 80 ∷ 69 ∷ 88 ∷ 84 ∷ [];
  init_handle = 5;
  open_handle = 6;
  pending_writes = (100, 1 ∷ []) ∷ [];
}

channel_def_name_lem_example :
    (length (channel_def_name plugin.channel_name) ≡ 8)
    × (c_str (channel_def_name plugin.channel_name) ≡ take 7 (c_str plugin.channel_name))
channel_def_name_lem_example = channel_def_name_lem plugin.channel_name

abbrev first_chunk : List Chunk
first_chunk = (1 ∷ 2 ∷ [], 1) ∷ []

message_truncated_example :
    receive_all plugin (first_chunk ++ (3 ∷ [], 2) ∷ []) ≢ call_bytes (1 ∷ 2 ∷ 3 ∷ []) ∷ []
message_truncated_example =
    message_truncated plugin first_chunk (3 ∷ []) 2 refl (refl, tt) refl (omega arith)

send_ex_pending_example : (send_ex plugin 200 (7 ∷ []) 0).0 ≡ (
    if 0 == channel_rc_ok
    then record plugin { pending_writes = plugin.pending_writes ++ (200, 7 ∷ []) ∷ [] }
    else plugin)
send_ex_pending_example = send_ex_pending plugin 200 (7 ∷ []) 0 (omega arith)

abbrev headers : Headers
headers = record { sizeof_entry_points_ex = 64; channel_magic_number = 0x46524450 }

abbrev entry : EntryPointsEx
entry = record { cb_size = 64; magic_number = 0x46524450 }

entry_ex_cases_example :
    let (t', i', calls, accepted) =
      virtual_channel_entry_ex headers 9 plugin no_instances (some entry) 5 0 in
    (((t' ≡ plugin) × (i' ≡ no_instances) × (calls ≡ []) × (accepted ≡ false))
      × ((some entry ≡ none)
          ⊎ ((e : EntryPointsEx) × (some entry ≡ some e)
              × ((e.cb_size < headers.sizeof_entry_points_ex)
                  ⊎ (e.magic_number ≢ headers.channel_magic_number)))))
    ⊎ ((t'.init_handle ≡ 5) × (init_event_thunk i' 5 ≡ some 9) × (accepted ≡ (0 == channel_rc_ok)))
entry_ex_cases_example = entry_ex_cases headers 9 plugin no_instances (some entry) 5 0 (omega arith)

connected_ex_cases_example :
    (on_init_event_ex 9 plugin no_instances event_connected
      (record { handle = 6; rc = 0 })).0.open_handle
    ≡ 6
connected_ex_cases_example =
    (connected_ex_cases 9 plugin no_instances (record { handle = 6; rc = 0 }) (omega arith)).0

-- Two plugins of one process, entered under the handles 5 and 50; the second opens a channel behind the first.
abbrev two_plugins : Plugins
two_plugins =
    (call_api headers
      (call_api headers (record { transports = λ this. plugin; instances = no_instances })
        (Dispatch.entry 9 (some entry) 5 0)).0
      (Dispatch.entry 10 (some entry) 50 0)).0

abbrev later_calls : List ApiCall
later_calls =
    init_event 50 event_connected (record { handle = 7; rc = 0 })
    ∷ open_event 7 (data_received (4 ∷ []) 2)
    ∷ []

data_reaches_owner_example :
    let q =
      call_all headers two_plugins
        (init_event 5 event_connected (record { handle = 6; rc = 0 }) ∷ later_calls) in
    IsReceived 9 true
      (1 ∷ 2 ∷ [])
      2
      q
      (call_api headers q (open_event 6 (data_received (1 ∷ 2 ∷ []) 2)))
unfolding call_api virtual_channel_entry_ex Registry.register_init Registry.assign
    Registry.find_by_init Registry.find
data_reaches_owner_example =
    data_reaches_owner headers two_plugins 5 9 (record { handle = 6; rc = 0 }) later_calls
      (1 ∷ 2 ∷ []) 2 (omega arith) refl refl (omega arith, (tt, tt))
