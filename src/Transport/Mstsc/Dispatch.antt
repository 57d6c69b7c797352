-- ===== src/Transport/Mstsc/Dispatch.antt =====
-- src/transport/mstsc_transport.cpp, the thunks of the extended API: how the calls of FreeRDP get to the
-- transports of one process.
pub mod Routing
use rdp_ext.Common.{ℕ, ◌==◌, List, [], ◌∷◌, map, Option, none, some, if◌then◌else◌}
use rdp_ext.Transport.Mstsc.{MstscTransport, Call, InitEvent, OpenAnswer, OpenEvent}
use rdp_ext.Transport.Mstsc.Registry.{Instances}
use rdp_ext.Transport.Mstsc.Freerdp.{
  Headers, EntryPointsEx, virtual_channel_entry_ex, on_init_event_ex, on_open_event_ex,
  init_event_thunk, open_event_thunk,
}

-- The transports of a process by their addresses, and the global maps.
pub record Plugins : Type 0 where
  pub transports : ℕ → MstscTransport
  pub instances : Instances

unfoldable pub at : ℕ → MstscTransport → (ℕ → MstscTransport) → ℕ → MstscTransport
at this t transports other = if other == this then t else transports other

-- The calls that the transport at an address makes.
abbrev pub Addressed : Type 0
Addressed = ℕ × Call

-- The handler of the instance that was found.
unfoldable pub init_event_to :
    Plugins → Option ℕ → InitEvent → OpenAnswer → Plugins × List Addressed
unfolding at
init_event_to p none event answer = (p, [])
init_event_to p (some self) event answer =
    let (t, instances, calls) =
      on_init_event_ex self (p.transports self) p.instances event answer in
    (
      record { transports = at self t p.transports; instances = instances },
      map (λ c. (self, c)) calls,
    )

unfoldable pub open_event_to : Plugins → Option ℕ → OpenEvent → Plugins × List Addressed
unfolding at
open_event_to p none event = (p, [])
open_event_to p (some self) event =
    let (t, calls) = on_open_event_ex (p.transports self) event in
    (record p { transports = at self t p.transports }, map (λ c. (self, c)) calls)

unfoldable pub init_event_thunk_ex : Plugins → ℕ → InitEvent → OpenAnswer → Plugins × List Addressed
init_event_thunk_ex p init_handle event answer =
    init_event_to p (init_event_thunk p.instances init_handle) event answer

unfoldable pub open_event_thunk_ex : Plugins → ℕ → OpenEvent → Plugins × List Addressed
open_event_thunk_ex p open_handle event =
    open_event_to p (open_event_thunk p.instances open_handle) event

-- What FreeRDP does: it calls the entry of a transport, or one of the thunks.
pub data ApiCall : Type 0 where
  entry : ℕ → Option EntryPointsEx → ℕ → ℕ → ApiCall
  init_event : ℕ → InitEvent → OpenAnswer → ApiCall
  open_event : ℕ → OpenEvent → ApiCall

unfoldable pub call_api : Headers → Plugins → ApiCall → Plugins × List Addressed
unfolding at
call_api headers p (entry this entry_points init_handle rc) =
    let (t, instances, calls, accepted) =
      virtual_channel_entry_ex headers this (p.transports this) p.instances entry_points init_handle
        rc in
    (
      record { transports = at this t p.transports; instances = instances },
      map (λ c. (this, c)) calls,
    )
call_api headers p (init_event init_handle event answer) =
    init_event_thunk_ex p init_handle event answer
call_api headers p (open_event open_handle event) = open_event_thunk_ex p open_handle event

unfoldable pub call_all : Headers → Plugins → List ApiCall → Plugins
call_all headers p [] = p
call_all headers p (c ∷ cs) = call_all headers (call_api headers p c).0 cs
