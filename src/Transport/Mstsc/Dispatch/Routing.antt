-- ===== src/Transport/Mstsc/Dispatch/Routing.antt =====
-- src/transport/mstsc_transport.cpp: data of FreeRDP gets to the transport whose channel it belongs to.
use rdp_ext.Common.{
  ℕ, ◌≡◌, ◌≢◌, refl, ◌∙◌, sym, Bool, ◌&&◌, List, [], ◌∷◌, Option, none, some, if◌then◌else◌, arith,
}
use mathlib.Core.Path.{subst}
use rdp_ext.Protocol.Serializer.{Buffer}
use rdp_ext.Transport.Mstsc.{
  MstscTransport, call_bytes, InitEvent, event_connected, event_disconnected, event_terminated,
  event_other, OpenAnswer, OpenEvent, data_received, write_complete, write_cancelled, open_other,
  channel_rc_ok, is_last, receive,
}
use rdp_ext.Transport.Mstsc.Registry.{Instances, registered_found, find_by_init, find_by_open}
use rdp_ext.Transport.Mstsc.Freerdp.{
  Headers, EntryPointsEx, virtual_channel_entry_ex, on_init_event_ex, on_open_event_ex,
  init_event_thunk, open_event_thunk,
}
use rdp_ext.Transport.Mstsc.Dispatch.{
  Plugins, at, Addressed, ApiCall, entry, init_event, open_event, init_event_thunk_ex,
  open_event_thunk_ex, call_api, call_all, init_event_to, open_event_to,
}

-- The call opens no channel under the handle, whichever transport it gets to.
abbrev pub LeavesHandle : ℕ → ApiCall → Type 0
LeavesHandle open_handle (init_event init_handle event_connected answer) =
    answer.handle ≢ open_handle
LeavesHandle open_handle c = Unit {0}

abbrev pub LeaveHandle : ℕ → List ApiCall → Type 0
LeaveHandle open_handle [] = Unit {0}
LeaveHandle open_handle (c ∷ cs) = LeavesHandle open_handle c × LeaveHandle open_handle cs

-- The handle is that of the channel of a transport, which has the handler of the received bytes or not.
record Owns (open_handle this : ℕ) (has : Bool) (p : Plugins) : Type 0 where
  owner : find_by_open open_handle p.instances ≡ this
  handler : (p.transports this).has_bytes_handler ≡ has

entry_keeps :
    (headers : Headers) (this : ℕ) (t : MstscTransport) (i : Instances)
    → (e : Option EntryPointsEx) (init_handle rc open_handle : ℕ)
    → let (t', i', calls, accepted) = virtual_channel_entry_ex headers this t i e init_handle rc in
      (find_by_open open_handle i' ≡ find_by_open open_handle i)
      × (t'.has_bytes_handler ≡ t.has_bytes_handler)
unfolding virtual_channel_entry_ex
entry_keeps headers this t i none init_handle rc open_handle = (refl, refl)
entry_keeps headers this t i (some e) init_handle rc open_handle =
    ground (arith, registered_found this init_handle open_handle i)

init_keeps :
    (this : ℕ) (t : MstscTransport) (i : Instances) (event : InitEvent) (answer : OpenAnswer)
    → (init_handle open_handle : ℕ) → LeavesHandle open_handle (init_event init_handle event answer)
    → let (t', i', calls) = on_init_event_ex this t i event answer in
      (find_by_open open_handle i' ≡ find_by_open open_handle i)
      × (t'.has_bytes_handler ≡ t.has_bytes_handler)
unfolding on_init_event_ex
init_keeps this t i event_connected answer init_handle open_handle l =
    ground (arith, registered_found this answer.handle open_handle i)
init_keeps this t i event_disconnected answer init_handle open_handle l = (refl, refl)
init_keeps this t i event_terminated answer init_handle open_handle l = (refl, refl)
init_keeps this t i event_other answer init_handle open_handle l = (refl, refl)

open_keeps :
    (t : MstscTransport) (event : OpenEvent)
    → (on_open_event_ex t event).0.has_bytes_handler ≡ t.has_bytes_handler
unfolding on_open_event_ex
open_keeps t (data_received chunk data_flags) = refl
open_keeps t (write_complete user_data) = refl
open_keeps t (write_cancelled user_data) = refl
open_keeps t open_other = refl

at_keeps :
    (self this : ℕ) (t : MstscTransport) (ts : ℕ → MstscTransport) (has : Bool)
    → t.has_bytes_handler ≡ (ts self).has_bytes_handler
    → (ts this).has_bytes_handler ≡ has
    → (at self t ts this).has_bytes_handler ≡ has
unfolding at
at_keeps self this t ts has e h = ground arith

init_to_keeps :
    (p : Plugins) (to : Option ℕ) (event : InitEvent) (answer : OpenAnswer)
    → (init_handle open_handle this : ℕ) (has : Bool)
    → LeavesHandle open_handle (init_event init_handle event answer)
    → Owns open_handle this has p
    → Owns open_handle this has (init_event_to p to event answer).0
unfolding init_event_to
init_to_keeps p none event answer init_handle open_handle this has l o = o
init_to_keeps p (some self) event answer init_handle open_handle this has l o =
    let k =
      init_keeps self (p.transports self) p.instances event answer init_handle open_handle l in
    record { owner = k.0 ∙ o.owner; handler = at_keeps self this _ p.transports has k.1 o.handler }

open_to_keeps :
    (p : Plugins) (to : Option ℕ) (event : OpenEvent) (open_handle this : ℕ) (has : Bool)
    → Owns open_handle this has p
    → Owns open_handle this has (open_event_to p to event).0
unfolding open_event_to
open_to_keeps p none event open_handle this has o = o
open_to_keeps p (some self) event open_handle this has o = record {
  owner = o.owner;
  handler = at_keeps self this _ p.transports has (open_keeps (p.transports self) event) o.handler;
}

call_keeps :
    (headers : Headers) (p : Plugins) (c : ApiCall) (open_handle this : ℕ) (has : Bool)
    → LeavesHandle open_handle c
    → Owns open_handle this has p
    → Owns open_handle this has (call_api headers p c).0
unfolding call_api init_event_thunk_ex open_event_thunk_ex
call_keeps headers p (entry self e init_handle rc) open_handle this has l o =
    let k = entry_keeps headers self (p.transports self) p.instances e init_handle rc open_handle in
    record { owner = k.0 ∙ o.owner; handler = at_keeps self this _ p.transports has k.1 o.handler }
call_keeps headers p (init_event init_handle event answer) open_handle this has l o =
    init_to_keeps p (init_event_thunk p.instances init_handle) event answer init_handle open_handle
      this has l o
call_keeps headers p (open_event handle event) open_handle this has l o =
    open_to_keeps p (open_event_thunk p.instances handle) event open_handle this has o

calls_keep :
    (headers : Headers) (cs : List ApiCall) (p : Plugins) (open_handle this : ℕ) (has : Bool)
    → LeaveHandle open_handle cs
    → Owns open_handle this has p
    → Owns open_handle this has (call_all headers p cs)
unfolding call_all
calls_keep headers [] p open_handle this has l o = o
calls_keep headers (c ∷ cs) p open_handle this has (l, ls) o =
    calls_keep headers cs _ open_handle this has ls
      (call_keeps headers p c open_handle this has l o)

found_init :
    (i : Instances) (init_handle this : ℕ)
    → this ≢ 0
    → find_by_init init_handle i ≡ this
    → init_event_thunk i init_handle ≡ some this
unfolding init_event_thunk
found_init i init_handle this n f = ground arith

found_open :
    (i : Instances) (open_handle this : ℕ)
    → this ≢ 0
    → find_by_open open_handle i ≡ this
    → open_event_thunk i open_handle ≡ some this
unfolding open_event_thunk
found_open i open_handle this n f = ground arith

connected-Owns :
    (p : Plugins) (this : ℕ) (answer : OpenAnswer)
    → answer.rc ≡ channel_rc_ok
    → Owns answer.handle this
        (p.transports this).has_bytes_handler
        (init_event_to p (some this) event_connected answer).0
unfolding init_event_to on_init_event_ex at
connected-Owns p this answer e = record {
  owner = ground (arith, registered_found this answer.handle answer.handle p.instances);
  handler = ground arith;
}

-- One call of the bytes handler at the end of a message, and nothing else.
abbrev pub IsReceived : ℕ → Bool → Buffer → ℕ → Plugins → Plugins × List Addressed → Type 0
IsReceived this has chunk data_flags q (r, calls) =
    (calls ≡ (if is_last data_flags && has then (this, call_bytes chunk) ∷ [] else []))
    × ((other : ℕ) → r.transports other ≡ q.transports other)
    × (r.instances ≡ q.instances)

owned_receives :
    (p : Plugins) (open_handle this : ℕ) (has : Bool) (chunk : Buffer) (data_flags : ℕ)
    → Owns open_handle this has p
    → IsReceived this has chunk data_flags p
        (open_event_to p (some this) (data_received chunk data_flags))
unfolding open_event_to on_open_event_ex receive at
owned_receives p open_handle this has chunk data_flags o =
    (ground (arith, o.handler), λ other. ground arith, refl)

-- Data gets to the transport whose channel it belongs to. Let a connection under the handle of a transport
-- open a channel. Whatever FreeRDP calls from then on, on this transport and on others, as long as no
-- other channel is opened under the same handle: data that arrives under it makes one call, of the bytes
-- handler of that transport with these bytes, if the chunk is the last one of its message and the transport
-- had that handler, and no call otherwise; no transport and no map is changed by it.
pub data_reaches_owner :
    (headers : Headers) (p : Plugins) (init_handle this : ℕ) (answer : OpenAnswer)
    → (cs : List ApiCall) (chunk : Buffer) (data_flags : ℕ) → this ≢ 0
    → find_by_init init_handle p.instances ≡ this
    → answer.rc ≡ channel_rc_ok
    → LeaveHandle answer.handle cs
    → let q = call_all headers p (init_event init_handle event_connected answer ∷ cs) in
      IsReceived this
        (p.transports this).has_bytes_handler
        chunk
        data_flags
        q
        (call_api headers q (open_event answer.handle (data_received chunk data_flags)))
unfolding call_all call_api init_event_thunk_ex open_event_thunk_ex
data_reaches_owner headers p init_handle this answer cs chunk data_flags n f e l =
    let start =
      (init_event_to p (init_event_thunk p.instances init_handle) event_connected answer).0 in
    let has = (p.transports this).has_bytes_handler in
    let owns : Owns answer.handle this has start =
      subst (λ to. Owns answer.handle this has (init_event_to p to event_connected answer).0)
        (sym (found_init p.instances init_handle this n f)) (connected-Owns p this answer e) in
    let q = call_all headers start cs in
    let still = calls_keep headers cs start answer.handle this has l owns in
    subst
      (λ to.
        IsReceived this has chunk data_flags q
          (open_event_to q to (data_received chunk data_flags)))
      (sym (found_open q.instances answer.handle this n still.owner))
      (owned_receives q answer.handle this has chunk data_flags still)
