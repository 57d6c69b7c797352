-- ===== src/Transport/Mstsc/Freerdp/Writes.antt =====
-- The buffers that wait for the end of their write, and where the events of the API go.
use rdp_ext.Common.{
  ℕ, ◌<◌, ◌≡◌, ◌⊎◌, ◌≢◌, refl, inl, false, List, [], ◌∷◌, ◌++◌, Option, none, some, All, ◌==◌,
  if◌then◌else◌, arith,
}
use rdp_ext.Protocol.Serializer.{Buffer}
use rdp_ext.Transport.Mstsc.Registry.{Instances, registered_found}
use rdp_ext.Transport.Mstsc.{
  MstscTransport, call_connected, report, channel_rc_ok, OpenAnswer, event_connected,
  write_complete,
}
use rdp_ext.Transport.Mstsc.Freerdp.{
  emplace, erase, send_ex, Headers, EntryPointsEx, virtual_channel_entry_ex, on_init_event_ex,
  on_open_event_ex, init_event_thunk, open_event_thunk,
}

-- No waiting buffer is at this address.
abbrev pub Absent : ℕ → List (ℕ × Buffer) → Type 0
Absent address m = All (λ p. p.0 ≢ address) m

erase-emplace :
    (address : ℕ) (bytes : Buffer) (m : List (ℕ × Buffer))
    → Absent address m
    → erase address (emplace address bytes m) ≡ m
unfolding erase emplace
erase-emplace address bytes [] h = ground arith
erase-emplace address bytes ((a, b) ∷ m) h = ground (arith, erase-emplace address bytes m h.1)

emplace-Absent :
    (address : ℕ) (bytes : Buffer) (m : List (ℕ × Buffer))
    → Absent address m
    → emplace address bytes m ≡ m ++ (address, bytes) ∷ []
unfolding emplace
emplace-Absent address bytes [] h = refl
emplace-Absent address bytes ((a, b) ∷ m) h = ground (arith, emplace-Absent address bytes m h.1)

-- A send into a fresh buffer keeps the buffer behind those that wait if the write was accepted, and
-- otherwise leaves the transport as it was.
pub send_ex_pending :
    (t : MstscTransport) (address : ℕ) (bytes : Buffer) (rv : ℕ)
    → Absent address t.pending_writes
    → (send_ex t address bytes rv).0 ≡ (
        if rv == channel_rc_ok
        then record t { pending_writes = t.pending_writes ++ (address, bytes) ∷ [] }
        else t)
unfolding send_ex
send_ex_pending t address bytes rv h = ground (
  arith,
  emplace-Absent address bytes t.pending_writes h,
  erase-emplace address bytes t.pending_writes h,
)

-- An event that named the buffer of the write would release it.
pub named_write_released :
    (t : MstscTransport) (address : ℕ) (bytes : Buffer)
    → Absent address t.pending_writes
    → (on_open_event_ex (send_ex t address bytes channel_rc_ok).0 (write_complete address)).0 ≡ t
unfolding on_open_event_ex send_ex
named_write_released t address bytes h =
    ground (arith, erase-emplace address bytes t.pending_writes h)

-- An entry with no pointer, a short structure or a foreign magic number returns FALSE and changes nothing;
-- any other is registered, so that the events of its handle reach this transport, and returns whether
-- the API accepted it.
pub entry_ex_cases :
    (headers : Headers) (this : ℕ) (t : MstscTransport) (i : Instances)
    (entry : Option EntryPointsEx) (init_handle rc : ℕ)
    → this ≢ 0
    → let (t', i', calls, accepted) =
        virtual_channel_entry_ex headers this t i entry init_handle rc in
      (((t' ≡ t) × (i' ≡ i) × (calls ≡ []) × (accepted ≡ false))
        × ((entry ≡ none)
            ⊎ ((e : EntryPointsEx) × (entry ≡ some e)
                × ((e.cb_size < headers.sizeof_entry_points_ex)
                    ⊎ (e.magic_number ≢ headers.channel_magic_number)))))
      ⊎ ((t'.init_handle ≡ init_handle)
          × (init_event_thunk i' init_handle ≡ some this)
          × (accepted ≡ (rc == channel_rc_ok)))
unfolding virtual_channel_entry_ex init_event_thunk
entry_ex_cases headers this t i none init_handle rc n = inl ((refl, refl, refl, refl), inl refl)
entry_ex_cases headers this t i (some e) init_handle rc n =
    ground (arith, registered_found this init_handle init_handle i)

-- A channel that opened is registered under the handle that the API stored, so that its events reach this
-- transport, and the connected handler is called; one that did not open is not registered.
pub connected_ex_cases :
    (this : ℕ) (t : MstscTransport) (i : Instances) (answer : OpenAnswer)
    → this ≢ 0
    → let (t', i', calls) = on_init_event_ex this t i event_connected answer in
      (t'.open_handle ≡ answer.handle)
      × (((answer.rc ≡ channel_rc_ok)
            × (open_event_thunk i' answer.handle ≡ some this)
            × (calls ≡ (if t.has_connected_handler then call_connected ∷ [] else [])))
          ⊎ ((answer.rc ≢ channel_rc_ok) × (i' ≡ i) × (calls ≡ report ∷ [])))
unfolding on_init_event_ex open_event_thunk
connected_ex_cases this t i answer n =
    ground (arith, registered_found this answer.handle answer.handle i)
