-- ===== src/Transport/Wts/Reading/Events.antt =====
-- The event of the overlapped read, and the end of the loop.
use rdp_ext.Common.{◌≡◌, ◌≢◌, refl, false, [], ◌∷◌, if◌then◌else◌, arith}
use rdp_ext.Transport.ChannelHandle.{empty}
use rdp_ext.Transport.Wts.{WtsTransport, disconnected}
use rdp_ext.Transport.Wts.Reading.{
  create_event, close_event, WindowsRead, read_windows, Phase, opening, reading, finished, Answer,
  turn,
}

-- Whatever the system answers, an event that was created is closed once, on every way out.
pub read_windows_closes :
    (answer : WindowsRead)
    → (read_windows answer).1
      ≡ (if answer.event_created then create_event ∷ close_event ∷ [] else [])
unfolding read_windows
read_windows_closes answer = ground arith

-- Once the transport is stopped, the loop ends in its next turn, wherever it stands and whatever the
-- system answers; the channel is then closed and the state is Disconnected.
pub stopped_turn_finishes :
    (t : WtsTransport) (phase : Phase) (answer : Answer)
    → t.running ≡ false
    → phase ≢ finished
    → let (after, next, calls) = turn t phase answer in
      (next ≡ finished) × (after.channel ≡ empty) × (after.state ≡ disconnected)
unfolding turn
stopped_turn_finishes t opening answer r p = ground arith
stopped_turn_finishes t reading answer r p = ground arith
stopped_turn_finishes t finished answer r p = absurd (p refl)
