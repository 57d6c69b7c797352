-- ===== src/Transport/Wts/Reading/Ending.antt =====
-- When the loop of `run` ends.
use rdp_ext.Common.{◌≡◌, ◌≢◌, refl, Bool, true, false, List, [], ◌∷◌, arith}
use rdp_ext.Transport.ChannelHandle.{empty}
use rdp_ext.Transport.Wts.{WtsTransport}
use rdp_ext.Transport.Wts
use rdp_ext.Transport.Wts.Reading.{
  Answer, Interference, quiet, stops, closes, Phase, opening, reading, finished, interfere, turn,
  turns,
}
use rdp_ext.Transport.Wts.Reading.Events.{stopped_turn_finishes}

-- Whether another thread stops the transport.
abbrev pub asks_stop : List (Interference × Answer) → Bool
asks_stop [] = false
asks_stop ((stops, answer) ∷ rest) = true
asks_stop ((_, answer) ∷ rest) = asks_stop rest

turn_goes_on :
    (t : WtsTransport) (phase : Phase) (answer : Answer)
    → t.running ≡ true
    → phase ≢ finished
    → let (after, next, calls) = turn t phase answer in (after.running ≡ true) × (next ≢ finished)
unfolding turn
turn_goes_on t opening answer r p = ground arith
turn_goes_on t reading answer r p = ground arith
turn_goes_on t finished answer r p = absurd (p refl)

pub turns_go_on :
    (rest : List (Interference × Answer)) (t : WtsTransport) (phase : Phase)
    → t.running ≡ true
    → phase ≢ finished
    → asks_stop rest ≡ false
    → let (after, next, calls) = turns t phase rest in (after.running ≡ true) × (next ≢ finished)
unfolding turns interfere
turns_go_on [] t phase r p a = (r, p)
turns_go_on ((quiet, answer) ∷ rest) t phase r p a =
    let (r', p') = turn_goes_on t phase answer r p in turns_go_on rest _ _ r' p' a
turns_go_on ((closes, answer) ∷ rest) t phase r p a =
    let (r', p') = turn_goes_on (interfere t closes).0 phase answer (ground arith) p in
    turns_go_on rest _ _ r' p' a
turns_go_on ((stops, answer) ∷ rest) t phase r p a = absurd (cc)

abbrev pub IsOver : WtsTransport × Phase × List Wts.Call → Type 0
IsOver r = (r.1 ≡ finished) × (r.0.channel ≡ empty) × (r.0.running ≡ false)

turn-running :
    (t : WtsTransport) (phase : Phase) (answer : Answer)
    → (turn t phase answer).0.running ≡ t.running
unfolding turn
turn-running t opening answer = ground arith
turn-running t reading answer = ground arith
turn-running t finished answer = refl

finished_stays :
    (rest : List (Interference × Answer)) (t : WtsTransport)
    → t.channel ≡ empty
    → t.running ≡ false
    → IsOver (turns t finished rest)
unfolding turns interfere turn
finished_stays [] t c r = (refl, c, r)
finished_stays ((quiet, answer) ∷ rest) t c r = finished_stays rest t c r
finished_stays ((stops, answer) ∷ rest) t c r = finished_stays rest _ c refl
finished_stays ((closes, answer) ∷ rest) t c r =
    finished_stays rest (interfere t closes).0 (ground arith) (ground arith)

pub turns_end :
    (rest : List (Interference × Answer)) (t : WtsTransport) (phase : Phase)
    → t.running ≡ true
    → phase ≢ finished
    → asks_stop rest ≡ true
    → IsOver (turns t phase rest)
unfolding turns interfere Wts.stop
turns_end [] t phase r p a = absurd (cc)
turns_end ((quiet, answer) ∷ rest) t phase r p a =
    let (r', p') = turn_goes_on t phase answer r p in turns_end rest _ _ r' p' a
turns_end ((closes, answer) ∷ rest) t phase r p a =
    let (r', p') = turn_goes_on (interfere t closes).0 phase answer (ground arith) p in
    turns_end rest _ _ r' p' a
turns_end ((stops, answer) ∷ rest) t phase r p a =
    let stopped = Wts.stop t in
    let (over, closed, _) = stopped_turn_finishes stopped phase answer refl p in
    rw over
      (finished_stays rest (turn stopped phase answer).0 closed (turn-running stopped phase answer))
