-- ===== src/Transport/Wts/Reading/Alternation.antt =====
-- The order in which the handlers are called, where each call of another thread falls between two turns.
use rdp_ext.Common.{
  ◌≡◌, ◌⊎◌, refl, Bool, true, false, List, [], ◌∷◌, ◌++◌, Option, none, some, arith,
}
use rdp_ext.Transport.ChannelHandle.{valid, empty, OpenAnswer}
use rdp_ext.Transport.Wts.{
  WtsTransport, Call, os, write, call_connected, call_disconnected, call_bytes, report, sleep,
  is_connected, initial, close_channel, try_open_channel, set_connected_handler,
  set_disconnected_handler, set_bytes_handler,
}
use rdp_ext.Transport.Wts.Reading.{
  Phase, opening, reading, finished, Answer, Interference, interfere, turn, ReadEnd, failed, got,
  read_once, turns, run,
}

-- Reads calls of the two handlers as alternating, from a state that says whether the last one was of the
-- connected handler; `none` where two of a kind follow one another, or bytes come without a connection, or
-- no byte comes.
abbrev pub follows : Bool → List Call → Option Bool
follows on [] = some on
follows false (call_connected ∷ cs) = follows true cs
follows true (call_connected ∷ cs) = none
follows true (call_disconnected ∷ cs) = follows false cs
follows false (call_disconnected ∷ cs) = none
follows on (os c ∷ cs) = follows on cs
follows on (write h b ∷ cs) = follows on cs
follows true (call_bytes (b ∷ bs) ∷ cs) = follows true cs
follows false (call_bytes (b ∷ bs) ∷ cs) = none
follows on (call_bytes [] ∷ cs) = none
follows on (report ∷ cs) = follows on cs
follows on (sleep n ∷ cs) = follows on cs

pub record Inv (t : WtsTransport) : Type 0 where
  pub agrees : is_connected t.state ≡ valid t.channel
  pub owns : (valid t.channel ≡ true) ⊎ (t.channel ≡ empty)
  pub tells_connected : t.has_connected_handler ≡ true
  pub tells_disconnected : t.has_disconnected_handler ≡ true

abbrev pub Follows : WtsTransport → WtsTransport → List Call → Type 0
Follows t u calls = Inv u × (follows (is_connected t.state) calls ≡ some (is_connected u.state))

close-Follows : (t : WtsTransport) → Inv t → Follows t (close_channel t).0 (close_channel t).1
unfolding close_channel valid
close-Follows t v = ground arith

open-Follows :
    (t : WtsTransport) (answer : Answer)
    → Inv t
    → let (u, result, calls) = try_open_channel t answer.to_open in Follows t u calls
unfolding try_open_channel valid
open-Follows t answer v = ground arith

pub follows-append :
    (a : Bool) {b c : Bool} (xs ys : List Call)
    → follows a xs ≡ some b
    → follows b ys ≡ some c
    → follows a (xs ++ ys) ≡ some c
follows-append a [] ys e f = cc
follows-append true (call_connected ∷ xs) ys e f = cc
follows-append false (call_connected ∷ xs) ys e f = follows-append true xs ys e f
follows-append true (call_disconnected ∷ xs) ys e f = follows-append false xs ys e f
follows-append false (call_disconnected ∷ xs) ys e f = cc
follows-append a (os h ∷ xs) ys e f = follows-append a xs ys e f
follows-append a (write h bytes ∷ xs) ys e f = follows-append a xs ys e f
follows-append true (call_bytes (b ∷ bs) ∷ xs) ys e f = follows-append true xs ys e f
follows-append false (call_bytes (b ∷ bs) ∷ xs) ys e f = cc
follows-append a (call_bytes [] ∷ xs) ys e f = cc
follows-append a (report ∷ xs) ys e f = follows-append a xs ys e f
follows-append a (sleep n ∷ xs) ys e f = follows-append a xs ys e f

read_turn-Follows :
    (t : WtsTransport) (o : OpenAnswer) (r : ReadEnd)
    → Inv t
    → let (u, next, calls) = turn t reading (record { to_open = o; to_read = r }) in
      Follows t u calls
unfolding turn valid read_once
read_turn-Follows t o failed v = ground arith
read_turn-Follows t o (got []) v = ground arith
read_turn-Follows t o (got (b ∷ bs)) v = ground arith

pub turn-Follows :
    (t : WtsTransport) (phase : Phase) (answer : Answer)
    → Inv t
    → let (u, next, calls) = turn t phase answer in Follows t u calls
unfolding turn valid
turn-Follows t opening answer v = ground arith
turn-Follows t reading answer v = read_turn-Follows t answer.to_open answer.to_read v
turn-Follows t finished answer v = (v, refl)

pub interfere-Follows :
    (t : WtsTransport) (i : Interference) → Inv t → Follows t (interfere t i).0 (interfere t i).1
unfolding interfere valid
interfere-Follows t i v = ground arith

turns-Follows :
    (t : WtsTransport) (phase : Phase) (rest : List (Interference × Answer))
    → Inv t
    → let (u, end, calls) = turns t phase rest in Follows t u calls
unfolding turns
turns-Follows t phase [] v = (v, refl)
turns-Follows t phase ((i, answer) ∷ rest) v =
    let disturbed = interfere t i in
    let turned = turn disturbed.0 phase answer in
    let (v₁, e₁) = interfere-Follows t i v in
    let (v₂, e₂) = turn-Follows disturbed.0 phase answer v₁ in
    let (v₃, e₃) = turns-Follows turned.0 turned.1 rest v₂ in
    (
      v₃,
      follows-append (is_connected t.state) disturbed.1 _ e₁
          (follows-append (is_connected disturbed.0.state) turned.2 _ e₂ e₃),
    )

abbrev pub started : WtsTransport
started = record initial {
  has_connected_handler = true;
  has_disconnected_handler = true;
  has_bytes_handler = true;
  running = true;
}

pub started-Inv : Inv started
unfolding valid
started-Inv = ground arith

-- However long `run` goes on from a new transport with its handlers, and whatever the system answers and
-- other threads stop or close between its turns, the handlers of the connection are called in turn, the
-- connected one first, and the last one called agrees with the state; that of the bytes is called behind a
-- connection and before its end only, with one byte at least.
pub run_alternates :
    (rest : List (Interference × Answer))
    → let (t, end, calls) =
        run (set_bytes_handler (set_disconnected_handler (set_connected_handler initial))) rest in
      follows false calls ≡ some (is_connected t.state)
unfolding run set_connected_handler set_disconnected_handler set_bytes_handler
run_alternates rest = (turns-Follows started opening rest started-Inv).1
