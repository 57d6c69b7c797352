-- ===== src/Transport/Wts/Ownership.antt =====
-- The sections of the transport under any interleaving: the worker of `run` opens, any thread closes or
-- stops.
use rdp_ext.Common.{
  ◌≡◌, refl, sym, ap, ◌∙◌, ◌⊎◌, inl, inr, Bool, Bool-cases, true, false, List, [], ◌∷◌, ◌++◌, none,
  some, if◌then◌else◌, arith,
}
use mathlib.Core.List.{append-nil, append_assoc}
use rdp_ext.Transport.ChannelHandle.{
  Handle, close_channel as close_handle, WtsChannelHandle, empty, valid, reset, destroy,
  move_assign, is_null, is_invalid,
}
use rdp_ext.Transport.Wts.{
  WtsTransport, Call, os, is_connected, initial, open_begin, open_failed, open_finish,
  close_section, stop, call_connected, call_disconnected, notify_connected, close_channel,
}

-- The handles that some calls give to `WTSVirtualChannelClose`.
abbrev pub closes : List Call → List Handle
closes [] = []
closes (os (close_handle h) ∷ cs) = h ∷ closes cs
closes (_ ∷ cs) = closes cs

-- The channel that a transport holds, and has to close.
abbrev pub held : WtsTransport → List Handle
held t = if valid t.channel then t.channel.channel ∷ [] else []

-- The transport, whether its worker is between the first and the last section of `tryOpenChannel`, and
-- the handles of the channels that were opened and those that were closed so far, the oldest first.
pub record Shared : Type 0 where
  pub transport : WtsTransport
  pub is_opening : Bool
  pub opened : List Handle
  pub closed : List Handle

pub data Step (s t : Shared) : Type 0 where
  begin :
      s.is_opening ≡ false
      → (open_begin s.transport).1 ≡ none
      → t ≡ record s { transport = (open_begin s.transport).0; is_opening = true }
      → Step s t
  begin_done :
      (result : Bool)
      → s.is_opening ≡ false
      → (open_begin s.transport).1 ≡ some result
      → t ≡ record s { transport = (open_begin s.transport).0 }
      → Step s t
  fail :
      s.is_opening ≡ true
      → t ≡ record s { transport = open_failed s.transport; is_opening = false }
      → Step s t
  finish :
      (h : WtsChannelHandle)
      → s.is_opening ≡ true
      → valid h ≡ true
      → t ≡ record s {
        transport = (open_finish s.transport h).0;
        is_opening = false;
        opened = s.opened ++ h.channel ∷ [];
        closed = s.closed ++ closes (open_finish s.transport h).3;
      }
      → Step s t
  close :
      t ≡ record s {
        transport = (close_section s.transport).0;
        closed = s.closed ++ closes (close_section s.transport).2;
      }
      → Step s t
  stops : t ≡ record s { transport = stop s.transport } → Step s t

pub data Reach (s : Shared) : Shared → Type 0 where
  here : Reach s s
  next : {t u : Shared} → Reach s t → Step t u → Reach s u

pub record Inv (s : Shared) : Type 0 where
  pub agrees : is_connected s.transport.state ≡ valid s.transport.channel
  pub owns : (valid s.transport.channel ≡ true) ⊎ (s.transport.channel ≡ empty)
  pub vacant : (s.is_opening ≡ false) ⊎ (s.transport.channel ≡ empty)
  pub balanced : s.opened ≡ s.closed ++ held s.transport

-- The section of `closeChannel` closes the channel that was held, and holds none.
closes-close_section :
    (t : WtsTransport)
    → (valid t.channel ≡ true) ⊎ (t.channel ≡ empty)
    → closes (close_section t).2 ≡ held t
unfolding close_section reset valid
closes-close_section t (inl v) =
    let shown : is_null t.channel.channel ≡ false = ground arith in
    let (file_shown, file_valid) : (is_null t.channel.file ≡ false)
        × (is_invalid t.channel.file ≡ false) =
      ground arith in
    rw (shown, file_shown, file_valid) refl
closes-close_section t (inr e) = rw e refl

-- The last section of `tryOpenChannel` closes the channel that it got, or holds it.
closes-open_finish :
    (t : WtsTransport) (h : WtsChannelHandle)
    → t.channel ≡ empty
    → valid h ≡ true
    → closes (open_finish t h).3 ++ held (open_finish t h).0 ≡ h.channel ∷ []
unfolding open_finish move_assign destroy reset valid
closes-open_finish t h e v =
    let shown : is_null h.channel ≡ false = ground arith in
    let (file_shown, file_valid) : (is_null h.file ≡ false) × (is_invalid h.file ≡ false) =
      ground arith in
    elim (Bool-cases t.running) [
      | inl running ↦ rw (running, e, shown, file_shown, file_valid) refl
      | inr stopped ↦ rw (stopped, e, shown) refl
    ]

-- What the transport holds behind that section.
open_finish-held :
    (t : WtsTransport) (h : WtsChannelHandle)
    → is_connected t.state ≡ valid t.channel
    → t.channel ≡ empty
    → valid h ≡ true
    → (is_connected (open_finish t h).0.state ≡ valid (open_finish t h).0.channel)
      × ((valid (open_finish t h).0.channel ≡ true) ⊎ ((open_finish t h).0.channel ≡ empty))
unfolding open_finish move_assign destroy reset valid
open_finish-held t h a e v = elim (Bool-cases t.running) [
  | inl running ↦ ground arith
  | inr stopped ↦ ground arith
]

pub Step-Inv : {s t : Shared} → Step s t → Inv s → Inv t
unfolding valid open_begin open_failed open_finish close_section stop
Step-Inv (begin o n e) v = ground arith
Step-Inv (begin_done result o n e) v = ground arith
Step-Inv (fail o e) v = ground arith
Step-Inv {s} (finish h o w e) v =
    let vacant : s.transport.channel ≡ empty = ground (arith, v.vacant) in
    let all_closed : s.opened ≡ s.closed = rw vacant at v.balanced ∙ append-nil s.closed in
    let (agrees, owns) = open_finish-held s.transport h v.agrees vacant w in
    rw e (record {
      agrees = agrees;
      owns = owns;
      vacant = inl refl;
      balanced =
          ap (λ hs. hs ++ h.channel ∷ []) all_closed
          ∙ ap (λ hs. s.closed ++ hs) (sym (closes-open_finish s.transport h vacant w))
          ∙ sym (
              append_assoc s.closed (closes (open_finish s.transport h).3)
                (held (open_finish s.transport h).0));
    })
Step-Inv {s} (close e) v = rw e (record {
  agrees = refl;
  owns = inr refl;
  vacant = inr refl;
  balanced =
      v.balanced
      ∙ ap (λ hs. s.closed ++ hs) (sym (closes-close_section s.transport v.owns))
      ∙ sym (append-nil (s.closed ++ closes (close_section s.transport).2));
})
Step-Inv (stops e) v = ground arith

Reach-Inv : {s t : Shared} → Inv s → Reach s t → Inv t
Reach-Inv v here = v
Reach-Inv v (next r st) = Step-Inv st (Reach-Inv v r)

-- `run` has set its flag.
abbrev pub new : Shared
new = record {
  transport = record initial { running = true };
  is_opening = false;
  opened = [];
  closed = [];
}

new-Inv : Inv new
unfolding valid
new-Inv = ground arith

-- From the start of `run` and under every interleaving of the sections, the state is Connected exactly
-- while the transport holds a valid channel, and the handles of the channels that `open` gave it are
-- those that it gave to `WTSVirtualChannelClose`, each of them once and in the order of the opening,
-- and then the one that it holds, if any.
pub channels_accounted :
    {t : Shared}
    → Reach new t
    → (is_connected t.transport.state ≡ valid t.transport.channel)
      × (t.opened ≡ t.closed ++ held t.transport)
channels_accounted {t} r = let v : Inv t = Reach-Inv new-Inv r in (v.agrees, v.balanced)

-- The handlers are called outside of the sections. Where another thread closes the channel between the
-- last section of `tryOpenChannel` and its call of the connected handler, the disconnected handler is
-- called first, and the connected one last, while the channel is closed.
pub close_overtakes_connected :
    (t : WtsTransport) (h : WtsChannelHandle)
    → t.running ≡ true
    → t.channel ≡ empty
    → t.has_connected_handler ≡ true
    → t.has_disconnected_handler ≡ true
    → valid h ≡ true
    → let (opened, result, taken, calls) = open_finish t h in
      let (last, closing) = close_channel opened in
      (calls ≡ [])
      × (closing ++ notify_connected last taken
          ≡ os (close_handle h.channel) ∷ call_disconnected ∷ call_connected ∷ [])
      × (last.channel ≡ empty)
unfolding open_finish close_channel notify_connected valid
close_overtakes_connected t h r e c d v = ground arith
