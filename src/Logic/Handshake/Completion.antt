-- ===== src/Logic/Handshake/Completion.antt =====
-- When a handshake is completed, for any sequence of calls of HandshakeState.
use rdp_ext.Common.{◌≡◌, refl, ap, ◌∙◌, Bool, false, List, [], ◌∷◌, Option, none, some, arith}
use rdp_ext.Protocol.Message.{InstanceId, id_eq}
use rdp_ext.Logic.Handshake.{HandshakeState, reset, local_hello_sent, remote_hello_received}

-- The calls that a machine makes between two resets.
pub data Call : Type 0 where
  received : InstanceId → Call
  sent : Call

unfoldable pub call : HandshakeState → Call → HandshakeState
call h (received id) = remote_hello_received h id
call h sent = local_hello_sent h

unfoldable pub calls : HandshakeState → List Call → HandshakeState
unfolding call
calls h [] = h
calls h (c ∷ cs) = calls (call h c) cs

-- The identifiers that came in, in order.
abbrev pub remotes : List Call → List InstanceId
remotes [] = []
remotes (received id ∷ cs) = id ∷ remotes cs
remotes (sent ∷ cs) = remotes cs

-- The last two identifiers are there and agree.
abbrev pub last_two_agree : List InstanceId → Bool
last_two_agree [] = false
last_two_agree (a ∷ []) = false
last_two_agree (a ∷ b ∷ []) = id_eq a b
last_two_agree (a ∷ b ∷ c ∷ ids) = last_two_agree (b ∷ c ∷ ids)

abbrev pub last : List InstanceId → Option InstanceId
last [] = none
last (a ∷ []) = some a
last (a ∷ b ∷ ids) = last (b ∷ ids)

abbrev completed_from : Bool → InstanceId → List InstanceId → Bool
completed_from before a [] = before
completed_from before a (b ∷ ids) = last_two_agree (a ∷ b ∷ ids)

completed_from-eq :
    (a b : InstanceId) (ids : List InstanceId)
    → completed_from (id_eq a b) b ids ≡ last_two_agree (a ∷ b ∷ ids)
completed_from-eq a b [] = refl
completed_from-eq a b (c ∷ ids) = refl

completed_from-false :
    (b : InstanceId) (ids : List InstanceId) → completed_from false b ids ≡ last_two_agree (b ∷ ids)
completed_from-false b [] = refl
completed_from-false b (c ∷ ids) = refl

received_known :
    (h : HandshakeState) (a b : InstanceId)
    → h.remote_instance_id ≡ some a
    → ((call h (received b)).handshake_completed ≡ id_eq a b)
      × ((call h (received b)).remote_instance_id ≡ some b)
unfolding call remote_hello_received
received_known h a b e = ground arith

received_fresh :
    (h : HandshakeState) (b : InstanceId)
    → h.remote_instance_id ≡ none
    → ((call h (received b)).handshake_completed ≡ false)
      × ((call h (received b)).remote_instance_id ≡ some b)
unfolding call remote_hello_received
received_fresh h b e = ground arith

call-sent :
    (h : HandshakeState)
    → ((call h sent).handshake_completed ≡ h.handshake_completed)
      × ((call h sent).remote_instance_id ≡ h.remote_instance_id)
unfolding call local_hello_sent
call-sent h = (refl, refl)

calls_known :
    (h : HandshakeState) (a : InstanceId) (cs : List Call)
    → h.remote_instance_id ≡ some a
    → ((calls h cs).handshake_completed ≡ completed_from h.handshake_completed a (remotes cs))
      × ((calls h cs).remote_instance_id ≡ last (a ∷ remotes cs))
unfolding calls
calls_known h a [] e = (refl, e)
calls_known h a (sent ∷ cs) e =
    let (same, still) = call-sent h in
    let (c, r) = calls_known (call h sent) a cs (still ∙ e) in
    (c ∙ ap (λ x. completed_from x a (remotes cs)) same, r)
calls_known h a (received b ∷ cs) e =
    let (agree, now) = received_known h a b e in
    let (c, r) = calls_known (call h (received b)) b cs now in
    (c ∙ ap (λ x. completed_from x b (remotes cs)) agree ∙ completed_from-eq a b (remotes cs), r)

calls_fresh :
    (h : HandshakeState) (cs : List Call)
    → h.remote_instance_id ≡ none
    → h.handshake_completed ≡ false
    → ((calls h cs).handshake_completed ≡ last_two_agree (remotes cs))
      × ((calls h cs).remote_instance_id ≡ last (remotes cs))
unfolding calls
calls_fresh h [] e f = (f, e)
calls_fresh h (sent ∷ cs) e f =
    let (same, still) = call-sent h in calls_fresh (call h sent) cs (still ∙ e) (same ∙ f)
calls_fresh h (received b ∷ cs) e f =
    let (fresh, now) = received_fresh h b e in
    let (c, r) = calls_known (call h (received b)) b cs now in
    (c ∙ ap (λ x. completed_from x b (remotes cs)) fresh ∙ completed_from-false b (remotes cs), r)

-- After a reset the handshake is completed exactly when the last two hellos carried one and the same
-- identifier, however the local hellos fall between them; the last identifier is remembered.
pub calls-reset :
    (h : HandshakeState) (cs : List Call)
    → ((calls (reset h) cs).handshake_completed ≡ last_two_agree (remotes cs))
      × ((calls (reset h) cs).remote_instance_id ≡ last (remotes cs))
unfolding reset
calls-reset h cs = calls_fresh (reset h) cs refl refl
