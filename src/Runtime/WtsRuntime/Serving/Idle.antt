-- ===== src/Runtime/WtsRuntime/Serving/Idle.antt =====
-- What the server does without a connection, and with one.
use rdp_ext.Common.{◌≡◌, ◌⊎◌, inl, inr, refl, true, false, List, [], ◌∷◌, arith}
use mathlib.Core.Path.{subst}
use rdp_ext.Protocol.Serializer.{Archive, IsLawful}
use rdp_ext.Telemetry.Sampler.{Sampler}
use rdp_ext.Logic.Base.{disconnected, awaiting_handshake}
use rdp_ext.Logic.Server.Reporting.{
  Process, run_first, fire, sample_posts, connects, disconnects, receives, fires, runs, advance,
}
use rdp_ext.Logic.Server.Reporting
use rdp_ext.Logic.Server.Reporting.Switching.{running_enabled}
use rdp_ext.Transport.Wts.{is_connected}
use rdp_ext.Transport.Wts.Reading.{interfere, turn}
use rdp_ext.Transport.Wts.Reading.Alternation.{
  follows, follows-append, turn-Follows, interfere-Follows, started-Inv,
}
use rdp_ext.Transport.Wts.Reading.Alternation
use rdp_ext.Runtime.WtsRuntime
use rdp_ext.Runtime.WtsRuntime.Serving.{
  Server, Event, turns, task, callback, serve, serve_all, beginning,
}
use rdp_ext.Runtime.WtsRuntime.Serving.Link.{arrivals, is_awaiting}
use rdp_ext.Runtime.WtsRuntime.Serving.Moves.{
  Heeding, hear-Heeding, run_first-Heeding, fire-Heeding, IsReached, advance-IsReached,
  hear-IsReached,
}

module _ (sampler : Sampler) (archive : Archive) where
  -- The transport is as its loop keeps it, and the machine follows it through the waiting tasks.
  record Inv (u : Server sampler archive) : Type 0 where
    loop : Alternation.Inv u.transport
    heeding : Heeding sampler archive (is_connected u.transport.state) u.process
    reached : IsReached sampler archive u.process

  serve-Inv :
      (u : Server sampler archive) (e : Event sampler archive)
      → Inv u
      → Inv (serve sampler archive u e)
  unfolding serve advance
  serve-Inv u (turns i answer) v =
      let (v₁, f₁) = interfere-Follows u.transport i v.loop in
      let disturbed = interfere u.transport i in
      let (v₂, f₂) = turn-Follows disturbed.0 u.phase answer v₁ in
      let turned = turn disturbed.0 u.phase answer in
      record {
        loop = v₂;
        heeding =
            hear-Heeding sampler archive turned.2 _ (is_connected disturbed.0.state) _
              (hear-Heeding sampler archive disturbed.1 u.process (is_connected u.transport.state) _
                v.heeding f₁)
              f₂;
        reached =
            hear-IsReached sampler archive turned.2 _
              (hear-IsReached sampler archive disturbed.1 u.process v.reached);
      }
  serve-Inv u (task a input) v = record {
    loop = v.loop;
    heeding = run_first-Heeding sampler archive u.process u.process.strand a input _ refl v.heeding;
    reached = advance-IsReached sampler archive u.process (runs a input) v.reached;
  }
  serve-Inv u (callback input) v = record {
    loop = v.loop;
    heeding = fire-Heeding sampler archive u.process u.process.callbacks input _ v.heeding;
    reached = advance-IsReached sampler archive u.process (fires input) v.reached;
  }

  serve_all-Inv :
      (u : Server sampler archive) (es : List (Event sampler archive))
      → Inv u
      → Inv (serve_all sampler archive u es)
  unfolding serve_all
  serve_all-Inv u [] v = v
  serve_all-Inv u (e ∷ es) v = serve_all-Inv (serve sampler archive u e) es (serve-Inv u e v)

  beginning-Inv : Inv (beginning sampler archive)
  unfolding beginning WtsRuntime.make Reporting.run
  beginning-Inv = record {
    loop = started-Inv;
    heeding = (record { waiting = inl refl; quiet = inr refl }, refl);
    reached = ([], refl);
  }

  -- Where the machine and the timer stand when no call of the transport waits.
  abbrev pub Serves : Server sampler archive → Type 0
  Serves u =
      ((is_connected u.transport.state ≡ true)
        × (u.process.machine.connection_state ≡ awaiting_handshake))
      ⊎ ((is_connected u.transport.state ≡ false)
          × (u.process.machine.connection_state ≡ disconnected)
          × (u.process.machine.telemetry_enabled ≡ false)
          × (u.process.timer.running ≡ false))

  settled-Serves :
      (lawful : IsLawful archive) (u : Server sampler archive)
      → Inv u
      → arrivals u.process.strand ≡ []
      → Serves u
  settled-Serves lawful u v none_left =
      let (es, r) = v.reached in
      let timer =
        subst (λ p. (p.timer.running ≡ false) ⊎ (p.machine.telemetry_enabled ≡ true)) r
          (running_enabled sampler archive lawful es) in
      let (l, f) = v.heeding in
      let same : is_awaiting u.process.machine.connection_state ≡ is_connected u.transport.state =
        ground (arith, rw none_left at f) in
      ground (arith, timer, l.waiting, l.quiet, same)

  -- The server follows its transport, where each stop and close of another thread falls between two
  -- turns of the transport's loop. Over a lawful archive, let whole turns, with whatever the system
  -- answers, such stops and closes, tasks and callbacks come in any order from the beginning of `run`.
  -- Whenever no call of a handler waits on the strand: if the transport is connected, the machine has
  -- handled the connection; if not, it is Disconnected, telemetry is disabled, and the timer does not
  -- run.
  pub serving_follows :
      (lawful : IsLawful archive) (es : List (Event sampler archive))
      → arrivals (serve_all sampler archive (beginning sampler archive) es).process.strand ≡ []
      → Serves (serve_all sampler archive (beginning sampler archive) es)
  serving_follows lawful es none_left =
      settled-Serves lawful _ (serve_all-Inv (beginning sampler archive) es beginning-Inv) none_left
