-- ===== src/Logic/Network/ServerMoves.antt =====
-- The moves of the server on the messages that are on their way.
use rdp_ext.Common.{
  suc, ◌+◌, ◌≡◌, ap, length, length-append, arith, List, [], ◌∷◌, ◌++◌, All, All-append,
}
use rdp_ext.Common.Except.{returned}
use rdp_ext.Protocol.Message.{Message, IsWire}
use rdp_ext.Protocol.Serializer.{Archive, IsLawful, Buffer}
use rdp_ext.Logic.Base.{Ambient}
use rdp_ext.Logic.Server.{ServerOutcome, do_step, message_received}
use rdp_ext.Logic.Server.Invariant.{Inv, do_step-Inv}
use rdp_ext.Logic.Server.Wire.{sends, server_sends-IsWire}
use rdp_ext.Logic.Server.Controller.{Task, TaskOutcome, step_bytes, send_bytes, run_task}
use rdp_ext.Logic.Server.Controller.Strand.{
  IsBytes, inputs, outputs, inputs-append, outputs-append, sent, Steps, step_bytes-Steps,
}
use rdp_ext.Logic.Client.Controller.Strand as Other
use rdp_ext.Logic.Network.{Network, server_after, server_runs, server_hears}
use rdp_ext.Logic.Network.Lane.{Lane, Lane-take, Lane-put, Lane-send, Lane-deliver, Lane-length}
use rdp_ext.Logic.Network.Carries.{progress, Carries}
use mathlib.Core.List.{append-nil}

module _ (archive : Archive) where
  -- Behind a task that read the first message and posted its answers.
  read_after :
      (n : Network) (bytes : Buffer) (rest : List Task) (r : TaskOutcome) (outcome : ServerOutcome)
      {m : Message} {ms ss : List Message}
      → n.server_strand ≡ step_bytes bytes ∷ rest
      → Carries archive n ss (m ∷ ms)
      → Lane archive (inputs rest) n.to_server (Other.outputs n.client_strand) ms
      → Steps archive r outcome
      → Inv r.state
      → All IsWire (sends outcome.effects)
      → Carries archive (server_after n rest r) (ss ++ sends outcome.effects) ms
  unfolding server_after
  read_after n bytes rest r outcome e c left (_, i, o, t, b) v w =
      let out : Lane archive (Other.inputs n.client_strand) n.to_client (outputs rest) _ =
        rw e at c.client_lane in
      let both : All IsBytes (step_bytes bytes ∷ rest) = rw e at c.server_bytes in
      record {
        server_lane = rw (inputs-append, i, append-nil) left;
        client_lane = rw (t, append-nil, outputs-append) (Lane-put _ _ out o);
        server_bytes = All-append IsBytes rest _ both.1 b;
        client_bytes = c.client_bytes;
        server_inv = v;
        client_inv = c.client_inv;
        server_wire = c.server_wire.1;
        client_wire = All-append IsWire _ _ c.client_wire w;
      }

  -- A task that reads handles the first message on its way, as `do_step` says.
  pub server_reads :
      IsLawful archive
      → (a : Ambient) (n : Network) (bytes : Buffer) (rest : List Task) {cs ss : List Message}
      → n.server_strand ≡ step_bytes bytes ∷ rest
      → Carries archive n cs ss
      → (m : Message) × (ms : List Message) × (ss ≡ m ∷ ms)
        × (progress (server_runs archive a n (step_bytes bytes) rest) + 2 ≡ progress n)
        × ((server_runs archive a n (step_bytes bytes) rest).server
            ≡ (do_step a n.server (message_received m)).state)
        × Carries archive
            (server_runs archive a n (step_bytes bytes) rest)
            (cs ++ sends (do_step a n.server (message_received m)).effects)
            ms
  unfolding server_runs
  server_reads lawful a n bytes rest {cs} e c =
      let lane : Lane archive (bytes ∷ inputs rest) n.to_server (Other.outputs n.client_strand) _ =
        rw e at c.server_lane in
      let (m, ms, em, back, left) = Lane-take lane in
      let c' : Carries archive n cs (m ∷ ms) = rw em at c in
      let steps =
        step_bytes-Steps archive lawful a n.server bytes m c.server_inv c'.server_wire.0 back in
      let after =
        read_after n bytes rest (run_task archive (returned tt) a n.server (step_bytes bytes))
          (do_step a n.server (message_received m)) e c' left steps
          (rw steps.0 (do_step-Inv a n.server (message_received m) c.server_inv))
          (server_sends-IsWire a n.server (message_received m) c.server_inv c'.server_wire.0) in
      (
        m,
        ms,
        em,
        omega (
          arith,
          Lane-length c'.server_lane,
          Lane-length after.server_lane,
          length-append n.to_client
              (sent (run_task archive (returned tt) a n.server (step_bytes bytes)).calls),
          ap length steps.3,
        ),
        steps.0,
        after,
      )

  -- A task that sends only moves a buffer on.
  pub server_writes :
      (a : Ambient) (n : Network) (bytes : Buffer) (rest : List Task) {cs ss : List Message}
      → n.server_strand ≡ send_bytes bytes ∷ rest
      → Carries archive n cs ss
      → (progress (server_runs archive a n (send_bytes bytes) rest) ≡ suc (progress n))
        × Carries archive (server_runs archive a n (send_bytes bytes) rest) cs ss
  unfolding server_runs run_task
  server_writes a n bytes rest {cs} {ss} e c =
      let both : All IsBytes (send_bytes bytes ∷ rest) = rw e at c.server_bytes in
      let ins : Lane archive (inputs rest) n.to_server (Other.outputs n.client_strand) _ =
        rw e at c.server_lane in
      let out : Lane archive (Other.inputs n.client_strand) n.to_client (bytes ∷ outputs rest) _ =
        rw e at c.client_lane in
      let after : Carries archive (server_runs archive a n (send_bytes bytes) rest) cs ss = record {
        server_lane = rw append-nil ins;
        client_lane = rw append-nil (Lane-send out);
        server_bytes = rw append-nil both.1;
        client_bytes = c.client_bytes;
        server_inv = c.server_inv;
        client_inv = c.client_inv;
        server_wire = c.server_wire;
        client_wire = c.client_wire;
      } in
      (
        omega (
          arith,
          Lane-length c.server_lane,
          Lane-length after.server_lane,
          Lane-length c.client_lane,
          Lane-length after.client_lane,
          length-append n.to_client (bytes ∷ []),
        ),
        after,
      )

  pub server_gets :
      (n : Network) (bytes : Buffer) (rest : List Buffer) {cs ss : List Message}
      → n.to_server ≡ bytes ∷ rest
      → Carries archive n cs ss
      → (progress (server_hears n bytes rest) ≡ suc (progress n))
        × Carries archive (server_hears n bytes rest) cs ss
  unfolding server_hears
  server_gets n bytes rest {cs} {ss} e c =
      let lane : Lane archive (inputs n.server_strand) (bytes ∷ rest)
          (Other.outputs n.client_strand) _ =
        rw e at c.server_lane in
      let after : Carries archive (server_hears n bytes rest) cs ss = record {
        server_lane = rw inputs-append (Lane-deliver lane);
        client_lane = rw (outputs-append, append-nil) c.client_lane;
        server_bytes = All-append IsBytes n.server_strand _ c.server_bytes (tt, tt);
        client_bytes = c.client_bytes;
        server_inv = c.server_inv;
        client_inv = c.client_inv;
        server_wire = c.server_wire;
        client_wire = c.client_wire;
      } in
      (
        omega (
          arith,
          Lane-length c.server_lane,
          Lane-length after.server_lane,
          Lane-length c.client_lane,
          Lane-length after.client_lane,
          ap length e,
        ),
        after,
      )
