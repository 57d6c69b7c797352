-- ===== src/Logic/Network/ClientMoves.antt =====
-- The moves of the client on the messages that are on their way.
use rdp_ext.Common.{
  suc, ◌+◌, ◌≡◌, ap, length, length-append, arith, List, [], ◌∷◌, ◌++◌, All, All-append,
}
use rdp_ext.Protocol.Message.{Message, IsWire}
use rdp_ext.Protocol.Serializer.{Archive, IsLawful, Buffer}
use rdp_ext.Logic.Base.{Ambient, PercentText}
use rdp_ext.Logic.Client.{ClientOutcome, do_step, message_received}
use rdp_ext.Logic.Client.Invariant.{Inv, do_step-Inv}
use rdp_ext.Logic.Client.Wire.{sends, client_sends-IsWire}
use rdp_ext.Logic.Client.Controller.{Task, TaskOutcome, step_bytes, send_bytes, run_task}
use rdp_ext.Logic.Client.Controller.Strand.{
  IsBytes, inputs, outputs, inputs-append, outputs-append, sent, Steps, step_bytes-Steps,
}
use rdp_ext.Logic.Server.Controller.Strand as Other
use rdp_ext.Logic.Network.{Network, client_after, client_runs, client_hears}
use rdp_ext.Logic.Network.Lane.{Lane, Lane-take, Lane-put, Lane-send, Lane-deliver, Lane-length}
use rdp_ext.Logic.Network.Carries.{progress, Carries}
use mathlib.Core.List.{append-nil}

module _ (percent : PercentText) (archive : Archive) where
  -- Behind a task that read the first message and posted its answers.
  read_after :
      (n : Network) (bytes : Buffer) (rest : List Task) (r : TaskOutcome) (outcome : ClientOutcome)
      {m : Message} {ms ss : List Message}
      → n.client_strand ≡ step_bytes bytes ∷ rest
      → Carries archive n (m ∷ ms) ss
      → Lane archive (inputs rest) n.to_client (Other.outputs n.server_strand) ms
      → Steps percent archive r outcome
      → Inv r.state
      → All IsWire (sends outcome.effects)
      → Carries archive (client_after n rest r) ms (ss ++ sends outcome.effects)
  unfolding client_after
  read_after n bytes rest r outcome e c left (_, i, o, t, b) v w =
      let out : Lane archive (Other.inputs n.server_strand) n.to_server (outputs rest) _ =
        rw e at c.server_lane in
      let both : All IsBytes (step_bytes bytes ∷ rest) = rw e at c.client_bytes in
      record {
        client_lane = rw (inputs-append, i, append-nil) left;
        server_lane = rw (t, append-nil, outputs-append) (Lane-put _ _ out o);
        client_bytes = All-append IsBytes rest _ both.1 b;
        server_bytes = c.server_bytes;
        client_inv = v;
        server_inv = c.server_inv;
        client_wire = c.client_wire.1;
        server_wire = All-append IsWire _ _ c.server_wire w;
      }

  -- A task that reads handles the first message on its way, as `do_step` says.
  pub client_reads :
      IsLawful archive
      → (a : Ambient) (n : Network) (bytes : Buffer) (rest : List Task) {cs ss : List Message}
      → n.client_strand ≡ step_bytes bytes ∷ rest
      → Carries archive n cs ss
      → (m : Message) × (ms : List Message) × (cs ≡ m ∷ ms)
        × (progress (client_runs percent archive a n (step_bytes bytes) rest) + 2 ≡ progress n)
        × ((client_runs percent archive a n (step_bytes bytes) rest).client
            ≡ (do_step percent a n.client (message_received m)).state)
        × Carries archive
            (client_runs percent archive a n (step_bytes bytes) rest)
            ms
            (ss ++ sends (do_step percent a n.client (message_received m)).effects)
  unfolding client_runs
  client_reads lawful a n bytes rest {ss = ss} e c =
      let lane : Lane archive (bytes ∷ inputs rest) n.to_client (Other.outputs n.server_strand) _ =
        rw e at c.client_lane in
      let (m, ms, em, back, left) = Lane-take lane in
      let c' : Carries archive n (m ∷ ms) ss = rw em at c in
      let steps = step_bytes-Steps percent archive lawful a n.client bytes m c.client_inv back in
      let after =
        read_after n bytes rest (run_task percent archive a n.client (step_bytes bytes))
          (do_step percent a n.client (message_received m)) e c' left steps
          (rw steps.0 (do_step-Inv percent a n.client (message_received m) c.client_inv))
          (client_sends-IsWire percent a n.client (message_received m) c.client_inv) in
      (
        m,
        ms,
        em,
        omega (
          arith,
          Lane-length c'.client_lane,
          Lane-length after.client_lane,
          length-append n.to_server
              (sent (run_task percent archive a n.client (step_bytes bytes)).calls),
          ap length steps.3,
        ),
        steps.0,
        after,
      )

  -- A task that sends only moves a buffer on.
  pub client_writes :
      (a : Ambient) (n : Network) (bytes : Buffer) (rest : List Task) {cs ss : List Message}
      → n.client_strand ≡ send_bytes bytes ∷ rest
      → Carries archive n cs ss
      → (progress (client_runs percent archive a n (send_bytes bytes) rest) ≡ suc (progress n))
        × Carries archive (client_runs percent archive a n (send_bytes bytes) rest) cs ss
  unfolding client_runs run_task
  client_writes a n bytes rest {cs} {ss} e c =
      let both : All IsBytes (send_bytes bytes ∷ rest) = rw e at c.client_bytes in
      let ins : Lane archive (inputs rest) n.to_client (Other.outputs n.server_strand) _ =
        rw e at c.client_lane in
      let out : Lane archive (Other.inputs n.server_strand) n.to_server (bytes ∷ outputs rest) _ =
        rw e at c.server_lane in
      let after : Carries archive (client_runs percent archive a n (send_bytes bytes) rest) cs ss =
        record {
          client_lane = rw append-nil ins;
          server_lane = rw append-nil (Lane-send out);
          client_bytes = rw append-nil both.1;
          server_bytes = c.server_bytes;
          client_inv = c.client_inv;
          server_inv = c.server_inv;
          client_wire = c.client_wire;
          server_wire = c.server_wire;
        } in
      (
        omega (
          arith,
          Lane-length c.client_lane,
          Lane-length after.client_lane,
          Lane-length c.server_lane,
          Lane-length after.server_lane,
          length-append n.to_server (bytes ∷ []),
        ),
        after,
      )

  pub client_gets :
      (n : Network) (bytes : Buffer) (rest : List Buffer) {cs ss : List Message}
      → n.to_client ≡ bytes ∷ rest
      → Carries archive n cs ss
      → (progress (client_hears n bytes rest) ≡ suc (progress n))
        × Carries archive (client_hears n bytes rest) cs ss
  unfolding client_hears
  client_gets n bytes rest {cs} {ss} e c =
      let lane : Lane archive (inputs n.client_strand) (bytes ∷ rest)
          (Other.outputs n.server_strand) _ =
        rw e at c.client_lane in
      let after : Carries archive (client_hears n bytes rest) cs ss = record {
        client_lane = rw inputs-append (Lane-deliver lane);
        server_lane = rw (outputs-append, append-nil) c.server_lane;
        client_bytes = All-append IsBytes n.client_strand _ c.client_bytes (tt, tt);
        server_bytes = c.server_bytes;
        client_inv = c.client_inv;
        server_inv = c.server_inv;
        client_wire = c.client_wire;
        server_wire = c.server_wire;
      } in
      (
        omega (
          arith,
          Lane-length c.client_lane,
          Lane-length after.client_lane,
          Lane-length c.server_lane,
          Lane-length after.server_lane,
          ap length e,
        ),
        after,
      )
