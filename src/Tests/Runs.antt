-- ===== src/Tests/Runs.antt =====
-- Runs of a network of both controllers, turn by turn.
use rdp_ext.Common.{ℕ, suc, ◌≡◌, refl, List, [], ◌∷◌}
use rdp_ext.Common.Text.{decimal}
use rdp_ext.Protocol.Serializer.{Buffer}
use rdp_ext.Logic.Base.{Ambient}
use rdp_ext.Logic.Client
use rdp_ext.Logic.Server
use rdp_ext.Logic.Network.{
  Network, client_runs, server_runs, client_hears, server_hears, client_task, server_task,
  client_delivery, server_delivery, Reach, next,
}
use rdp_ext.Tests.Codec.{codec}

abbrev pub here_now : Ambient
here_now = record { now = 1000; draw = 77 }

abbrev pub there_now : Ambient
there_now = record { now = 2000; draw = 78 }

pub record Run (start : Network) : Type 0 where
  pub count : ℕ
  pub last : Network
  pub reach : Reach decimal codec start count last

pub data Turn : Type 0 where
  client_works server_works client_hearing server_hearing : Turn

client_work :
    {start : Network} (r : Run start) (l : List Client.Controller.Task)
    → r.last.client_strand ≡ l
    → Run start
client_work r [] e = r
client_work r (task ∷ rest) e = record {
  count = suc r.count;
  last = client_runs decimal codec here_now r.last task rest;
  reach = next r.reach (client_task here_now task rest e refl);
}

server_work :
    {start : Network} (r : Run start) (l : List Server.Controller.Task)
    → r.last.server_strand ≡ l
    → Run start
server_work r [] e = r
server_work r (task ∷ rest) e = record {
  count = suc r.count;
  last = server_runs codec there_now r.last task rest;
  reach = next r.reach (server_task there_now task rest e refl);
}

client_hear : {start : Network} (r : Run start) (l : List Buffer) → r.last.to_client ≡ l → Run start
client_hear r [] e = r
client_hear r (bytes ∷ rest) e = record {
  count = suc r.count;
  last = client_hears r.last bytes rest;
  reach = next r.reach (client_delivery bytes rest e refl);
}

server_hear : {start : Network} (r : Run start) (l : List Buffer) → r.last.to_server ≡ l → Run start
server_hear r [] e = r
server_hear r (bytes ∷ rest) e = record {
  count = suc r.count;
  last = server_hears r.last bytes rest;
  reach = next r.reach (server_delivery bytes rest e refl);
}

take_turn : {start : Network} → Run start → Turn → Run start
unfolding client_work server_work client_hear server_hear
take_turn r client_works = client_work r r.last.client_strand refl
take_turn r server_works = server_work r r.last.server_strand refl
take_turn r client_hearing = client_hear r r.last.to_client refl
take_turn r server_hearing = server_hear r r.last.to_server refl

unfoldable pub take_turns : {start : Network} → Run start → List Turn → Run start
unfolding take_turn
take_turns r [] = r
take_turns r (t ∷ ts) = take_turns (take_turn r t) ts

abbrev pub round : List Turn
round = client_works ∷ server_works ∷ server_hearing ∷ client_hearing ∷ []
