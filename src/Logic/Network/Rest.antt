-- ===== src/Logic/Network/Rest.antt =====
-- Where a network of controllers comes to rest, whatever it began with.
use rdp_ext.Common.{
  ℕ, zero, suc, ◌+◌, ◌*◌, ◌≤◌, ◌≡◌, refl, ap, ◌⊎◌, inl, inr, List-cases, [], length, nil_of_length,
  arith,
}
use rdp_ext.Protocol.Serializer.{Archive, IsLawful}
use rdp_ext.Logic.Base.{Ambient, PercentText}
use rdp_ext.Logic.Client
use rdp_ext.Logic.Server
use rdp_ext.Logic.Session.{World}
use rdp_ext.Logic.Network.{
  Network, Step, client_task, server_task, client_delivery, server_delivery, Reach, here, next,
}
use rdp_ext.Logic.Network.Lane.{Lane-length}
use rdp_ext.Logic.Network.Refinement.{Mirrors}

-- No task waits in a strand, and no buffer in the channel.
abbrev pub Quiet : Network → Type 0
Quiet n = (n.client_strand ≡ []) × (n.server_strand ≡ []) × (n.to_client ≡ []) × (n.to_server ≡ [])

-- A network that is not quiet can go on.
proceeds :
    (percent : PercentText) (archive : Archive) (a : Ambient) (n : Network)
    → Quiet n ⊎ ((v : Network) × Step percent archive n v)
proceeds percent archive a n = elim (List-cases n.client_strand) [
  | inr (task, rest, e) ↦ inr (_, client_task a task rest e refl)
  | inl e₁ ↦ elim (List-cases n.server_strand) [
    | inr (task, rest, e) ↦ inr (_, server_task a task rest e refl)
    | inl e₂ ↦ elim (List-cases n.to_client) [
      | inr (bytes, rest, e) ↦ inr (_, client_delivery bytes rest e refl)
      | inl e₃ ↦ elim (List-cases n.to_server) [
        | inr (bytes, rest, e) ↦ inr (_, server_delivery bytes rest e refl)
        | inl e₄ ↦ inl (e₁, e₂, e₃, e₄)
      ]
    ]
  ]
]

module _ (percent : PercentText) (archive : Archive) (lawful : IsLawful archive)
    (start : World) where
  -- Three steps for each message that the session bounds.
  pub Mirrors-le :
      {k : ℕ} {n : Network} (most : ℕ) (m : Mirrors percent archive lawful start k n)
      → m.read + (length m.to_client + length m.to_server) ≤ most
      → k ≤ 3 * most
  Mirrors-le most m h =
      omega
        (arith, h, Lane-length m.carries.client_lane, Lane-length m.carries.server_lane, m.paced)

  -- At rest no message is on its way.
  pub Quiet-Mirrors :
      {k : ℕ} {n : Network} (m : Mirrors percent archive lawful start k n)
      → Quiet n
      → (m.to_client ≡ []) × (m.to_server ≡ []) × (k ≡ 3 * m.read)
  Quiet-Mirrors {n = n} m (e₁, e₂, e₃, e₄) =
      let none_read : length (Client.Controller.Strand.inputs n.client_strand) ≡ 0 =
        ap (λ ts. length (Client.Controller.Strand.inputs ts)) e₁ in
      let none_sent : length (Client.Controller.Strand.outputs n.client_strand) ≡ 0 =
        ap (λ ts. length (Client.Controller.Strand.outputs ts)) e₁ in
      let none_read' : length (Server.Controller.Strand.inputs n.server_strand) ≡ 0 =
        ap (λ ts. length (Server.Controller.Strand.inputs ts)) e₂ in
      let none_sent' : length (Server.Controller.Strand.outputs n.server_strand) ≡ 0 =
        ap (λ ts. length (Server.Controller.Strand.outputs ts)) e₂ in
      let empty : length n.to_client ≡ 0 = ap length e₃ in
      let empty' : length n.to_server ≡ 0 = ap length e₄ in
      (
        nil_of_length m.to_client (omega (arith, Lane-length m.carries.client_lane)),
        nil_of_length m.to_server (omega (arith, Lane-length m.carries.server_lane)),
        omega (arith, m.paced),
      )

module _ (percent : PercentText) (archive : Archive) (a : Ambient) (start : Network) (all : ℕ)
    (Done : Network → Type 0)
    (bounded : (k : ℕ) (n : Network) → Reach percent archive start k n → k ≤ all)
    (settles : (k : ℕ) (n : Network)
      → Reach percent archive start k n
      → Quiet n
      → (k ≡ all) × Done n) where
  -- A run `r` to a network, continued by a run of `m` steps from an earlier one.
  complete_from :
      (fuel : ℕ) {n : Network} (k m c : ℕ) (v : Network)
      → all ≤ c + fuel
      → c ≡ k + m
      → Reach percent archive start c v
      → Reach percent archive n m v
      → (rest : ℕ) × (last : Network) × Reach percent archive n rest last
        × Quiet last
        × Done last
        × (k + rest ≡ all)
  complete_from zero k m c v h e r s = elim (proceeds percent archive a v) [
    | inl quiet ↦
        let (whole, done) = settles _ _ r quiet in (m, v, s, quiet, done, omega (arith, whole, e))
    | inr (u, st) ↦ absurd (omega (arith, bounded _ _ (next r st)))
  ]
  complete_from (suc fuel) k m c v h e r s = elim (proceeds percent archive a v) [
    | inl quiet ↦
        let (whole, done) = settles _ _ r quiet in (m, v, s, quiet, done, omega (arith, whole, e))
    | inr (u, st) ↦
        complete_from fuel k (suc m) (suc c) u (omega arith) (omega arith) (next r st) (next s st)
  ]

  -- A network whose runs are bounded, and done where they rest, gets there from wherever it is.
  pub completes :
      {k : ℕ} {n : Network}
      → Reach percent archive start k n
      → (rest : ℕ) × (last : Network) × Reach percent archive n rest last
        × Quiet last
        × Done last
        × (k + rest ≡ all)
  completes {k} {n} r = complete_from all k 0 k n (omega arith) (omega arith) r here
