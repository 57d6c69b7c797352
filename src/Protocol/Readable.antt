-- ===== src/Protocol/Readable.antt =====
-- The messages that buffers read as (src/core/protocol/serializer.cpp).
use rdp_ext.Common.{◌≡◌, refl, ap, List, [], ◌∷◌, ◌++◌, map, arith}
use mathlib.Core.List.{append_assoc}
use rdp_ext.Common.Text.{Text}
use rdp_ext.Common.Except.{Except, returned, thrown}
use rdp_ext.Protocol.Message.{Message}
use rdp_ext.Protocol.Serializer.{Archive, Buffer, deserialize}

module _ (archive : Archive) where
  abbrev pub kept : Except Message → List Message
  kept (returned m) = m ∷ []
  kept (thrown what) = []

  -- The messages that some buffers read as; a buffer that is no message is passed over.
  abbrev pub readable : List Buffer → List Message
  readable [] = []
  readable (bytes ∷ rest) = kept (deserialize archive bytes) ++ readable rest

  pub readable-append : (xs ys : List Buffer) → readable (xs ++ ys) ≡ readable xs ++ readable ys
  readable-append [] ys = refl
  readable-append (x ∷ xs) ys =
      simp append_assoc (ap (λ ms. kept (deserialize archive x) ++ ms) (readable-append xs ys))

  -- Buffers that read as some messages.
  pub readable-map :
      (xs : List Buffer) (ms : List Message)
      → map (deserialize archive) xs ≡ map returned ms
      → readable xs ≡ ms
  readable-map [] [] e = refl
  readable-map (x ∷ xs) (m ∷ ms) e =
      let tail : map (deserialize archive) xs ≡ map returned ms = cc in
      ground (arith, readable-map xs ms tail)
  readable-map [] (m ∷ ms) e = absurd (cc)
  readable-map (x ∷ xs) [] e = absurd (cc)

  abbrev pub complaint : Except Message → List Text
  complaint (returned m) = []
  complaint (thrown what) = what ∷ []

  -- What the exceptions say of the buffers that are no message.
  abbrev pub refused : List Buffer → List Text
  refused [] = []
  refused (bytes ∷ rest) = complaint (deserialize archive bytes) ++ refused rest

  pub refused-append : (xs ys : List Buffer) → refused (xs ++ ys) ≡ refused xs ++ refused ys
  refused-append [] ys = refl
  refused-append (x ∷ xs) ys =
      simp append_assoc (ap (λ ts. complaint (deserialize archive x) ++ ts) (refused-append xs ys))
