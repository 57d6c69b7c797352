-- ===== src/Transport/Mstsc/Chunks.antt =====
-- What the bytes handler gets of a message that arrives in chunks.
use rdp_ext.Common.{
  ℕ, ◌+◌, ◌<◌, ◌≡◌, ◌≢◌, refl, sym, ap, ◌∙◌, true, false, List, [], ◌∷◌, ◌++◌, length,
  length-append, All, arith,
}
use rdp_ext.Protocol.Serializer.{Buffer}
use rdp_ext.Transport.Mstsc.{
  MstscTransport, Call, call_bytes, data_received, is_last, on_open_event,
}

-- A chunk and its flags.
abbrev pub Chunk : Type 0
Chunk = Buffer × ℕ

unfoldable pub receive_all : MstscTransport → List Chunk → List Call
receive_all t [] = []
receive_all t ((chunk, flags) ∷ chunks) =
    on_open_event t (data_received chunk flags) ++ receive_all t chunks

abbrev pub message : List Chunk → Buffer
message [] = []
message ((chunk, flags) ∷ chunks) = chunk ++ message chunks

early :
    (t : MstscTransport) (chunks : List Chunk) (rest : List Chunk)
    → All (λ c. is_last c.1 ≡ false) chunks
    → receive_all t (chunks ++ rest) ≡ receive_all t rest
unfolding receive_all on_open_event
early t [] rest h = refl
early t ((chunk, flags) ∷ chunks) rest h = ground (arith, early t chunks rest h.1)

-- A transport with a handler receives chunks without the flag of the last one, and then one with it: it
-- calls the handler once, with the bytes of the last chunk alone.
pub receive_all-last :
    (t : MstscTransport) (chunks : List Chunk) (last : Buffer) (flags : ℕ)
    → t.has_bytes_handler ≡ true
    → All (λ c. is_last c.1 ≡ false) chunks
    → is_last flags ≡ true
    → receive_all t (chunks ++ (last, flags) ∷ []) ≡ call_bytes last ∷ []
unfolding receive_all on_open_event
receive_all-last t chunks last flags b h l = early t chunks ((last, flags) ∷ []) h ∙ ground arith

message-append :
    (chunks : List Chunk) (last : Buffer) (flags : ℕ)
    → length (message (chunks ++ (last, flags) ∷ [])) ≡ length (message chunks) + length last
message-append [] last flags = omega (arith, length-append last [])
message-append ((chunk, f) ∷ chunks) last flags = omega (
  arith,
  length-append chunk (message (chunks ++ (last, flags) ∷ [])),
  length-append chunk (message chunks),
  message-append chunks last flags,
)

abbrev call_length : List Call → ℕ
call_length (call_bytes bytes ∷ cs) = length bytes
call_length _ = 0

-- A transport with a handler that receives a message in chunks, of which the last one alone is flagged as
-- such, does not hand over the whole message where the chunks before the last one hold any byte.
pub message_truncated :
    (t : MstscTransport) (chunks : List Chunk) (last : Buffer) (flags : ℕ)
    → t.has_bytes_handler ≡ true
    → All (λ c. is_last c.1 ≡ false) chunks
    → is_last flags ≡ true
    → 0 < length (message chunks)
    → receive_all t (chunks ++ (last, flags) ∷ [])
      ≢ call_bytes (message (chunks ++ (last, flags) ∷ [])) ∷ []
message_truncated t chunks last flags b h l some_bytes e =
    let same = ap call_length (sym (receive_all-last t chunks last flags b h l) ∙ e) in
    absurd (omega (arith, same, message-append chunks last flags))
