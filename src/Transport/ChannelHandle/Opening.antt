-- ===== src/Transport/ChannelHandle/Opening.antt =====
-- What `open` gives, and that no call of it loses a handle.
use rdp_ext.Common.{◌≡◌, ◌⊎◌, true, List, [], ◌∷◌, none, some, arith}
use rdp_ext.Transport.ChannelHandle.{
  Handle, null, OsCall, close_channel, free_memory, WtsChannelHandle, valid, OpenAnswer,
  open_handle,
}

-- The handles that some calls close, in order.
abbrev pub closed : List OsCall → List Handle
closed [] = []
closed (close_channel h ∷ cs) = h ∷ closed cs
closed (free_memory ∷ cs) = closed cs

-- A channel that the library opened is either returned, inside an object that is valid, and not closed,
-- or closed and not returned; one that it did not open is neither.
pub open_handle_cases :
    (answer : OpenAnswer)
    → ((answer.channel ≡ null) × (open_handle answer ≡ (none, [])))
      ⊎ (((open_handle answer).0 ≡ none) × (closed (open_handle answer).1 ≡ answer.channel ∷ []))
      ⊎ ((h : WtsChannelHandle) × ((open_handle answer).0 ≡ some h)
          × (h.channel ≡ answer.channel)
          × (valid h ≡ true)
          × (closed (open_handle answer).1 ≡ []))
unfolding open_handle valid
open_handle_cases answer = ground arith
