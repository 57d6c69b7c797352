-- ===== src/Transport/ChannelHandle.antt =====
-- src/transport/wrappers/wts_channel_handle.cpp. What the WTS library answers is an argument; a call of it
-- that releases something is an entry of a list.
pub mod Opening
use rdp_ext.Common.{
  ℕ, Bool, true, false, not, ◌&&◌, ◌||◌, List, [], ◌∷◌, ◌++◌, Option, none, some, ltb,
  if◌then◌else◌,
}

-- A HANDLE: `nullptr`, `INVALID_HANDLE_VALUE` or another value.
pub data Handle : Type 0 where
  null invalid : Handle
  handle : ℕ → Handle

abbrev pub is_null : Handle → Bool
is_null null = true
is_null _ = false

abbrev pub is_invalid : Handle → Bool
is_invalid invalid = true
is_invalid _ = false

pub data OsCall : Type 0 where
  -- `WTSVirtualChannelClose`
  close_channel : Handle → OsCall
  -- `WTSFreeMemory` of the queried buffer
  free_memory : OsCall

pub record WtsChannelHandle : Type 0 where
  pub channel : Handle
  pub file : Handle

abbrev pub empty : WtsChannelHandle
empty = record { channel = null; file = null }

unfoldable pub valid : WtsChannelHandle → Bool
valid h = not (is_null h.channel) && not (is_null h.file) && not (is_invalid h.file)

unfoldable pub reset : WtsChannelHandle → Handle → Handle → WtsChannelHandle × List OsCall
reset h new_channel new_file = (
  record { channel = new_channel; file = new_file },
  if not (is_null h.channel) then close_channel h.channel ∷ [] else [],
)

-- The destructor.
unfoldable pub destroy : WtsChannelHandle → List OsCall
unfolding reset
destroy h = (reset h null null).1

-- The move constructor: the new object, and the other.
unfoldable pub move_construct : WtsChannelHandle → WtsChannelHandle × WtsChannelHandle
move_construct other = (record { channel = other.channel; file = other.file }, empty)

-- The move assignment from another object: this one, the other, the calls.
unfoldable pub move_assign :
    WtsChannelHandle → WtsChannelHandle → WtsChannelHandle × WtsChannelHandle × List OsCall
unfolding reset
move_assign h other =
    let (cleared, calls) = reset h null null in
    (record cleared { channel = other.channel; file = other.file }, empty, calls)

-- What `WTSVirtualChannelQuery` leaves: its result, what `buffer` points to (`none` for `nullptr`), and
-- `bytes_returned`.
pub record QueryAnswer : Type 0 where
  pub ok : Bool
  pub buffer : Option Handle
  pub bytes_returned : ℕ

-- `sizeof(HANDLE)` of a 64-bit build.
abbrev pub sizeof_handle : ℕ
sizeof_handle = 8

read_buffer : Option Handle → ℕ → Handle × List OsCall
read_buffer none bytes_returned = (null, [])
read_buffer (some file) bytes_returned =
    if ltb bytes_returned sizeof_handle
    then (null, free_memory ∷ [])
    else (if is_null file || is_invalid file then null else file, free_memory ∷ [])

unfoldable pub query_file_handle : QueryAnswer → Handle × List OsCall
unfolding read_buffer
query_file_handle answer =
    if not answer.ok then (null, []) else read_buffer answer.buffer answer.bytes_returned

-- What the library answers in `open`: the handle of `WTSVirtualChannelOpen`, and the query.
pub record OpenAnswer : Type 0 where
  pub channel : Handle
  pub query : QueryAnswer

unfoldable pub open_handle : OpenAnswer → Option WtsChannelHandle × List OsCall
unfolding query_file_handle
open_handle answer =
    if is_null answer.channel
    then (none, [])
    else (let (file, calls) = query_file_handle answer.query in
        if is_null file
        then (none, calls ++ close_channel answer.channel ∷ [])
        else (some (record { channel = answer.channel; file = file }), calls))
