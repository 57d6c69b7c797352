-- ===== src/Transport/Mstsc/Name.antt =====
-- `std::strncpy(channelDef.name, channel_name_.c_str(), sizeof(channelDef.name) - 1)` of
-- src/transport/mstsc_transport.cpp, into a definition that is zero.
use rdp_ext.Common.{
  ℕ, zero, suc, ◌≡◌, refl, ◌==◌, [], ◌∷◌, ◌++◌, length, length-append, if◌then◌else◌, arith,
}
use rdp_ext.Common.Text.{Text}

abbrev zeros : ℕ → Text
zeros zero = []
zeros (suc n) = 0 ∷ zeros n

-- The n bytes that `strncpy(to, from, n)` writes.
unfoldable pub strncpy : ℕ → Text → Text
strncpy zero from = []
strncpy (suc n) [] = 0 ∷ strncpy n []
strncpy (suc n) (c ∷ from) =
    let rest = strncpy n from in let stop = strncpy n [] in if c == 0 then 0 ∷ stop else c ∷ rest

-- `sizeof(channelDef.name) - 1`, with CHANNEL_NAME_LEN + 1 bytes in the name.
abbrev pub channel_name_len : ℕ
channel_name_len = 7

unfoldable pub channel_def_name : Text → Text
unfolding strncpy
channel_def_name channel_name = strncpy channel_name_len channel_name ++ 0 ∷ []

-- The text that a C string holds: what stands before its first 0.
abbrev pub c_str : Text → Text
c_str [] = []
c_str (c ∷ t) = if c == 0 then [] else c ∷ c_str t

abbrev pub take : ℕ → Text → Text
take zero t = []
take (suc n) [] = []
take (suc n) (c ∷ t) = c ∷ take n t

length-strncpy : (n : ℕ) (t : Text) → length (strncpy n t) ≡ n
unfolding strncpy
length-strncpy zero t = refl
length-strncpy (suc n) [] = omega (arith, length-strncpy n [])
length-strncpy (suc n) (c ∷ t) = ground (arith, length-strncpy n t, length-strncpy n [])

c_str-strncpy : (n : ℕ) (t : Text) → c_str (strncpy n t ++ 0 ∷ []) ≡ take n (c_str t)
unfolding strncpy
c_str-strncpy zero t = refl
c_str-strncpy (suc n) [] = refl
c_str-strncpy (suc n) (c ∷ t) = ground (arith, c_str-strncpy n t)

-- The name of the definition fills its 8 bytes and is a C string: the first seven characters of the
-- channel's name.
pub channel_def_name_lem :
    (t : Text) → (length (channel_def_name t) ≡ 8) × (c_str (channel_def_name t) ≡ take 7 (c_str t))
unfolding channel_def_name
channel_def_name_lem t =
    (ground (arith, length-append (strncpy 7 t) (0 ∷ []), length-strncpy 7 t), c_str-strncpy 7 t)
