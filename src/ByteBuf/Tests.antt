-- ===== src/ByteBuf/Tests.antt =====
-- The buffer of port/dfc_bytebuf_flipper.c at a capacity of four octets.
use dfc_flipper.Base.{◌≡◌, ◌∷◌, some, [], refl, arith}
use dfc_flipper.ByteBuf.{get_byte, append_to, append_byte, ByteBuf, contents}
use dfc_flipper.ByteBuf.Refine.{IsValid, append_to_refines}

abbrev half_full : ByteBuf
half_full = record { octets = 7 ∷ 8 ∷ 0 ∷ 0 ∷ []; size_bytes = 2 }

half_full-IsValid : IsValid 4 half_full
half_full-IsValid = omega arith

append_over : append_to 4 half_full (some (1 ∷ 2 ∷ 3 ∷ [])) 3 ≡ half_full
unfolding append_to
append_over = refl

append_to_refines_example :
    IsValid 4 (append_to 4 half_full (some (9 ∷ 5 ∷ [])) 2)
    × (contents (append_to 4 half_full (some (9 ∷ 5 ∷ [])) 2) ≡ 7 ∷ 8 ∷ 9 ∷ 5 ∷ [])
append_to_refines_example = append_to_refines 4 half_full (9 ∷ 5 ∷ []) half_full-IsValid

append_byte_last :
    append_byte 4 half_full 9 ≡ record half_full { octets = 7 ∷ 8 ∷ 9 ∷ 0 ∷ []; size_bytes = 3 }
unfolding append_byte
append_byte_last = refl

get_byte_past : get_byte (some half_full) 2 ≡ 0
unfolding get_byte
get_byte_past = refl
