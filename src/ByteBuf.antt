-- ===== src/ByteBuf.antt =====
-- port/dfc_bytebuf_flipper.c: the engine's response buffer, an array of DFC_BYTEBUF_MAX octets with
-- the number of octets in use. The capacity is a constant of lib/core, so it is a parameter.
-- A pointer that the code compares with NULL is an option.
pub mod Refine
pub mod Tests
use dfc_flipper.Base.{
  ℕ, suc, ◌+◌, ◌-◌, Bool, ◌||◌, Option, none, some, List, [], ◌∷◌, ◌++◌, if◌then◌else◌, ltb, leb,
  length, take, drop, get_or, set, replicate,
}

-- `DfcByteBuf`: `octets` is the field `data`.
pub record ByteBuf : Type 0 where
  pub octets : List ℕ
  pub size_bytes : ℕ

-- `memcpy(octets + at, src, len)`.
abbrev pub overwrite : List ℕ → ℕ → List ℕ → ℕ → List ℕ
overwrite octets at src len = take at octets ++ (take len src ++ drop (at + len) octets)

module _ (bytebuf_max : ℕ) where
  -- `malloc_ok` says whether malloc returns a block.
  unfoldable pub alloc : Bool → ℕ → Option ByteBuf
  alloc malloc_ok max_size =
      if ltb bytebuf_max max_size
      then none
      else if malloc_ok
      then some (record { octets = replicate bytebuf_max 0; size_bytes = 0 })
      else none

  -- The guard and the copy of `dfc_bytebuf_append_bytes` on a buffer that is not NULL.
  unfoldable pub append_to : ByteBuf → Option (List ℕ) → ℕ → ByteBuf
  append_to b none len = b
  append_to b (some src) len =
      if ltb bytebuf_max b.size_bytes || ltb (bytebuf_max - b.size_bytes) len then b else record {
        octets = overwrite b.octets b.size_bytes src len;
        size_bytes = b.size_bytes + len;
      }

  unfoldable pub append_bytes : Option ByteBuf → Option (List ℕ) → ℕ → Option ByteBuf
  append_bytes none src len = none
  append_bytes (some b) src len = some (append_to b src len)

  unfoldable pub append_byte : ByteBuf → ℕ → ByteBuf
  append_byte b byte =
      if leb bytebuf_max b.size_bytes
      then b
      else record { octets = set b.octets b.size_bytes byte; size_bytes = suc b.size_bytes }

unfoldable pub reset : ByteBuf → ByteBuf
reset b = record b { size_bytes = 0 }

abbrev pub get_size_bytes : ByteBuf → ℕ
get_size_bytes b = b.size_bytes

abbrev pub get_data : ByteBuf → List ℕ
get_data b = b.octets

unfoldable pub get_byte : Option ByteBuf → ℕ → ℕ
get_byte none index = 0
get_byte (some b) index = if ltb index b.size_bytes then get_or b.octets index 0 else 0

-- The octets in use: what the buffer means to a reader.
abbrev pub contents : ByteBuf → List ℕ
contents b = take b.size_bytes b.octets
