-- ===== src/Port.antt =====
-- port/dfc_port_flipper.c: the allocator that lib/core is given.
use dfc_flipper.Base.{
  ℕ, ◌≤◌, ◌≡◌, Bool, Option, none, some, List, arith, ltb, if◌then◌else◌, length, replicate,
  length-replicate,
}

-- `dfc_platform_alloc`: the block of `size` octets that it returns. `max_free_block` is the largest free
-- block of the heap, and `malloc_ok` whether malloc returns a block.
unfoldable pub platform_alloc : ℕ → Bool → ℕ → Option (List ℕ)
platform_alloc max_free_block malloc_ok size =
    if ltb max_free_block size then none else if malloc_ok then some (replicate size 0) else none

-- A block has the size asked for, which is not above that of the largest free block.
platform_alloc_lem :
    (max_free_block : ℕ) (malloc_ok : Bool) (size : ℕ) {block : List ℕ}
    → platform_alloc max_free_block malloc_ok size ≡ some block
    → (length block ≡ size) × (size ≤ max_free_block)
unfolding platform_alloc
platform_alloc_lem max_free_block malloc_ok size e = ground (arith, length-replicate {A = ℕ} size 0)
