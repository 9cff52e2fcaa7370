-- ===== src/App/Probe.antt =====
-- dfc.c: `dfc_log_memory` with DFC_MEMORY_PROBE, its text in the log and its line of memory.csv.
use dfc_flipper.Base.{
  ℕ, zero, suc, ◌+◌, ◌/◌, ◌%◌, ◌≤◌, ◌≡◌, Bool, true, ◌&&◌, List, [], ◌∷◌, ◌++◌, arith, ltb,
  if◌then◌else◌, length, ◌<◌, length-append,
}
use dfc_flipper.App.Text.{decimal, codes, decimal_from}

-- What memmgr_get_free_heap, memmgr_get_minimum_free_heap, memmgr_heap_get_max_free_block and
-- furi_get_tick answer.
pub record Measured : Type 0 where
  pub free_heap : ℕ
  pub minimum_heap : ℕ
  pub largest_block : ℕ
  pub now : ℕ

-- What the SDK is asked for, in order.
pub data ProbeCall : Type 0 where
  opened_storage allocated_file opened_file closed_file freed_file closed_storage : ProbeCall
  written : List ℕ → ProbeCall

-- The size of `line`.
abbrev pub line_size : ℕ
line_size = 96

-- `%lu,%s,%u,%u,%u\n`.
unfoldable pub csv_line : List ℕ → Measured → List ℕ
csv_line stage m =
    decimal m.now
    ++ (0x2C
        ∷ (stage
            ++ (0x2C
                ∷ (decimal m.free_heap
                    ++ (0x2C
                        ∷ (decimal m.minimum_heap
                            ++ (0x2C ∷ (decimal m.largest_block ++ 0x0A ∷ []))))))))

-- The text of the log, without its tag.
unfoldable pub log_text : List ℕ → Measured → List ℕ
log_text stage m =
    stage
    ++ (codes " free="
        ++ (decimal m.free_heap
            ++ (codes " minimum="
                ++ (decimal m.minimum_heap ++ (codes " largest=" ++ decimal m.largest_block)))))

-- The calls of `dfc_log_memory`: snprintf answers the length of the whole line, also where it does not
-- fit in `line`.
unfoldable pub log_memory : Bool → List ℕ → Measured → List ProbeCall
log_memory opens stage m =
    let line = csv_line stage m in
    opened_storage
    ∷ allocated_file
    ∷ opened_file
    ∷ ((if opens
          then (if ltb 0 (length line) && ltb (length line) line_size
              then written line ∷ []
              else [])
          else [])
        ++ (closed_file ∷ freed_file ∷ closed_storage ∷ []))

length-decimal_from :
    (rounds n : ℕ) (out : List ℕ) → length (decimal_from rounds n out) ≤ rounds + length out
unfolding decimal_from
length-decimal_from zero n out = omega arith
length-decimal_from (suc rounds) n out =
    ground (arith, length-decimal_from rounds (n / 10) ((48 + n % 10) ∷ out))

length-decimal : (n : ℕ) → length (decimal n) ≤ 10
unfolding decimal
length-decimal n = length-decimal_from 10 n []

-- Texts joined by an octet.
length-joined :
    (xs ys : List ℕ) (x m n : ℕ)
    → length xs ≤ m
    → length ys ≤ n
    → (length (xs ++ x ∷ ys) ≤ m + suc n) × (0 < length (xs ++ x ∷ ys))
length-joined xs ys x m n a b = ground (arith, length-append xs (x ∷ ys))

length-csv_line :
    (stage : List ℕ) (m : Measured)
    → (length (csv_line stage m) ≤ 45 + length stage) × (0 < length (csv_line stage m))
unfolding csv_line
length-csv_line stage m =
    let same : length stage ≤ length stage = omega arith in
    let (largest, _) =
      length-joined (decimal m.largest_block) [] 0x0A 10 0 (length-decimal m.largest_block)
        (omega arith) in
    let (minimum, _) =
      length-joined (decimal m.minimum_heap) _ 0x2C 10 11 (length-decimal m.minimum_heap) largest in
    let (free, _) =
      length-joined (decimal m.free_heap) _ 0x2C 10 22 (length-decimal m.free_heap) minimum in
    let (named, _) = length-joined stage _ 0x2C (length stage) 33 same free in
    let (bound, some_octets) =
      length-joined (decimal m.now) _ 0x2C 10 (length stage + 34) (length-decimal m.now) named in
    (omega (arith, bound), some_octets)

-- A stage of at most 50 octets has its line written whole wherever the file opens, and everything is
-- given back.
log_memory-fits :
    (stage : List ℕ) (m : Measured)
    → length stage ≤ 50
    → log_memory true stage m
      ≡ opened_storage
        ∷ allocated_file
        ∷ opened_file
        ∷ written (csv_line stage m)
        ∷ closed_file
        ∷ freed_file
        ∷ closed_storage
        ∷ []
unfolding log_memory
log_memory-fits stage m h =
    let (bound, some_octets) = length-csv_line stage m in
    let positive : ltb 0 (length (csv_line stage m)) ≡ true = ground (arith, some_octets) in
    let fits : ltb (length (csv_line stage m)) line_size ≡ true = ground (arith, bound, h) in
    rw (positive, fits)
