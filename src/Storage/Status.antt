-- ===== src/Storage/Status.antt =====
-- The statuses of dfc_credential_storage.h and of lib/core, the test for free memory, and paths.
use dfc_flipper.Base.{
  ℕ, List, Bool, ◌<◌, ◌≡◌, ◌*◌, leb, ◌^◌, true, ◌&&◌, length, ◌↔◌, sub_size, ◌≤◌, drop, ◌-◌, ◌+◌,
  arith, [], ◌∷◌, false, refl, ◌==◌,
}

-- `DfcCredentialLoadStatus`
pub data LoadStatus : Type 0 where
  load_ok open_failed unsupported_format malformed_file unsupported_auth_mode codec_unavailable
        capacity :
      LoadStatus

-- `DfcTextStatus` of lib/core, as the cases of the switch name it.
pub data TextStatus : Type 0 where
  text_ok text_unsupported text_capacity text_malformed text_other : TextStatus

-- `DfcDerStatus` of lib/core: DfcDerOk, or another value with the DfcTextStatus that it is taken for
-- where the code passes it to `dfc_credential_status_for`.
pub data DerStatus : Type 0 where
  der_ok : DerStatus
  der_failed : TextStatus → DerStatus

unfoldable pub status_for : TextStatus → LoadStatus
status_for text_ok = load_ok
status_for text_unsupported = unsupported_format
status_for text_capacity = capacity
status_for text_malformed = malformed_file
status_for text_other = malformed_file

-- What `memmgr_get_free_heap` and `memmgr_heap_get_max_free_block` answer at one moment.
pub record FreeMemory : Type 0 where
  pub free_heap : ℕ
  pub max_free_block : ℕ

-- `dfc_credential_has_heap_for`
unfoldable pub has_heap_for : FreeMemory → ℕ → ℕ → Bool
has_heap_for m allocation reserve =
    leb allocation m.max_free_block
    && (leb allocation m.free_heap && leb reserve (sub_size m.free_heap allocation))

-- DFC_FLIPPER_CREDENTIAL_MAX_SIZE, DFC_BINARY_FIRST_OCTET, DFC_BINARY_LOAD_HEAP_RESERVE and
-- DFC_TEXT_LOAD_HEAP_RESERVE.
abbrev pub credential_max_size : ℕ
credential_max_size = 16 * 1024

abbrev pub binary_first_octet : ℕ
binary_first_octet = 0x60

abbrev pub binary_load_heap_reserve : ℕ
binary_load_heap_reserve = 0

abbrev pub text_load_heap_reserve : ℕ
text_load_heap_reserve = 2 * 1024

-- `strcmp(a, b) == 0`
unfoldable pub str_eq : List ℕ → List ℕ → Bool
str_eq [] [] = true
str_eq [] (y ∷ ys) = false
str_eq (x ∷ xs) [] = false
str_eq (x ∷ xs) (y ∷ ys) = x == y && str_eq xs ys

-- `strlen(path) >= strlen(ext) && strcmp(path + strlen(path) - strlen(ext), ext) == 0`, which is also
-- `furi_string_end_with`.
unfoldable pub ends_with : List ℕ → List ℕ → Bool
ends_with path ext =
    leb (length ext) (length path) && str_eq (drop (length path - length ext) path) ext

pub str_eq_iff : (a b : List ℕ) → (str_eq a b ≡ true) ↔ (a ≡ b)
unfolding str_eq
str_eq_iff [] [] = (λ h. refl, λ h. refl)
str_eq_iff [] (y ∷ ys) = (λ h. cc, λ h. cc)
str_eq_iff (x ∷ xs) [] = (λ h. cc, λ h. cc)
str_eq_iff (x ∷ xs) (y ∷ ys) =
    (λ h. ground (arith, (str_eq_iff xs ys).0), λ h. ground (arith, (str_eq_iff xs ys).1))

-- The test for free memory, at a heap below 4 GiB: it passes just when the largest block holds the
-- allocation and the reserve is still free beside it.
pub has_heap_for_lem :
    (m : FreeMemory) (allocation reserve : ℕ)
    → m.free_heap < 2 ^ 32
    → (has_heap_for m allocation reserve ≡ true)
      ↔ ((allocation ≤ m.max_free_block) × (allocation + reserve ≤ m.free_heap))
unfolding has_heap_for
has_heap_for_lem m allocation reserve h = ground arith
