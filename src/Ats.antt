-- ===== src/Ats.antt =====
-- The answer to select (ATS) of a credential: the test at load, `dfc_credential_ats_is_radio_supported`
-- of dfc_credential_storage.c, and the unpacking into the radio listener's fields,
-- `dfc_set_listener_ats` of scenes/dfc_scene_emulate.c. A flat ATS is the list of its octets.
pub mod RoundTrip
mod Tests
use dfc_flipper.Base.{
  Bool, List, Option, ℕ, get_or, if◌then◌else◌, false, some, ◌&&◌, has, none, ltb, length, true,
  ◌==◌, ◌+◌, leb, [], ◌||◌, take, not, ◌/◌, bit_and, ◌-◌, ◌^◌, drop,
}

-- Reads of interface bytes: the offset behind the byte, or `none` for a refusal.
unfoldable pub check_ta : List ℕ → ℕ → ℕ → Option ℕ
check_ta ats t0 offset =
    if has t0 0x10
    then (if leb (length ats) offset || not (get_or ats offset 0 == 0)
        then none
        else some (offset + 1))
    else some offset

unfoldable pub check_tb : List ℕ → ℕ → ℕ → Option ℕ
check_tb ats t0 offset =
    if has t0 0x20
    then (if leb (length ats) offset || ltb (get_or ats offset 0 / 2 ^ 4) 8
        then none
        else some (offset + 1))
    else none

unfoldable pub check_tc : List ℕ → ℕ → ℕ → Option ℕ
check_tc ats t0 offset =
    if has t0 0x40
    then (if leb (length ats) offset || has (get_or ats offset 0) 0x01
        then none
        else some (offset + 1))
    else some offset

infixl 5 ◌>>=◌
abbrev pub ◌>>=◌ : {A B : Type 0} → Option A → (A → Option B) → Option B
none >>= f = none
some a >>= f = f a

abbrev pub is_some : {A : Type 0} → Option A → Bool
is_some none = false
is_some (some a) = true

unfoldable pub ats_is_radio_supported : List ℕ → Bool
ats_is_radio_supported ats =
    let t0 = get_or ats 1 0 in
    if length ats == 0
    then true
    else if ltb (length ats) 2 || not (get_or ats 0 0 == length ats)
    then false
    else if not (bit_and t0 0x0F == 5)
    then false
    else is_some (check_ta ats t0 2 >>= check_tb ats t0 >>= check_tc ats t0)

-- `Iso14443_4aData.ats_data`, with `t1_tk` the historical bytes.
pub record ListenerAts : Type 0 where
  pub tl : ℕ
  pub t0 : ℕ
  pub ta_1 : ℕ
  pub tb_1 : ℕ
  pub tc_1 : ℕ
  pub t1_tk : List ℕ

-- `if(present && i < declared) field = ats[i++]` on a field that was zero.
unfoldable pub next_field : Bool → List ℕ → ℕ → ℕ → ℕ × ℕ
next_field present ats declared i =
    if present && ltb i declared then (get_or ats i 0, i + 1) else (0, i)

-- The fields of an ATS of which `declared` octets are read.
unfoldable pub unpack : List ℕ → ℕ → ListenerAts
unpack ats declared =
    let (t0, i₁) = next_field true ats declared 1 in
    let (ta_1, i₂) = next_field (has t0 0x10) ats declared i₁ in
    let (tb_1, i₃) = next_field (has t0 0x20) ats declared i₂ in
    let (tc_1, i₄) = next_field (has t0 0x40) ats declared i₃ in
    record {
      tl = get_or ats 0 0;
      t0 = t0;
      ta_1 = ta_1;
      tb_1 = tb_1;
      tc_1 = tc_1;
      t1_tk = if ltb declared i₄ then [] else take (declared - i₄) (drop i₄ ats);
    }

unfoldable pub set_listener_ats : List ℕ → ListenerAts
set_listener_ats ats =
    if length ats == 0
    then record { tl = 0; t0 = 0; ta_1 = 0; tb_1 = 0; tc_1 = 0; t1_tk = [] }
    else unpack ats (if ltb (length ats) (get_or ats 0 0) then length ats else get_or ats 0 0)
