-- ===== src/Engine/Echo.antt =====
-- An engine that echoes commands: it meets the laws that the listener relies on. The emulator counts
-- the commands of an activation.
use dfc_flipper.Base.{
  List, ℕ, arith, ◌+◌, ◌≡◌, ◌∷◌, Option, [], take, some, true, Bool-cases, length, ◌++◌, ◌≤◌, leb,
  if◌then◌else◌, refl, none, inl, inr, ◌∙◌, sym, append-nil,
}
use dfc_flipper.Engine.{Laws, Engine, IsValid, Extends}
use dfc_flipper.ByteBuf.{ByteBuf, append_to, reset, contents}
use dfc_flipper.ByteBuf.Refine.{reset-IsValid, append_to_refines}

abbrev pub echo_append : ByteBuf → List ℕ → ByteBuf
echo_append tx octets = append_to 128 tx (some octets) (length octets)

echo_append-Extends :
    (tx : ByteBuf) (octets : List ℕ) → IsValid 128 tx → Extends 128 tx (echo_append tx octets)
echo_append-Extends tx octets v = elim (Bool-cases (leb (tx.size_bytes + length octets) 128)) [
  | inl e ↦ record {
    valid = (append_to_refines 128 tx octets v).0;
    written = octets;
    appended = rw e at (append_to_refines 128 tx octets v).1;
  }
  | inr e ↦ record {
    valid = (append_to_refines 128 tx octets v).0;
    written = [];
    appended = (rw e at (append_to_refines 128 tx octets v).1) ∙ sym (append-nil (contents tx));
  }
]

-- The prefix and a fixed status, where they fit.
abbrev pub echo_wrap : List ℕ → ℕ → ℕ → Option (List ℕ)
echo_wrap response offset capacity =
    let out = take offset response ++ (0x91 ∷ 0x00 ∷ []) in
    if leb (length out) capacity then some out else none

abbrev pub echo : Engine ℕ
echo = record {
  bytebuf_max = 128;
  worker_max_buffer_size = 100;
  cid_mask = 0x08;
  nad_mask = 0x04;
  iso7816_cla_standard = 0x00;
  iso7816_cla_wrapper = 0x90;
  status_length_error = 0x7E;
  handle_iso7816_select = λ e apdu tx offset. record {
    emulator = e + 1;
    tx_buffer = echo_append tx (0x90 ∷ 0x00 ∷ []);
    handled = true;
    app_selected = true;
  };
  handle_command = λ e apdu tx. record {
    emulator = e + 1;
    tx_buffer = echo_append tx (0x00 ∷ apdu);
    handled = true;
    notified = [];
  };
  wrap_native_response_as_iso7816 = echo_wrap;
  reset_activation = λ e tx. (0, reset tx);
}

echo_wrap_bounded :
    (response : List ℕ) (offset capacity : ℕ) (out : List ℕ)
    → echo_wrap response offset capacity ≡ some out
    → length out ≤ capacity
echo_wrap_bounded response offset capacity out h = ground arith

echo_wrap_prefix :
    (response : List ℕ) (offset capacity : ℕ) (out : List ℕ)
    → echo_wrap response offset capacity ≡ some out
    → (written : List ℕ) × (out ≡ take offset response ++ written)
echo_wrap_prefix response offset capacity out h = (0x91 ∷ 0x00 ∷ [], ground arith)

pub echo-Laws : Laws echo
echo-Laws = record {
  cid_mask_lem = refl;
  nad_mask_lem = refl;
  frame_fits = omega arith;
  command_fits = omega arith;
  bytebuf_small = omega arith;
  select_appends = λ e apdu tx offset v. echo_append-Extends tx (0x90 ∷ 0x00 ∷ []) v;
  command_appends = λ e apdu tx v. echo_append-Extends tx (0x00 ∷ apdu) v;
  wrap_bounded = echo_wrap_bounded;
  wrap_keeps_prefix = echo_wrap_prefix;
  reset_keeps_buffer = λ e tx v. reset-IsValid 128 v;
}
