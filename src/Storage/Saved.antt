-- ===== src/Storage/Saved.antt =====
-- What a save of dfc_credential_storage.c leaves.
use dfc_flipper.Base.{
  ℕ, ◌+◌, ◌≤◌, ◌≡◌, refl, ap, ◌∙◌, Bool, true, false, not, some, List, [], ◌∷◌, ◌++◌, ◌==◌,
  if◌then◌else◌, if_rule, take, ◌&&◌, none, arith, ltb, ◌<◌, length,
}
use dfc_flipper.Storage.Status.{
  TextStatus, credential_max_size, text_ok, text_unsupported, text_capacity, text_malformed,
  text_other,
}
use dfc_flipper.Storage.Save.{
  finish_write, SaveSystem, Writing, is_text_ok, write_text, render, write_file, FileEvent, emptied,
  extended, is_text_capacity, save_to, save_loaded, Saving, text_path,
}
use dfc_flipper.Storage.Memory.{
  MemoryEvent, account, Held, nothing_held, given_back, text_buffer, plugin_manager, taken,
  file_handle,
}
use dfc_flipper.Storage.Model.{CredentialModel}
use dfc_flipper.Storage.Codec.{close_codec, TextCodec, closed}
use dfc_flipper.Storage.Opening.{open_codec-cases, opened, fails, opens}
use dfc_flipper.Storage.Ledger.{account-append, continued}

-- The files after a call that writes to `path`: the whole of a text that the codec rendered, nothing,
-- or an initial part of such a text.
pub data Written {Credential : Type 0} (m : CredentialModel Credential) (c : Credential)
    (path : List ℕ) (w : Writing) : Type 0 where
  whole :
      (room len : ℕ) (text : List ℕ)
      → room ≤ credential_max_size
      → m.write c (some (room + 1)) ≡ (text_ok, len, text)
      → w.saved ≡ true
      → w.files ≡ emptied path ∷ extended path (take len text) ∷ []
      → Written m c path w
  untouched : w.saved ≡ false → w.files ≡ [] → Written m c path w
  cut_short :
      (n room len : ℕ) (text : List ℕ)
      → m.write c (some (room + 1)) ≡ (text_ok, len, text)
      → w.saved ≡ false
      → w.files ≡ emptied path ∷ extended path (take n (take len text)) ∷ []
      → Written m c path w

-- What a call that saves to `path` leaves.
pub data Stored {Credential : Type 0} (m : CredentialModel Credential) (c : Credential)
    (load_path path : List ℕ) (s : Saving Credential) : Type 0 where
  stored :
      (room len : ℕ) (text : List ℕ)
      → m.write c (some (room + 1)) ≡ (text_ok, len, text)
      → s.saved ≡ true
      → s.load_path ≡ path
      → s.credential ≡ m.clear_dirty c
      → s.files ≡ emptied path ∷ extended path (take len text) ∷ []
      → Stored m c load_path path s
  unsaved :
      s.saved ≡ false → s.load_path ≡ load_path → s.credential ≡ c → Stored m c load_path path s

pub record IsWriting {Credential : Type 0} (m : CredentialModel Credential) (c : Credential)
    (path : List ℕ) (w : Writing) : Type 0 where
  pub written : Written m c path w
  pub told : w.error_shown ≡ not w.saved
  pub released : account nothing_held w.memory ≡ some nothing_held

-- What the end of a save finds held.
abbrev writing_with : Bool → Bool → Held
writing_with text manager = record {
  raw = false;
  octets = false;
  text = text;
  manager = manager;
  file = true;
}

abbrev ending : Bool → Bool → List MemoryEvent
ending text manager =
    (if text then given_back text_buffer ∷ [] else [])
    ++ ((if manager then given_back plugin_manager ∷ [] else []) ++ given_back file_handle ∷ [])

account-ending :
    (text manager : Bool)
    → account (writing_with text manager) (ending text manager) ≡ some nothing_held
account-ending true true = refl
account-ending true false = refl
account-ending false true = refl
account-ending false false = refl

account-finish_write :
    (saved text : Bool) (codec : TextCodec) (files : List FileEvent) (memory : List MemoryEvent)
    → account nothing_held memory ≡ some (writing_with text codec.manager)
    → account nothing_held (finish_write saved text codec files memory).memory ≡ some nothing_held
unfolding finish_write close_codec
account-finish_write saved text codec files memory h =
    account-append nothing_held memory (ending text codec.manager)
    ∙ (ap (λ e. continued e (ending text codec.manager)) h ∙ account-ending text codec.manager)

is_text_ok-true : (t : TextStatus) → not (is_text_ok t) ≡ false → t ≡ text_ok
is_text_ok-true text_ok h = refl
is_text_ok-true text_unsupported h = cc
is_text_ok-true text_capacity h = cc
is_text_ok-true text_malformed h = cc
is_text_ok-true text_other h = cc

module _ {Credential : Type 0} (m : CredentialModel Credential) (system : SaveSystem)
    (c : Credential) (path : List ℕ) where
  finish-untouched :
      (text : Bool) (codec : TextCodec) (memory : List MemoryEvent)
      → account nothing_held memory ≡ some (writing_with text codec.manager)
      → IsWriting m c path (finish_write false text codec [] memory)
  unfolding finish_write
  finish-untouched text codec memory h = record {
    written = untouched refl refl;
    told = refl;
    released = account-finish_write false text codec [] memory h;
  }

  write_text-IsWriting :
      (room len : ℕ) (text : List ℕ) (memory : List MemoryEvent)
      → room ≤ credential_max_size
      → m.write c (some (room + 1)) ≡ (text_ok, len, text)
      → account nothing_held memory ≡ some (writing_with true false)
      → IsWriting m c path (write_text m system path text len memory)
  unfolding write_text finish_write
  write_text-IsWriting room len text memory b e h =
      let n = system.file_write (take len text) in
      let part = emptied path ∷ extended path (take n (take len text)) ∷ [] in
      let all = emptied path ∷ extended path (take len text) ∷ [] in
      if_rule (IsWriting m c path) (not system.file_creates)
        (λ _. finish-untouched true closed memory h)
        (λ _.
          if_rule (IsWriting m c path) (not (n == len))
            (λ _. record {
              written = cut_short n room len text e refl refl;
              told = refl;
              released = account-finish_write false true closed part memory h;
            })
            (λ _. record {
              written = whole room len text b e refl refl;
              told = refl;
              released = account-finish_write true true closed all memory h;
            }))

  render-IsWriting :
      (needed : ℕ) (memory : List MemoryEvent)
      → needed ≤ credential_max_size
      → account nothing_held memory ≡ some (writing_with false true)
      → IsWriting m c path (render m system c path needed opened memory)
  unfolding render close_codec
  render-IsWriting needed memory b h =
      let (st, len, text) = m.write c (some (needed + 1)) in
      let taking = taken text_buffer ∷ [] in
      let both = taken text_buffer ∷ given_back plugin_manager ∷ [] in
      if_rule (IsWriting m c path) (not system.text_malloc)
        (λ _. finish-untouched false opened memory h)
        (λ _.
          if_rule (IsWriting m c path) (not (is_text_ok st))
            (λ _.
              finish-untouched true opened (memory ++ taking)
                (account-append nothing_held memory taking ∙ ap (λ e. continued e taking) h))
            (λ k.
              write_text-IsWriting needed len text (memory ++ both) b
                (ap (λ s. (s, len, text)) (is_text_ok-true st k))
                (account-append nothing_held memory both ∙ ap (λ e. continued e both) h)))

  -- Whatever the codec, the heap and the storage answer, writing a credential gives back, once, every
  -- block and handle that it took, and shows the error dialog just when it has not saved. It writes
  -- the whole of a text that the codec rendered, or leaves the files untouched, or fails, having
  -- written an initial part of such a text.
  pub write_file-IsWriting : IsWriting m c path (write_file m system c path)
  unfolding write_file
  write_file-IsWriting = elim (open_codec-cases system.plugins true) [
    | fails codec es e k b ↦
        rw (write_file, e)
          (finish-untouched false codec (taken file_handle ∷ es)
            (rw k (b (writing_with false false) refl)))
    | opens e ↦
        let (st, needed, _) = m.write c none in
        let memory = taken file_handle ∷ taken plugin_manager ∷ [] in
        rw (write_file, e)
          (if_rule (IsWriting m c path) (not (is_text_capacity st) && not (is_text_ok st))
            (λ _. finish-untouched false opened memory refl)
            (λ _.
              if_rule (IsWriting m c path) (ltb credential_max_size needed)
                (λ _. finish-untouched false opened memory refl)
                (λ k. render-IsWriting needed memory (ground (arith, k)) refl)))
  ]

  pub save_to-Stored :
      (load_path : List ℕ) → Stored m c load_path path (save_to m system c load_path path)
  unfolding save_to
  save_to-Stored load_path = elim write_file-IsWriting.written [
    | whole room len text b e h f ↦ stored room len text e h (rw h refl) (rw h refl) f
    | untouched h f ↦ unsaved h (rw h refl) (rw h refl)
    | cut_short n room len text e h f ↦ unsaved h (rw h refl) (rw h refl)
  ]

module _ {Credential : Type 0} (m : CredentialModel Credential) (system : SaveSystem)
    (c : Credential) where
  -- Saving a loaded credential, where there is a load path: either the files hold the whole of a text
  -- that the codec rendered, at the load path with the binary extension replaced by the text one, that
  -- path is the load path and the credential is not dirty; or it is not saved, and the load path and
  -- the credential are as before.
  pub save_loaded-Stored :
      (load_path : List ℕ)
      → 0 < length load_path
      → Stored m c load_path (text_path m load_path) (save_loaded m system c load_path)
  unfolding save_loaded
  save_loaded-Stored load_path h =
      if_rule (Stored m c load_path (text_path m load_path)) (length load_path == 0)
        (λ e. ground (arith, e)) (λ _. save_to-Stored m system c (text_path m load_path) load_path)
