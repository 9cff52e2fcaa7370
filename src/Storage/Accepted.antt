-- ===== src/Storage/Accepted.antt =====
-- The stages of a load, from the last to the parsed text: each ends as `Verdict` says.
use dfc_flipper.Base.{
  ℕ, ◌≡◌, refl, ap, ◌∙◌, ◌≢◌, inl, inr, Bool, true, false, not, some, List, [], ◌∷◌, ◌++◌, if_rule,
}
use dfc_flipper.Storage.Model.{Laws, CredentialModel}
use dfc_flipper.Storage.Load.{
  own_octets, null_octets, Octets, LoadSystem, load_parsed, accept, load_copy, load_text, conclude,
}
use dfc_flipper.Storage.Codec.{close_codec, closed}
use dfc_flipper.Storage.Status.{
  LoadStatus, status_for, TextStatus, load_ok, unsupported_format, has_heap_for, der_failed,
  binary_load_heap_reserve, codec_unavailable, capacity, malformed_file, text_ok, text_unsupported,
  text_capacity, text_malformed, text_other,
}
use dfc_flipper.Storage.Memory.{
  MemoryEvent, account, nothing_held, taken, octets_buffer, given_back, plugin_manager, raw_buffer,
}
use dfc_flipper.Storage.Verdict.{
  IsConcluded, DerStatus-cases, conclude-dropped, status_for-ok, kept, account-conclude,
}
use dfc_flipper.Storage.Ledger.{held_by, account-append, continued}
use dfc_flipper.Storage.Opening.{opened, open_codec-cases, opens, fails}
use dfc_flipper.Ats.{ats_is_radio_supported}
use dfc_flipper.Storage.Reading.{not-false}

module _ {Credential : Type 0} (m : CredentialModel Credential) (system : LoadSystem) where
  pub accept-IsConcluded :
      (laws : Laws m) (c : Credential) (status : LoadStatus) (raw : Bool) (pointer : Octets)
      (octets name : List ℕ) (memory : List MemoryEvent)
      → status ≢ load_ok
      → account nothing_held memory ≡ some (held_by raw pointer false)
      → IsConcluded m name (accept m system c status raw pointer octets name memory)
  unfolding accept conclude
  accept-IsConcluded laws c status raw pointer octets name memory n h =
      let (d, r) = m.decode c octets in
      elim (DerStatus-cases r) [
        | inl e ↦
            rw (accept, e)
              (if_rule (IsConcluded m name) (not (m.uid_is_detectable d))
                (λ _. conclude-dropped m system status d raw pointer closed name memory n h)
                (λ u.
                  if_rule (IsConcluded m name) (not (m.picc_ats_is_consistent d))
                    (λ _.
                      conclude-dropped m system unsupported_format d raw pointer closed name memory
                        (λ q. cc) h)
                    (λ k.
                      if_rule (IsConcluded m name) (not (ats_is_radio_supported (m.picc_ats d)))
                        (λ _.
                          conclude-dropped m system unsupported_format d raw pointer closed name
                            memory (λ q. cc) h)
                        (λ a. record {
                          verdict = kept refl refl (record {
                            origin = c;
                            octets = octets;
                            decoded = d;
                            decodes = ap (λ s. (d, s)) e;
                            detectable = not-false (m.uid_is_detectable d) u;
                            consistent = not-false (m.picc_ats_is_consistent d) k;
                            radio = not-false (ats_is_radio_supported (m.picc_ats d)) a;
                            named = refl;
                          });
                          released =
                              account-conclude m system true load_ok d raw pointer closed name
                                memory h;
                        }))))
        | inr (t, e) ↦
            rw (accept, e)
              (conclude-dropped m system (status_for t) d raw pointer closed name memory
                (λ q. laws.decode_status c octets (e ∙ ap der_failed (status_for-ok t q))) h)
      ]

  load_copy-IsConcluded :
      (laws : Laws m) (c : Credential) (status : LoadStatus) (needed : ℕ) (name : List ℕ)
      (memory : List MemoryEvent)
      → status ≢ load_ok
      → account nothing_held memory ≡ some nothing_held
      → IsConcluded m name (load_copy m system c status needed name memory)
  unfolding load_copy
  load_copy-IsConcluded laws c status needed name memory n h =
      let (d, octets) = m.encode c needed in
      let memory' = memory ++ taken octets_buffer ∷ [] in
      let h' =
        account-append nothing_held memory (taken octets_buffer ∷ [])
        ∙ ap (λ e. continued e (taken octets_buffer ∷ [])) h in
      if_rule (IsConcluded m name)
        (not (has_heap_for system.memory_at_copy needed binary_load_heap_reserve))
        (λ _. conclude-dropped m system capacity c false null_octets closed name memory (λ q. cc) h)
        (λ _.
          if_rule (IsConcluded m name) (not system.octets_malloc)
            (λ _.
              conclude-dropped m system capacity c false null_octets closed name memory (λ q. cc) h)
            (λ _. elim (DerStatus-cases d) [
              | inl e ↦
                  rw (load_copy, e)
                    (accept-IsConcluded laws c status false own_octets octets name memory' n h')
              | inr (t, e) ↦
                  rw (load_copy, e)
                    (conclude-dropped m system (status_for t) c false own_octets closed name memory'
                      (λ q. laws.encode_status c needed (e ∙ ap der_failed (status_for-ok t q))) h')
            ]))

  load_parsed-IsConcluded :
      (laws : Laws m) (c : Credential) (text : TextStatus) (status : LoadStatus) (name : List ℕ)
      (memory : List MemoryEvent)
      → status ≢ load_ok
      → account nothing_held memory ≡ some (held_by true null_octets true)
      → IsConcluded m name (load_parsed m system c text status opened name memory)
  unfolding load_parsed close_codec status_for
  load_parsed-IsConcluded laws c text_ok status name memory n h =
      let d = (m.encoded_size c).0 in
      let needed = (m.encoded_size c).1 in
      let closing = given_back plugin_manager ∷ [] in
      let releasing = given_back raw_buffer ∷ [] in
      let h' = account-append nothing_held memory closing ∙ ap (λ e. continued e closing) h in
      let h'' =
        account-append nothing_held (memory ++ closing) releasing
        ∙ ap (λ e. continued e releasing) h' in
      elim (DerStatus-cases d) [
        | inl e ↦
            rw (load_parsed, e)
              (load_copy-IsConcluded laws c status needed name ((memory ++ closing) ++ releasing) n
                h'')
        | inr (t, e) ↦
            rw (load_parsed, e)
              (conclude-dropped m system (status_for t) c true null_octets closed name
                (memory ++ closing)
                (λ q. laws.size_status c (e ∙ ap der_failed (status_for-ok t q))) h')
      ]
  load_parsed-IsConcluded laws c text_unsupported status name memory n h =
      conclude-dropped m system unsupported_format c true null_octets opened name memory (λ q. cc) h
  load_parsed-IsConcluded laws c text_capacity status name memory n h =
      conclude-dropped m system capacity c true null_octets opened name memory (λ q. cc) h
  load_parsed-IsConcluded laws c text_malformed status name memory n h =
      conclude-dropped m system malformed_file c true null_octets opened name memory (λ q. cc) h
  load_parsed-IsConcluded laws c text_other status name memory n h =
      conclude-dropped m system malformed_file c true null_octets opened name memory (λ q. cc) h

  pub load_text-IsConcluded :
      (laws : Laws m) (c : Credential) (status : LoadStatus) (raw name : List ℕ)
      (memory : List MemoryEvent)
      → status ≢ load_ok
      → account nothing_held memory ≡ some (held_by true null_octets false)
      → IsConcluded m name (load_text m system c status raw name memory)
  unfolding load_text
  load_text-IsConcluded laws c status raw name memory n h =
      elim (open_codec-cases system.plugins false) [
        | opens e ↦
            let taking = taken plugin_manager ∷ [] in
            rw (load_text, e)
              (load_parsed-IsConcluded laws (m.parse c raw).0 (m.parse c raw).1 status name
                (memory ++ taking) n
                (account-append nothing_held memory taking ∙ ap (λ e. continued e taking) h))
        | fails codec es e k b ↦
            rw (load_text, e)
              (conclude-dropped m system codec_unavailable c true null_octets codec name
                (memory ++ es) (λ q. cc)
                (account-append nothing_held memory es
                  ∙ (ap (λ e. continued e es) h ∙ rw k (b (held_by true null_octets false) refl))))
      ]
