-- ===== src/Storage/Opening.antt =====
-- What `dfc_text_codec_open` leaves.
use dfc_flipper.Base.{◌≡◌, refl, Bool, true, false, not, some, List, [], ◌∷◌, ◌==◌, if_rule}
use dfc_flipper.Storage.Memory.{Held, account, MemoryEvent, taken, plugin_manager, given_back}
use dfc_flipper.Storage.Codec.{open_codec, TextCodec, PluginSystem, closed, is_usable, plugin_for}

abbrev pub opened : TextCodec
opened = record { manager = true; api = true }

-- Either the codec is open and its plugin manager is held, or none is.
pub data Opening (r : TextCodec × Bool × List MemoryEvent) : Type 0 where
  opens : r ≡ (opened, true, taken plugin_manager ∷ []) → Opening r
  fails :
      (codec : TextCodec) (es : List MemoryEvent)
      → r ≡ (codec, false, es)
      → codec.manager ≡ false
      → ((h : Held) → h.manager ≡ false → account h es ≡ some h)
      → Opening r

account-briefly :
    (h : Held)
    → h.manager ≡ false
    → account h (taken plugin_manager ∷ given_back plugin_manager ∷ []) ≡ some h
account-briefly h e = rw e refl

pub open_codec-cases :
    (system : PluginSystem) (for_write : Bool) → Opening (open_codec system closed for_write)
unfolding open_codec
open_codec-cases system for_write =
    if_rule Opening (not (system.alloc_ok (plugin_for for_write)))
      (λ _. fails closed [] refl refl (λ h e. refl))
      (λ _.
        if_rule Opening (not (system.loads (plugin_for for_write)))
          (λ _. fails closed _ refl refl account-briefly)
          (λ _.
            if_rule Opening (not (system.count (plugin_for for_write) == 1))
              (λ _. fails closed _ refl refl account-briefly)
              (λ _.
                if_rule Opening (not (is_usable for_write (system.entry (plugin_for for_write))))
                  (λ _. fails closed _ refl refl account-briefly) (λ _. opens refl))))
