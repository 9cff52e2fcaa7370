-- ===== src/Storage/Ledger.antt =====
-- The accounting of a load: what its end finds held, and that it gives all of it back.
use dfc_flipper.Base.{
  ◌≡◌, refl, inl, inr, Bool, true, false, Option, none, some, List, [], ◌∷◌, ◌++◌, if◌then◌else◌,
  Bool-cases,
}
use dfc_flipper.Storage.Load.{own_octets, raw_octets, null_octets, Octets}
use dfc_flipper.Storage.Memory.{
  Held, MemoryEvent, account, nothing_held, taken, holds, put, given_back, octets_buffer,
  raw_buffer, plugin_manager,
}

-- What the end of a load finds held.
abbrev pub held_by : Bool → Octets → Bool → Held
held_by raw pointer manager = record {
  raw = raw;
  octets = elim pointer [ own_octets ↦ true | _ ↦ false ];
  text = false;
  manager = manager;
  file = false;
}

abbrev pub continued : Option Held → List MemoryEvent → Option Held
continued none es = none
continued (some h) es = account h es

-- The account of a run is that of its second part from where the first part ends.
pub account-append :
    (h : Held) (xs ys : List MemoryEvent) → account h (xs ++ ys) ≡ continued (account h xs) ys
account-append h [] ys = refl
account-append h (taken r ∷ xs) ys = elim (Bool-cases (holds h r)) [
  | inl c ↦ rw c refl
  | inr c ↦ rw c (account-append (put h r true) xs ys)
]
account-append h (given_back r ∷ xs) ys = elim (Bool-cases (holds h r)) [
  | inl c ↦ rw c (account-append (put h r false) xs ys)
  | inr c ↦ rw c refl
]

-- The releases at the end of a load.
abbrev pub releases : Bool → Octets → Bool → List MemoryEvent
releases raw pointer manager =
    elim pointer [ own_octets ↦ given_back octets_buffer ∷ [] | _ ↦ [] ]
    ++ ((if raw then given_back raw_buffer ∷ [] else [])
        ++ (if manager then given_back plugin_manager ∷ [] else []))

pub account-releases :
    (raw : Bool) (pointer : Octets) (manager : Bool)
    → account (held_by raw pointer manager) (releases raw pointer manager) ≡ some nothing_held
account-releases true null_octets true = refl
account-releases true raw_octets true = refl
account-releases true own_octets true = refl
account-releases false null_octets true = refl
account-releases false raw_octets true = refl
account-releases false own_octets true = refl
account-releases true null_octets false = refl
account-releases true raw_octets false = refl
account-releases true own_octets false = refl
account-releases false null_octets false = refl
account-releases false raw_octets false = refl
account-releases false own_octets false = refl
