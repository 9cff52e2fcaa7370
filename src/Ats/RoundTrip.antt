-- ===== src/Ats/RoundTrip.antt =====
-- What the test at load promises the radio.
use dfc_flipper.Base.{
  List, ℕ, ◌≡◌, ◌∷◌, bit_and, if◌then◌else◌, true, arith, has, ◌≤◌, [], ◌/◌, ◌++◌, ◌^◌, false, Bool,
  ◌<◌, length, some, get_or, drop, ◌+◌, refl, suc, ap, ◌∙◌, zero, ◌≢◌, Option, none, inl, inr, ltb,
  take, ◌-◌, Bool-cases, sym, drop_all, ltb→lt, take_all, length-drop, subst,
}
use dfc_flipper.Ats.{
  ListenerAts, check_tb, check_ta, check_tc, next_field, ats_is_radio_supported, ◌>>=◌, is_some,
  unpack, set_listener_ats,
}

-- The flat ATS that ISO/IEC 14443-4 puts on air for the listener's fields.
abbrev pub flat : ListenerAts → List ℕ
flat a =
    a.tl ∷ a.t0 ∷ (if has a.t0 0x10 then a.ta_1 ∷ [] else [])
    ++ ((if has a.t0 0x20 then a.tb_1 ∷ [] else [])
        ++ ((if has a.t0 0x40 then a.tc_1 ∷ [] else []) ++ a.t1_tk))

-- The listener's fields are an ATS, and one within what the listener can do.
pub record IsDeliverable (ats : List ℕ) (a : ListenerAts) : Type 0 where
  pub same : flat a ≡ ats
  pub frame_64 : bit_and a.t0 0x0F ≡ 5
  pub rate_106 : a.ta_1 ≡ 0
  pub waiting : 8 ≤ a.tb_1 / 2 ^ 4
  pub no_nad : has a.tc_1 0x01 ≡ false

drop-cons : (xs : List ℕ) (i : ℕ) → i < length xs → get_or xs i 0 ∷ drop (i + 1) xs ≡ drop i xs
drop-cons [] i h = absurd (omega arith)
drop-cons (x ∷ xs) zero h = refl
drop-cons (x ∷ xs) (suc i) h =
    ap (λ n. get_or xs i 0 ∷ drop n (x ∷ xs)) (suc_one i) ∙ drop-cons xs i (omega arith)
  where
    suc_one : (n : ℕ) → suc n + 1 ≡ suc (n + 1)
    suc_one n = omega arith

-- A field that is read and what follows it are the octets from its offset on.
next_field-drop :
    (p : Bool) (ats : List ℕ) (i : ℕ)
    → (p ≡ true → i < length ats)
    → (if p then (next_field p ats (length ats) i).0 ∷ [] else [])
        ++ drop (next_field p ats (length ats) i).1 ats
      ≡ drop i ats
unfolding next_field
next_field-drop true ats i h = ground (arith, h refl, drop-cons ats i)
next_field-drop false ats i h = refl

-- What a test of an interface byte says of the field that is read there.
check_ta_lem :
    (ats : List ℕ) (t0 i : ℕ) {j : ℕ}
    → check_ta ats t0 i ≡ some j
    → (has t0 0x10 ≡ true → i < length ats)
      × ((next_field (has t0 0x10) ats (length ats) i).0 ≡ 0)
      × ((next_field (has t0 0x10) ats (length ats) i).1 ≡ j)
unfolding check_ta next_field
check_ta_lem ats t0 i h = ground arith

check_tb_lem :
    (ats : List ℕ) (t0 i : ℕ) {j : ℕ}
    → check_tb ats t0 i ≡ some j
    → (has t0 0x20 ≡ true → i < length ats)
      × (8 ≤ (next_field (has t0 0x20) ats (length ats) i).0 / 2 ^ 4)
      × ((next_field (has t0 0x20) ats (length ats) i).1 ≡ j)
unfolding check_tb next_field
check_tb_lem ats t0 i h = ground arith

check_tc_lem :
    (ats : List ℕ) (t0 i : ℕ) {j : ℕ}
    → check_tc ats t0 i ≡ some j
    → (has t0 0x40 ≡ true → i < length ats)
      × (has (next_field (has t0 0x40) ats (length ats) i).0 0x01 ≡ false)
      × ((next_field (has t0 0x40) ats (length ats) i).1 ≡ j)
unfolding check_tc next_field
check_tc_lem ats t0 i h = ground arith

-- The tests that a supported ATS has passed, in order, with the offsets between them.
record Passed (ats : List ℕ) : Type 0 where
  declared : get_or ats 0 0 ≡ length ats
  two : 2 ≤ length ats
  fsci : bit_and (get_or ats 1 0) 0x0F ≡ 5
  after_ta : ℕ
  after_tb : ℕ
  after_tc : ℕ
  ta : check_ta ats (get_or ats 1 0) 2 ≡ some after_ta
  tb : check_tb ats (get_or ats 1 0) after_ta ≡ some after_tb
  tc : check_tc ats (get_or ats 1 0) after_tb ≡ some after_tc

bind_inversion :
    {A B : Type 0} (o : Option A) (f : A → Option B)
    → is_some (o >>= f) ≡ true
    → (a : A) × (o ≡ some a) × (is_some (f a) ≡ true)
bind_inversion none f h = cc
bind_inversion (some a) f h = (a, refl, h)

is_some_inversion : {A : Type 0} (o : Option A) → is_some o ≡ true → (a : A) × (o ≡ some a)
is_some_inversion none h = cc
is_some_inversion (some a) h = (a, refl)

is_some-of : {A : Type 0} {o : Option A} {a : A} → o ≡ some a → is_some o ≡ true
is_some-of e = rw e

heads :
    (ats : List ℕ)
    → ats_is_radio_supported ats ≡ true
    → length ats ≢ 0
    → (get_or ats 0 0 ≡ length ats)
      × (2 ≤ length ats)
      × (bit_and (get_or ats 1 0) 0x0F ≡ 5)
      × (is_some (
            check_ta ats (get_or ats 1 0) 2
            >>= check_tb ats (get_or ats 1 0)
            >>= check_tc ats (get_or ats 1 0))
          ≡ true)
unfolding ats_is_radio_supported
heads ats h ne = ground arith

-- The offsets are those that the tests compute.
passed : (ats : List ℕ) → ats_is_radio_supported ats ≡ true → length ats ≢ 0 → Passed ats
passed ats h ne =
    let t0 : ℕ = get_or ats 1 0 in
    let (declared, two, fsci, chain) = heads ats h ne in
    let (k, e, last) =
      bind_inversion (check_ta ats t0 2 >>= check_tb ats t0) (check_tc ats t0) chain in
    let (j, ta, f) = bind_inversion (check_ta ats t0 2) (check_tb ats t0) (is_some-of e) in
    let (l, tc) = is_some_inversion (check_tc ats t0 k) last in
    record {
      declared = declared;
      two = two;
      fsci = fsci;
      after_ta = j;
      after_tb = k;
      after_tc = l;
      ta = ta;
      tb = rw ta at e;
      tc = tc;
    }

-- The three fields and the historical bytes, for tests that have been passed.
set_listener_ats-unpack :
    (ats : List ℕ) → Passed ats → set_listener_ats ats ≡ unpack ats (length ats)
unfolding set_listener_ats
set_listener_ats-unpack ats q = ground (arith, q.declared, q.two)

historical :
    (ats : List ℕ) (i : ℕ)
    → (if ltb (length ats) i then [] else take (length ats - i) (drop i ats)) ≡ drop i ats
historical ats i = elim (Bool-cases (ltb (length ats) i)) [
  | inl e ↦ rw e (sym (drop_all i ats (omega (arith, ltb→lt _ _ e))))
  | inr e ↦ rw e (take_all (length ats - i) (drop i ats) (omega (arith, length-drop i ats)))
]

next_field-t0 :
    (ats : List ℕ) → 2 ≤ length ats → next_field true ats (length ats) 1 ≡ (get_or ats 1 0, 2)
unfolding next_field
next_field-t0 ats h = ground arith

unpack_lem :
    (ats : List ℕ) (t0 j k l : ℕ)
    → next_field true ats (length ats) 1 ≡ (t0, 2)
    → (next_field (has t0 0x10) ats (length ats) 2).1 ≡ j
    → (next_field (has t0 0x20) ats (length ats) j).1 ≡ k
    → (next_field (has t0 0x40) ats (length ats) k).1 ≡ l
    → unpack ats (length ats) ≡ record {
      tl = get_or ats 0 0;
      t0 = t0;
      ta_1 = (next_field (has t0 0x10) ats (length ats) 2).0;
      tb_1 = (next_field (has t0 0x20) ats (length ats) j).0;
      tc_1 = (next_field (has t0 0x40) ats (length ats) k).0;
      t1_tk = drop l ats;
    }
unfolding unpack
unpack_lem ats t0 j k l e f g h = rw (e, f, g, h, historical)

-- A field that is there and what follows it are the octets from its offset on.
field_at :
    (p : Bool) (ats : List ℕ) (i : ℕ) {j : ℕ}
    → (p ≡ true → i < length ats)
    → (next_field p ats (length ats) i).1 ≡ j
    → (if p then (next_field p ats (length ats) i).0 ∷ [] else []) ++ drop j ats ≡ drop i ats
field_at p ats i h e =
    subst
      (λ n. (if p then (next_field p ats (length ats) i).0 ∷ [] else []) ++ drop n ats ≡ drop i ats)
      e (next_field-drop p ats i h)

three_parts :
    (a b c d₃ : List ℕ) {d₀ d₁ d₂ : List ℕ}
    → a ++ d₁ ≡ d₀
    → b ++ d₂ ≡ d₁
    → c ++ d₃ ≡ d₂
    → a ++ (b ++ (c ++ d₃)) ≡ d₀
three_parts a b c d₃ e f g = ap (λ xs. a ++ (b ++ xs)) g ∙ ap (◌++◌ a) f ∙ e

first_two : (ats : List ℕ) → 2 ≤ length ats → get_or ats 0 0 ∷ get_or ats 1 0 ∷ drop 2 ats ≡ ats
first_two [] h = absurd (omega arith)
first_two (x ∷ []) h = absurd (omega arith)
first_two (x ∷ y ∷ ats) h = refl

deliverable : (ats : List ℕ) → Passed ats → IsDeliverable ats (unpack ats (length ats))
deliverable ats q =
    let t0 : ℕ = get_or ats 1 0 in
    let part : Bool → ℕ → List ℕ =
      λ p i. if p then (next_field p ats (length ats) i).0 ∷ [] else [] in
    let (a, ta, j) = check_ta_lem ats t0 2 q.ta in
    let (b, tb, k) = check_tb_lem ats t0 q.after_ta q.tb in
    let (c, tc, l) = check_tc_lem ats t0 q.after_tb q.tc in
    rw (unpack_lem ats t0 q.after_ta q.after_tb q.after_tc (next_field-t0 ats q.two) j k l)
      (record {
        same =
            ap (λ octets. get_or ats 0 0 ∷ t0 ∷ octets)
              (three_parts (part (has t0 0x10) 2) (part (has t0 0x20) q.after_ta)
                (part (has t0 0x40) q.after_tb) (drop q.after_tc ats)
                (field_at (has t0 0x10) ats 2 a j) (field_at (has t0 0x20) ats q.after_ta b k)
                (field_at (has t0 0x40) ats q.after_tb c l))
            ∙ first_two ats q.two;
        frame_64 = q.fsci;
        rate_106 = ta;
        waiting = tb;
        no_nad = tc;
      })

-- An ATS that the test at load accepts reaches the radio whole and within what the listener can do:
-- put back on air, the listener's fields are the credential's ATS, octet for octet, and they say a
-- 64-octet frame, 106 kbit/s only, a frame waiting time index of 8 at least, and no NAD. (A
-- credential without an ATS is accepted too.)
pub radio_supported-IsDeliverable :
    (ats : List ℕ)
    → length ats ≢ 0
    → ats_is_radio_supported ats ≡ true
    → IsDeliverable ats (set_listener_ats ats)
radio_supported-IsDeliverable ats ne h =
    let q = passed ats h ne in rw (set_listener_ats-unpack ats q) (deliverable ats q)
