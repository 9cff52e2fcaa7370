-- ===== src/Reader/Blocks.antt =====
-- dfc_reader.c: the blocks that a reader holds, from `dfc_reader_alloc` to `dfc_reader_free`.
use dfc_flipper.Base.{
  ◌≡◌, refl, Bool, true, false, not, ◌||◌, Option, none, some, List, [], ◌∷◌, ◌++◌, if◌then◌else◌,
  set,
}

pub data Block : Type 0 where
  reader_block tx_buffer rx_buffer secure_messaging : Block

pub data BlockEvent : Type 0 where
  obtained : Block → BlockEvent
  released : Block → BlockEvent

-- What the heap answers: whether the reader and its two buffers get their blocks.
pub record ReaderHeap : Type 0 where
  pub reader : Bool
  pub tx : Bool
  pub rx : Bool

-- The block that a pointer has, where it is not NULL.
abbrev of_pointer : Bool → BlockEvent → List BlockEvent
of_pointer set e = if set then e ∷ [] else []

-- `dfc_reader_alloc`: whether it gives a reader, and what it takes and gives back.
unfoldable pub reader_alloc : ReaderHeap → Bool × List BlockEvent
reader_alloc heap =
    let buffers =
      obtained reader_block
      ∷ (of_pointer heap.tx (obtained tx_buffer) ++ of_pointer heap.rx (obtained rx_buffer)) in
    if not heap.reader
    then (false, [])
    else if not heap.tx || not heap.rx
    then (
      false,
      buffers
          ++ (of_pointer heap.tx (released tx_buffer)
              ++ (of_pointer heap.rx (released rx_buffer) ++ released reader_block ∷ [])),
    )
    else (true, buffers)

-- `dfc_reader_clear_secure_messaging`; `session` says whether the pointer is set.
unfoldable pub clear_secure_messaging : Bool → List BlockEvent
clear_secure_messaging session = if not session then [] else released secure_messaging ∷ []

-- `dfc_reader_free`
unfoldable pub reader_free : Bool → List BlockEvent
reader_free session =
    released tx_buffer
    ∷ released rx_buffer
    ∷ (clear_secure_messaging session ++ released reader_block ∷ [])

-- The end of `dfc_reader_authenticate`: the session before it goes, and `ok` says whether the new one gets
-- its block.
unfoldable pub start_session : Bool → (ok : Bool) → List BlockEvent
start_session session ok =
    clear_secure_messaging session ++ of_pointer ok (obtained secure_messaging)

-- A reader's life: it is allocated, authentications start sessions, and it is freed.
unfoldable pub life_from : Bool → List Bool → List BlockEvent
life_from session [] = reader_free session
life_from session (ok ∷ oks) = start_session session ok ++ life_from ok oks

unfoldable pub reader_life : ReaderHeap → List Bool → List BlockEvent
reader_life heap oks =
    let (given, events) = reader_alloc heap in
    if given then events ++ life_from false oks else events

-- Which blocks are held.
pub record Blocks : Type 0 where
  pub reader : Bool
  pub tx : Bool
  pub rx : Bool
  pub session : Bool

abbrev pub no_blocks : Blocks
no_blocks = record { reader = false; tx = false; rx = false; session = false }

abbrev has_block : Blocks → Block → Bool
has_block h reader_block = h.reader
has_block h tx_buffer = h.tx
has_block h rx_buffer = h.rx
has_block h secure_messaging = h.session

abbrev put_block : Blocks → Block → Bool → Blocks
put_block h reader_block b = record h { reader = b }
put_block h tx_buffer b = record h { tx = b }
put_block h rx_buffer b = record h { rx = b }
put_block h secure_messaging b = record h { session = b }

-- none for a block taken while it is held, or given back while it is not.
abbrev pub account_blocks : Blocks → List BlockEvent → Option Blocks
account_blocks h [] = some h
account_blocks h (obtained b ∷ es) =
    if has_block h b then none else account_blocks (put_block h b true) es
account_blocks h (released b ∷ es) =
    if has_block h b then account_blocks (put_block h b false) es else none

abbrev reading_with : Bool → Blocks
reading_with session = record { reader = true; tx = true; rx = true; session = session }

account-life_from :
    (session : Bool) (oks : List Bool)
    → account_blocks (reading_with session) (life_from session oks) ≡ some no_blocks
unfolding life_from reader_free start_session clear_secure_messaging
account-life_from true [] = refl
account-life_from false [] = refl
account-life_from true (true ∷ oks) = account-life_from true oks
account-life_from true (false ∷ oks) = account-life_from false oks
account-life_from false (true ∷ oks) = account-life_from true oks
account-life_from false (false ∷ oks) = account-life_from false oks

-- Whatever the heap answers and however many sessions start or fail to start, a reader gives back once each
-- block that it took: also where one of its buffers gets no block and there is no reader.
pub account-reader_life :
    (heap : ReaderHeap) (oks : List Bool)
    → account_blocks no_blocks (reader_life heap oks) ≡ some no_blocks
unfolding reader_life reader_alloc
account-reader_life heap oks = cases heap.reader heap.tx heap.rx
  where
    cases :
        (a b c : Bool)
        → account_blocks no_blocks (reader_life (record { reader = a; tx = b; rx = c }) oks)
          ≡ some no_blocks
    cases false b c = refl
    cases true true true = account-life_from false oks
    cases true true false = refl
    cases true false true = refl
    cases true false false = refl
