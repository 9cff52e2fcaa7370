-- ===== src/Lib.antt =====
-- DFC, an application for the Flipper Zero that reads, keeps and emulates MIFARE DESFire credentials:
-- a model of its own code, and what has been proved of it.
--
-- The program has four parts that carry its logic. While a credential is emulated, the SDK's radio
-- listener calls `dfc_worker_listener_callback` for every frame; it speaks ISO-DEP (ISO/IEC 14443-4),
-- hands whole commands to the engine of lib/core and sends the engine's answer in frames of at most 62
-- octets. The storage module loads, saves and deletes the credential files, and refuses what the
-- listener could not emulate. The reader authenticates to a card and reads its files. The scenes
-- join them: each has functions for its entry, its events and its exit, which change the fields of `Dfc`
-- and ask the SDK's scene manager for the next scene. dfc.c takes and gives back what they share.
--
-- Files and the code that they model:
--   Base, Base/*           shared: Boolean tests, lists by native numbers, octets and their bits.
--   ByteBuf, ByteBuf/*     port/dfc_bytebuf_flipper.c, the engine's response buffer (`append_to` is
--                          `dfc_bytebuf_append_bytes`, the others have the functions' names).
--   Events                 the custom events of dfc_i.h, and `dfc_port_notify` of
--                          port/dfc_port_flipper.c.
--   Port                   `dfc_platform_alloc` of port/dfc_port_flipper.c.
--   Engine, Engine/Echo    what the listener uses of lib/core, a submodule: a record of functions, what
--                          the listener relies on (`Laws`), and an instance of both.
--   IsoDep/State, Send,    dfc_emulator_listener.c: the fields of `Dfc` as a record, and one function
--     Apdu, Receive        per function or section of the callback, from the state to the state and
--                          the effects (frames on air, custom events).
--   IsoDep/Session         the start in scenes/dfc_scene_emulate.c, and runs of the radio's events.
--   IsoDep/Framed,         the invariant of the listener, through sending, the engine's answer and
--     Invariant,           every kind of block.
--     Handling, Control,
--     Bounds
--   IsoDep/Respond,        the response to a bare command as a function of the emulator and the response
--     Answering            buffer, written apart from the sending; the listener's code is this function
--                          and then its `send_i_response`.
--   IsoDep/Frames, Ack,    what a reader receives: the header of a frame, a long response, a repeated
--     Delivery, Routing,   block, a chained command.
--     Replay, Links, Chain
--   IsoDep/Nak, Lost,      R(NAK), lost blocks and lost answers.
--     Lossy
--   IsoDep/Pcd             a reader of ISO/IEC 14443-4 with its own block number, which checks every
--                          answer, and what the engine's side answers to its commands (`answers`).
--   IsoDep/Pcd/*           their conversations, command by command and from the start of an activation.
--   IsoDep/Lossy/*         their conversations over a link that loses blocks on both ways.
--   Type4, Type4/*         dfc_emulator_listener.c in the build with the SDK's type_4_tag protocol, which
--                          frames whole commands and responses by itself; the handling of a bare
--                          command (`handle_bare` of IsoDep/Apdu) is that of both builds.
--   Ats, Ats/*             the answer to select: `dfc_credential_ats_is_radio_supported` at load and
--                          `dfc_set_listener_ats` of scenes/dfc_scene_emulate.c.
--   Storage/Status,        dfc_credential_storage.c: statuses, the accounting of blocks and handles,
--     Memory, Codec,       the text plugin, what is used of lib/core, loading, saving and deleting.
--     Model, Load, Save
--   Storage/Ledger,        what a load and a save leave.
--     Opening, Reading,
--     Verdict, Accepted,
--     Loaded, Saved, Paths,
--     Reload
--   Storage/Plugin,        text_plugin/dfc_text_codec.c: the entry point of the plugins, and their calls of
--     HostApi              the application through DfcTextHostApi.
--   Storage/Toy            an instance of what Storage/Model asks of lib/core.
--   Reader/Model           what dfc_reader.c uses of lib/core, and the card.
--   Reader/Steps, Files    dfc_reader.c: exchange, selection, authentication, reading, the state machine
--                          and the poller's callback.
--   Reader/Blocks          dfc_reader.c: the blocks of a reader, from its allocation to its release.
--   Reader/Card            a card that holds its end of the authentication, written from the messages that
--                          dfc_reader.c expects.
--   Reader/Proved,         what they establish.
--     Genuine, Reports,
--     Authentic
--   About, About/*         the text of scenes/dfc_scene_about.c: its words, lines and characters, and the
--                          bounds of its arrays.
--   App/State, Core, Text  the fields of `Dfc` that the scenes change, the views, what the scenes use of
--                          lib/core and the SDK, and the conversions of printf.
--   App/Menus, Saving,     scenes/dfc_scene_*.c: `enter_x`, `handle_x` and `exit_x` for on_enter, on_event and
--     Cards, Reports,      on_exit of a scene x.
--     AboutScene
--   App/Scenes             the tables of handlers of scenes/dfc_scene.c, and visits of scenes.
--   App/Device             dfc.c: the light, the text store, the loading popup, the callbacks of the view
--                          dispatcher.
--   App/Probe              dfc.c: `dfc_log_memory` in the build with DFC_MEMORY_PROBE.
--   App/Life               dfc.c: what `dfc_alloc` takes and `dfc_free` gives back, in order.
--   App/Rest, Visits,      what runs of the scenes leave: resources, the files and credentials that a choice
--     Releases, Settled,   changes, the scenes that open, the field `emulate_from_blank`, a blank card, and
--     Selected, Asked,     what is shown of a credential.
--     Named, Keeps, Flag,
--     Blank, Reading,
--     Shown
--   */Tests                runs on concrete values, and each theorem at one.
--
-- Conventions. A function that changes `*dfc` or another object returns it. What the SDK, the heap, the
-- card and lib/core answer is an argument; octets are native numbers, and a subtraction of sizes that
-- may wrap around is written with the wrap-around of 32 bits (`sub_size`). The codecs and the
-- credential are known through the functions that the code calls (Storage/Model, Reader/Model). The
-- functions recurse on their lists. Two counts stand for fuel: that of acknowledgements of a reader in
-- IsoDep/Delivery, as many as the response has octets, and that of frames of a response in IsoDep/Pcd,
-- one more than the buffer has octets. Each frame carries at least one.
--
-- A handler asks the scene manager as the last thing that it does, and the manager's answer is an argument
-- where a handler returns it. What a handler writes to files is part of its result (`files`). The stack of scenes is the SDK's: a run is any sequence of visits, which
-- has the runs of the application among it. A text on a view is a list of octets; the about text's loop
-- runs on fuel, one more round than the paragraph has characters, since each round takes one at least.
--
-- Not modelled: lib/core itself and the text plugins built from it, which are submodules or glue;
-- other logging, notifications, icons and the places of texts on a view; callbacks that only send a custom
-- event.
pub mod Base
pub mod ByteBuf
pub mod Events
pub mod Port
pub mod Engine
pub mod IsoDep
pub mod Type4
pub mod Ats
pub mod Storage
pub mod Reader
pub mod About
pub mod App
