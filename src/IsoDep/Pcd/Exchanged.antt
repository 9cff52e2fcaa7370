-- ===== src/IsoDep/Pcd/Exchanged.antt =====
-- One command of the reader of IsoDep/Pcd and its response, through dfc_emulator_listener.c.
use dfc_flipper.Base.{
  ℕ, suc, ◌-◌, ◌<◌, ◌≡◌, true, false, Option, some, List, [], arith, drop, ap, Bool, if◌then◌else◌,
  get_or, ◌∙◌, ◌∷◌, ◌++◌, toggle,
}
use dfc_flipper.ByteBuf.{contents}
use dfc_flipper.IsoDep.Invariant.{IsValid}
use dfc_flipper.Engine.{Engine, Laws}
use dfc_flipper.IsoDep.State.{Dfc, iso_dep_frame_max, prefix_len}
use dfc_flipper.IsoDep.Respond.{Response, engine_at}
use dfc_flipper.IsoDep.Send.{
  begin_response, i_frame, send_i_response, advance_response, response_prefix,
}
use dfc_flipper.Events.{frames, transmit, frames-append, Effect}
use dfc_flipper.IsoDep.Pcd.{framing_len, number_after, collect}
use dfc_flipper.IsoDep.Framed.{Framed}
use dfc_flipper.IsoDep.Links.{link_pcb, link_facts}
use dfc_flipper.IsoDep.Frames.{Pending}
use dfc_flipper.IsoDep.Apdu.{after}
use dfc_flipper.IsoDep.Pcd.Collected.{collect_lem}
use dfc_flipper.IsoDep.Delivery.{begin_response-Pending, send_i_lem}
use dfc_flipper.IsoDep.Pcd.Expected.{sent}

module _ {Emulator : Type 0} (core : Engine Emulator) where
  -- Between two commands: no response under way, nothing collected.
  pub record IsReady (s : Dfc Emulator) : Type 0 where
    pub valid : IsValid core s
    pub idle : s.response_offset ≡ 0
    pub vacant : s.command ≡ []

  -- What the reader has, and what is left, once a command is answered by `r`.
  pub record IsAnsweredBy (s : Dfc Emulator) (result : Option (ℕ × Dfc Emulator × List ℕ))
      (r : Response Emulator) : Type 0 where
    pub next : Dfc Emulator
    pub returned :
        result
        ≡ some (
          next.expected_pcd_block,
          next,
          drop (framing_len core s.cid_valid s.cid) (contents r.tx_buffer),
        )
    pub ready : IsReady next
    pub emulator : next.emulator ≡ r.emulator
    pub tx_buffer : next.tx_buffer ≡ r.tx_buffer
    pub number :
        next.expected_pcd_block
        ≡ number_after
            (suc core.bytebuf_max)
            (iso_dep_frame_max - framing_len core s.cid_valid s.cid)
            s.expected_pcd_block
            (r.tx_buffer.size_bytes - framing_len core s.cid_valid s.cid)
    pub cid_valid : next.cid_valid ≡ s.cid_valid
    pub cid : next.cid ≡ s.cid
    pub alternates : next.picc_block ≡ toggle next.expected_pcd_block

module _ {Emulator : Type 0} (core : Engine Emulator) (laws : Laws core) where
  pub engine_at-Pending :
      (s : Dfc Emulator) (pcb : ℕ) (r : Response Emulator)
      → IsReady core s
      → pcb < 256
      → Framed core pcb r.tx_buffer
      → Pending core (engine_at s r.emulator r.tx_buffer)
  engine_at-Pending s pcb r i small f = record {
    valid = record {
      buffer = f.valid;
      frame_bound = i.valid.frame_bound;
      expected_bit = i.valid.expected_bit;
      picc_bit = i.valid.picc_bit;
      command_bound = i.valid.command_bound;
      offset_bound = rw i.idle (omega arith);
    };
    whole = rw f.first f.whole;
    octet = rw f.first small;
  }

  prefix_of :
      (s : Dfc Emulator) (r : Response Emulator)
      → IsReady core s
      → Framed core (link_pcb s.expected_pcd_block s.cid_valid false) r.tx_buffer
      → prefix_len core (get_or r.tx_buffer.octets 0 0) ≡ framing_len core s.cid_valid s.cid
  prefix_of s r i f =
      let (_, _, _, with_cid, _, _) =
        link_facts s.expected_pcd_block i.valid.expected_bit s.cid_valid false in
      rw (f.first, laws.cid_mask_lem) (ap (λ (b : Bool). if b then 2 else 1) with_cid)

  -- A response, from the listener's first frame to the reader's last.
  pub collect-send_i_response :
      (s : Dfc Emulator) (r : Response Emulator)
      → IsReady core s
      → frames r.events ≡ []
      → Framed core (link_pcb s.expected_pcd_block s.cid_valid false) r.tx_buffer
      → let (t, out) =
          after r.events (send_i_response core true (engine_at s r.emulator r.tx_buffer)) in
        IsAnsweredBy core s
          (collect core s.cid_valid s.cid
            (suc core.bytebuf_max)
            s.expected_pcd_block
            t
            (frames out))
          r
  unfolding begin_response advance_response
  collect-send_i_response s r i silent f =
      let (small, _, _, with_cid, _, _) =
        link_facts s.expected_pcd_block i.valid.expected_bit s.cid_valid false in
      let q = engine_at-Pending s (link_pcb s.expected_pcd_block s.cid_valid false) r i small f in
      let x : Dfc Emulator = engine_at s r.emulator r.tx_buffer in
      let u = begin_response core x in
      let prefix : response_prefix core x ≡ framing_len core s.cid_valid s.cid =
        prefix_of s r i f in
      let received =
        collect_lem core laws (suc core.bytebuf_max) {u = u}
          (record {
            pending = begin_response-Pending core laws q;
            number = s.expected_pcd_block;
            number_bit = i.valid.expected_bit;
            framing = f.first;
          })
          (omega (arith, f.valid.in_use)) in
      let one_frame : frames (r.events ++ transmit (i_frame core u) ∷ []) ≡ i_frame core u ∷ [] =
        frames-append r.events _ ∙ ap (λ fs. fs ++ i_frame core u ∷ []) silent in
      let take_in = collect core s.cid_valid s.cid (suc core.bytebuf_max) s.expected_pcd_block in
      record {
        next = received.after_all;
        returned =
            ap (λ (p : Dfc Emulator × List Effect). take_in p.0 (frames p.1))
              (ap (after r.events) (send_i_lem core laws q))
            ∙ ap (take_in (sent core u)) one_frame
            ∙ received.received
            ∙ ap
                (λ n. some (
                  received.after_all.expected_pcd_block,
                  received.after_all,
                  drop n (contents r.tx_buffer),
                ))
                prefix;
        ready = record {
          valid = received.settled.valid;
          idle = received.settled.idle;
          vacant = received.settled.command ∙ i.vacant;
        };
        emulator = received.settled.emulator;
        tx_buffer = received.settled.tx_buffer;
        number =
            received.counted
            ∙ ap
                (λ n.
                  number_after (suc core.bytebuf_max) (iso_dep_frame_max - n) s.expected_pcd_block
                    (r.tx_buffer.size_bytes - n))
                prefix;
        cid_valid = received.settled.cid_valid;
        cid = received.settled.cid;
        alternates = received.settled.alternates;
      }
