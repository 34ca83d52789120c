-- ===== src/Runtime/Development/Answers.antt =====
-- How the kernel answers a request whose hooks pass and whose handler responds.
use game_server_go.Base.{
  ℕ, ◌≡◌, refl, ap, ◌∙◌, ◌≤◌, ◌<◌, ◌+◌, ◌^◌, [], ◌∷◌, ◌++◌, Option, none, some, ok, length,
}
use game_server_go.Base.Text.{Bytes}
use game_server_go.Messages.{Message, type_of}
use game_server_go.Protocol.Codec.{Frame, encode, decode, max_frame_size, header_size}
use game_server_go.Protocol.Codec.RoundTrip.{decode-encode}
use game_server_go.Protocol.Errors.{GoError}
use game_server_go.Pipeline.{Context, Payload, message, execute_before, execute_after}
use game_server_go.Kernel.{Kernel, HandlerEntry, with_msg_id}
use game_server_go.Kernel.Dispatch.{dispatch, session_context, call_handler, finish}
use game_server_go.Kernel.Dispatch.Guards.{IsRequest, handled_lem}
use game_server_go.Runtime.Development.{World, Libraries, post, posted}

-- A message survives the wire: it marshals to a body that fits a frame and parses to it.
pub record Travels (libs : Libraries) (m : Message) : Type 0 where
  pub body : Bytes
  pub marshals : libs.marshal m ≡ some body
  pub fits : header_size + length body ≤ max_frame_size
  pub parses : libs.unmarshal (type_of m) body ≡ some m

-- The frame of a message that travels.
pub record FrameOf (libs : Libraries) (id seq : ℕ) (m : Message) : Type 0 where
  pub wire : Bytes
  pub body : Bytes
  pub encoded : encode libs.marshal id seq (some m) ≡ ok wire
  pub decoded : decode wire ≡ ok (record { msg_id = id; seq = seq; body = body })
  pub parses : libs.unmarshal (type_of m) body ≡ some m

pub Travels-FrameOf :
    {libs : Libraries} {m : Message} (id seq : ℕ)
    → id < 2 ^ 16
    → seq < 2 ^ 32
    → Travels libs m
    → FrameOf libs id seq m
Travels-FrameOf {libs} {m} id seq i s t =
    let (wire, e, l, d) = decode-encode libs.marshal id seq m t.body i s t.marshals t.fits in
    record { wire = wire; body = t.body; encoded = e; decoded = d; parses = t.parses }

-- The context in which the handler of a message runs.
abbrev pub context_of : ℕ → Context
context_of id = with_msg_id (session_context 0) id

module _ (libs : Libraries) (k : Kernel World) where
  -- Hooks that leave everything as it is.
  pub record Passes (id : ℕ) (req : Message) (w : World) : Type 0 where
    pub before :
        execute_before k.hooks (context_of id) (message req) w
        ≡ record { ctx = context_of id; value = message req; error = none; state = w }
    pub after :
        (v : Option Payload) (e : Option GoError) (s : World)
        → execute_after k.hooks (context_of id) v e s ≡ record { value = v; error = e; state = s }

  called :
      (h : HandlerEntry World) (id seq : ℕ) (req resp : Message) {w w' : World}
      → Passes id req w
      → h.fn (context_of id) req w ≡ (record { response = some resp; error = none }, w')
      → call_handler
          (post libs)
          k
          (some 0)
          seq
          h
          req
          (record { ctx = context_of id; value = message req; error = none; state = w })
        ≡ (post libs 0 seq h.resp_id resp w').1
  unfolding call_handler finish
  called h id seq req resp {w} {w'} p e = rw (e, p.after (some (message resp)) none w') refl

  pub dispatch_answers :
      (wire : Bytes) (frame : Frame) (h : HandlerEntry World) (req resp : Message) {w w' : World}
      → IsRequest libs.unmarshal k wire frame h req
      → Passes frame.msg_id req w
      → h.fn (context_of frame.msg_id) req w ≡ (record { response = some resp; error = none }, w')
      → (dispatch (post libs) libs.unmarshal k (session_context 0) wire w).1
        ≡ (post libs 0 frame.seq h.resp_id resp w').1
  dispatch_answers wire frame h req resp {w} {w'} r p e =
      ap (λ out. out.1)
        (handled_lem (post libs) libs.unmarshal k (session_context 0) wire frame h req w r
          (ap (λ b. b.error) p.before))
      ∙ ap (λ b. call_handler (post libs) k (some 0) frame.seq h req b) p.before
      ∙ called h frame.msg_id frame.seq req resp p e

-- The answer is the only frame that waits.
pub post_encoded :
    (libs : Libraries) (seq id : ℕ) (m : Message) (w : World) (f : FrameOf libs id seq m)
    → w.outbox ≡ []
    → (post libs 0 seq id m w).1 ≡ record w { outbox = f.wire ∷ [] }
unfolding post posted
post_encoded libs seq id m w f e =
    rw (f.encoded) (ap (λ o. record w { outbox = o ++ (f.wire ∷ []) }) e)
