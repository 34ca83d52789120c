-- ===== src/Probe/Link.antt =====
-- The probe of cmd/devprobe/main.go connected to the development server of cmd/server/main.go.
pub mod Expected
pub mod Carried
pub mod Answered
pub mod Passing
use game_server_go.Base.{
  ℕ, ◌≡◌, ◌≢◌, refl, sym, ap, ◌∙◌, ◌<◌, ◌^◌, List, [], ◌∷◌, Option, none, some, Result, ok, err,
  and_then, arith,
}
use game_server_go.Base.Map.{get}
use game_server_go.Base.Equality.{nat_eq}
use game_server_go.Base.Text.{Bytes, utf8}
use game_server_go.Messages.{Message, MsgType, type_of}
use game_server_go.Protocol.Ids.{id_error}
use game_server_go.Protocol.Codec.{CodecError, encode}
use game_server_go.Kernel.{Kernel, HandlerEntry}
use game_server_go.Kernel.Dispatch.{dispatch, session_context}
use game_server_go.Kernel.Dispatch.Guards.{IsRequest}
use game_server_go.Runtime.Development.{World, Libraries, post}
use game_server_go.Runtime.Development.Answers.{
  Travels, FrameOf, Travels-FrameOf, Passes, context_of, dispatch_answers, post_encoded,
}
use game_server_go.Probe.{WebSocket, Probe, ProbeError, next_seq}
use game_server_go.Probe.Exchange.{binary_message, send, read, wrapped}
use game_server_go.Probe.Exchange.Matched.{IsMatch, match_read, next_seq_range}
use game_server_go.Probe.Run.{ask, expect}

next_frame : List Bytes → World → Result Bytes (ℕ × Bytes) × World
next_frame [] w = (err (utf8 "no frame"), w)
next_frame (wire ∷ rest) w = (ok (binary_message, wire), record w { outbox = rest })

-- What the probe writes the server dispatches at once, and the probe reads what the server posts.
unfoldable pub link : Libraries → Kernel World → WebSocket World
unfolding next_frame
link libs k = record {
  set_write_deadline = λ w. (none, w);
  write_message =
      λ wire w. (none, (dispatch (post libs) libs.unmarshal k (session_context 0) wire w).1);
  set_read_deadline = λ w. (none, w);
  read_message = λ w. next_frame w.outbox w;
  write_close = λ w. w;
  close = λ w. w;
}

-- A handler of the kernel responds to a request that travels, and its response travels too.
pub record Responds (libs : Libraries) (k : Kernel World) (req_id resp_id : ℕ) (req resp : Message)
    (w w' : World) : Type 0 where
  pub entry : HandlerEntry World
  pub handled : get req_id k.handlers ≡ some entry
  pub of_type : entry.req_type ≡ type_of req
  pub answers_with : entry.resp_id ≡ resp_id
  pub small_ids : (req_id < 2 ^ 16) × (resp_id < 2 ^ 16) × (resp_id ≢ id_error)
  pub request_travels : Travels libs req
  pub response_travels : Travels libs resp
  pub passes : Passes libs k req_id req w
  pub responds :
      entry.fn (context_of req_id) req w ≡ (record { response = some resp; error = none }, w')
  pub outbox_empty : w'.outbox ≡ []

module _ (libs : Libraries) (k : Kernel World) where
  -- The frame is dispatched, and nothing else happens.
  sent :
      (id : ℕ) (m : Message) (p : Probe World) (f : FrameOf libs id (next_seq p.seq) m)
      → send (link libs k) libs.marshal id m p ≡ (
        ok (next_seq p.seq),
        record {
          conn = (dispatch (post libs) libs.unmarshal k (session_context 0) f.wire p.conn).1;
          seq = next_seq p.seq;
        },
      )
  unfolding send wrapped link
  sent id m p f = rw (f.encoded) refl

  received :
      (id seq n : ℕ) (m : Message) (w : World) (f : FrameOf libs id seq m)
      → id ≢ id_error
      → read libs.unmarshal id seq
          (type_of m)
          (link libs k)
          (record { conn = record w { outbox = f.wire ∷ [] }; seq = n })
        ≡ (ok m, record { conn = record w { outbox = [] }; seq = n })
  unfolding read wrapped link
  received id seq n m w f e =
      ap (λ r. (r, record { conn = record w { outbox = [] }; seq = n }))
        (match_read libs.unmarshal id seq (type_of m) f.wire m (record {
          frame = record { msg_id = id; seq = seq; body = f.body };
          decoded = f.decoded;
          same_seq = refl;
          same_id = refl;
          no_error = e;
          parsed = f.parses;
        }))

  module _ {req_id resp_id : ℕ} {req resp : Message} {w w' : World} (seq : ℕ)
      (r : Responds libs k req_id resp_id req resp w w') where
    numbers : (next_seq seq ≢ 0) × (next_seq seq < 2 ^ 32)
    numbers = next_seq_range seq

    request : FrameOf libs req_id (next_seq seq) req
    request = Travels-FrameOf req_id (next_seq seq) r.small_ids.0 numbers.1 r.request_travels

    response : FrameOf libs resp_id (next_seq seq) resp
    response = Travels-FrameOf resp_id (next_seq seq) r.small_ids.1 numbers.1 r.response_travels

    answered :
        (f : FrameOf libs req_id (next_seq seq) req) (g : FrameOf libs resp_id (next_seq seq) resp)
        → (dispatch (post libs) libs.unmarshal k (session_context 0) f.wire w).1
          ≡ record w' { outbox = g.wire ∷ [] }
    answered f g =
        dispatch_answers libs k f.wire
          (record { msg_id = req_id; seq = next_seq seq; body = f.body }) r.entry req resp
          (record {
            decoded = f.decoded;
            numbered = numbers.0;
            handled = r.handled;
            parsed = ap (λ t. libs.unmarshal t f.body) r.of_type ∙ f.parses;
          })
          r.passes r.responds
        ∙ ap (λ id. (post libs 0 (next_seq seq) id resp w').1) r.answers_with
        ∙ post_encoded libs (next_seq seq) resp_id resp w' g r.outbox_empty

    -- The probe gets the handler's response, and the server has done what the handler does.
    pub ask_answers :
        ask
          (link libs k)
          libs.marshal
          libs.unmarshal
          req_id
          req
          resp_id
          (type_of resp)
          (record { conn = w; seq = seq })
        ≡ (ok resp, record { conn = w'; seq = next_seq seq })
    unfolding ask
    ask_answers =
        ap (λ s. and_then s (λ n p1. read libs.unmarshal resp_id n (type_of resp) (link libs k) p1))
          (sent req_id req (record { conn = w; seq = seq }) request)
        ∙ ap
            (λ c.
              read libs.unmarshal resp_id (next_seq seq) (type_of resp) (link libs k)
                (record { conn = c; seq = next_seq seq }))
            (answered request response)
        ∙ received resp_id (next_seq seq) (next_seq seq) resp w' response r.small_ids.2
        ∙ ap (λ o. (ok resp, record { conn = record w' { outbox = o }; seq = next_seq seq }))
            (sym r.outbox_empty)

    pub expect_answers :
        {A : Type 0} (check : Message → Result ProbeError A)
        → expect
            (link libs k)
            libs.marshal
            libs.unmarshal
            req_id
            req
            resp_id
            (type_of resp)
            check
            (record { conn = w; seq = seq })
          ≡ (check resp, record { conn = w'; seq = next_seq seq })
    unfolding expect
    expect_answers check = ap (λ s. and_then s (λ m p1. (check m, p1))) ask_answers
