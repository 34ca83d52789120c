-- ===== src/Login/Wechat/Answers.antt =====
-- The ways in which Code2Session of internal/login/wechat.go ends.
use game_server_go.Base.{◌≡◌, refl, inl, inr, Result, ok, err, Bool-cases}
use game_server_go.Base.Int.{
  pos, ◌≤ℤ◌, ◌<ℤ◌, ltb_ℤ, ltb_ℤ_iff, ltb_ℤ_false, ltb_ℤ-eq-true, ltb_ℤ-eq-false,
}
use game_server_go.Base.Text.{Bytes}
use game_server_go.Login.Exchange.{wechat_upstream, other_failure, Code2SessionResult, Code2Session}
use game_server_go.Login.Wechat.{
  WechatClient, HttpError, HttpResponse, code2_session, answered, checked_body, checked_result,
  session_url,
}

module _ (http_get : Bytes → Result HttpError HttpResponse)
    (unmarshal : Bytes → Result Bytes Code2SessionResult) (client : WechatClient)
    (code : Bytes) where
  -- WeChat answers the request for the code with a success status and a body that parses.
  pub record Answers (result : Code2SessionResult) : Type 0 where
    pub response : HttpResponse
    pub body : Bytes
    pub asked : http_get (session_url client code) ≡ ok response
    pub read : response.body ≡ ok body
    pub at_least : pos 200 ≤ℤ response.status
    pub below : response.status <ℤ pos 300
    pub parsed : unmarshal body ≡ ok result

  pub data Outcome (r : Code2Session) : Type 0 where
    answers :
        {result : Code2SessionResult} → Answers result → r ≡ checked_result (ok result) → Outcome r
    fails : {t : Bytes} → r ≡ err (other_failure t) → Outcome r
    misses : {t : Bytes} → r ≡ err (wechat_upstream t) → Outcome r

  parsed-Outcome :
      (response : HttpResponse) (body : Bytes)
      → http_get (session_url client code) ≡ ok response
      → response.body ≡ ok body
      → pos 200 ≤ℤ response.status
      → response.status <ℤ pos 300
      → (p : Result Bytes Code2SessionResult) → unmarshal body ≡ p
      → Outcome (checked_result p)
  unfolding checked_result
  parsed-Outcome response body a r l u (err e) h = fails refl
  parsed-Outcome response body a r l u (ok result) h =
      answers
        (record {
          response = response;
          body = body;
          asked = a;
          read = r;
          at_least = l;
          below = u;
          parsed = h;
        })
        refl

  body-Outcome :
      (response : HttpResponse)
      → http_get (session_url client code) ≡ ok response
      → (b : Result Bytes Bytes) → response.body ≡ b
      → Outcome (checked_body unmarshal response.status b)
  unfolding checked_body
  body-Outcome response a (err e) h = fails refl
  body-Outcome response a (ok body) h = elim (Bool-cases (ltb_ℤ response.status (pos 200))) [
    | inl low ↦ rw low (misses refl)
    | inr high ↦ rw high (elim (Bool-cases (ltb_ℤ response.status (pos 300))) [
      | inl u ↦ rw u (
          parsed-Outcome response body a h (ltb_ℤ_false _ _ high) ((ltb_ℤ_iff _ _).0 u)
            (unmarshal body) refl)
      | inr over ↦ rw over (misses refl)
    ])
  ]

  answered-Outcome :
      (r : Result HttpError HttpResponse)
      → http_get (session_url client code) ≡ r
      → Outcome (answered unmarshal r)
  unfolding answered
  answered-Outcome (err e) h = fails refl
  answered-Outcome (ok response) h = body-Outcome response h response.body refl

  pub code2_session-Outcome : Outcome (code2_session http_get unmarshal client code)
  unfolding code2_session
  code2_session-Outcome = answered-Outcome _ refl

  session_of :
      (r : Result HttpError HttpResponse) {result : Code2SessionResult} (a : Answers result)
      → r ≡ ok a.response
      → answered unmarshal r ≡ checked_result (ok result)
  unfolding answered checked_body
  session_of r a e =
      rw
        (
          e,
          a.read,
          ltb_ℤ-eq-false a.response.status (pos 200) a.at_least,
          ltb_ℤ-eq-true a.response.status (pos 300) a.below,
          a.parsed,
        )
        refl

  pub code2_session-Answers :
      {result : Code2SessionResult}
      → Answers result
      → code2_session http_get unmarshal client code ≡ checked_result (ok result)
  unfolding code2_session
  code2_session-Answers a = session_of _ a a.asked
