-- ===== src/Login/Wechat/Classified.antt =====
-- Which answers of WeChat identify a player, and which refuse the login code, through
-- internal/login/wechat.go and code_exchange.go.
use game_server_go.Base.{
  ◌++◌, ◌≡◌, sym, ap, ◌∙◌, ◌↔◌, inl, inr, true, false, some, Result, ok, err, arith, Bool-cases,
}
use game_server_go.Base.Int.{pos, eqb_ℤ_iff}
use game_server_go.Base.Text.{Bytes, utf8, has_prefix, is_blank}
use game_server_go.Base.Decimal.{format_int}
use game_server_go.Login.Exchange.{
  invalid_login_code, Code2SessionResult, Code2Session, LoginIdentity, wechat_exchange,
  wechat_exchange_asks, wechat_exchange_development, wechat_exchange_blank, identity_of,
}
use game_server_go.Login.Wechat.{
  WechatClient, HttpError, HttpResponse, code2_session, checked_result, wechat_api_error,
  code_invalid,
}
use game_server_go.Login.Wechat.Answers.{
  Answers, Outcome, answers, fails, misses, code2_session-Outcome, code2_session-Answers,
}

named_by :
    (result : Code2SessionResult) (identity : LoginIdentity)
    → identity_of (checked_result (ok result)) ≡ ok identity
    → (result.err_code ≡ pos 0)
      × (is_blank result.open_id ≡ false)
      × (identity ≡ record { open_id = result.open_id })
unfolding identity_of checked_result
named_by result identity h = ground (arith, eqb_ℤ_iff result.err_code (pos 0))

naming :
    (result : Code2SessionResult)
    → result.err_code ≡ pos 0
    → is_blank result.open_id ≡ false
    → identity_of (checked_result (ok result)) ≡ ok (record { open_id = result.open_id })
unfolding identity_of checked_result
naming result z n = ground (arith, eqb_ℤ_iff result.err_code (pos 0))

refused_by :
    (result : Code2SessionResult) (t : Bytes)
    → identity_of (checked_result (ok result)) ≡ err (invalid_login_code t)
    → result.err_code ≡ code_invalid
unfolding identity_of checked_result wechat_api_error
refused_by result t h =
    ground (arith, eqb_ℤ_iff result.err_code (pos 0), eqb_ℤ_iff result.err_code code_invalid)

refusing :
    (result : Code2SessionResult)
    → result.err_code ≡ code_invalid
    → (t : Bytes) × (identity_of (checked_result (ok result)) ≡ err (invalid_login_code t))
unfolding identity_of checked_result wechat_api_error
refusing result e = (
  utf8 "invalid login code: wechat API code="
      ++ (format_int result.err_code ++ (utf8 " msg=" ++ result.err_msg)),
  ground (arith, e, eqb_ℤ_iff result.err_code (pos 0), eqb_ℤ_iff result.err_code code_invalid),
)

module _ (http_get : Bytes → Result HttpError HttpResponse)
    (unmarshal : Bytes → Result Bytes Code2SessionResult) (client : WechatClient)
    (code : Bytes) where
  -- WeChat names a player for the code, and this is the identity.
  pub record IsNamed (identity : LoginIdentity) : Type 0 where
    pub not_development : has_prefix code (utf8 "dev:") ≡ false
    pub not_blank : is_blank code ≡ false
    pub result : Code2SessionResult
    pub answers : Answers http_get unmarshal client code result
    pub no_error : result.err_code ≡ pos 0
    pub named : is_blank result.open_id ≡ false
    pub same : identity ≡ record { open_id = result.open_id }

  -- The code is of the development form, or blank, or WeChat answers that it is invalid.
  pub data IsRefused : Type 0 where
    development : has_prefix code (utf8 "dev:") ≡ true → IsRefused
    blank : is_blank code ≡ true → IsRefused
    invalid :
        {result : Code2SessionResult}
        → has_prefix code (utf8 "dev:") ≡ false
        → is_blank code ≡ false
        → Answers http_get unmarshal client code result
        → result.err_code ≡ code_invalid
        → IsRefused

  asks :
      has_prefix code (utf8 "dev:") ≡ false
      → is_blank code ≡ false
      → {result : Code2SessionResult} → Answers http_get unmarshal client code result
      → wechat_exchange (some (code2_session http_get unmarshal client)) code
        ≡ identity_of (checked_result (ok result))
  asks d b a =
      wechat_exchange_asks _ code d b
      ∙ ap identity_of (code2_session-Answers http_get unmarshal client code a)

  Outcome-IsNamed :
      {identity : LoginIdentity}
      → has_prefix code (utf8 "dev:") ≡ false
      → is_blank code ≡ false
      → {r : Code2Session} → Outcome http_get unmarshal client code r
      → identity_of r ≡ ok identity
      → IsNamed identity
  unfolding identity_of
  Outcome-IsNamed {identity} d b (answers {result} a e) h =
      let (no_error, named, same) = named_by result identity (ap identity_of (sym e) ∙ h) in
      record {
        not_development = d;
        not_blank = b;
        result = result;
        answers = a;
        no_error = no_error;
        named = named;
        same = same;
      }
  Outcome-IsNamed d b (fails e) h = absurd (cc (ap identity_of (sym e)))
  Outcome-IsNamed d b (misses e) h = absurd (cc (ap identity_of (sym e)))

  Outcome-IsRefused :
      {t : Bytes}
      → has_prefix code (utf8 "dev:") ≡ false
      → is_blank code ≡ false
      → {r : Code2Session} → Outcome http_get unmarshal client code r
      → identity_of r ≡ err (invalid_login_code t)
      → IsRefused
  unfolding identity_of
  Outcome-IsRefused {t} d b (answers {result} a e) h =
      invalid d b a (refused_by result t (ap identity_of (sym e) ∙ h))
  Outcome-IsRefused d b (fails e) h = absurd (cc (ap identity_of (sym e)))
  Outcome-IsRefused d b (misses e) h = absurd (cc (ap identity_of (sym e)))

  IsNamed-of :
      {identity : LoginIdentity}
      → wechat_exchange (some (code2_session http_get unmarshal client)) code ≡ ok identity
      → IsNamed identity
  IsNamed-of h = elim (Bool-cases (has_prefix code (utf8 "dev:"))) [
    | inl d ↦
        absurd
          (cc (wechat_exchange_development (some (code2_session http_get unmarshal client)) code d))
    | inr d ↦ elim (Bool-cases (is_blank code)) [
      | inl b ↦
          absurd
            (cc (wechat_exchange_blank (some (code2_session http_get unmarshal client)) code d b))
      | inr b ↦
          Outcome-IsNamed d b (code2_session-Outcome http_get unmarshal client code)
            (sym (wechat_exchange_asks _ code d b) ∙ h)
    ]
  ]

  IsRefused-of :
      {t : Bytes}
      → wechat_exchange (some (code2_session http_get unmarshal client)) code
        ≡ err (invalid_login_code t)
      → IsRefused
  IsRefused-of h = elim (Bool-cases (has_prefix code (utf8 "dev:"))) [
    | inl d ↦ development d
    | inr d ↦ elim (Bool-cases (is_blank code)) [
      | inl b ↦ blank b
      | inr b ↦
          Outcome-IsRefused d b (code2_session-Outcome http_get unmarshal client code)
            (sym (wechat_exchange_asks _ code d b) ∙ h)
    ]
  ]

  refusal :
      IsRefused
      → (t : Bytes) × (wechat_exchange (some (code2_session http_get unmarshal client)) code
          ≡ err (invalid_login_code t))
  refusal (development d) = (_, wechat_exchange_development _ code d)
  refusal (blank b) = elim (Bool-cases (has_prefix code (utf8 "dev:"))) [
    | inl d ↦ (_, wechat_exchange_development _ code d)
    | inr d ↦ (_, wechat_exchange_blank _ code d b)
  ]
  refusal (invalid {result} d b a e) =
      let (t, refused) = refusing result e in (t, asks d b a ∙ refused)

  -- Exchange gives an identity exactly when the code is neither of the development form nor blank
  -- and WeChat's answer has a status from 200 to 299 and parses to a result with error code 0 and
  -- an openid that is not blank; the identity is that openid.
  pub wechat_exchange_identifies :
      (identity : LoginIdentity)
      → (wechat_exchange (some (code2_session http_get unmarshal client)) code ≡ ok identity)
        ↔ IsNamed identity
  wechat_exchange_identifies identity = (
    IsNamed-of,
    λ n.
        asks n.not_development n.not_blank n.answers
        ∙ naming n.result n.no_error n.named
        ∙ ap ok (sym n.same),
  )

  -- Exchange fails with an invalid login code exactly when the code is of the development form, or
  -- blank, or WeChat's answer has a status from 200 to 299 and parses to error code 40029: no
  -- transport error, status, unreadable body or other error code blames the login code.
  pub wechat_exchange_refuses :
      ((t : Bytes) × (wechat_exchange (some (code2_session http_get unmarshal client)) code
          ≡ err (invalid_login_code t)))
      ↔ IsRefused
  wechat_exchange_refuses = (λ (t, h). IsRefused-of h, refusal)
