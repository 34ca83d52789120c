-- ===== src/Login/Wechat.antt =====
-- internal/login/wechat.go: the client of WeChat's code2session. The HTTP client, which delivers an
-- answer to a URL, and encoding/json are parameters.
mod Answers
pub mod Classified
use game_server_go.Base.{
  ℕ, ◌++◌, Bool, true, false, Option, none, some, Result, ok, err, ltb, not, ◌==◌, ◌||◌, ◌∷◌, [],
  List, if◌then◌else◌,
}
use game_server_go.Base.Int.{ℤ, pos, eqb_ℤ, ltb_ℤ}
use game_server_go.Config.{WechatConfig}
use game_server_go.Base.Text.{Bytes, utf8, is_blank}
use game_server_go.Base.Decimal.{format_int}
use game_server_go.Login.Exchange.{
  ExchangeError, invalid_login_code, wechat_upstream, other_failure, wechat_identity_missing,
  Code2SessionResult, Code2Session,
}

-- WechatClient; the http.Client that it owns is the parameter `http_get`, and this is its timeout.
pub record WechatClient : Type 0 where
  pub app_id : Bytes
  pub app_secret : Bytes
  pub timeout_seconds : ℕ

-- NewWechatClient
unfoldable pub new_wechat_client : WechatConfig → WechatClient
new_wechat_client cfg = record {
  app_id = cfg.app_id;
  app_secret = cfg.app_secret;
  timeout_seconds = 10;
}

-- What a request fails with: a *url.Error, whose text shows the URL, or another error, by its text.
pub data HttpError : Type 0 where
  url_error : Bytes → Option Bytes → HttpError
  plain_error : Bytes → HttpError

-- resp.StatusCode, and what io.ReadAll makes of the body.
pub record HttpResponse : Type 0 where
  pub status : ℤ
  pub body : Result Bytes Bytes

-- wechatTransportError
pub record WechatTransportError : Type 0 where
  pub cause : HttpError

-- newWechatTransportError: the error inside a *url.Error, where there is one.
unfoldable pub new_wechat_transport_error : HttpError → WechatTransportError
new_wechat_transport_error (url_error text (some inner)) = record { cause = plain_error inner }
new_wechat_transport_error (url_error text none) = record { cause = url_error text none }
new_wechat_transport_error (plain_error text) = record { cause = plain_error text }

-- Error and Unwrap of wechatTransportError
unfoldable pub error_text : WechatTransportError → Bytes
error_text e = utf8 "wechat API request failed"

unfoldable pub unwrap : WechatTransportError → HttpError
unwrap e = e.cause

-- The code by which WeChat refuses a login code.
abbrev pub code_invalid : ℤ
code_invalid = pos 40029

-- wechatAPIError
unfoldable pub wechat_api_error : Code2SessionResult → ExchangeError
wechat_api_error result =
    if eqb_ℤ result.err_code code_invalid
    then invalid_login_code (
        utf8 "invalid login code: wechat API code="
        ++ (format_int result.err_code ++ (utf8 " msg=" ++ result.err_msg)))
    else other_failure (
        utf8 "wechat API error: code="
        ++ (format_int result.err_code ++ (utf8 " msg=" ++ result.err_msg)))

-- The URL of the request.
unfoldable pub session_url : WechatClient → Bytes → Bytes
session_url c code =
    utf8 "https://api.weixin.qq.com/sns/jscode2session?appid="
    ++ (c.app_id
        ++ (utf8 "&secret="
            ++ (c.app_secret
                ++ (utf8 "&js_code=" ++ (code ++ utf8 "&grant_type=authorization_code")))))

unfoldable pub checked_result : Result Bytes Code2SessionResult → Code2Session
checked_result (err e) = err (other_failure (utf8 "解析微信响应失败: " ++ e))
checked_result (ok result) =
    if not (eqb_ℤ result.err_code (pos 0))
    then err (wechat_api_error result)
    else if is_blank result.open_id
    then err wechat_identity_missing
    else ok (some result)

unfoldable pub checked_body :
    (Bytes → Result Bytes Code2SessionResult) → ℤ → Result Bytes Bytes → Code2Session
unfolding checked_result
checked_body unmarshal status (err e) = err (other_failure (utf8 "读取微信响应失败: " ++ e))
checked_body unmarshal status (ok body) =
    if ltb_ℤ status (pos 200) || not (ltb_ℤ status (pos 300))
    then err (
        wechat_upstream
          (utf8 "wechat upstream response invalid: HTTP status " ++ format_int status))
    else checked_result (unmarshal body)

unfoldable pub answered :
    (Bytes → Result Bytes Code2SessionResult) → Result HttpError HttpResponse → Code2Session
unfolding checked_body
answered unmarshal (err e) = err (other_failure (error_text (new_wechat_transport_error e)))
answered unmarshal (ok response) = checked_body unmarshal response.status response.body

-- WechatClient.Code2Session
unfoldable pub code2_session :
    (Bytes → Result HttpError HttpResponse)
    → (Bytes → Result Bytes Code2SessionResult)
    → WechatClient
    → Bytes
    → Code2Session
unfolding answered session_url
code2_session http_get unmarshal c code = answered unmarshal (http_get (session_url c code))
