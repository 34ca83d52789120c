-- ===== src/Protocol/Errors.antt =====
-- internal/protocol/common.go and errors.go: error codes, and the two kinds of errors that a handler
-- returns.
use game_server_go.Base.Int.{ℤ, pos}
use game_server_go.Base.Text.{Bytes}

abbrev pub err_success : ℤ
err_success = pos 0

abbrev pub err_internal : ℤ
err_internal = pos 10001

abbrev pub err_invalid_param : ℤ
err_invalid_param = pos 10002

abbrev pub err_too_frequent : ℤ
err_too_frequent = pos 10003

abbrev pub err_unauthorized : ℤ
err_unauthorized = pos 10004

abbrev pub err_login_invalid_code : ℤ
err_login_invalid_code = pos 20001

abbrev pub err_login_wechat_failed : ℤ
err_login_wechat_failed = pos 20002

abbrev pub err_login_token_expired : ℤ
err_login_token_expired = pos 20003

abbrev pub err_archive_save_failed : ℤ
err_archive_save_failed = pos 30001

abbrev pub err_archive_not_found : ℤ
err_archive_not_found = pos 30002

abbrev pub err_rank_invalid_type : ℤ
err_rank_invalid_type = pos 40001

abbrev pub err_rank_invalid_range : ℤ
err_rank_invalid_range = pos 40002

abbrev pub err_combat_invalid_result : ℤ
err_combat_invalid_result = pos 50001

abbrev pub err_combat_cheat_detected : ℤ
err_combat_cheat_detected = pos 50002

abbrev pub err_combat_config_not_found : ℤ
err_combat_config_not_found = pos 50003

abbrev pub err_combat_style_locked : ℤ
err_combat_style_locked = pos 50004

abbrev pub err_combat_insufficient_gold : ℤ
err_combat_insufficient_gold = pos 50005

abbrev pub err_payment_unavailable : ℤ
err_payment_unavailable = pos 60001

-- A *BizError carries a code and a message for the client; any other error value is `internal`, and
-- its text is for the log.
pub data GoError : Type 0 where
  biz : ℤ → Bytes → GoError
  internal : Bytes → GoError
