-- ===== src/Payment.antt =====
-- internal/payment/handler.go: payment is refused until there is a provider.
use game_server_go.Base.{Result, err}
use game_server_go.Base.Text.{utf8}
use game_server_go.Messages.Account.{CreateOrderReq, CreateOrderResp}
use game_server_go.Protocol.Errors.{GoError, biz, err_payment_unavailable}

-- Handler.CreateOrder
unfoldable pub create_order : CreateOrderReq → Result GoError CreateOrderResp
create_order req = err (biz err_payment_unavailable (utf8 "payment is disabled"))
