-- ===== src/Dispatcher.antt =====
-- src/net/MessageDispatcher.h and src/net/MessageDispatcher.cpp: handlers by message id. `none` is the
-- id that no handler is registered for, which is only logged.
use game_server.Prelude.{ℕ, Option}
use game_server.Prelude.Dict
use game_server.Prelude.Dict.{Dict}

module _ {H : Type 0} where
  unfoldable pub register_handler : ℕ → H → Dict H → Dict H
  register_handler msg_id handler handlers = Dict.put msg_id handler handlers

  unfoldable pub handler_of : ℕ → Dict H → Option H
  handler_of msg_id handlers = Dict.lookup msg_id handlers
