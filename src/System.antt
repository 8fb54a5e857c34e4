-- ===== src/System.antt =====
-- A request of the daemon, toolbusd/src/request_manager.cpp, that the core of a node handles,
-- mock_mcu/src/remote_core.cpp.
mod Examples
use remote_bsp.Prelude.{ℕ, ◌≡◌, refl, sym, ap, ◌∙◌, true, some, Result, ok}
use remote_bsp.Protocol.Packet.{Packet, PacketHeader}
use remote_bsp.Toolbusd.RequestManager.{
  RequestManager, Submission, ResponseResult, submit, accept_response, matched, with_request_id,
  object_matches,
}
use remote_bsp.Toolbusd.RequestManager.Valid.{IsValid}
use remote_bsp.Toolbusd.RequestManager.Submit.{submit-pending}
use remote_bsp.Toolbusd.RequestManager.Life.{submit-accept_response}
use remote_bsp.MockMcu.RemoteCore.{RemoteCore}
use remote_bsp.MockMcu.RemoteCore.Exclusive.{AllCompatible}
use remote_bsp.MockMcu.RemoteCore.Handle.{handle}
use remote_bsp.MockMcu.RemoteCore.Responses.{Answers, handle-Answers}

-- A request that a valid manager has just submitted and any core with compatible leases has handled:
-- whatever packet the core returns for it, the manager matches it with the request, if it arrives
-- before the next call.
pub submit-handle :
    (m : RequestManager) (core : RemoteCore) (request response : Packet) (sent handled received : ℕ)
    (s : Submission)
    → IsValid m
    → AllCompatible core.leases
    → (submit m request sent).0 ≡ ok s
    → (handle core s.packet handled).0 ≡ ok response
    → (accept_response (submit m request sent).1 response received).0
      ≡ record { status = matched; response = some response }
unfolding object_matches
submit-handle m core request response sent handled received s valid compatible submitted answered =
    submit-accept_response m request response sent received s valid submitted answers.message_type
      (answers.session_id ∙ ap (λ p. p.header.session_id) whole)
      (answers.request_id ∙ ap (λ p. p.header.request_id) whole)
      (answers.command ∙ ap (λ p. p.header.command) whole)
      (sym (ap (λ p. object_matches p.header response.header) whole) ∙ answers.object_id)
  where
    whole : s.packet ≡ with_request_id request s.request_id
    whole = (submit-pending m request sent s valid submitted).0

    answers : Answers s.packet response
    answers = handle-Answers core s.packet response handled compatible answered
