-- ===== src/Toolbusd/RequestManager/Life.antt =====
-- toolbusd/src/request_manager.cpp: an object under any calls, and a request with its response.
use remote_bsp.Prelude.{ℕ, ◌≡◌, some, List, [], ◌∷◌, true, sym, ap, ap₂, subst, ◌∙◌, ok, arith}
use remote_bsp.Prelude.Map.{find}
use remote_bsp.Protocol.Packet.{Packet}
use remote_bsp.Protocol.MessageType
use remote_bsp.Toolbusd.RequestManager.{
  RequestManagerConfig, Submission, RequestManager, matched, key, object_matches,
  new_request_manager, submit, accept_response, poll, cancel, new_pending,
}
use remote_bsp.Toolbusd.RequestManager.Valid.{
  IsValid, poll-IsValid, cancel-IsValid, accept_response-IsValid,
}
use remote_bsp.Toolbusd.RequestManager.Submit.{submit-IsValid, submit-pending}
use remote_bsp.Toolbusd.RequestManager.Responses.{accept_response-answer}

-- A call on the object.
pub data Call : Type 0 where
  submitting : Packet → ℕ → Call
  accepting : Packet → ℕ → Call
  polling : ℕ → Call
  cancelling : ℕ → ℕ → Call

unfoldable pub after_call : RequestManager → Call → RequestManager
after_call m (submitting request now) = (submit m request now).1
after_call m (accepting response now) = (accept_response m response now).1
after_call m (polling now) = (poll m now).1
after_call m (cancelling session_id request_id) = (cancel m session_id request_id).1

unfoldable pub after_calls : RequestManager → List Call → RequestManager
unfolding after_call
after_calls m [] = m
after_calls m (c ∷ calls) = after_calls (after_call m c) calls

pub after_call-IsValid : (m : RequestManager) (c : Call) → IsValid m → IsValid (after_call m c)
unfolding after_call
after_call-IsValid m (submitting request now) v = submit-IsValid m request now v
after_call-IsValid m (accepting response now) v = accept_response-IsValid m response now v
after_call-IsValid m (polling now) v = poll-IsValid m now v
after_call-IsValid m (cancelling session_id request_id) v = cancel-IsValid m session_id request_id v

kept : (m : RequestManager) (calls : List Call) → IsValid m → IsValid (after_calls m calls)
unfolding after_calls
kept m [] v = v
kept m (c ∷ calls) v = kept (after_call m c) calls (after_call-IsValid m c v)

new-IsValid :
    (config : RequestManagerConfig) (m : RequestManager)
    → new_request_manager config ≡ ok m
    → IsValid m
unfolding new_request_manager
new-IsValid config m h = subst IsValid same (record {
  pending_distinct = tt;
  completed_distinct = tt;
  entries = tt;
  next_positive = omega arith;
  next_bound = omega arith;
})
  where
    fresh : RequestManager
    fresh = record { config = config; next_request_id = 1; pending = []; completed = [] }

    same : fresh ≡ m
    same = ground (arith, h)

-- In every state that calls lead to from a constructed object: no key stands twice, no request is
-- both pending and completed, each pending request stands under the key of its header, and the next
-- request id is from 1 to 2^32 - 1.
pub after_calls-IsValid :
    (config : RequestManagerConfig) (m : RequestManager) (calls : List Call)
    → new_request_manager config ≡ ok m
    → IsValid (after_calls m calls)
after_calls-IsValid config m calls h = kept m calls (new-IsValid config m h)

-- A response to a request that was just submitted to a valid object, with its session id, the request id it was given
-- and its command, and with an object id as `accept_response` wants it, is matched and returned.
pub submit-accept_response :
    (m : RequestManager) (request response : Packet) (now later : ℕ) (s : Submission)
    → IsValid m
    → (submit m request now).0 ≡ ok s
    → response.header.message_type ≡ MessageType.response
    → response.header.session_id ≡ request.header.session_id
    → response.header.request_id ≡ s.request_id
    → response.header.command ≡ request.header.command
    → object_matches request.header response.header ≡ true
    → (accept_response (submit m request now).1 response later).0
      ≡ record { status = matched; response = some response }
unfolding object_matches
submit-accept_response m request response now later s v h kind session id command object =
    let (whole, waiting) = submit-pending m request now s v h in
    (accept_response-answer (submit m request now).1 response later
      (new_pending m.config s.packet now) (submit-IsValid m request now v)
      (ap₂ (λ a b. find (key a b) (submit m request now).1.pending) session id ∙ waiting)
      (
        kind,
        command ∙ sym (ap (λ p. p.header.command) whole),
        ap (λ p. object_matches p.header response.header) whole ∙ object,
      )).0
