-- ===== src/Toolbusd/RequestManager/Examples.antt =====
-- A request to read a pin, with its response, a second response and a silence.
use remote_bsp.Prelude.{
  List, ◌≡◌, ◌≤◌, ◌<◌, ◌^◌, ◌==◌, if◌then◌else◌, refl, [], ◌∷◌, ok, some, none, arith,
}
use remote_bsp.Prelude.Map.{find, keep_if}
use remote_bsp.Protocol.Packet.{Packet, new_packet}
use remote_bsp.Toolbusd.RequestManager.{
  RequestManagerConfig, RequestManager, Submission, Pending, matched, duplicate, retry, reply, key,
  new_pending, with_request_id, new_request_manager, expire_completed, submit, accept_response,
  poll, object_matches, allocate_request_id, attempt_ids, enter_request, match_response,
}
use remote_bsp.Toolbusd.RequestManager.Poll.{polled_option}
use remote_bsp.Toolbusd.RequestManager.Events.{events_of, report, report_option, poll-events}
use remote_bsp.Toolbusd.RequestManager.Once.{accept_response-once}
use remote_bsp.Toolbusd.RequestManager.Valid.{IsValid}
use remote_bsp.Toolbusd.RequestManager.Submit.{submit-fresh}
use remote_bsp.Toolbusd.RequestManager.Responses.{poll-find, poll_all, polls-timed_out}
use remote_bsp.Toolbusd.RequestManager.Life.{
  Call, cancelling, submitting, accepting, polling, after_calls, after_calls-IsValid,
  submit-accept_response,
}

abbrev config : RequestManagerConfig
config = record { timeout = 750; maximum_retries = 2; duplicate_window = 2000 }

abbrev fresh : RequestManager
fresh = record { config = config; next_request_id = 1; pending = []; completed = [] }

fresh-IsValid : IsValid fresh
fresh-IsValid = record {
  pending_distinct = tt;
  completed_distinct = tt;
  entries = tt;
  next_positive = omega arith;
  next_bound = omega arith;
}

abbrev request : Packet
request = record {
  header = record (new_packet.header) { command = 0x0101; session_id = 5; object_id = 9 };
  payload = [];
}

abbrev response : Packet
response = record {
  header = record (new_packet.header) {
    message_type = 2;
    command = 0x0101;
    session_id = 5;
    request_id = 1;
    object_id = 9;
  };
  payload = 1 ∷ [];
}

abbrev waiting : Pending
waiting = new_pending config (with_request_id request 1) 0

abbrev busy : RequestManager
busy = record {
  config = config;
  next_request_id = 2;
  pending = (key 5 1, waiting) ∷ [];
  completed = [];
}

busy-IsValid : IsValid busy
unfolding find
busy-IsValid = record {
  pending_distinct = (refl, tt);
  completed_distinct = tt;
  entries = ((refl, refl), tt);
  next_positive = omega arith;
  next_bound = omega arith;
}

after_calls-IsValid_example :
    IsValid (after_calls fresh (submitting request 0 ∷ polling 800 ∷ accepting response 900 ∷ []))
unfolding new_request_manager
after_calls-IsValid_example =
    after_calls-IsValid config fresh
      (submitting request 0 ∷ polling 800 ∷ accepting response 900 ∷ []) refl

submit-fresh_example :
    (s : Submission) × ((submit busy request 3).0 ≡ ok s)
    × (s.packet ≡ with_request_id request s.request_id)
    × (1 ≤ s.request_id)
    × (s.request_id < 2 ^ 32)
    × (find (key 5 s.request_id) busy.pending ≡ none)
    × (find (key 5 s.request_id) (expire_completed busy 3).completed ≡ none)
    × (find (key 5 1) (submit busy request 3).1.pending ≡ (
        if key 5 s.request_id == key 5 1
        then some (new_pending config s.packet 3)
        else find (key 5 1) busy.pending))
unfolding expire_completed keep_if
submit-fresh_example = submit-fresh busy request 3 (key 5 1) busy-IsValid refl (omega arith)

submit-accept_response_example :
    (accept_response (submit fresh request 0).1 response 100).0
    ≡ record { status = matched; response = some response }
unfolding submit expire_completed keep_if allocate_request_id attempt_ids find enter_request
    object_matches
submit-accept_response_example =
    submit-accept_response fresh request response 0 100
      (record { request_id = 1; packet = with_request_id request 1 }) fresh-IsValid refl refl refl
      refl refl refl

-- Between the two the response comes once more, and `poll` and a further request come too.
abbrev between : List Call
between = accepting response 200 ∷ polling 900 ∷ submitting request 1000 ∷ cancelling 5 2 ∷ []

accept_response-once_example :
    (accept_response (after_calls (accept_response busy response 100).1 between) response 2099).0
    ≡ reply duplicate
unfolding accept_response expire_completed match_response find object_matches key
accept_response-once_example =
    accept_response-once busy response response 100 2099 between busy-IsValid refl
      (omega arith, (omega arith, (omega arith, (tt, tt)))) refl refl (omega arith)

poll-events_example :
    events_of (key 5 1) (poll busy 800).0 ≡ report_option 800 (find (key 5 1) busy.pending)
poll-events_example = poll-events busy 800 (key 5 1) busy-IsValid (omega arith, tt)

-- What is due at 800.
poll_retries :
    report 800 waiting
    ≡ record {
      event_type = retry;
      session_id = 5;
      request_id = 1;
      packet = some (with_request_id request 1);
    }
      ∷ []
poll_retries = refl

poll-find_example :
    find (key 5 1) (poll busy 800).1.pending
    ≡ polled_option config 800 (find (key 5 1) busy.pending)
poll-find_example = poll-find busy 800 (key 5 1) busy-IsValid

polls-timed_out_example : find (key 5 1) (poll_all busy (750 ∷ 1500 ∷ 2400 ∷ [])).pending ≡ none
unfolding find key
polls-timed_out_example =
    polls-timed_out busy (key 5 1) waiting (750 ∷ 1500 ∷ 2400 ∷ []) busy-IsValid refl refl
      (omega arith, (omega arith, (omega arith, tt)))
