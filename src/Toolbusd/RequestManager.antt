-- ===== src/Toolbusd/RequestManager.antt =====
-- toolbusd/include/remotebsp/toolbusd/request_manager.hpp and toolbusd/src/request_manager.cpp: the
-- requests that wait for their response, with retries, and the responses that were seen. A time
-- point and a duration are numbers of ticks. A call that throws returns its error beside the object
-- that it leaves.
pub mod Allocate
pub mod Poll
pub mod Valid
pub mod Submit
pub mod Responses
pub mod Life
pub mod Once
pub mod Events
mod Examples
use remote_bsp.Prelude.{
  ℕ, zero, suc, ◌+◌, ◌-◌, ◌*◌, ◌/◌, ◌%◌, ◌^◌, bit_and, bit_or, ltb, leb, ◌==◌, not, ◌&&◌, ◌||◌,
  Bool, true, false, if◌then◌else◌, Option, none, some, List, [], ◌∷◌, length, Result, ok, err,
}
use remote_bsp.Prelude.Map.{Map, find, assign, emplace, erase, keep_if}
use remote_bsp.Protocol.Packet.{PacketHeader, Packet, error_response_flag}
use remote_bsp.Protocol.Command
use remote_bsp.Protocol.MessageType

pub record RequestManagerConfig : Type 0 where
  pub timeout : ℕ
  pub maximum_retries : ℕ
  pub duplicate_window : ℕ

pub data RequestManagerError : Type 0 where
  invalid_configuration not_request request_id_exhausted : RequestManagerError

pub record Submission : Type 0 where
  pub request_id : ℕ
  pub packet : Packet

pub data RequestEventType : Type 0 where
  retry timed_out : RequestEventType

pub record RequestEvent : Type 0 where
  pub event_type : RequestEventType
  pub session_id : ℕ
  pub request_id : ℕ
  pub packet : Option Packet

pub data ResponseStatus : Type 0 where
  matched duplicate unexpected : ResponseStatus

pub record ResponseResult : Type 0 where
  pub status : ResponseStatus
  pub response : Option Packet

pub record Pending : Type 0 where
  pub packet : Packet
  pub deadline : ℕ
  pub retries_remaining : ℕ

pub record RequestManager : Type 0 where
  pub config : RequestManagerConfig
  pub next_request_id : ℕ
  pub pending : Map Pending
  pub completed : Map ℕ

-- The constructor.
unfoldable pub new_request_manager :
    RequestManagerConfig → Result RequestManagerError RequestManager
new_request_manager config =
    if (config.timeout == 0) || (config.duplicate_window == 0)
    then err invalid_configuration
    else ok (record { config = config; next_request_id = 1; pending = []; completed = [] })

-- `session_id << 32 | request_id`
unfoldable pub key : ℕ → ℕ → ℕ
key session_id request_id = bit_or (session_id * 2 ^ 32) request_id

abbrev pub header_key : PacketHeader → ℕ
header_key h = key h.session_id h.request_id

abbrev pub is_fresh : ℕ → ℕ → Bool
is_fresh now until = not (leb until now)

unfoldable pub expire_completed : RequestManager → ℕ → RequestManager
expire_completed m now = record m { completed = keep_if (is_fresh now) m.completed }

abbrev pub has {ℓ} : {V : Type ℓ} → ℕ → Map V → Bool
has k m = elim (find k m) [ none ↦ false | some v ↦ true ]

-- `next_request_id_++` on 32 bits, past 0
unfoldable pub next_id : ℕ → ℕ
next_id candidate = let next = (candidate + 1) % 2 ^ 32 in if next == 0 then 1 else next

-- The loop of `allocate_request_id`, of so many attempts: the id, if one is free, and the next id.
unfoldable pub attempt_ids : ℕ → Map Pending → Map ℕ → ℕ → ℕ → Option ℕ × ℕ
unfolding next_id
attempt_ids zero pending completed session_id candidate = (none, candidate)
attempt_ids (suc attempts) pending completed session_id candidate =
    elim (has (key session_id candidate) pending || has (key session_id candidate) completed) [
      | false ↦ (some candidate, next_id candidate)
      | true ↦ attempt_ids attempts pending completed session_id (next_id candidate)
    ]

abbrev pub maximum_attempts : ℕ
maximum_attempts = 4294967295

unfoldable pub allocate_request_id :
    RequestManager → ℕ → Result RequestManagerError ℕ × RequestManager
unfolding attempt_ids
allocate_request_id m session_id =
    let (id, next) =
      attempt_ids maximum_attempts m.pending m.completed session_id m.next_request_id in
    let left : RequestManager = record m { next_request_id = next } in
    elim id [ none ↦ (err request_id_exhausted, left) | some id ↦ (ok id, left) ]

abbrev pub with_request_id : Packet → ℕ → Packet
with_request_id packet id = record packet { header = record (packet.header) { request_id = id } }

abbrev pub new_pending : RequestManagerConfig → Packet → ℕ → Pending
new_pending config packet now = record {
  packet = packet;
  deadline = now + config.timeout;
  retries_remaining = config.maximum_retries;
}

-- The end of `submit`, with the outcome of `allocate_request_id`.
unfoldable pub enter_request :
    Packet
    → ℕ
    → Result RequestManagerError ℕ
    → RequestManager
    → Result RequestManagerError Submission × RequestManager
unfolding emplace
enter_request request now (err e) m = (err e, m)
enter_request request now (ok id) m =
    let packet = with_request_id request id in
    (
      ok (record { request_id = id; packet = packet }),
      record m {
        pending = emplace (header_key packet.header) (new_pending m.config packet now) m.pending;
      },
    )

unfoldable pub submit :
    RequestManager → Packet → ℕ → Result RequestManagerError Submission × RequestManager
unfolding expire_completed allocate_request_id enter_request
submit m request now =
    let live = expire_completed m now in
    elim (request.header.message_type == MessageType.request) [
      | false ↦ (err not_request, live)
      | true ↦
          let (id, n) = allocate_request_id live request.header.session_id in
          enter_request request now id n
    ]

abbrev pub creates_object : PacketHeader → Bool
creates_object request =
    (request.command == Command.gpio_create) || (request.command == Command.uart_create)

abbrev pub response_is_error : PacketHeader → Bool
response_is_error response = not (bit_and response.flags error_response_flag == 0)

unfoldable pub object_matches : PacketHeader → PacketHeader → Bool
object_matches request response =
    if creates_object request
    then if response_is_error response
      then response.object_id == request.object_id
      else (request.object_id == 0) && not (response.object_id == 0)
    else request.object_id == response.object_id

unfoldable pub remember_completed : RequestManager → ℕ → ℕ → RequestManager
remember_completed m k now = record m {
  completed = assign k (now + m.config.duplicate_window) m.completed;
}

abbrev pub reply : ResponseStatus → ResponseResult
reply status = record { status = status; response = none }

-- `accept_response` behind the look-up of the pending request.
unfoldable pub match_response :
    RequestManager → Packet → ℕ → Option Pending → ResponseResult × RequestManager
unfolding object_matches remember_completed
match_response m response now none =
    if has (header_key response.header) m.completed
    then (reply duplicate, m)
    else (reply unexpected, m)
match_response m response now (some p) =
    if not (p.packet.header.command == response.header.command)
      || not (object_matches p.packet.header response.header)
    then (reply unexpected, m)
    else (
      record { status = matched; response = some response },
      remember_completed (record m { pending = erase (header_key response.header) m.pending })
          (header_key response.header) now,
    )

unfoldable pub accept_response : RequestManager → Packet → ℕ → ResponseResult × RequestManager
unfolding expire_completed match_response
accept_response m response now =
    let live = expire_completed m now in
    if not (response.header.message_type == MessageType.response)
    then (reply unexpected, live)
    else match_response live response now (find (header_key response.header) live.pending)

abbrev pub retry_event : Packet → RequestEvent
retry_event packet = record {
  event_type = retry;
  session_id = packet.header.session_id;
  request_id = packet.header.request_id;
  packet = some packet;
}

abbrev pub timed_out_event : ℕ → Packet → RequestEvent
timed_out_event k packet = record {
  event_type = timed_out;
  session_id = k / 2 ^ 32;
  request_id = packet.header.request_id;
  packet = none;
}

-- The loop of `poll`: what is left pending, the completed keys and the events, in order.
unfoldable pub poll_entries :
    RequestManagerConfig → ℕ → Map Pending → Map ℕ → Map Pending × Map ℕ × List RequestEvent
poll_entries config now [] completed = ([], completed, [])
poll_entries config now ((k, p) ∷ rest) completed = elim (ltb now p.deadline) [
  | true ↦
      let (left, done, events) = poll_entries config now rest completed in
      ((k, p) ∷ left, done, events)
  | false ↦ elim p.retries_remaining [
    | suc n ↦
        let (left, done, events) = poll_entries config now rest completed in
        let again : Pending = record p { retries_remaining = n; deadline = now + config.timeout } in
        ((k, again) ∷ left, done, retry_event p.packet ∷ events)
    | zero ↦
        let (left, done, events) =
          poll_entries config now rest (assign k (now + config.duplicate_window) completed) in
        (left, done, timed_out_event k p.packet ∷ events)
  ]
]

unfoldable pub poll : RequestManager → ℕ → List RequestEvent × RequestManager
unfolding expire_completed poll_entries
poll m now =
    let live = expire_completed m now in
    let (left, done, events) = poll_entries live.config now live.pending live.completed in
    (events, record live { pending = left; completed = done })

-- Whether a request was removed, and what is left.
unfoldable pub cancel : RequestManager → ℕ → ℕ → Bool × RequestManager
cancel m session_id request_id =
    let k = key session_id request_id in (has k m.pending, record m { pending = erase k m.pending })

abbrev pub pending_count : RequestManager → ℕ
pending_count m = length m.pending

abbrev pub completed_count : RequestManager → ℕ
completed_count m = length m.completed
