-- ===== src/Workers/Messages.antt =====
-- wager_sqs_worker.go and helper.go. `decode` is json.Unmarshal of a message's body, and `stopped` says
-- whether an error of the database driver is one of a context that ended.
use betting_processing_go.Prelude.{
  ℕ, String, Bool, false, ◌||◌, Option, none, some, List, [], ◌∷◌, if◌then◌else◌,
}
use betting_processing_go.Prelude.Text.{str_eq, str_append}
use betting_processing_go.Errors.{Error, Result, ok, err}
use betting_processing_go.Wager.Reference.{is_terminal_business_error}
use betting_processing_go.Store.{Env, World}
use betting_processing_go.WagerService.{ProcessResult, Request, Digest, process_transaction}

pub record JobEnvelope : Type 0 where
  pub message_id : String
  pub job_type : String
  pub occurred_at : String
  pub data_ : Request

-- The fields of a queue message that the worker reads, each of which may be nil.
pub record Message : Type 0 where
  pub message_id : Option String
  pub body : Option String

-- Whether the worker asks the queue to delete the message. If it does not, or the queue fails, the
-- message is delivered again.
pub data Disposal : Type 0 where
  deleted kept : Disposal

abbrev pub Decode : Type 0
Decode = String → Result JobEnvelope

-- awsStringValue
unfoldable pub aws_string_value : Option String → String
aws_string_value none = ""
aws_string_value (some s) = s

-- buildIdempotencyKey
unfoldable pub build_idempotency_key : Request → String
build_idempotency_key req =
    if str_eq req.provider_id ""
    then req.external_transaction_id
    else str_append (str_append req.provider_id ":") req.external_transaction_id

unfoldable pub message_key : Request → String
unfolding build_idempotency_key
message_key req =
    if str_eq req.idempotency_key "" then build_idempotency_key req else req.idempotency_key

unfoldable pub message_id_of : Message → JobEnvelope → String
unfolding aws_string_value
message_id_of message envelope =
    if str_eq (aws_string_value message.message_id) ""
    then envelope.message_id
    else aws_string_value message.message_id

-- errors.Is of context.Canceled or context.DeadlineExceeded
unfoldable pub is_cancelled : (String → Bool) → Error → Bool
is_cancelled stopped (Error.sentinel s) = false
is_cancelled stopped (Error.wrap p e) = is_cancelled stopped e
is_cancelled stopped (Error.wrap_both e f) = is_cancelled stopped e || is_cancelled stopped f
is_cancelled stopped (Error.annotate e f) = is_cancelled stopped e
is_cancelled stopped (Error.external text) = stopped text

-- What becomes of a message whose request was processed.
unfoldable pub dispose : (String → Bool) → Result ProcessResult → Disposal
unfolding is_cancelled
dispose stopped (ok result) = deleted
dispose stopped (err e) =
    if is_cancelled stopped e then kept else if is_terminal_business_error e then deleted else kept

unfoldable pub process_envelope :
    Env → Digest → (String → Bool) → Message → Result JobEnvelope → World → Disposal × World
unfolding dispose message_key message_id_of
process_envelope env digest stopped message (err e) w = (deleted, w)
process_envelope env digest stopped message (ok envelope) w =
    let (r, w') =
      process_transaction env digest envelope.data_ (message_key envelope.data_)
        (message_id_of message envelope) w in
    (dispose stopped r, w')

-- processMessage
unfoldable pub process_message :
    Env → Digest → Decode → (String → Bool) → Message → World → Disposal × World
unfolding process_envelope
process_message env digest decode stopped message w =
    process_envelope env digest stopped message (decode (aws_string_value message.body)) w

-- The messages of one receive. `done` says whether the context has ended, by the number of calls made so
-- far.
unfoldable pub process_messages :
    Env → Digest → Decode → (String → Bool) → (ℕ → Bool) → List Message → World → World
process_messages env digest decode stopped done [] w = w
process_messages env digest decode stopped done (m ∷ ms) w =
    let (d, w') = process_message env digest decode stopped m w in
    let rest = process_messages env digest decode stopped done ms w' in
    if done w.calls then w else rest
