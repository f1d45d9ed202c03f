-- ===== src/Delivery/Zmq.antt =====
-- src/dataDelivery/zmq_delivery.cc, with InitGrpcPayload and free_grpc_payload of
-- src/bridge/grpc_collector_bridge.cc: payloads go as pointers from the pusher to the poller.
pub mod Queue
pub mod Refines
pub mod Overtaking
pub mod Trace
pub mod Client
use mdt_dialout_collector.Common.{
  ℕ, Bool, true, false, Option, none, some, List, [], ◌∷◌, ◌++◌, length, get_elem?, set,
  if◌then◌else◌, Partial, done, thrown, bind, use_after_free, exit_failure,
}
use mdt_dialout_collector.Common.Text.{Bytes, c_string}
use mdt_dialout_collector.Delivery.Wrapper.{DataWrapper}

-- `grpc_payload`
pub record GrpcPayload : Type 0 where
  pub event_type : Bytes
  pub serialization : Bytes
  pub writer_id : Bytes
  pub telemetry_node : Bytes
  pub telemetry_port : Bytes
  pub telemetry_data : Bytes

-- The payloads of the process by their addresses (`none` is freed), the pointers under way, and what
-- the poller has printed. Each worker has a PUSH socket of its own, and the poller's PULL socket takes
-- from all of them: the queue is the order in which it will give them, which Overtaking lets change.
pub record Zmq : Type 0 where
  pub heap : List (Option GrpcPayload)
  pub queue : List ℕ
  pub printed : List GrpcPayload

-- InitGrpcPayload: the new payload, or the end of the process if there is no memory
unfoldable pub init_grpc_payload : Bool → GrpcPayload → Zmq → Partial (ℕ × Zmq)
init_grpc_payload memory p z =
    if memory
    then done (length z.heap, record z { heap = z.heap ++ (some p ∷ []) })
    else thrown exit_failure

-- free_grpc_payload, of a pointer that is not null
unfoldable pub free_grpc_payload : ℕ → Zmq → Partial Zmq
free_grpc_payload ptr z = elim (get_elem? z.heap ptr) [
  | some (some _) ↦ done (record z { heap = set z.heap ptr none })
  | _ ↦ thrown use_after_free
]

-- the six texts, as C strings
unfoldable pub payload_of : DataWrapper → GrpcPayload
payload_of w = record {
  event_type = c_string w.event_type;
  serialization = c_string w.serialization;
  writer_id = c_string w.writer_id;
  telemetry_node = c_string w.telemetry_node;
  telemetry_port = c_string w.telemetry_port;
  telemetry_data = c_string w.telemetry_data;
}

-- What `send` does: it takes the message, it would have to wait, or it throws.
pub data SendOutcome : Type 0 where
  sent not_ready send_error : SendOutcome

-- ZmqPusher
unfoldable pub zmq_pusher : Bool → SendOutcome → DataWrapper → Zmq → Partial (Bool × Zmq)
unfolding init_grpc_payload free_grpc_payload
zmq_pusher memory outcome w z = bind (init_grpc_payload memory (payload_of w) z) λ (ptr, z').
    elim outcome [
      | sent ↦ done (true, record z' { queue = z'.queue ++ (ptr ∷ []) })
      | not_ready ↦ bind (free_grpc_payload ptr z') λ z''. done (false, z'')
      | send_error ↦ bind (free_grpc_payload ptr z') λ z''. done (false, z'')
    ]

-- What `recv` does: it gives a message or an empty one, it throws ETERM, or another error.
pub data RecvOutcome : Type 0 where
  received received_nothing terminated recv_error : RecvOutcome

-- the branch of ZmqPoller that has a message: it prints the payload and frees it
unfoldable pub print_payload : ℕ → Zmq → Partial Zmq
unfolding free_grpc_payload
print_payload ptr z = elim (get_elem? z.heap ptr) [
  | some (some p) ↦ free_grpc_payload ptr (record z { printed = z.printed ++ (p ∷ []) })
  | _ ↦ thrown use_after_free
]

-- ZmqPoller, with whether its thread goes on; `recv` waits where the queue is empty
unfoldable pub zmq_poller : RecvOutcome → Zmq → Partial (Bool × Zmq)
unfolding print_payload
zmq_poller received z = elim z.queue [
  | [] ↦ done (true, z)
  | ptr ∷ queue ↦ bind (print_payload ptr (record z { queue = queue })) λ z'. done (true, z')
]
zmq_poller received_nothing z = done (true, z)
zmq_poller terminated z = done (false, z)
zmq_poller recv_error z = done (true, z)
