-- ===== src/Connection.antt =====
-- connection.h: the state of a connection. The handlers of the application and the socket watcher
-- are seen as the events that they are called with; which of them are installed is part of the
-- state. A handler's own calls of the connection are later calls of the model.
pub mod Close
pub mod Send
pub mod Receive
pub mod Open
pub mod Timer
pub mod Read
pub mod Setters
pub mod Phase
pub mod Reach
pub mod Handshake
use cpp2tnt.Prelude.{ℕ, Bool, Option, List, Bytes}
use cpp2tnt.WtfBuffer.{WtfBuffer}
use cpp2tnt.Iproto.{ProtoId}
use cpp2tnt.CsParser.{CsParts}

-- enum class error
pub data ErrorKind : Type 0 where
  invalid_parameter bad_call_sequence getaddr_in_progress system getaddr timeout : ErrorKind
  auth closed_by_peer unexpected_data external uncorked_data_jam features : ErrorKind

-- enum socket_state
pub data SocketState : Type 0 where
  unwatched read write read_write : SocketState

-- enum class connection::state
pub data State : Type 0 where
  disconnected address_resolving connecting features_request authentication connected : State

-- What the connection calls out to, in order.
pub data Event : Type 0 where
  watch : SocketState → Event
  error : ErrorKind → Event
  response : Bytes → Event
  opened closed idle : Event
  socket_closed : ℕ → Event
  notify_request : Event
  called : ℕ → Event

-- The sending side. `next_to_send` is an offset into the send buffer. `wire` is no field of the
-- class: it is what the kernel has taken for sending, oldest first.
pub record Sender : Type 0 where
  pub output : WtfBuffer
  pub send : WtfBuffer
  pub next_to_send : ℕ
  pub uncorked_size : ℕ
  pub wire : Bytes

-- The receiving side.
pub record Receiver : Type 0 where
  pub input : WtfBuffer
  pub receive : WtfBuffer
  pub caller_idle : Bool
  pub last_received_head_offset : ℕ
  pub detected_response_size : ℕ

-- Which handlers are installed, and whether they return (`true`) or throw a `std::exception`; the
-- response handler may do either, by the bytes that it is given.
pub record Handlers : Type 0 where
  pub has_error : Bool
  pub has_watcher : Bool
  pub on_response : Option (Bytes → Bool)
  pub on_opened : Option Bool
  pub on_closed : Option Bool

-- What `connect(2)` answers for a new socket: it is connected, the answer is still to come, or an error.
pub data ConnectAnswer : Type 0 where
  established pending refused : ConnectAnswer

-- What comes of an address: `socket(2)` fails, or gives a descriptor that is then connected.
pub data Attempt : Type 0 where
  no_socket : Attempt
  attempt : ℕ → ConnectAnswer → Attempt

-- An entry of the notification queue: what the address resolver found, its failure, or a handler of
-- the application.
pub data Notification : Type 0 where
  resolved : List Attempt → Notification
  not_resolved : Notification
  handler : ℕ → Notification

-- What opening a connection takes. A negative idle timeout is 0, since both are always over.
pub record Setup : Type 0 where
  pub current_cs : Bytes
  pub cs_parts : CsParts
  pub required_proto : ProtoId
  pub resolver_joinable : Bool
  pub notifications : List Notification
  pub has_notify : Bool
  pub has_idle : Bool
  pub idle_timeout : ℕ

-- `none` stands for a socket handle of -1, and for a ticks counter of -1.
pub record Connection : Type 0 where
  pub socket : Option ℕ
  pub greeting : Bytes
  pub server_proto : ProtoId
  pub autoreconnect_ticks : Option ℕ
  pub autoreconnect_timeout : ℕ
  pub idle_ticks : ℕ
  pub tx : Sender
  pub rx : Receiver
  pub request_id : ℕ
  pub is_corked : Bool
  pub last_write_time : ℕ
  pub prev_watch_mode : SocketState
  pub state : State
  pub setup : Setup
  pub handlers : Handlers
  pub events : List Event
