-- ===== src/Tests/Sockets.antt =====
-- The socket transports at concrete inputs: one service "A" with one method "B", and a system whose
-- connections always deliver the same bytes. The world counts what has happened.
use lwpb.Common.{ℕ, ◌+◌, ◌≡◌, refl, arith, true, none, some, List, [], ◌∷◌, length, All, get_elem?}
use lwpb.Types.{err_ok, ret, fault, read_word32, read_block}
use lwpb.Buf.{Memory}
use lwpb.Varint.Spec.{varint, groups, store, size-store, Holds-store, Holds-append}
use lwpb.Wire.{encode_value, sign_extend}
use lwpb.Encoder.{field_key}
use lwpb.Encoder.Field.{field_bytes}
use lwpb.Message.{message_bytes}
use lwpb.Ensures.{OnReturn}
use lwpb.Rpc.{
  Allocator, RequestHandler, ResponseHandler, DoneHandler, CallHandler, client_handler, release,
}
use lwpb.Socket.{
  Services, ServiceDesc, MethodDesc, HeaderInfo, bytes_block, buffer_block, pre_header,
  send_request, parse_request, parse_ok, parse_end_of_buf,
}
use lwpb.Socket.Names.{IsListed}
use lwpb.Socket.Framing.{request_fields, response_fields}
use lwpb.Socket.Send.{frame_of, send_request_lem, send_response_lem}
use lwpb.Socket.Parse.{heading, parse_request_incomplete}
use lwpb.Socket.Parse.Sent.{found_info, response_length, parse_request-send_request}
use lwpb.Socket.System.{System, Locals, send_blocks}
use lwpb.Socket.Server.{
  open_sockets, Conn, SocketServer, socket_server_init, handle_connection, update,
  socket_server_close, socket_server_open,
}
use lwpb.Socket.Server.Table.{
  close_each, IsTable, IsSystem, update-IsTable, socket_server_close-IsTable,
}
use lwpb.Socket.Server.Serve.{
  IsReceived, handle_connection-answer, unknown_method-fault, socket_server_open-again,
}
use lwpb.Socket.Client.{SocketClient, client_transport_call, handle_data}
use lwpb.Socket.Client.Calls.{client_transport_call-send, handle_data-response}
use lwpb.Tests.{garbage}

-- The names "A" and "B".
abbrev method : MethodDesc
method = record { service = 0; method = record { req_desc = 0; res_desc = 1 }; name = 66 ∷ 0 ∷ [] }

abbrev service : ServiceDesc
service = record { methods = method ∷ []; name = 65 ∷ 0 ∷ [] }

abbrev services : Services
services = service ∷ []

abbrev array : Memory
array = record { size = 128; byte = λ p. 1 }

abbrev no_info : HeaderInfo
no_info = record {
  msg_type = 9;
  service_desc = none;
  method_desc = none;
  header_len = 9;
  msg_len = 9;
  service_list = none;
}

abbrev locals : Locals
locals = record { header_bytes = array; info = no_info; wire = garbage }

-- The header of a request, and memory that holds a request with a message of five bytes.
abbrev request_header : List ℕ
request_header = message_bytes (request_fields service.name method.name)

request_length : length request_header ≡ 8
unfolding message_bytes field_bytes encode_value read_word32 read_block field_key varint groups
    sign_extend
request_length = refl

abbrev zeros : Memory
zeros = record { size = 64; byte = λ p. 0 }

abbrev inbox : Memory
inbox = store zeros 0 (heading (request_fields service.name method.name) 5)

inbox-size : inbox.size ≡ 64
inbox-size = size-store zeros 0 (heading (request_fields service.name method.name) 5)

request_sent :
    send_request services array method (some 0) 5
    ≡ ret (
        bytes_block (pre_header (length request_header) 5)
        ∷ bytes_block request_header
        ∷ buffer_block (some 0) 5
        ∷ [])
request_sent =
    send_request_lem array refl services method service (some 0) 5 refl refl refl
      (omega (arith, request_length))

parse_request-send_request_example :
    parse_request services inbox 0 64 garbage no_info (some (0 ∷ []))
    ≡ ret (parse_ok, found_info 0 (some service) (66 ∷ []) (length request_header + 12) 5 (0 ∷ []))
parse_request-send_request_example =
    parse_request-send_request services inbox (omega (arith, inbox-size)) array method service
      (some 0) 0 64 5 garbage no_info (0 ∷ []) (pre_header (length request_header) 5) request_header
      (buffer_block (some 0) 5 ∷ []) refl refl refl refl (omega (arith, request_length))
      request_sent ((service, refl, refl, (refl, tt)), tt)
      (Holds-store zeros 0 (heading (request_fields service.name method.name) 5))
      (omega (arith, request_length)) (omega (arith, inbox-size)) (omega arith)

parse_request_incomplete_example :
    (info : HeaderInfo) × (parse_request services inbox 0 20 garbage no_info none
      ≡ ret (parse_end_of_buf, info))
parse_request_incomplete_example =
    parse_request_incomplete services inbox (omega (arith, inbox-size)) 0 20 (length request_header)
      5 garbage no_info none
      (λ h.
        (Holds-append inbox 0 (pre_header (length request_header) 5) request_header
          (Holds-store zeros 0 (heading (request_fields service.name method.name) 5))).0)
      (omega (arith, request_length)) (omega (arith, inbox-size)) (omega (arith, request_length))
      (omega arith)

-- A system that delivers as many bytes as it is asked for.
abbrev sys : System ℕ
sys = record {
  memory = λ w. inbox;
  accept = λ fd w. (some 5, w);
  recv = λ fd p n w. (n, w);
  send = λ fd b w. w + 1;
  close = λ fd w. w + 10;
  select = λ n fds w. (some fds, w);
  nonblock = λ fd w. (true, w);
  getaddrinfo = λ w. (true, w);
  freeaddrinfo = λ w. w;
  new_socket = λ w. (some 3, w);
  setsockopt = λ fd w. (true, w);
  bind = λ fd w. (true, w);
  listen = λ fd w. (true, w);
  connect = λ fd w. (true, w);
}

abbrev heap : Allocator ℕ
heap = record {
  alloc_buf = λ w. (err_ok, some 100, 64, w);
  free_buf = λ p w. w + 100;
  free_null = λ w. w;
}

abbrev answer_call : CallHandler ℕ
answer_call m d q n d' r k w = (err_ok, 3, w)

abbrev server : SocketServer ℕ
server = record (socket_server_init heap 0 0) {
  server = some (record {
    server = record { call_handler = some answer_call };
    service_list = some (0 ∷ []);
  });
  socket = some 3;
}

sys-IsSystem : IsSystem sys heap
sys-IsSystem = record { recv_le = λ fd p n w. omega arith; alloc_small = λ w. omega arith }

server-IsTable : IsTable server.conns 0
unfolding socket_server_init
server-IsTable = (
  refl,
  refl,
  (
    (omega arith, λ fd e. omega arith),
    (
      (omega arith, λ fd e. omega arith),
      ((omega arith, λ fd e. omega arith), ((omega arith, λ fd e. omega arith), tt)),
    ),
  ),
)

update-IsTable_example :
    OnReturn (λ (e, s, w). IsTable s.conns s.num_conns) (update sys services locals server 0)
unfolding socket_server_init
update-IsTable_example = update-IsTable sys services locals server 0 sys-IsSystem server-IsTable

socket_server_close-IsTable_example :
    IsTable
      (socket_server_close sys server 0).0.conns
      (socket_server_close sys server 0).0.num_conns
    × ((socket_server_close sys server 0).0.num_conns ≡ 0)
    × ((socket_server_close sys server 0).0.socket ≡ some 3)
    × ((socket_server_close sys server 0).1
        ≡ sys.close 3 (close_each sys (open_sockets server.conns) 0))
unfolding socket_server_init
socket_server_close-IsTable_example = socket_server_close-IsTable sys server 3 0 refl server-IsTable

socket_server_open-again_example :
    OnReturn
      (λ (e, s, w). (w' : ℕ) → socket_server_open sys s w' ≡ ret (err_ok, s, w'))
      (socket_server_open sys (socket_server_init heap 0 0) 0)
unfolding socket_server_init
socket_server_open-again_example =
    socket_server_open-again sys (socket_server_init heap 0 0) 3 0 0 0 refl refl refl

-- A connection with an empty buffer, and the message that it gets.
abbrev conn : Conn
conn = record { index = 0; socket = some 5; buf = some 0; pos = 0; len = 64 }

-- Another service, whose method has another name.
abbrev other_service : ServiceDesc
other_service = record {
  methods = record { service = 1; method = method.method; name = 67 ∷ 0 ∷ [] } ∷ [];
  name = 65 ∷ 0 ∷ [];
}

abbrev two_services : Services
two_services = service ∷ other_service ∷ []

request_received :
    (all : Services) (list : List ℕ) (s : SocketServer ℕ)
    → s.server
      ≡ some
          (record { server = record { call_handler = some answer_call }; service_list = some list })
    → All (IsListed all) list
    → send_request all array method (some 0) 5
      ≡ ret (
          bytes_block (pre_header (length request_header) 5)
          ∷ bytes_block request_header
          ∷ buffer_block (some 0) 5
          ∷ [])
    → get_elem? all 0 ≡ some service
    → IsReceived sys all locals s answer_call list conn 5 1 0 64 0 0 array method service
        (some 0)
        5
        (pre_header (length request_header) 5)
        request_header
        (buffer_block (some 0) 5 ∷ [])
request_received all list s registered listed sent has = record {
  registered = registered;
  has_buf = refl;
  received = refl;
  some_bytes = omega arith;
  request = record {
    small = omega (arith, inbox-size);
    local_size = refl;
    has = has;
    ends = refl;
    method_ends = refl;
    fits = omega (arith, request_length);
    sent = sent;
    listed = listed;
    at = Holds-store zeros 0 (heading (request_fields service.name method.name) 5);
    whole = omega (arith, request_length);
    inner = omega (arith, inbox-size);
    req_small = omega arith;
  };
  locals_size = refl;
}

handle_connection-answer_example :
    handle_connection sys services locals server conn 5 1 0
    ≡ ret (
      record conn { pos = 64 },
      1,
      heap.free_buf 100 (send_blocks sys 5 (frame_of response_fields (some 100) 3) 0),
    )
unfolding socket_server_init
handle_connection-answer_example =
    handle_connection-answer sys services locals server answer_call (0 ∷ []) conn 5 1 0 64 0 0 array
      method service (some 0) 5 (pre_header (length request_header) 5) request_header
      (buffer_block (some 0) 5 ∷ []) service method 100 64 0
      (request_received services (0 ∷ []) server refl ((service, refl, refl, (refl, tt)), tt)
        request_sent refl)
      refl refl refl

-- A server that offers the other service only.
abbrev other_server : SocketServer ℕ
other_server = record server {
  server = some (record {
    server = record { call_handler = some answer_call };
    service_list = some (1 ∷ []);
  });
}

unknown_method-fault_example :
    handle_connection sys two_services locals other_server conn 5 1 0 ≡ fault
unfolding socket_server_init
unknown_method-fault_example =
    unknown_method-fault sys two_services locals other_server answer_call (1 ∷ []) conn 5 1 0 64 0 0
      array method service (some 0) 5 (pre_header (length request_header) 5) request_header
      (buffer_block (some 0) 5 ∷ [])
      (request_received two_services (1 ∷ []) other_server refl
        ((other_service, refl, refl, (refl, tt)), tt)
        (send_request_lem array refl two_services method service (some 0) 5 refl refl refl
          (omega (arith, request_length)))
        refl)
      refl

-- The client's handlers, and a client with a connection that waits for a response.
abbrev fill : RequestHandler ℕ
fill m d buf n w = (err_ok, 5, w)

abbrev receive : ResponseHandler ℕ
receive m d buf n w = (err_ok, w + 1000)

abbrev finish_call : DoneHandler ℕ
finish_call m r w = w

abbrev client : SocketClient ℕ
client = record {
  allocator = heap;
  client = some (client_handler fill receive finish_call);
  socket = some 5;
  buf = some 0;
  pos = 0;
  len = 64;
  last_method = some method;
}

client_transport_call-send_example :
    client_transport_call sys services locals client
      (client_handler fill receive finish_call)
      method
      0
    ≡ ret (
      err_ok,
      client,
      release heap
          (some 100)
          (send_blocks sys 5 (frame_of (request_fields service.name method.name) (some 100) 5) 0),
    )
client_transport_call-send_example =
    client_transport_call-send sys services locals client 5 method fill receive finish_call service
      0 0 0 (some 100) 64 5 refl refl refl refl refl refl refl (omega (arith, request_length))

-- A system that delivers a response with a message of three bytes.
abbrev response_inbox : Memory
response_inbox = store zeros 0 (heading response_fields 3)

response_inbox-size : response_inbox.size ≡ 64
response_inbox-size = size-store zeros 0 (heading response_fields 3)

abbrev response_sys : System ℕ
response_sys = record sys { memory = λ w. response_inbox }

handle_data-response_example :
    handle_data response_sys services locals client 5 0 ≡ ret (record client { pos = 64 }, 1000)
unfolding client_handler
handle_data-response_example =
    handle_data-response response_sys services locals client 5 method fill receive finish_call array
      0 64 3 (some 0) (pre_header (length (message_bytes response_fields)) 3)
      (message_bytes response_fields) (buffer_block (some 0) 3 ∷ []) 0 0 refl refl refl refl
      (omega arith) refl (send_response_lem array refl (some 0) 3 (omega (arith, response_length)))
      (omega (arith, response_inbox-size)) (Holds-store zeros 0 (heading response_fields 3))
      (omega (arith, response_length)) (omega (arith, response_inbox-size)) (omega arith)
