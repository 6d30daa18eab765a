-- ===== src/Tests/Services.antt =====
-- Runs of the direct transport and of the replacements of the C library.
use lwpb.Common.{ℕ, ◌+◌, ◌-◌, ◌≡◌, refl, arith, some, ◌==◌, if◌then◌else◌}
use lwpb.Types.{err_ok, fault, inside}
use lwpb.Buf.{Memory}
use lwpb.Copy.{mem_move}
use lwpb.Ensures.{Returns}
use lwpb.Rpc.{
  CallHandler, RequestHandler, ResponseHandler, DoneHandler, Allocator, Direct, client_handler,
  server_handler, client_call,
}
use lwpb.Rpc.Buffers.{client_call-live}
use lwpb.Utils.{utils_memmove, utils_memmove-fault, utils_memmove-mem_move}
use lwpb.Tests.{mem}

-- The world is the number of buffers in use.
abbrev heap : Allocator ℕ
heap = record {
  alloc_buf = λ w. (err_ok, some 0, 1024, w + 1);
  free_buf = λ p w. w - 1;
  free_null = λ w. w;
}

abbrev send : RequestHandler ℕ
send m d buf n w = (err_ok, 5, w)

abbrev receive : ResponseHandler ℕ
receive m d buf n w = (err_ok, w)

abbrev finish_call : DoneHandler ℕ
finish_call m r w = w

abbrev answer : CallHandler ℕ
answer m d q n d' r k w = (err_ok, 3, w)

abbrev direct : Direct ℕ
direct = record {
  allocator = heap;
  client = some (client_handler send receive finish_call);
  server = some (server_handler answer);
}

client_call-live_example :
    Returns
      (λ r. r.1 ≡ 4)
      (client_call direct
        (client_handler send receive finish_call)
        (record { req_desc = 0; res_desc = 1 })
        4)
client_call-live_example =
    client_call-live (λ w. w) send receive finish_call direct (some answer)
      (record { req_desc = 0; res_desc = 1 }) 4 refl ((λ w. refl), (λ p w. refl))
      ((λ m d buf n w. refl), (λ m d buf n w. refl), (λ m r w. refl)) (λ m d q n d' r k w. refl)

utils_memmove-fault_example : utils_memmove 10 mem 4 2 8 ≡ fault
utils_memmove-fault_example =
    utils_memmove-fault mem 4 2 8 10 (omega arith) (omega arith) (omega arith) (omega arith)
      (omega arith)

utils_memmove-mem_move_example : utils_memmove 0 mem 2 4 8 ≡ mem_move mem 2 (inside 4) 8
utils_memmove-mem_move_example = utils_memmove-mem_move mem 2 4 8 0 (omega arith) (omega arith)

-- The characters "hi" with a 0 behind them.
abbrev text : Memory
text = record { size = 3; byte = λ p. if p == 0 then 104 else (if p == 1 then 105 else 0) }
