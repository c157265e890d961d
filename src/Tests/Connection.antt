-- ===== src/Tests/Connection.antt =====
-- Reading a request from a connection and writing a reply, in pieces.
use cortex_vm.Prelude.{ℕ, ◌≡◌, refl, true, some, List, [], ◌∷◌, ◌++◌, codes, ok, arith}
use cortex_vm.Tests.Loading.{malloc}
use cortex_vm.Assembler.Immediate.{
  skip_while, strtoll, strtoll_signed, strtoll_digits, saturate, read_digits,
}
use cortex_vm.Server.Text.{find}
use cortex_vm.Server.Receive.{blank_line, header_length, body_loop, read_request}
use cortex_vm.Server.Receive.Whole.{Inbound, read_request-Inbound}
use cortex_vm.Server.Transfer.{
  Answer, written, interrupted, failed, write_all, allowed, write_all-delivers,
}

abbrev request_head : List ℕ
request_head =
    codes "POST /run HTTP/1.1" ++ (13 ∷ 10 ∷ []) ++ codes "CONTENT-Length: 5" ++ blank_line

-- Behind the body stand two bytes that the request does not count.
abbrev sent_bytes : List ℕ
sent_bytes = request_head ++ codes "{\"a\"}!!"

-- The first read ends within the blank line, the fourth in the body.
abbrev read_limits : List ℕ
read_limits = 37 ∷ 3 ∷ 1 ∷ 9 ∷ 9 ∷ []

read_in_pieces : read_request malloc true read_limits sent_bytes ≡ ok (some sent_bytes)
unfolding read_request find strtoll strtoll_signed skip_while strtoll_digits saturate read_digits
    header_length body_loop
read_in_pieces = refl

read_request-Inbound_example :
    Inbound malloc sent_bytes 5 (read_request malloc true read_limits sent_bytes)
read_request-Inbound_example = read_request-Inbound malloc read_limits sent_bytes refl (omega arith)

abbrev write_answers : List Answer
write_answers = written 3 ∷ interrupted ∷ written 2 ∷ interrupted ∷ written 6 ∷ failed ∷ []

write_all-delivers_example :
    write_all write_answers (codes "{\"ok\":true}") ≡ ok (codes "{\"ok\":true}")
unfolding allowed
write_all-delivers_example = write_all-delivers write_answers (codes "{\"ok\":true}") (omega arith)
