-- ===== src/Http/Response/Tests.antt =====
-- Runs of http/HttpResponseff.cpp, and the theorem at a concrete response.
use firey.Prelude.{
  ℕ, ◌+◌, ◌/◌, ◌%◌, ◌≡◌, refl, false, [], ◌∷◌, ◌++◌, ◌≤◌, some, arith, if◌then◌else◌, ltb, length,
  Bytes, codes, insert,
}
use firey.Buffer.{Buffer, max_size}
use firey.Buffer.Contents.{IsValid}
use firey.Buffer.Append.{Appends}
use firey.Http.Response.{
  HttpResponse, new_response, set_status_code, set_status_message, set_body, set_content_type,
  add_header, append_to_buffer,
}
use firey.Http.Response.Written.{
  print, print_lines, header_lines, connection_lines, append_to_buffer-Appends,
}

-- Numbers below 1000.
abbrev decimal : ℕ → Bytes
decimal n =
    if ltb n 10
    then (48 + n) ∷ []
    else if ltb n 100
    then (48 + n / 10) ∷ (48 + n % 10) ∷ []
    else (48 + n / 100) ∷ (48 + n / 10 % 10) ∷ (48 + n % 10) ∷ []

abbrev hello : HttpResponse
hello = record {
  status_code = 200;
  status_message = codes "OK";
  close_connection = false;
  headers = (codes "Content-Type", codes "text/plain") ∷ [];
  body = codes "hello, world";
}

hello_lem :
    set_body (codes "hello, world") (
      set_content_type
        (codes "text/plain")
        (set_status_message (codes "OK") (set_status_code 200 (new_response false))))
    ≡ hello
unfolding new_response set_content_type add_header insert
hello_lem = refl

abbrev output : Buffer
output = record { storage = 0 ∷ 0 ∷ 0 ∷ 0 ∷ 0 ∷ 0 ∷ 0 ∷ 0 ∷ []; reader_index = 8; writer_index = 8 }

output-IsValid : IsValid output
output-IsValid = record {
  reserve = omega arith;
  ordered = omega arith;
  inside = omega arith;
  small = omega arith;
}

-- The text of the response.
print-hello :
    print decimal hello
    ≡ codes "HTTP/1.1 200 OK"
      ++ (13 ∷ 10 ∷ codes "Content-Length: 12")
      ++ (13 ∷ 10 ∷ codes "Connection: Keep-Alive")
      ++ (13 ∷ 10 ∷ codes "Content-Type: text/plain")
      ++ (13 ∷ 10 ∷ 13 ∷ 10 ∷ codes "hello, world")
unfolding print print_lines header_lines connection_lines
print-hello = refl

hello_fits : output.writer_index + length (print decimal hello) ≤ max_size
unfolding print print_lines header_lines connection_lines
hello_fits = omega arith

append_to_buffer-Appends_example :
    (b' : Buffer) × (append_to_buffer decimal hello output ≡ some b')
    × Appends output (print decimal hello) b'
append_to_buffer-Appends_example =
    append_to_buffer-Appends decimal hello output-IsValid (omega arith) (omega arith) hello_fits
