-- ===== src/Http/Server/Answer.antt =====
-- http/HttpServerff.cpp: a whole request is answered with the response that the callback fills in.
use firey.Prelude.{
  ℕ, ◌+◌, ◌≤◌, ◌≡◌, refl, ap, ◌∙◌, Bool, true, List, [], ◌∷◌, ◌++◌, some, if◌then◌else◌, arith,
  length, take-length, Bytes,
}
use firey.Buffer.{Buffer, initial_size, cheap_prepend, max_size, peek, readable_bytes, read_range}
use firey.Buffer.Contents.{IsValid, contents, length-contents}
use firey.Buffer.Retrieve.{read_range-contents}
use firey.Buffer.Fresh.{new_lem}
use firey.Http.Request.{HttpRequest}
use firey.Http.Context.{
  HttpContext, ParseState, Outcome, new_context, reset, is_got_all, parse_request,
}
use firey.Http.Incremental.{view}
use firey.Http.Response.{HttpResponse, new_response}
use firey.Http.Response.Written.{print, append_to_buffer-Appends}
use firey.Http.RoundTrip.{parse_request-print}
use firey.Http.Wire.{Sent, IsPrintable, print_request, received}
use firey.Http.Server.Close.{asks_close, wants_close-asks}
use mathlib.Core.Path.{subst}
use firey.Http.Server.{
  Call, send, shutdown, served, wants_close, on_request, answer, after_parse, on_message,
}

read_all_lem :
    {b : Buffer} → IsValid b → read_range b.storage (peek b) (readable_bytes b) ≡ some (contents b)
read_all_lem {b} v =
    read_range-contents v (readable_bytes b) (omega arith)
    ∙ ap some (take-length (readable_bytes b) (contents b) (omega (arith, length-contents v)))

view-returned :
    (o : Outcome Buffer) (ok : Bool) (c : HttpContext) (bytes : Bytes)
    → view o ≡ Outcome.returned ok c bytes
    → (b : Buffer) × (o ≡ Outcome.returned ok c b) × (contents b ≡ bytes)
view-returned Outcome.stopped ok c bytes e = cc
view-returned Outcome.spinning ok c bytes e = cc
view-returned (Outcome.returned ok1 c1 b) ok c bytes e = (b, cc, cc)

module _ (decimal : ℕ → Bytes) (http_callback : HttpRequest → HttpResponse → HttpResponse) where
  -- What the callback makes of a request.
  abbrev pub response_to : HttpRequest → HttpResponse
  response_to request = http_callback request (new_response (wants_close request))

  -- The same, from what the client wrote.
  abbrev pub reply : Sent → ℕ → HttpResponse
  reply s time = http_callback (received s time) (new_response (asks_close s))

  abbrev pub calls_for : HttpResponse → List Call
  calls_for r = send (print decimal r) ∷ (if r.close_connection then shutdown ∷ [] else [])

  on_request_lem :
      (request : HttpRequest)
      → length (decimal (response_to request).status_code) ≤ 13
      → length (decimal (length (response_to request).body)) ≤ 13
      → cheap_prepend + length (print decimal (response_to request)) ≤ max_size
      → on_request decimal http_callback request ≡ some (calls_for (response_to request))
  unfolding on_request
  on_request_lem request hs hc room =
      let (b, made, v, none_yet, wide, start) = new_lem initial_size (omega arith) in
      let (b1, wrote, a) =
        append_to_buffer-Appends decimal (response_to request) v hs hc
          (omega (arith, start, room)) in
      rw made (
        rw wrote (
          rw (read_all_lem a.valid) (
            ap
              (λ x.
                some
                  (send x ∷ (if (response_to request).close_connection then shutdown ∷ [] else [])))
              (a.joined ∙ ap (λ x. x ++ print decimal (response_to request)) none_yet))))

  on_request-reply :
      (s : Sent) (time : ℕ)
      → length (decimal (reply s time).status_code) ≤ 13
      → length (decimal (length (reply s time).body)) ≤ 13
      → cheap_prepend + length (print decimal (reply s time)) ≤ max_size
      → on_request decimal http_callback (received s time) ≡ some (calls_for (reply s time))
  on_request-reply s time =
      subst
        (λ r.
          length (decimal r.status_code) ≤ 13
          → length (decimal (length r.body)) ≤ 13
          → cheap_prepend + length (print decimal r) ≤ max_size
          → on_request decimal http_callback (received s time) ≡ some (calls_for r))
        (ap (λ b. http_callback (received s time) (new_response b)) (wants_close-asks s time))
        (on_request_lem (received s time))

  on_message-answer :
      (c c1 : HttpContext) (b b1 : Buffer) (time : ℕ) (ok : Bool)
      → parse_request c b time ≡ Outcome.returned ok c1 b1
      → on_message decimal http_callback c b time ≡ answer decimal http_callback ok c1 b1
  unfolding on_message
  on_message-answer c c1 b b1 time ok e = ap (after_parse decimal http_callback) e

  answer-served :
      (request : HttpRequest) (b : Buffer) (calls : List Call)
      → on_request decimal http_callback request ≡ some calls
      → answer decimal http_callback true
          (record { state = ParseState.got_all; request = request })
          b
        ≡ served calls new_context b
  unfolding answer is_got_all reset
  answer-served request b calls e = rw e refl

  -- A request that a client prints, with a query or without, followed by any bytes, is answered in one call
  -- of `onMessage`: the server sends the printed response that the callback makes of the request, shuts the
  -- connection down when the response says so, is ready for a new request, and keeps the bytes that follow.
  -- The callback is given a response that closes the connection if the last Connection header of a request
  -- of version 1.0 or 1.1 is not Keep-Alive, and if that of one of version 2.0 is close. The digits of the
  -- status and of the body's length are at most 13, and the response fits a buffer.
  pub on_message-print :
      (s : Sent) {b : Buffer} (rest : Bytes) (time : ℕ)
      → IsValid b
      → IsPrintable s
      → contents b ≡ print_request s rest
      → length (decimal (reply s time).status_code) ≤ 13
      → length (decimal (length (reply s time).body)) ≤ 13
      → cheap_prepend + length (print decimal (reply s time)) ≤ max_size
      → (b' : Buffer) × (on_message decimal http_callback new_context b time
          ≡ served (calls_for (reply s time)) new_context b')
        × (contents b' ≡ rest)
  on_message-print s {b} rest time v p e hs hc room =
      let (b1, parsed, left) =
        view-returned (parse_request new_context b time) true _ rest
          (parse_request-print s rest time v p e) in
      (
        b1,
        on_message-answer new_context _ b b1 time true parsed
            ∙ answer-served (received s time) b1 _ (on_request-reply s time hs hc room),
        left,
      )
